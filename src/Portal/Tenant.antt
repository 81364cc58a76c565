-- ===== src/Portal/Tenant.antt =====
-- frontend/src/portal/TokenApp.vue: the load of a subscription and the login of its tenant. The login
-- card has two ways to log in, its button and the submit of its form. A button of Naive UI that shows
-- `loading` takes no click, while the form is submitted whether a login waits or not.
use ai_routing_panel.Prelude.{
  remove_at, some, none, get_elem?, [], ◌∷◌, ◌||◌, not, ◌==◌, ◌&&◌, List, false, true,
  if◌then◌else◌, Bool, ℕ,
}
use ai_routing_panel.Js.{get, null, str, is_nullish, num, truthy, Value, Builtins}
use ai_routing_panel.Console.State.{Reply, answered, refused}

-- A function that waits: `load` of the mounted page, `doLogin` at its own request, and `doLogin` at
-- its load.
pub data Waiting : Type 0 where
  first_load login_post login_load : Waiting

pub record Tenant : Type 0 where
  pub loading : Bool
  pub submitting : Bool
  pub need_login : Bool
  pub sub : Value
  pub error_msg : Value
  pub waiting : List Waiting

abbrev pub unloaded : Tenant
unloaded = record {
  loading = true;
  submitting = false;
  need_login = false;
  sub = null;
  error_msg = str "";
  waiting = [];
}

unfoldable pub start_load : Waiting → Tenant → Tenant
start_load w t = record t { loading = true; error_msg = str ""; waiting = w ∷ t.waiting }

-- `error.status === 401`
unfoldable pub is_unauthorized : Value → Bool
is_unauthorized (num n) = n == 401
is_unauthorized _ = false

-- `load` after its await, up to its `finally`. Reading `subscription` of a nullish `data` raises.
unfoldable pub load_result : Builtins → Reply → Tenant → Tenant
load_result js (answered res) t =
    if is_nullish res || is_nullish (get res "data")
    then record t { error_msg = str js.type_error }
    else record t { sub = get (get res "data") "subscription"; need_login = false }
load_result js (refused e) t =
    if is_unauthorized e.status
    then record t { need_login = true }
    else record t { error_msg = e.message }

unfoldable pub load_settled : Builtins → Reply → Tenant → Tenant
load_settled js reply t = record (load_result js reply t) { loading = false }

-- `doLogin` up to its first await.
unfoldable pub do_login : Tenant → Tenant
do_login t = record t { submitting = true; error_msg = str ""; waiting = login_post ∷ t.waiting }

-- What an ended request does; its function is no longer among `waiting`.
unfoldable pub settle_waiting : Builtins → Waiting → Reply → Tenant → Tenant
settle_waiting js first_load reply t = load_settled js reply t
settle_waiting js login_post (answered res) t = start_load login_load t
settle_waiting js login_post (refused e) t = record t { error_msg = e.message; submitting = false }
settle_waiting js login_load reply t = record (load_settled js reply t) { submitting = false }

pub data TenantEvent : Type 0 where
  -- `@click="doLogin"` of the button, and `@submit.prevent="doLogin"` of the form
  presses_login submits_form : TenantEvent
  -- the request of the waiting function at this place ends
  replies : ℕ → Reply → TenantEvent

unfoldable pub tenant_step : Builtins → TenantEvent → Tenant → Tenant
tenant_step js presses_login t = if t.need_login && not t.submitting then do_login t else t
tenant_step js submits_form t = if t.need_login then do_login t else t
tenant_step js (replies k reply) t = elim (get_elem? t.waiting k) [
  | none ↦ t
  | some w ↦ settle_waiting js w reply (record t { waiting = remove_at k t.waiting })
]

unfoldable pub tenant_run : Builtins → List TenantEvent → Tenant → Tenant
tenant_run js [] t = t
tenant_run js (e ∷ es) t = tenant_run js es (tenant_step js e t)

-- The page as it is mounted.
unfoldable pub opened_page : Tenant
opened_page = start_load first_load unloaded

-- The branch of the template that is shown.
pub data Screen : Type 0 where
  login_card : Screen
  subscription_card : Value → Screen
  error_text : Value → Screen
  nothing : Screen

unfoldable pub screen_of : Tenant → Screen
screen_of t =
    if t.need_login
    then login_card
    else if truthy t.sub
    then subscription_card t.sub
    else if truthy t.error_msg
    then error_text t.error_msg
    else nothing
