-- ===== src/Portal/Renewal.antt =====
-- frontend/src/portal/views/SubscriptionDetailView.vue: the load of a subscription and its renewal. A
-- button of Naive UI that shows `loading` takes no click.
use ai_routing_panel.Prelude.{
  remove_at, none, ◌⧺◌, get_elem?, [], ◌||◌, not, ◌&&◌, suc, String, List, false, if◌then◌else◌,
  ◌∷◌, Bool, true, ℕ, some,
}
use ai_routing_panel.Portal.Order.{success_toast, error_toast, Toast}
use ai_routing_panel.Js.{to_str, or_else, str, get, null, is_nullish, Value, truthy, Builtins}
use ai_routing_panel.Console.State.{Reply, answered, refused}

-- A function that waits: `load` of the mounted page, and `renew`.
pub data RenewalWaiting : Type 0 where
  subscription_load renewal_post : RenewalWaiting

pub record SubscriptionPage : Type 0 where
  pub loading : Bool
  pub renewing : Bool
  pub sub : Value
  pub waiting : List RenewalWaiting
  -- the toasts, the pages that were opened and the number of renewals that were sent
  pub toasts : List Toast
  pub opened : List String
  pub renewals : ℕ

-- The page as it is mounted.
unfoldable pub opened_subscription : SubscriptionPage
opened_subscription = record {
  loading = true;
  renewing = false;
  sub = null;
  waiting = subscription_load ∷ [];
  toasts = [];
  opened = [];
  renewals = 0;
}

unfoldable pub tell : Toast → SubscriptionPage → SubscriptionPage
tell t s = record s { toasts = t ∷ s.toasts }

-- `load` after its await, with its `finally`. Reading `subscription` of a nullish `data` raises.
unfoldable pub subscription_result : Builtins → Reply → SubscriptionPage → SubscriptionPage
subscription_result js (answered res) s =
    if is_nullish res || is_nullish (get res "data")
    then tell (error_toast (str js.type_error)) s
    else record s { sub = get (get res "data") "subscription" }
subscription_result js (refused e) s = tell (error_toast e.message) s

unfoldable pub subscription_settled : Builtins → Reply → SubscriptionPage → SubscriptionPage
subscription_settled js reply s = record (subscription_result js reply s) { loading = false }

-- `renew` up to its await.
unfoldable pub renew : SubscriptionPage → SubscriptionPage
renew s = record s {
  renewing = true;
  waiting = renewal_post ∷ s.waiting;
  renewals = suc s.renewals;
}

-- `renew` after its await, up to its `finally`: the toast comes before the order number is read.
unfoldable pub open_order : Builtins → Value → SubscriptionPage → SubscriptionPage
open_order js res s =
    if is_nullish (get res "data")
    then tell (error_toast (str js.type_error)) s
    else record s { opened = ("/orders/" ⧺ to_str (get (get res "data") "order_no")) ∷ s.opened }

unfoldable pub renewal_result : Builtins → Reply → SubscriptionPage → SubscriptionPage
renewal_result js (answered res) s =
    if is_nullish res
    then tell (error_toast (str js.type_error)) s
    else open_order js res (tell (success_toast (or_else (get res "message") (str "续费订单已创建。"))) s)
renewal_result js (refused e) s = tell (error_toast e.message) s

unfoldable pub renewal_settled : Builtins → Reply → SubscriptionPage → SubscriptionPage
renewal_settled js reply s = record (renewal_result js reply s) { renewing = false }

unfoldable pub renewal_waited :
    Builtins → RenewalWaiting → Reply → SubscriptionPage → SubscriptionPage
renewal_waited js subscription_load reply s = subscription_settled js reply s
renewal_waited js renewal_post reply s = renewal_settled js reply s

pub data RenewalEvent : Type 0 where
  presses_renew : RenewalEvent
  -- the request of the waiting function at this place ends
  renewal_replies : ℕ → Reply → RenewalEvent

-- The button is shown with a subscription that may be renewed.
unfoldable pub can_renew : SubscriptionPage → Bool
can_renew s = truthy s.sub && truthy (get s.sub "renewal_allowed")

unfoldable pub renewal_step : Builtins → RenewalEvent → SubscriptionPage → SubscriptionPage
renewal_step js presses_renew s = if can_renew s && not s.renewing then renew s else s
renewal_step js (renewal_replies k reply) s = elim (get_elem? s.waiting k) [
  | none ↦ s
  | some w ↦ renewal_waited js w reply (record s { waiting = remove_at k s.waiting })
]

unfoldable pub renewal_run : Builtins → List RenewalEvent → SubscriptionPage → SubscriptionPage
renewal_run js [] s = s
renewal_run js (e ∷ es) s = renewal_run js es (renewal_step js e s)
