-- ===== src/Console/Frame.antt =====
-- What the continuations of frontend/src/admin/state/PanelProvider.jsx leave alone: a reply to a
-- mutation or to a dashboard poll touches neither the busy keys nor the two guarded loads.
use ai_routing_panel.Prelude.{
  true, false, find, Bool, if◌then◌else◌, String, Option, none, some, ◌≡◌, arith, if-intro,
}
use ai_routing_panel.Js.{null, or_else, Value, Builtins, get, truthy}
use ai_routing_panel.Dashboard.Panel.{empty_port_form, empty, Panel, normalize_dashboard}
use ai_routing_panel.Dashboard.Signature.{routing_signature}
use ai_routing_panel.Console.State.{
  return, Sample, modify, throw, Console, Clock, Failure, Reply, answered, refused, Outcome, done,
  raise, M, ◌>>=◌,
}
use ai_routing_panel.Console.Tasks.{
  is_missing, info, clear_form, is_conflict, Task, creating, create_conflict, deleting,
  delete_missing, diagnosing, mutating, select_created, port_created, resume, is_created,
}
use ai_routing_panel.Console.Apply.{
  sample_of, initial_settled, type_error, take_sample, show_panel, show_message, show_failure,
  or_flash, apply_panel, apply_dashboard, apply_response, apply_reply, refresh_settled,
}

-- The two consoles agree on the busy keys and on both loads.
pub record IsSame (c d : Console) : Type 0 where
  pub busy : d.busy ≡ c.busy
  pub history_request : d.history_request ≡ c.history_request
  pub insights_loading : d.insights_loading ≡ c.insights_loading
  pub insights : d.insights ≡ c.insights
  pub insights_days : d.insights_days ≡ c.insights_days
  pub insights_error : d.insights_error ≡ c.insights_error
  pub incident_request : d.incident_request ≡ c.incident_request
  pub incidents_loading : d.incidents_loading ≡ c.incidents_loading
  pub incidents : d.incidents ≡ c.incidents
  pub incidents_error : d.incidents_error ≡ c.incidents_error

pub IsSame-refl : (c : Console) → IsSame c c
IsSame-refl c = ground arith

pub IsSame-trans : {c d e : Console} → IsSame c d → IsSame d e → IsSame c e
IsSame-trans p q = ground arith

abbrev pub Keeps {ℓ} : {A : Type ℓ} → M A → Type 0
Keeps m = (c : Console) → IsSame c (m c).0

-- the two ways on from a computation that has ended in `r`
bind-IsSame {ℓ κ} :
    {A : Type ℓ} {B : Type κ} (k : A → M B) (c : Console) (r : Console × Outcome A)
    → ((a : A) → Keeps (k a))
    → IsSame c r.0
    → IsSame c
        (elim r.1 as (λ _. Console × Outcome B) [ done a ↦ k a r.0 | raise e ↦ (r.0, raise e) ]).0
bind-IsSame k c (d, done a) hk h = IsSame-trans h (hk a d)
bind-IsSame k c (d, raise e) hk h = h

pub bind-Keeps {ℓ κ} :
    {A : Type ℓ} {B : Type κ} (m : M A) (k : A → M B)
    → Keeps m
    → ((a : A) → Keeps (k a))
    → Keeps (m >>= k)
bind-Keeps m k hm hk c = bind-IsSame k c (m c) hk (hm c)

show_failure-IsSame : (text : String) (e : Failure) (c : Console) → IsSame c (show_failure text e c)
unfolding show_failure
show_failure-IsSame text e c = ground arith

flash-IsSame :
    (text : String) (c : Console) (r : Console × Outcome (Unit {0}))
    → IsSame c r.0
    → IsSame c (elim r.1 as (λ _. Console) [ done a ↦ r.0 | raise e ↦ show_failure text e r.0 ])
flash-IsSame text c (d, done a) h = h
flash-IsSame text c (d, raise e) h = IsSame-trans h (show_failure-IsSame text e d)

or_flash-IsSame :
    (text : String) (m : M (Unit {0})) → Keeps m → (c : Console) → IsSame c (or_flash text m c)
unfolding or_flash
or_flash-IsSame text m h c = flash-IsSame text c (m c) (h c)

take_sample-IsSame : (next : Sample) (c : Console) → IsSame c (take_sample next c)
unfolding take_sample
take_sample-IsSame next c = ground arith

show_panel-IsSame :
    (clock : Clock) (next : Panel) (signature : String) (c : Console)
    → IsSame c (show_panel clock next signature c)
unfolding show_panel
show_panel-IsSame clock next signature c = ground arith

show_message-IsSame : (v : Value) (c : Console) → IsSame c (show_message v c)
unfolding show_message
show_message-IsSame v c = ground arith

module _ (js : Builtins) where
  apply_panel-Keeps : (clock : Clock) (next : Panel) → Keeps (apply_panel js clock next)
  unfolding apply_panel
  apply_panel-Keeps clock next =
      bind-Keeps (modify (take_sample (sample_of js clock next)))
        (λ _. rest (routing_signature js next)) (take_sample-IsSame (sample_of js clock next))
        (λ _. shown (routing_signature js next))
    where
      rest : Option String → M (Unit {0})
      rest o = elim o [
        | none ↦ throw (type_error js)
        | some signature ↦ modify (show_panel clock next signature)
      ]

      shown : (o : Option String) → Keeps (rest o)
      shown none c = IsSame-refl c
      shown (some signature) c = show_panel-IsSame clock next signature c

  apply_dashboard-Keeps : (clock : Clock) (v : Value) → Keeps (apply_dashboard js clock v)
  unfolding apply_dashboard
  apply_dashboard-Keeps clock v = normalized (normalize_dashboard v)
    where
      normalized :
          (o : Option Panel)
          → Keeps (elim o as (λ _. M (Unit {0})) [
            | none ↦ throw (type_error js)
            | some next ↦ apply_panel js clock next
          ])
      normalized none c = IsSame-refl c
      normalized (some next) c = apply_panel-Keeps clock next c

  pub apply_response-Keeps : (clock : Clock) (v : Value) → Keeps (apply_response js clock v)
  unfolding apply_response
  apply_response-Keeps clock v =
      bind-Keeps
        (if truthy (get v "dashboard")
          then apply_dashboard js clock (get v "dashboard")
          else return tt)
        (λ _. modify (show_message v))
        (if-intro Keeps (truthy (get v "dashboard"))
          (λ _. apply_dashboard-Keeps clock (get v "dashboard")) (λ _. IsSame-refl))
        (λ _. show_message-IsSame v)

  apply_reply-IsSame :
      (text : String) (clock : Clock) (reply : Reply) (c : Console)
      → IsSame c (apply_reply js text clock reply c)
  unfolding apply_reply
  apply_reply-IsSame text clock (refused e) c = show_failure-IsSame text e c
  apply_reply-IsSame text clock (answered v) c =
      or_flash-IsSame text _ (apply_dashboard-Keeps clock _) c

  pub refresh_settled-IsSame :
      (clock : Clock) (reply : Reply) (c : Console) → IsSame c (refresh_settled js clock reply c)
  unfolding refresh_settled
  refresh_settled-IsSame clock reply c = apply_reply-IsSame _ clock reply c

  pub initial_settled-IsSame :
      (cancelled : Bool) (clock : Clock) (reply : Reply) (c : Console)
      → IsSame c (initial_settled js cancelled clock reply c)
  unfolding initial_settled
  initial_settled-IsSame true clock reply c = IsSame-refl c
  initial_settled-IsSame false clock reply c =
      loaded (apply_reply js "加载失败。" clock reply c) (apply_reply-IsSame _ clock reply c)
    where
      loaded : (d : Console) → IsSame c d → IsSame c (record d { loading = false })
      loaded d h = ground arith

  select_created-IsSame : (o : Option Value) (c : Console) → IsSame c (select_created o c)
  unfolding select_created
  select_created-IsSame none c = IsSame-refl c
  select_created-IsSame (some port) c = ground arith

  port_created-Keeps :
      (clock : Clock) (port : String) (v : Value) → Keeps (port_created js clock port v)
  unfolding port_created
  port_created-Keeps clock port v =
      bind-Keeps (apply_response js clock v)
        (λ _ c. rest (record c { create_form = empty_port_form })) (apply_response-Keeps clock v)
        (λ _ c.
          IsSame-trans (cleared c)
            (selected (normalize_dashboard (or_else (get v "dashboard") empty)) _))
    where
      rest : M (Unit {0})
      rest = elim (normalize_dashboard (or_else (get v "dashboard") empty)) [
        | none ↦ throw (type_error js)
        | some p ↦ modify (select_created (find (is_created v port) p.ports))
      ]

      cleared : (c : Console) → IsSame c (record c { create_form = empty_port_form })
      cleared c = ground arith

      selected :
          (o : Option Panel)
          → Keeps (elim o as (λ _. M (Unit {0})) [
            | none ↦ throw (type_error js)
            | some p ↦ modify (select_created (find (is_created v port) p.ports))
          ])
      selected none c = IsSame-refl c
      selected (some p) c = select_created-IsSame _ c

  -- After a reply to `refreshDashboard` only the flash and the form are set.
  flashed-Keeps :
      (clock : Clock) (reply : Reply) (f : Console → Console)
      → ((c : Console) → IsSame c (f c))
      → Keeps {A = Option Task} (λ c. (f (refresh_settled js clock reply c), done none))
  flashed-Keeps clock reply f h c =
      IsSame-trans (refresh_settled-IsSame clock reply c) (h (refresh_settled js clock reply c))

  answered-Keeps :
      (clock : Clock) (v : Value)
      → Keeps {A = Option Task} (apply_response js clock v >>= λ _. return none)
  answered-Keeps clock v =
      bind-Keeps (apply_response js clock v) (λ _. return none) (apply_response-Keeps clock v)
        (λ _. IsSame-refl)

  pub resume-Keeps : (clock : Clock) (t : Task) (reply : Reply) → Keeps (resume js clock t reply)
  unfolding resume
  resume-Keeps clock (creating port) (answered v) c =
      bind-Keeps (port_created js clock port v) (λ _. return none) (port_created-Keeps clock port v)
        (λ _. IsSame-refl) c
  resume-Keeps clock (creating port) (refused e) c =
      if-intro (λ (m : M (Option Task)). IsSame c (m c).0) (is_conflict js clock port e)
        (λ _. IsSame-refl c) (λ _. IsSame-refl c)
  resume-Keeps clock create_conflict reply c =
      IsSame-trans (refresh_settled-IsSame clock reply c) (told _)
    where
      told : (d : Console) → IsSame d (clear_form (info "监听端口已存在，已选中已有端口。" d))
      told d = ground arith
  resume-Keeps clock deleting (answered v) c = answered-Keeps clock v c
  resume-Keeps clock deleting (refused e) c =
      if-intro (λ (m : M (Option Task)). IsSame c (m c).0) (is_missing js clock e)
        (λ _. IsSame-refl c) (λ _. IsSame-refl c)
  resume-Keeps clock delete_missing reply c =
      IsSame-trans (refresh_settled-IsSame clock reply c) (told _)
    where
      told : (d : Console) → IsSame d (info "端口已不存在，列表已刷新。" d)
      told d = ground arith
  resume-Keeps clock diagnosing (answered v) c =
      IsSame-trans (told (or_else (get v "diagnosis") null)) (answered-Keeps clock v _)
    where
      told : (x : Value) → IsSame c (record c { diagnosis = x })
      told x = ground arith
  resume-Keeps clock diagnosing (refused e) c = IsSame-refl c
  resume-Keeps clock mutating (answered v) c = answered-Keeps clock v c
  resume-Keeps clock mutating (refused e) c = IsSame-refl c
