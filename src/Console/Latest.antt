-- ===== src/Console/Latest.antt =====
-- The guarded loads of frontend/src/admin/state/PanelProvider.jsx: of overlapping requests only the
-- latest one is shown, and the mark "loading" stands exactly while the latest one is waited for.
use ai_routing_panel.Prelude.{
  ◌≢◌, ◌&&◌, String, ℕ, suc, Bool, true, false, List, [], ◌∷◌, Option, none, some, get_elem?, All,
  ◌≡◌, refl, sym, ◌∙◌, arith, if-intro,
}
use ai_routing_panel.Js.{Value, Builtins, or_else, get, null}
use ai_routing_panel.Console.State.{Console, Clock, Reply, answered, refused, Outcome, done, raise}
use ai_routing_panel.Console.Apply.{
  show_failure, start_insights, insights_settled, start_incidents, incidents_settled,
}
use ai_routing_panel.Console.World.{
  has_key, mark, unmark, set_busy, Running, World, Event, call, settle, load_insights, change_days,
  settle_insights, load_incidents, settle_incidents, settle_refresh, settle_initial, clear_flash,
  has_id, drop_id, finish, conclude, call_action, settle_task, step, run,
}
use ai_routing_panel.Console.Actions.{request_of, key_of, Request, Action}
use ai_routing_panel.Console.Tasks.{task_of, Task}
use ai_routing_panel.Console.Frame.{
  IsSame, resume-Keeps, refresh_settled-IsSame, initial_settled-IsSame,
}

-- An event that neither starts nor ends a load of the history.
abbrev pub IsOther : Event → Type 0
IsOther load_insights = ⊥
IsOther (change_days days) = ⊥
IsOther (settle_insights request reply) = ⊥
IsOther _ = Unit

-- The part of the world that the loads of the history are about.
pub record IsSameHistory (w v : World) : Type 0 where
  pub pending : v.insights_pending ≡ w.insights_pending
  pub request : v.console.history_request ≡ w.console.history_request
  pub loading : v.console.insights_loading ≡ w.console.insights_loading
  pub shown : v.console.insights ≡ w.console.insights
  pub days : v.console.insights_days ≡ w.console.insights_days

finish-same :
    (key : String) (o : Outcome (Option Task)) (c : Console)
    → ((finish key o c).history_request ≡ c.history_request)
      × ((finish key o c).insights_loading ≡ c.insights_loading)
      × ((finish key o c).insights ≡ c.insights)
      × ((finish key o c).insights_days ≡ c.insights_days)
unfolding finish show_failure
finish-same key (done o) c = ground arith
finish-same key (raise e) c = ground arith

module _ (js : Builtins) where
  conclude-IsSameHistory :
      (i : ℕ) (key : String) (c : Console) (o : Outcome (Option Task)) (w : World)
      → IsSame w.console c
      → IsSameHistory w (conclude i key c o w)
  unfolding conclude
  conclude-IsSameHistory i key c (done (some next)) w s = ground arith
  conclude-IsSameHistory i key c (done none) w s = ground (arith, finish-same key (done none) c)
  conclude-IsSameHistory i key c (raise e) w s = ground (arith, finish-same key (raise e) c)

  settle-IsSameHistory :
      (i : ℕ) (clock : Clock) (reply : Reply) (w : World)
      → IsSameHistory w (step js (settle i clock reply) w)
  unfolding step settle_task
  settle-IsSameHistory i clock reply w = go (get_elem? w.running i)
    where
      go :
          (o : Option Running)
          → IsSameHistory w
              (elim o as (λ _. World) [ none ↦ w | some r ↦ settle_task js i r clock reply w ])
      go none = ground arith
      go (some r) =
          conclude-IsSameHistory i r.key _ _ w (resume-Keeps js clock r.task reply w.console)

  call-IsSameHistory :
      (eager : Bool) (a : Action) (w : World) → IsSameHistory w (call_action js eager a w)
  unfolding call_action
  call-IsSameHistory eager a w =
      if-intro (IsSameHistory w) (eager && has_key w.console.busy (key_of a)) (λ _. ground arith)
        (λ _. go (request_of js w.console a))
    where
      go :
          (o : Option Request)
          → IsSameHistory w (elim o as (λ _. World) [
            | none ↦ record w {
              console = set_busy (unmark (key_of a) (mark (key_of a) w.console.busy)) w.console;
            }
            | some r ↦ record w {
              console = set_busy (mark (key_of a) w.console.busy) w.console;
              running = record { key = key_of a; task = task_of js w.console a } ∷ w.running;
            }
          ])
      go none = ground arith
      go (some r) = ground arith

  of_IsSame :
      (w : World) (c : Console) → IsSame w.console c → IsSameHistory w (record w { console = c })
  of_IsSame w c s = ground arith

  pub step-IsSameHistory : (e : Event) (w : World) → IsOther e → IsSameHistory w (step js e w)
  unfolding step
  step-IsSameHistory (call eager a) w q = call-IsSameHistory eager a w
  step-IsSameHistory (settle i clock reply) w q = settle-IsSameHistory i clock reply w
  step-IsSameHistory load_insights w q = absurd q
  step-IsSameHistory (change_days days) w q = absurd q
  step-IsSameHistory (settle_insights request reply) w q = absurd q
  step-IsSameHistory load_incidents w q = unfold start_incidents in ground arith
  step-IsSameHistory (settle_incidents request (answered v)) w q =
      unfold incidents_settled in ground arith
  step-IsSameHistory (settle_incidents request (refused e)) w q =
      unfold incidents_settled in ground arith
  step-IsSameHistory (settle_refresh clock reply) w q =
      of_IsSame w _ (refresh_settled-IsSame js clock reply w.console)
  step-IsSameHistory (settle_initial cancelled clock reply) w q =
      of_IsSame w _ (initial_settled-IsSame js cancelled clock reply w.console)
  step-IsSameHistory clear_flash w q = ground arith

abbrev pub IsNoLoad : Event → Type 0
IsNoLoad load_insights = ⊥
IsNoLoad (change_days days) = ⊥
IsNoLoad _ = Unit

-- No new load, and not the end of the request `n`.
abbrev pub IsQuietFor : ℕ → Event → Type 0
IsQuietFor n load_insights = ⊥
IsQuietFor n (change_days days) = ⊥
IsQuietFor n (settle_insights request reply) = request ≢ n
IsQuietFor n _ = Unit

has_id-drop_id : (n m : ℕ) (ms : List ℕ) → m ≢ n → has_id (drop_id m ms) n ≡ has_id ms n
unfolding drop_id
has_id-drop_id n m [] ne = refl
has_id-drop_id n m (k ∷ ks) ne = ground (arith, has_id-drop_id n m ks ne)

has_id-drop_id_self : (n : ℕ) (ms : List ℕ) → has_id (drop_id n ms) n ≡ false
unfolding drop_id
has_id-drop_id_self n [] = refl
has_id-drop_id_self n (k ∷ ks) = ground (arith, has_id-drop_id_self n ks)

-- The request `n` is the latest one, and is waited for.
record IsWaiting (n : ℕ) (w : World) : Type 0 where
  latest : w.console.history_request ≡ n
  pending : has_id w.insights_pending n ≡ true

-- The request `n` is the latest one, has ended, and `x` is shown.
record IsShown (n : ℕ) (x : Value) (w : World) : Type 0 where
  latest : w.console.history_request ≡ n
  ended : has_id w.insights_pending n ≡ false
  shown : w.console.insights ≡ x
  idle : w.console.insights_loading ≡ false

same-IsWaiting : (n : ℕ) (w v : World) → IsSameHistory w v → IsWaiting n w → IsWaiting n v
same-IsWaiting n w v s h = record {
  latest = s.request ∙ h.latest;
  pending = rw s.pending h.pending;
}

same-IsShown : (n : ℕ) (x : Value) (w v : World) → IsSameHistory w v → IsShown n x w → IsShown n x v
same-IsShown n x w v s h = record {
  latest = s.request ∙ h.latest;
  ended = rw s.pending h.ended;
  shown = s.shown ∙ h.shown;
  idle = s.loading ∙ h.idle;
}

clash : {b : Bool} → false ≡ b → b ≡ true → ⊥
clash p q = cc

-- The end of the latest request.
insights_settled_latest :
    (n : ℕ) (v : Value) (c : Console)
    → c.history_request ≡ n
    → ((insights_settled n (answered v) c).history_request ≡ n)
      × ((insights_settled n (answered v) c).insights ≡ or_else (get v "insights") null)
      × ((insights_settled n (answered v) c).insights_loading ≡ false)
unfolding insights_settled
insights_settled_latest n v c h = ground arith

-- The end of a request that is not the latest one.
pub insights_settled_stale :
    (m : ℕ) (reply : Reply) (c : Console) → m ≢ c.history_request → insights_settled m reply c ≡ c
unfolding insights_settled
insights_settled_stale m (answered v) c ne = ground arith
insights_settled_stale m (refused e) c ne = ground arith

module _ (js : Builtins) (n : ℕ) where
  stale-IsWaiting :
      (m : ℕ) (reply : Reply) (w : World)
      → m ≢ n
      → IsWaiting n w
      → IsWaiting n (step js (settle_insights m reply) w)
  unfolding step
  stale-IsWaiting m reply w ne h =
      if-intro (IsWaiting n) (has_id w.insights_pending m)
        (λ _. rw (insights_settled_stale m reply w.console (λ e. ne (e ∙ h.latest))) (record {
          latest = h.latest;
          pending = has_id-drop_id n m w.insights_pending ne ∙ h.pending;
        }))
        (λ _. h)

  stale-IsShown :
      (x : Value) (m : ℕ) (reply : Reply) (w : World)
      → IsShown n x w
      → IsShown n x (step js (settle_insights m reply) w)
  unfolding step
  stale-IsShown x m reply w h =
      if-intro (IsShown n x) (has_id w.insights_pending m)
        (λ here.
          let ne : m ≢ n = λ e. clash (sym h.ended) (rw e at here) in
          rw (insights_settled_stale m reply w.console (λ e. ne (e ∙ h.latest))) (record {
            latest = h.latest;
            ended = has_id-drop_id n m w.insights_pending ne ∙ h.ended;
            shown = h.shown;
            idle = h.idle;
          }))
        (λ _. h)

  quiet-IsWaiting :
      (e : Event) (w : World) → IsQuietFor n e → IsWaiting n w → IsWaiting n (step js e w)
  quiet-IsWaiting load_insights w q h = absurd q
  quiet-IsWaiting (change_days days) w q h = absurd q
  quiet-IsWaiting (settle_insights m reply) w q h = stale-IsWaiting m reply w q h
  quiet-IsWaiting e w q h = same-IsWaiting n w _ (step-IsSameHistory js e w tt) h

  no_load-IsShown :
      (x : Value) (e : Event) (w : World) → IsNoLoad e → IsShown n x w → IsShown n x (step js e w)
  no_load-IsShown x load_insights w q h = absurd q
  no_load-IsShown x (change_days days) w q h = absurd q
  no_load-IsShown x (settle_insights m reply) w q h = stale-IsShown x m reply w h
  no_load-IsShown x e w q h = same-IsShown n x w _ (step-IsSameHistory js e w tt) h

  run-IsWaiting :
      (es : List Event) (w : World)
      → All (IsQuietFor n) es
      → IsWaiting n w
      → IsWaiting n (run js es w)
  unfolding run
  run-IsWaiting [] w q h = h
  run-IsWaiting (e ∷ es) w q h = run-IsWaiting es (step js e w) q.1 (quiet-IsWaiting e w q.0 h)

  run-IsShown :
      (x : Value) (es : List Event) (w : World)
      → All IsNoLoad es
      → IsShown n x w
      → IsShown n x (run js es w)
  unfolding run
  run-IsShown x [] w q h = h
  run-IsShown x (e ∷ es) w q h = run-IsShown x es (step js e w) q.1 (no_load-IsShown x e w q.0 h)

  settled-IsShown :
      (v : Value) (w : World)
      → IsWaiting n w
      → IsShown n (or_else (get v "insights") null) (step js (settle_insights n (answered v)) w)
  unfolding step
  settled-IsShown v w h =
      let (latest, shown, idle) = insights_settled_latest n v w.console h.latest in
      rw h.pending (record {
        latest = latest;
        ended = has_id-drop_id_self n w.insights_pending;
        shown = shown;
        idle = idle;
      })

-- Take any state of the page. A load of the history starts; anything may happen that starts no new
-- load and does not end this one, ends of older loads included; this load is answered; and again
-- anything may happen that starts no new load. Then what is shown is the answer to this load, and
-- nothing is marked as loading.
pub latest_insights :
    (js : Builtins) (w : World) (before after : List Event) (v : Value)
    → All (IsQuietFor (suc w.console.history_request)) before
    → All IsNoLoad after
    → ((run js after (
          step js
            (settle_insights (suc w.console.history_request) (answered v))
            (run js before (step js load_insights w)))).console.insights
        ≡ or_else (get v "insights") null)
      × ((run js after (
            step js
              (settle_insights (suc w.console.history_request) (answered v))
              (run js before (step js load_insights w)))).console.insights_loading
          ≡ false)
latest_insights js w before after v quiet no_load =
    let n = suc w.console.history_request in
    let waiting = run-IsWaiting js n before (step js load_insights w) quiet (started w) in
    let ended = run-IsShown js n _ after _ no_load (settled-IsShown js n v _ waiting) in
    (ended.shown, ended.idle)
  where
    started : (u : World) → IsWaiting (suc u.console.history_request) (step js load_insights u)
    started u = unfold step start_insights in record { latest = refl; pending = ground arith }
