-- ===== src/Console/Guarded.antt =====
-- The busy keys of frontend/src/admin/state/PanelProvider.jsx where every mutation is called by a control
-- that is enabled, which is how the views call them: a control is disabled while its key is busy.
use ai_routing_panel.Console.Busy.{
  keys, IsDistinct, unmark_absent, IsDistinct-unmark, has_key_of_get_elem?, keys-replace_at,
  insights_settled-busy, incidents_settled-busy, mark_free, unmark-mark,
}
use ai_routing_panel.Console.State.{Reply, Clock, raise, done, Outcome, Console}
use ai_routing_panel.Prelude.{
  none, ◌&&◌, Bool, Option, ◌∙◌, refl, arith, sym, if-intro, ap, remove_at, ℕ, zero, suc, eq_iff,
  false, List, [], ◌∷◌, some, get_elem?, ◌≡◌,
}
use ai_routing_panel.Console.Tasks.{task_of, Task}
use mathlib.Core.Path.{subst}
use ai_routing_panel.Console.Apply.{
  show_failure, start_incidents, change_insights_days, start_insights,
}
use ai_routing_panel.Js.{Builtins}
use ai_routing_panel.Console.Actions.{request_of, key_of, Request, Action}
use ai_routing_panel.Console.Frame.{
  initial_settled-IsSame, resume-Keeps, refresh_settled-IsSame, IsSame,
}
use ai_routing_panel.Console.World.{
  start, settle, load_insights, change_days, settle_insights, load_incidents, settle_incidents,
  settle_refresh, settle_initial, clear_flash, step, has_id, finish, call, settle_task, set_busy,
  Event, conclude, call_action, run, mark, Running, World, has_key, unmark,
}

-- A mutation is called where its key is not busy; all else may happen at any time.
abbrev pub IsAllowed : World → Event → Type 0
IsAllowed w (call eager a) = has_key w.console.busy (key_of a) ≡ false
IsAllowed w _ = Unit

abbrev pub IsGuarded : Builtins → List Event → World → Type 0
IsGuarded js [] w = Unit
IsGuarded js (e ∷ es) w = IsAllowed w e × IsGuarded js es (step js e w)

record IsExact (w : World) : Type 0 where
  pub same : w.console.busy ≡ keys w.running
  pub distinct : IsDistinct w.console.busy

-- Among distinct keys, to unmark a key is to remove its callback.
unmark-keys :
    (rs : List Running) (i : ℕ) (r : Running)
    → IsDistinct (keys rs)
    → get_elem? rs i ≡ some r
    → unmark r.key (keys rs) ≡ keys (remove_at i rs)
unfolding unmark
unmark-keys [] i r d h = cc
unmark-keys (x ∷ rs) zero r d h = ground (arith, eq_iff x.key r.key, unmark_absent r.key (keys rs))
unmark-keys (x ∷ rs) (suc i) r d h =
    ground (arith, eq_iff x.key r.key, has_key_of_get_elem? rs i r h, unmark-keys rs i r d.1 h)

-- Only the busy keys and the running callbacks matter.
busy-IsExact :
    (w : World) (c : Console) (ms ns : List ℕ)
    → c.busy ≡ w.console.busy
    → IsExact w
    → IsExact (record w { console = c; insights_pending = ms; incidents_pending = ns })
busy-IsExact w c ms ns kept h = record {
  same = kept ∙ h.same;
  distinct = subst IsDistinct (sym kept) h.distinct;
}

-- The callback at a place is over: its key is unmarked, and it is removed.
removed-IsExact :
    (i : ℕ) (r : Running) (c d : Console) (w : World)
    → get_elem? w.running i ≡ some r
    → c.busy ≡ w.console.busy
    → d.busy ≡ unmark r.key c.busy
    → IsExact w
    → IsExact (record w { console = d; running = remove_at i w.running })
removed-IsExact i r c d w at_i kept freed h =
    let keyed = subst IsDistinct h.same h.distinct in
    let here = subst IsDistinct (sym kept) h.distinct in
    record {
      same = freed ∙ ap (unmark r.key) (kept ∙ h.same) ∙ unmark-keys w.running i r keyed at_i;
      distinct = subst IsDistinct (sym freed) (IsDistinct-unmark r.key c.busy here);
    }

module _ (js : Builtins) where
  -- a call that is not refused
  called-IsExact :
      (a : Action) (o : Option Request) (w : World)
      → has_key w.console.busy (key_of a) ≡ false
      → IsExact w
      → IsExact (elim o as (λ _. World) [
        | none ↦ record w {
          console = set_busy (unmark (key_of a) (mark (key_of a) w.console.busy)) w.console;
        }
        | some r ↦ record w {
          console = set_busy (mark (key_of a) w.console.busy) w.console;
          running = record { key = key_of a; task = task_of js w.console a } ∷ w.running;
        }
      ])
  called-IsExact a none w free h =
      let back = unmark-mark (key_of a) w.console.busy free in
      record { same = back ∙ h.same; distinct = subst IsDistinct (sym back) h.distinct }
  called-IsExact a (some r) w free h =
      let marked = mark_free (key_of a) w.console.busy free in
      record {
        same = marked ∙ ap (key_of a ∷◌) h.same;
        distinct = subst IsDistinct (sym marked) (free, h.distinct);
      }

  call-IsExact :
      (eager : Bool) (a : Action) (w : World)
      → has_key w.console.busy (key_of a) ≡ false
      → IsExact w
      → IsExact (call_action js eager a w)
  unfolding call_action
  call-IsExact eager a w free h =
      if-intro IsExact (eager && has_key w.console.busy (key_of a)) (λ _. h)
        (λ _. called-IsExact a (request_of js w.console a) w free h)

  conclude-IsExact :
      (i : ℕ) (r : Running) (c : Console) (o : Outcome (Option Task)) (w : World)
      → get_elem? w.running i ≡ some r
      → IsSame w.console c
      → IsExact w
      → IsExact (conclude i r.key c o w)
  unfolding conclude
  conclude-IsExact i r c (done (some next)) w at_i s h = record {
    same = s.busy ∙ h.same ∙ sym (keys-replace_at w.running i r next at_i);
    distinct = subst IsDistinct (sym s.busy) h.distinct;
  }
  conclude-IsExact i r c (done none) w at_i s h =
      removed-IsExact i r c _ w at_i s.busy (unfold finish in refl) h
  conclude-IsExact i r c (raise e) w at_i s h =
      removed-IsExact i r c _ w at_i s.busy (unfold finish show_failure in refl) h

  settle-IsExact :
      (i : ℕ) (clock : Clock) (reply : Reply) (w : World)
      → IsExact w
      → IsExact (step js (settle i clock reply) w)
  unfolding step settle_task
  settle-IsExact i clock reply w h = go (get_elem? w.running i) refl
    where
      go :
          (o : Option Running)
          → get_elem? w.running i ≡ o
          → IsExact
              (elim o as (λ _. World) [ none ↦ w | some r ↦ settle_task js i r clock reply w ])
      go none e = h
      go (some r) e = conclude-IsExact i r _ _ w e (resume-Keeps js clock r.task reply w.console) h

  step-IsExact : (e : Event) (w : World) → IsAllowed w e → IsExact w → IsExact (step js e w)
  unfolding step start_insights change_insights_days start_incidents
  step-IsExact (call eager a) w q h = call-IsExact eager a w q h
  step-IsExact (settle i clock reply) w q h = settle-IsExact i clock reply w h
  step-IsExact load_insights w q h = record { same = h.same; distinct = h.distinct }
  step-IsExact (change_days days) w q h = record { same = h.same; distinct = h.distinct }
  step-IsExact (settle_insights request reply) w q h =
      if-intro IsExact (has_id w.insights_pending request)
        (λ _. busy-IsExact w _ _ _ (insights_settled-busy request reply w.console) h) (λ _. h)
  step-IsExact load_incidents w q h = record { same = h.same; distinct = h.distinct }
  step-IsExact (settle_incidents request reply) w q h =
      if-intro IsExact (has_id w.incidents_pending request)
        (λ _. busy-IsExact w _ _ _ (incidents_settled-busy request reply w.console) h) (λ _. h)
  step-IsExact (settle_refresh clock reply) w q h =
      busy-IsExact w _ _ _ (refresh_settled-IsSame js clock reply w.console).busy h
  step-IsExact (settle_initial cancelled clock reply) w q h =
      busy-IsExact w _ _ _ (initial_settled-IsSame js cancelled clock reply w.console).busy h
  step-IsExact clear_flash w q h = record { same = h.same; distinct = h.distinct }

  run-IsExact :
      (es : List Event) (w : World) → IsGuarded js es w → IsExact w → IsExact (run js es w)
  unfolding run
  run-IsExact [] w q h = h
  run-IsExact (e ∷ es) w q h = run-IsExact es (step js e w) q.1 (step-IsExact e w q.0 h)

-- After any history in which each mutation is called by a control that is enabled, whenever React runs
-- the setState functions, the busy keys are exactly the keys of the running callbacks, and they are
-- distinct: no mutation runs twice at a time.
pub run_guarded :
    (js : Builtins) (es : List Event)
    → IsGuarded js es start
    → ((run js es start).console.busy ≡ keys (run js es start).running)
      × IsDistinct (run js es start).console.busy
run_guarded js es q =
    let exact = run-IsExact js es start q (record { same = refl; distinct = tt }) in
    (exact.same, exact.distinct)
