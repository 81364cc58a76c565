-- ===== src/Console/Busy.antt =====
-- The busy keys of frontend/src/admin/state/PanelProvider.jsx against the callbacks that run, for every
-- history of the page.
use ai_routing_panel.Prelude.{
  All-map, inr, none, ◌&&◌, Bool, inl, Bool-cases, Option, ◌⊎◌, ◌∙◌, refl, arith, sym, if-intro, ap,
  ◌===◌, remove_at, All, eq_refl, ℕ, zero, suc, String, eq_iff, true, false, List, [], ◌∷◌, some,
  map, get_elem?, ◌≡◌,
}
use ai_routing_panel.Console.Tasks.{task_of, Task}
use ai_routing_panel.Console.State.{raise, done, Clock, Outcome, refused, answered, Reply, Console}
use mathlib.Core.Path.{subst}
use ai_routing_panel.Console.Apply.{
  show_failure, start_incidents, change_insights_days, start_insights, insights_settled,
  incidents_settled,
}
use ai_routing_panel.Js.{Builtins}
use ai_routing_panel.Console.Actions.{request_of, key_of, Request, Action}
use ai_routing_panel.Console.Frame.{
  initial_settled-IsSame, resume-Keeps, refresh_settled-IsSame, IsSame,
}
use ai_routing_panel.Console.World.{
  start, settle, load_insights, change_days, settle_insights, load_incidents, settle_incidents,
  settle_refresh, settle_initial, clear_flash, step, has_id, finish, call, settle_task, set_busy,
  Event, conclude, call_action, run, mark, Running, World, has_key, unmark, replace_at,
}

abbrev pub keys : List Running → List String
keys = map (λ r. r.key)

abbrev pub IsDistinct : List String → Type 0
IsDistinct [] = Unit
IsDistinct (k ∷ ks) = (has_key ks k ≡ false) × IsDistinct ks

-- Each busy key is that of a running callback, and stands once.
record IsCovered (w : World) : Type 0 where
  pub covered : All (λ k. has_key (keys w.running) k ≡ true) w.console.busy
  pub distinct : IsDistinct w.console.busy

pub unmark_absent : (k : String) (ks : List String) → has_key ks k ≡ false → unmark k ks ≡ ks
unfolding unmark
unmark_absent k [] h = refl
unmark_absent k (j ∷ js) h = ground (arith, unmark_absent k js)

has_key-unmark :
    (j k : String) (ks : List String) → has_key ks j ≡ false → has_key (unmark k ks) j ≡ false
unfolding unmark
has_key-unmark j k [] h = refl
has_key-unmark j k (i ∷ is) h = ground (arith, has_key-unmark j k is)

pub IsDistinct-unmark : (k : String) (ks : List String) → IsDistinct ks → IsDistinct (unmark k ks)
unfolding unmark
IsDistinct-unmark k [] h = tt
IsDistinct-unmark k (j ∷ js) h = ground (arith, IsDistinct-unmark k js, has_key-unmark j k js)

-- a key that stands in a list is found
pub has_key_of_get_elem? :
    (rs : List Running) (i : ℕ) (r : Running)
    → get_elem? rs i ≡ some r
    → has_key (keys rs) r.key ≡ true
has_key_of_get_elem? [] i r h = cc
has_key_of_get_elem? (x ∷ rs) zero r h = ground (arith, eq_iff x.key r.key)
has_key_of_get_elem? (x ∷ rs) (suc i) r h = ground (arith, has_key_of_get_elem? rs i r h)

pub keys-replace_at :
    (rs : List Running) (i : ℕ) (r : Running) (t : Task)
    → get_elem? rs i ≡ some r
    → keys (replace_at i (record { key = r.key; task = t }) rs) ≡ keys rs
keys-replace_at [] i r t h = refl
keys-replace_at (x ∷ rs) zero r t h = ground arith
keys-replace_at (x ∷ rs) (suc i) r t h = ground (arith, keys-replace_at rs i r t h)

pub insights_settled-busy :
    (n : ℕ) (reply : Reply) (c : Console) → (insights_settled n reply c).busy ≡ c.busy
unfolding insights_settled
insights_settled-busy n (answered v) c = ground arith
insights_settled-busy n (refused e) c = ground arith

pub incidents_settled-busy :
    (n : ℕ) (reply : Reply) (c : Console) → (incidents_settled n reply c).busy ≡ c.busy
unfolding incidents_settled
incidents_settled-busy n (answered v) c = ground arith
incidents_settled-busy n (refused e) c = ground arith

pub mark_free : (k : String) (ks : List String) → has_key ks k ≡ false → mark k ks ≡ k ∷ ks
unfolding mark
mark_free k ks h = rw h

pub unmark-mark : (k : String) (ks : List String) → has_key ks k ≡ false → unmark k (mark k ks) ≡ ks
unfolding unmark
unmark-mark k ks h = rw (mark_free k ks h, eq_refl k) (unmark_absent k ks h)

-- A callback that is not removed is still found.
has_key-remove_at :
    (rs : List Running) (i : ℕ) (r : Running) (k : String)
    → get_elem? rs i ≡ some r
    → (k === r.key) ≡ false
    → has_key (keys rs) k ≡ true
    → has_key (keys (remove_at i rs)) k ≡ true
has_key-remove_at [] i r k h e f = cc
has_key-remove_at (x ∷ rs) zero r k h e f = ground (arith, eq_iff k r.key, eq_iff x.key k)
has_key-remove_at (x ∷ rs) (suc i) r k h e f = ground (arith, has_key-remove_at rs i r k h e)

-- The end of a callback unmarks its key, so that the keys left are those of other callbacks.
unmark-remove_at :
    (rs : List Running) (i : ℕ) (r : Running) (ks : List String)
    → get_elem? rs i ≡ some r
    → All (λ k. has_key (keys rs) k ≡ true) ks
    → All (λ k. has_key (keys (remove_at i rs)) k ≡ true) (unmark r.key ks)
unfolding unmark
unmark-remove_at rs i r [] h q = tt
unmark-remove_at rs i r (k ∷ ks) h q = ground (
  arith,
  unmark-remove_at rs i r ks h q.1,
  λ (e : (k === r.key) ≡ false). has_key-remove_at rs i r k h e q.0,
)

All-unmark : (Q : String → Type 0) (k : String) (ks : List String) → All Q ks → All Q (unmark k ks)
unfolding unmark
All-unmark Q k [] h = tt
All-unmark Q k (j ∷ js) h =
    if-intro (All Q) (j === k) (λ _. All-unmark Q k js h.1) (λ _. (h.0, All-unmark Q k js h.1))

-- To mark a key keeps the keys distinct.
IsDistinct-mark : (k : String) (ks : List String) → IsDistinct ks → IsDistinct (mark k ks)
unfolding mark
IsDistinct-mark k ks h = if-intro IsDistinct (has_key ks k) (λ _. h) (λ free. (free, h))

All-mark :
    (Q : String → Type 0) (k : String) (ks : List String) → Q k → All Q ks → All Q (mark k ks)
unfolding mark
All-mark Q k ks q h = if-intro (All Q) (has_key ks k) (λ _. h) (λ _. (q, h))

mark_taken : (k : String) (ks : List String) → has_key ks k ≡ true → mark k ks ≡ ks
unfolding mark
mark_taken k ks h = rw h

-- To mark a key and to unmark it leaves only keys that were there.
unmark-mark_cases :
    (k : String) (ks : List String)
    → (unmark k (mark k ks) ≡ ks) ⊎ (unmark k (mark k ks) ≡ unmark k ks)
unmark-mark_cases k ks = elim (Bool-cases (has_key ks k)) [
  | inl taken ↦ inr (ap (unmark k) (mark_taken k ks taken))
  | inr free ↦ inl (unmark-mark k ks free)
]

-- Only the busy keys and the running callbacks matter.
busy-IsCovered :
    (w : World) (c : Console) (ms ns : List ℕ)
    → c.busy ≡ w.console.busy
    → IsCovered w
    → IsCovered (record w { console = c; insights_pending = ms; incidents_pending = ns })
busy-IsCovered w c ms ns kept h = record {
  covered = subst (All (λ k. has_key (keys w.running) k ≡ true)) (sym kept) h.covered;
  distinct = subst IsDistinct (sym kept) h.distinct;
}

-- The callback at a place is over: its key is unmarked, and it is removed.
removed-IsCovered :
    (i : ℕ) (r : Running) (c d : Console) (w : World)
    → get_elem? w.running i ≡ some r
    → c.busy ≡ w.console.busy
    → d.busy ≡ unmark r.key c.busy
    → IsCovered w
    → IsCovered (record w { console = d; running = remove_at i w.running })
removed-IsCovered i r c d w at_i kept freed h =
    let left = freed ∙ ap (unmark r.key) kept in
    record {
      covered =
          subst (All (λ k. has_key (keys (remove_at i w.running)) k ≡ true)) (sym left)
            (unmark-remove_at w.running i r w.console.busy at_i h.covered);
      distinct = subst IsDistinct (sym left) (IsDistinct-unmark r.key w.console.busy h.distinct);
    }

module _ (js : Builtins) where
  -- A call without a request: its callback ends at once.
  ended-IsCovered :
      (k : String) (w : World)
      → IsCovered w
      → IsCovered (record w { console = set_busy (unmark k (mark k w.console.busy)) w.console })
  ended-IsCovered k w h = record {
    covered = elim (unmark-mark_cases k w.console.busy) [
      | inl same ↦ subst (All (λ j. has_key (keys w.running) j ≡ true)) (sym same) h.covered
      | inr less ↦
          subst (All (λ j. has_key (keys w.running) j ≡ true)) (sym less)
            (All-unmark (λ j. has_key (keys w.running) j ≡ true) k w.console.busy h.covered)
    ];
    distinct =
        IsDistinct-unmark k (mark k w.console.busy) (IsDistinct-mark k w.console.busy h.distinct);
  }

  -- A call that is not refused, whether its key is busy or not.
  called-IsCovered :
      (a : Action) (o : Option Request) (w : World)
      → IsCovered w
      → IsCovered (elim o as (λ _. World) [
        | none ↦ record w {
          console = set_busy (unmark (key_of a) (mark (key_of a) w.console.busy)) w.console;
        }
        | some r ↦ record w {
          console = set_busy (mark (key_of a) w.console.busy) w.console;
          running = record { key = key_of a; task = task_of js w.console a } ∷ w.running;
        }
      ])
  called-IsCovered a none w h = ended-IsCovered (key_of a) w h
  called-IsCovered a (some r) w h = record {
    covered =
        All-mark (λ k. has_key (key_of a ∷ keys w.running) k ≡ true) (key_of a) w.console.busy
          (ground (arith, eq_refl (key_of a)))
          (All-map w.console.busy (λ k e. ground (arith, e)) h.covered);
    distinct = IsDistinct-mark (key_of a) w.console.busy h.distinct;
  }

  call-IsCovered :
      (eager : Bool) (a : Action) (w : World) → IsCovered w → IsCovered (call_action js eager a w)
  unfolding call_action
  call-IsCovered eager a w h =
      if-intro IsCovered (eager && has_key w.console.busy (key_of a)) (λ _. h)
        (λ _. called-IsCovered a (request_of js w.console a) w h)

  conclude-IsCovered :
      (i : ℕ) (r : Running) (c : Console) (o : Outcome (Option Task)) (w : World)
      → get_elem? w.running i ≡ some r
      → IsSame w.console c
      → IsCovered w
      → IsCovered (conclude i r.key c o w)
  unfolding conclude
  conclude-IsCovered i r c (done (some next)) w at_i s h = record {
    covered =
        subst (λ ks. All (λ k. has_key ks k ≡ true) c.busy)
          (sym (keys-replace_at w.running i r next at_i))
          (subst (All (λ k. has_key (keys w.running) k ≡ true)) (sym s.busy) h.covered);
    distinct = subst IsDistinct (sym s.busy) h.distinct;
  }
  conclude-IsCovered i r c (done none) w at_i s h =
      removed-IsCovered i r c _ w at_i s.busy (unfold finish in refl) h
  conclude-IsCovered i r c (raise e) w at_i s h =
      removed-IsCovered i r c _ w at_i s.busy (unfold finish show_failure in refl) h

  settle-IsCovered :
      (i : ℕ) (clock : Clock) (reply : Reply) (w : World)
      → IsCovered w
      → IsCovered (step js (settle i clock reply) w)
  unfolding step settle_task
  settle-IsCovered i clock reply w h = go (get_elem? w.running i) refl
    where
      go :
          (o : Option Running)
          → get_elem? w.running i ≡ o
          → IsCovered
              (elim o as (λ _. World) [ none ↦ w | some r ↦ settle_task js i r clock reply w ])
      go none e = h
      go (some r) e =
          conclude-IsCovered i r _ _ w e (resume-Keeps js clock r.task reply w.console) h

  step-IsCovered : (e : Event) (w : World) → IsCovered w → IsCovered (step js e w)
  unfolding step start_insights change_insights_days start_incidents
  step-IsCovered (call eager a) w h = call-IsCovered eager a w h
  step-IsCovered (settle i clock reply) w h = settle-IsCovered i clock reply w h
  step-IsCovered load_insights w h = record { covered = h.covered; distinct = h.distinct }
  step-IsCovered (change_days days) w h = record { covered = h.covered; distinct = h.distinct }
  step-IsCovered (settle_insights request reply) w h =
      if-intro IsCovered (has_id w.insights_pending request)
        (λ _. busy-IsCovered w _ _ _ (insights_settled-busy request reply w.console) h) (λ _. h)
  step-IsCovered load_incidents w h = record { covered = h.covered; distinct = h.distinct }
  step-IsCovered (settle_incidents request reply) w h =
      if-intro IsCovered (has_id w.incidents_pending request)
        (λ _. busy-IsCovered w _ _ _ (incidents_settled-busy request reply w.console) h) (λ _. h)
  step-IsCovered (settle_refresh clock reply) w h =
      busy-IsCovered w _ _ _ (refresh_settled-IsSame js clock reply w.console).busy h
  step-IsCovered (settle_initial cancelled clock reply) w h =
      busy-IsCovered w _ _ _ (initial_settled-IsSame js cancelled clock reply w.console).busy h
  step-IsCovered clear_flash w h = record { covered = h.covered; distinct = h.distinct }

  run-IsCovered : (es : List Event) (w : World) → IsCovered w → IsCovered (run js es w)
  unfolding run
  run-IsCovered [] w h = h
  run-IsCovered (e ∷ es) w h = run-IsCovered es (step js e w) (step-IsCovered e w h)

-- After any history, whenever React runs the setState functions of the calls and however often a
-- mutation is called before a render, each busy key is the key of a callback that runs, and no key
-- stands twice: no key stays busy without its callback, and nothing stays disabled for one.
pub run-busy :
    (js : Builtins) (es : List Event)
    → All (λ k. has_key (keys (run js es start).running) k ≡ true) (run js es start).console.busy
      × IsDistinct (run js es start).console.busy
run-busy js es =
    let kept = run-IsCovered js es start (record { covered = tt; distinct = tt }) in
    (kept.covered, kept.distinct)
