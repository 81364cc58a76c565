-- ===== src/Console/World.antt =====
-- The console and all that it waits for, and the steps by which they run
-- (frontend/src/admin/state/PanelProvider.jsx): the calls of the user and of the timers, and the ends
-- of requests, in any order. Between two awaits the code runs without interruption.
--
-- `runAction` tests and sets its mark inside a function that it hands to React's setState. React may
-- run such a function before setState returns, so that the test is seen, or queue it for the next
-- render, so that the call goes on; the call says which (`eager`), and both are allowed everywhere.
use ai_routing_panel.Prelude.{
  remove_at, ℕ, zero, suc, String, ◌===◌, Bool, ◌&&◌, List, [], ◌∷◌, Option, none, some, any,
  get_elem?, ◌==◌, if◌then◌else◌,
}
use ai_routing_panel.Js.{Builtins}
use ai_routing_panel.Console.State.{Console, Clock, Reply, Outcome, done, raise, initial, no_flash}
use ai_routing_panel.Console.Apply.{
  refresh_settled, initial_settled, show_failure, start_insights, insights_settled,
  change_insights_days, start_incidents, incidents_settled,
}
use ai_routing_panel.Console.Actions.{Action, key_of, request_of}
use ai_routing_panel.Console.Tasks.{Task, task_of, resume}

pub record Running : Type 0 where
  pub key : String
  pub task : Task

pub record World : Type 0 where
  pub console : Console
  -- the callbacks of `runAction` that wait
  pub running : List Running
  -- the ids of the loads that wait
  pub insights_pending : List ℕ
  pub incidents_pending : List ℕ

abbrev pub start : World
start = record { console = initial; running = []; insights_pending = []; incidents_pending = [] }

pub data Event : Type 0 where
  -- a mutation, and whether React runs its setState function before setState returns
  call : Bool → Action → Event
  -- the request of the running callback at this place ends
  settle : ℕ → Clock → Reply → Event
  load_insights : Event
  change_days : ℕ → Event
  settle_insights : ℕ → Reply → Event
  load_incidents : Event
  settle_incidents : ℕ → Reply → Event
  -- the poll of the dashboard, and its first load
  settle_refresh : Clock → Reply → Event
  settle_initial : Bool → Clock → Reply → Event
  clear_flash : Event

abbrev pub has_key : List String → String → Bool
has_key ks k = any (λ j. j === k) ks

-- `{ ...current, [key]: true }`, where the key may stand already
unfoldable pub mark : String → List String → List String
mark k ks = if has_key ks k then ks else k ∷ ks

-- `delete next[key]`
unfoldable pub unmark : String → List String → List String
unmark k [] = []
unmark k (j ∷ js) = if j === k then unmark k js else j ∷ unmark k js

abbrev pub set_busy : List String → Console → Console
set_busy ks c = record c { busy = ks }

abbrev pub replace_at {ℓ} : {A : Type ℓ} → ℕ → A → List A → List A
replace_at i y [] = []
replace_at zero y (x ∷ xs) = y ∷ xs
replace_at (suc i) y (x ∷ xs) = x ∷ replace_at i y xs

abbrev pub has_id : List ℕ → ℕ → Bool
has_id ns n = any (λ m. m == n) ns

unfoldable pub drop_id : ℕ → List ℕ → List ℕ
drop_id n [] = []
drop_id n (m ∷ ms) = if m == n then drop_id n ms else m ∷ drop_id n ms

-- The `catch` and `finally` of `runAction`.
unfoldable pub finish : String → Outcome (Option Task) → Console → Console
finish key (done o) c = set_busy (unmark key c.busy) c
finish key (raise e) c =
    let shown = show_failure "操作失败。" e c in set_busy (unmark key shown.busy) shown

-- A task that has run: another one waits in its place, or its callback is over.
unfoldable pub conclude : ℕ → String → Console → Outcome (Option Task) → World → World
conclude i key c (done (some next)) w = record w {
  console = c;
  running = replace_at i (record { key = key; task = next }) w.running;
}
conclude i key c (done none) w = record w {
  console = finish key (done none) c;
  running = remove_at i w.running;
}
conclude i key c (raise e) w = record w {
  console = finish key (raise e) c;
  running = remove_at i w.running;
}

module _ (js : Builtins) where
  -- `runAction` up to the first await of its callback
  unfoldable pub call_action : Bool → Action → World → World
  call_action eager a w =
      let c = w.console in
      let key = key_of a in
      if eager && has_key c.busy key then w else elim (request_of js c a) [
        | none ↦ record w { console = set_busy (unmark key (mark key c.busy)) c }
        | some r ↦ record w {
          console = set_busy (mark key c.busy) c;
          running = record { key = key; task = task_of js c a } ∷ w.running;
        }
      ]

  unfoldable pub settle_task : ℕ → Running → Clock → Reply → World → World
  settle_task i r clock reply w =
      let (c, o) = resume js clock r.task reply w.console in conclude i r.key c o w

  unfoldable pub step : Event → World → World
  step (call eager a) w = call_action eager a w
  step (settle i clock reply) w = elim (get_elem? w.running i) [
    | none ↦ w
    | some r ↦ settle_task i r clock reply w
  ]
  step load_insights w =
      let c = start_insights w.console in
      record w { console = c; insights_pending = c.history_request ∷ w.insights_pending }
  step (change_days days) w =
      let c = change_insights_days days w.console in
      record w { console = c; insights_pending = c.history_request ∷ w.insights_pending }
  step (settle_insights request reply) w =
      if has_id w.insights_pending request
      then record w {
        console = insights_settled request reply w.console;
        insights_pending = drop_id request w.insights_pending;
      }
      else w
  step load_incidents w =
      let c = start_incidents w.console in
      record w { console = c; incidents_pending = c.incident_request ∷ w.incidents_pending }
  step (settle_incidents request reply) w =
      if has_id w.incidents_pending request
      then record w {
        console = incidents_settled request reply w.console;
        incidents_pending = drop_id request w.incidents_pending;
      }
      else w
  step (settle_refresh clock reply) w = record w {
    console = refresh_settled js clock reply w.console;
  }
  step (settle_initial cancelled clock reply) w = record w {
    console = initial_settled js cancelled clock reply w.console;
  }
  step clear_flash w = record w { console = record (w.console) { flash = no_flash } }

  -- A history of the page, event after event.
  unfoldable pub run : List Event → World → World
  run [] w = w
  run (e ∷ es) w = run es (step e w)
