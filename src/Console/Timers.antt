-- ===== src/Console/Timers.antt =====
-- The intervals of frontend/src/admin/state/PanelProvider.jsx: the effects that set them, at the first
-- render and when the period changes, and their cleanups.
use ai_routing_panel.Prelude.{
  ◌==◌, false, suc, Option, if◌then◌else◌, ◌∷◌, ℕ, Bool, true, none, List, [], some,
}

-- The properties of the component that the effects read.
pub record Intervals : Type 0 where
  pub auto_load : Bool
  pub poll_interval : ℕ
  pub insights_interval : ℕ

-- What is called: the first load of the dashboard, `refreshDashboard`, `loadInsights` of a period, or
-- `loadIncidents`.
pub data Job : Type 0 where
  first_dashboard : Job
  polls : Job
  loads : ℕ → Job
  loads_incidents : Job

pub record Timer : Type 0 where
  pub id : ℕ
  pub job : Job

pub data Phase : Type 0 where
  unrendered rendered removed : Phase

-- The timers of the window, the variables `timer` of the three effects, the calls that were made
-- (the last one first), and whether the first load is cancelled and errors are logged.
pub record Timers : Type 0 where
  pub phase : Phase
  pub days : ℕ
  pub active : List Timer
  pub next_id : ℕ
  pub incidents_timer : Option ℕ
  pub poll_timer : Option ℕ
  pub insights_timer : Option ℕ
  pub asked : List Job
  pub cancelled : Bool
  pub logs_errors : Bool

unfoldable pub no_timers : Timers
no_timers = record {
  phase = unrendered;
  days = 1;
  active = [];
  next_id = 0;
  incidents_timer = none;
  poll_timer = none;
  insights_timer = none;
  asked = [];
  cancelled = false;
  logs_errors = false;
}

-- `window.setInterval` and `window.clearInterval`; an effect that set none has no cleanup.
unfoldable pub set_interval : Job → Timers → Timers
set_interval job t = record t {
  active = record { id = t.next_id; job = job } ∷ t.active;
  next_id = suc t.next_id;
}

unfoldable pub drop_timer : ℕ → List Timer → List Timer
drop_timer id [] = []
drop_timer id (x ∷ xs) = let rest = drop_timer id xs in if x.id == id then rest else x ∷ rest

unfoldable pub clear_interval : Option ℕ → Timers → Timers
clear_interval none t = t
clear_interval (some id) t = record t { active = drop_timer id t.active }

unfoldable pub ask_for : Job → Timers → Timers
ask_for job t = record t { asked = job ∷ t.asked }

unfoldable pub job_of : ℕ → List Timer → Option Job
job_of id [] = none
job_of id (x ∷ xs) = let rest = job_of id xs in if x.id == id then some x.job else rest

unfoldable pub initial_effect : Timers → Timers
initial_effect t = ask_for (loads t.days) (ask_for first_dashboard t)

unfoldable pub logging_effect : Timers → Timers
logging_effect t = record t { logs_errors = true }

module _ (p : Intervals) where
  -- The effects, where `autoLoad` is set.
  unfoldable pub incidents_effect : Timers → Timers
  incidents_effect t =
      if p.insights_interval == 0
      then ask_for loads_incidents t
      else record (set_interval loads_incidents (ask_for loads_incidents t)) {
        incidents_timer = some t.next_id;
      }

  unfoldable pub poll_effect : Timers → Timers
  poll_effect t =
      if p.poll_interval == 0
      then t
      else record (set_interval polls t) { poll_timer = some t.next_id }

  unfoldable pub insights_effect : Timers → Timers
  insights_effect t =
      if p.insights_interval == 0
      then t
      else record (set_interval (loads t.days) t) { insights_timer = some t.next_id }

  -- The first render, and one with a period: the effect of the insights runs again if it is another.
  unfoldable pub mount_effects : Timers → Timers
  mount_effects t =
      if p.auto_load
      then logging_effect (
          insights_effect
            (poll_effect (initial_effect (incidents_effect (record t { phase = rendered })))))
      else record t { phase = rendered }

  unfoldable pub render_days : ℕ → Timers → Timers
  render_days days t =
      if t.days == days
      then t
      else if p.auto_load
      then insights_effect (record (clear_interval t.insights_timer t) { days = days })
      else record t { days = days }

  unfoldable pub unmount_effects : Timers → Timers
  unmount_effects t =
      if p.auto_load
      then record (clear_interval t.insights_timer
          (clear_interval t.poll_timer (clear_interval t.incidents_timer t))) {
            phase = removed;
            cancelled = true;
            logs_errors = false;
          }
      else record t { phase = removed }

pub data TimerEvent : Type 0 where
  mounts : TimerEvent
  renders : ℕ → TimerEvent
  -- the time of the timer of this id has come
  ticks : ℕ → TimerEvent
  unmounts : TimerEvent

unfoldable pub timer_step : Intervals → TimerEvent → Timers → Timers
timer_step p mounts t = elim t.phase [ unrendered ↦ mount_effects p t | _ ↦ t ]
timer_step p (renders days) t = elim t.phase [ rendered ↦ render_days p days t | _ ↦ t ]
timer_step p (ticks id) t = elim (job_of id t.active) [ none ↦ t | some job ↦ ask_for job t ]
timer_step p unmounts t = elim t.phase [ rendered ↦ unmount_effects p t | _ ↦ t ]

unfoldable pub timer_run : Intervals → List TimerEvent → Timers → Timers
timer_run p [] t = t
timer_run p (e ∷ es) t = timer_run p es (timer_step p e t)
