-- ===== src/Tests/Timers.antt =====
-- A session of the console: two periods, a tick, and the removal.
use ai_routing_panel.Console.Timers.{
  loads_incidents, first_dashboard, loads, job_of, drop_timer, clear_interval, render_days, ask_for,
  set_interval, incidents_effect, initial_effect, poll_effect, ticks, renders, insights_effect,
  logging_effect, mounts, mount_effects, TimerEvent, timer_step, no_timers, timer_run, Intervals,
}
use ai_routing_panel.Console.Timed.{timer_run-due, due_at, jobs}
use ai_routing_panel.Prelude.{[], ◌∷◌, ◌≡◌, true, List, refl}

abbrev intervals : Intervals
intervals = record { auto_load = true; poll_interval = 15000; insights_interval = 60000 }

abbrev session : List TimerEvent
session = mounts ∷ renders 7 ∷ ticks 2 ∷ ticks 3 ∷ renders 30 ∷ []

-- The timer of the first period no longer ticks.
ticks_asked :
    (timer_run intervals session no_timers).asked
    ≡ loads 7 ∷ loads 1 ∷ first_dashboard ∷ loads_incidents ∷ []
unfolding timer_run timer_step no_timers mount_effects logging_effect insights_effect poll_effect
    initial_effect incidents_effect set_interval ask_for render_days clear_interval drop_timer
    job_of
ticks_asked = refl

timer_run-due_example :
    jobs (timer_run intervals session no_timers).active
    ≡ due_at intervals
        (timer_run intervals session no_timers).phase
        (timer_run intervals session no_timers).days
timer_run-due_example = timer_run-due intervals session
