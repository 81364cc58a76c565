-- ===== src/Console/Timed.antt =====
-- The timers of frontend/src/admin/state/PanelProvider.jsx that run after any renders, ticks and removal.
use ai_routing_panel.Prelude.{
  refl, arith, sym, ap, refl, arith, sym, ap, refl, arith, sym, ap, refl, arith, sym, ap, refl,
  arith, sym, ap, refl, arith, sym, ap, refl, arith, sym, ap, refl, arith, sym, ap, refl, arith,
  sym, ap, ◌==◌, not, ◌&&◌, none, ◌∷◌, ◌++◌, if◌then◌else◌, [], Bool, Option, ℕ, ◌≡◌, List, refl,
  ap, some,
}
use mathlib.Core.Path.{subst}
use ai_routing_panel.Console.Rendered.{unmount_effects-active, IsTimed, render_days-IsTimed}
use ai_routing_panel.Console.Cleanup.{IsHeld, clear_interval-IsSame, own}
use ai_routing_panel.Console.Timers.{
  unmounts, mounts, renders, job_of, no_timers, timer_run, ticks, timer_step, TimerEvent,
  unmount_effects, render_days, ask_for, set_interval, incidents_effect, initial_effect,
  poll_effect, insights_effect, logging_effect, mount_effects, Phase, Timers, Timer, Job, Intervals,
  rendered, unrendered, removed, polls, loads, loads_incidents,
}

unfoldable pub jobs : List Timer → List Job
jobs [] = []
jobs (x ∷ xs) = x.job ∷ jobs xs

-- The calls that are due, by the properties and the period.
unfoldable pub due : Intervals → ℕ → List Job
due p days =
    (if p.auto_load && not (p.insights_interval == 0) then loads days ∷ [] else [])
    ++ ((if p.auto_load && not (p.poll_interval == 0) then polls ∷ [] else [])
        ++ (if p.auto_load && not (p.insights_interval == 0) then loads_incidents ∷ [] else []))

own-if :
    (o : Option ℕ) (b : Bool) (job : Job)
    → IsHeld o b
    → jobs (own o job) ≡ (if b then job ∷ [] else [])
unfolding jobs
own-if none b job h = rw h refl
own-if (some a) b job h = rw h refl

jobs-append : (xs ys : List Timer) → jobs (xs ++ ys) ≡ jobs xs ++ jobs ys
unfolding jobs
jobs-append [] ys = refl
jobs-append (x ∷ xs) ys = ap (λ zs. x.job ∷ zs) (jobs-append xs ys)

IsTimed-due : (p : Intervals) (t : Timers) → IsTimed p t → jobs t.active ≡ due p t.days
unfolding due
IsTimed-due p t h =
    rw
      (
        h.active,
        jobs-append,
        jobs-append,
        own-if _ _ (loads t.days) h.insights_set,
        own-if _ _ polls h.poll_set,
        own-if _ _ loads_incidents h.incidents_set,
      )
      refl

-- Before the first render no timer is set; afterwards those of the variables; and at the end none.
abbrev IsTimedAt : Intervals → Phase → Timers → Type 0
IsTimedAt p unrendered t =
    (t.active ≡ []) × (t.insights_timer ≡ none) × (t.poll_timer ≡ none) × (t.incidents_timer ≡ none)
IsTimedAt p rendered t = IsTimed p t
IsTimedAt p removed t = t.active ≡ []

mount-IsTimed :
    (p : Intervals) (t : Timers) → IsTimedAt p unrendered t → IsTimed p (mount_effects p t)
unfolding mount_effects logging_effect insights_effect poll_effect initial_effect incidents_effect
    set_interval ask_for
mount-IsTimed p t h = ground (arith, h)

mount-phase : (p : Intervals) (t : Timers) → (mount_effects p t).phase ≡ rendered
unfolding mount_effects logging_effect insights_effect poll_effect initial_effect incidents_effect
    set_interval ask_for
mount-phase p t = ground arith

unmount-phase : (p : Intervals) (t : Timers) → (unmount_effects p t).phase ≡ removed
unfolding unmount_effects
unmount-phase p t = ground arith

render_days-phase : (p : Intervals) (days : ℕ) (t : Timers) → (render_days p days t).phase ≡ t.phase
unfolding render_days insights_effect set_interval
render_days-phase p days t = ground (arith, (clear_interval-IsSame t.insights_timer t).phase)

at_phase :
    (p : Intervals) (f : Phase) (t : Timers) → t.phase ≡ f → IsTimedAt p f t → IsTimedAt p t.phase t
at_phase p f t e h = subst (λ g. IsTimedAt p g t) (sym e) h

asked-IsTimedAt :
    (p : Intervals) (f : Phase) (job : Job) (t : Timers)
    → IsTimedAt p f t
    → IsTimedAt p f (ask_for job t)
unfolding ask_for
asked-IsTimedAt p unrendered job t h = h
asked-IsTimedAt p rendered job t h = ground arith
asked-IsTimedAt p removed job t h = h

ticks-IsTimedAt :
    (p : Intervals) (id : ℕ) (t : Timers)
    → IsTimedAt p t.phase t
    → IsTimedAt p (timer_step p (ticks id) t).phase (timer_step p (ticks id) t)
unfolding timer_step
ticks-IsTimedAt p id t h = go (job_of id t.active)
  where
    go :
        (o : Option Job)
        → IsTimedAt p
            (elim o as (λ _. Timers) [ none ↦ t | some job ↦ ask_for job t ]).phase
            (elim o as (λ _. Timers) [ none ↦ t | some job ↦ ask_for job t ])
    go none = h
    go (some job) =
        at_phase p t.phase _ (unfold ask_for in refl) (asked-IsTimedAt p t.phase job t h)

step-IsTimedAt :
    (p : Intervals) (e : TimerEvent) (f : Phase) (t : Timers)
    → IsTimedAt p f (record t { phase = f })
    → IsTimedAt p
        (timer_step p e (record t { phase = f })).phase
        (timer_step p e (record t { phase = f }))
unfolding timer_step
step-IsTimedAt p (ticks id) f t h = ticks-IsTimedAt p id (record t { phase = f }) h
step-IsTimedAt p mounts unrendered t h =
    at_phase p rendered _ (mount-phase p (record t { phase = unrendered }))
      (mount-IsTimed p (record t { phase = unrendered }) h)
step-IsTimedAt p mounts rendered t h = h
step-IsTimedAt p mounts removed t h = h
step-IsTimedAt p (renders days) unrendered t h = h
step-IsTimedAt p (renders days) rendered t h =
    at_phase p rendered _ (render_days-phase p days (record t { phase = rendered }))
      (render_days-IsTimed p days (record t { phase = rendered }) h)
step-IsTimedAt p (renders days) removed t h = h
step-IsTimedAt p unmounts unrendered t h = h
step-IsTimedAt p unmounts rendered t h =
    at_phase p removed _ (unmount-phase p (record t { phase = rendered }))
      (unmount_effects-active p (record t { phase = rendered }) h)
step-IsTimedAt p unmounts removed t h = h

run-IsTimedAt :
    (p : Intervals) (es : List TimerEvent) (t : Timers)
    → IsTimedAt p t.phase t
    → IsTimedAt p (timer_run p es t).phase (timer_run p es t)
unfolding timer_run
run-IsTimedAt p [] t h = h
run-IsTimedAt p (e ∷ es) t h =
    run-IsTimedAt p es (timer_step p e t) (step-IsTimedAt p e t.phase t h)

-- The calls that the active timers make, at each phase.
unfoldable pub due_at : Intervals → Phase → ℕ → List Job
unfolding due
due_at p rendered days = due p days
due_at p _ days = []

phase-due :
    (p : Intervals) (f : Phase) (t : Timers) → IsTimedAt p f t → jobs t.active ≡ due_at p f t.days
unfolding due_at jobs
phase-due p unrendered t h = ap jobs h.0
phase-due p rendered t h = IsTimed-due p t h
phase-due p removed t h = ap jobs h

-- After any renders, ticks and the removal of the console the timers that run are, before the first
-- render and after the removal, none, and in between exactly these: where `autoLoad` is set and the
-- interval is not zero, one for the insights, with the period of the last render, one for the
-- dashboard and one for the incidents.
pub timer_run-due :
    (p : Intervals) (es : List TimerEvent)
    → jobs (timer_run p es no_timers).active
      ≡ due_at p (timer_run p es no_timers).phase (timer_run p es no_timers).days
unfolding no_timers
timer_run-due p es =
    let t = timer_run p es no_timers in
    phase-due p t.phase t (run-IsTimedAt p es no_timers (refl, refl, refl, refl))
