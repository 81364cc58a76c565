-- ===== src/Console/Rendered.antt =====
-- The intervals of a rendered console (frontend/src/admin/state/PanelProvider.jsx): its variables hold
-- them, before and after the effect of a changed period.
use ai_routing_panel.Prelude.{
  refl, arith, sym, if-intro, ap, refl, arith, sym, if-intro, ap, refl, arith, sym, if-intro, ap,
  refl, arith, sym, if-intro, ap, refl, arith, sym, if-intro, ap, refl, arith, sym, if-intro, ap,
  suc, refl, arith, sym, if-intro, ap, ◌∙◌, refl, arith, sym, ap, refl, arith, sym, ap, refl, arith,
  sym, ap, ◌==◌, not, true, ◌&&◌, false, none, ◌∷◌, ◌++◌, [], ℕ, ◌≡◌, refl, ap, some,
}
use mathlib.Core.Path.{subst}
use ai_routing_panel.Console.Cleanup.{
  IsHeld, clear_interval-IsSame, cleared_all, cleared_insights, IsApart, below-IsApart,
  IsSameTimers, IsBelow, dropped, suc-IsBelow, own, clear_interval-active, IsHeld-none,
}
use ai_routing_panel.Console.Timers.{
  unmount_effects, render_days, set_interval, insights_effect, clear_interval, Timers, Intervals,
  polls, loads, loads_incidents,
}

-- The timers of a rendered console: those of the three variables and no other.
pub record IsTimed (p : Intervals) (t : Timers) : Type 0 where
  pub active :
      t.active
      ≡ own t.insights_timer (loads t.days)
        ++ (own t.poll_timer polls ++ own t.incidents_timer loads_incidents)
  pub insights_below : IsBelow t.next_id t.insights_timer
  pub poll_below : IsBelow t.next_id t.poll_timer
  pub incidents_below : IsBelow t.next_id t.incidents_timer
  pub insights_poll : IsApart t.insights_timer t.poll_timer
  pub insights_incidents : IsApart t.insights_timer t.incidents_timer
  pub poll_incidents : IsApart t.poll_timer t.incidents_timer
  pub insights_set : IsHeld t.insights_timer (p.auto_load && not (p.insights_interval == 0))
  pub poll_set : IsHeld t.poll_timer (p.auto_load && not (p.poll_interval == 0))
  pub incidents_set : IsHeld t.incidents_timer (p.auto_load && not (p.insights_interval == 0))

-- The timers where that of the insights has been cleared, though its variable still holds the number.
pub record IsCleared (p : Intervals) (u : Timers) : Type 0 where
  pub active : u.active ≡ own u.poll_timer polls ++ own u.incidents_timer loads_incidents
  pub insights_below : IsBelow u.next_id u.insights_timer
  pub poll_below : IsBelow u.next_id u.poll_timer
  pub incidents_below : IsBelow u.next_id u.incidents_timer
  pub poll_incidents : IsApart u.poll_timer u.incidents_timer
  pub insights_set : IsHeld u.insights_timer (p.auto_load && not (p.insights_interval == 0))
  pub poll_set : IsHeld u.poll_timer (p.auto_load && not (p.poll_interval == 0))
  pub incidents_set : IsHeld u.incidents_timer (p.auto_load && not (p.insights_interval == 0))

pub without_insights :
    (p : Intervals) (u : Timers) (days : ℕ)
    → u.insights_timer ≡ none
    → IsCleared p u
    → IsTimed p (record u { days = days })
without_insights p u days e h = record {
  active =
      h.active
      ∙ ap
          (λ o.
            own o (loads days) ++ (own u.poll_timer polls ++ own u.incidents_timer loads_incidents))
          (sym e);
  insights_below = h.insights_below;
  poll_below = h.poll_below;
  incidents_below = h.incidents_below;
  insights_poll = subst (λ o. IsApart o u.poll_timer) (sym e) tt;
  insights_incidents = subst (λ o. IsApart o u.incidents_timer) (sym e) tt;
  poll_incidents = h.poll_incidents;
  insights_set = h.insights_set;
  poll_set = h.poll_set;
  incidents_set = h.incidents_set;
}

pub with_insights :
    (p : Intervals) (u : Timers) (days : ℕ)
    → p.auto_load ≡ true
    → (p.insights_interval == 0) ≡ false
    → IsCleared p u
    → IsTimed p (record u {
      days = days;
      active = record { id = u.next_id; job = loads days } ∷ u.active;
      next_id = suc u.next_id;
      insights_timer = some u.next_id;
    })
with_insights p u days e z h = record {
  active = ap (λ xs. record { id = u.next_id; job = loads days } ∷ xs) h.active;
  insights_below = omega arith;
  poll_below = suc-IsBelow u.next_id u.poll_timer h.poll_below;
  incidents_below = suc-IsBelow u.next_id u.incidents_timer h.incidents_below;
  insights_poll = below-IsApart u.next_id u.poll_timer h.poll_below;
  insights_incidents = below-IsApart u.next_id u.incidents_timer h.incidents_below;
  poll_incidents = h.poll_incidents;
  insights_set = ground (arith, e, z);
  poll_set = h.poll_set;
  incidents_set = h.incidents_set;
}

pub reset-IsTimed :
    (p : Intervals) (u : Timers) (days : ℕ)
    → p.auto_load ≡ true
    → IsCleared p u
    → IsTimed p (insights_effect p (record u { days = days }))
unfolding insights_effect set_interval
reset-IsTimed p u days e h =
    if-intro (IsTimed p) (p.insights_interval == 0)
      (λ z.
        without_insights p u days
          (IsHeld-none u.insights_timer _ h.insights_set (ground (arith, z))) h)
      (λ z. with_insights p u days e z h)

pub IsTimed-IsCleared :
    (p : Intervals) (t u : Timers)
    → u.active ≡ own t.poll_timer polls ++ own t.incidents_timer loads_incidents
    → IsSameTimers t u
    → IsTimed p t
    → IsCleared p u
IsTimed-IsCleared p t u a s h = record {
  active = rw (s.poll_timer, s.incidents_timer) a;
  insights_below = rw (s.next_id, s.insights_timer) h.insights_below;
  poll_below = rw (s.next_id, s.poll_timer) h.poll_below;
  incidents_below = rw (s.next_id, s.incidents_timer) h.incidents_below;
  poll_incidents = rw (s.poll_timer, s.incidents_timer) h.poll_incidents;
  insights_set = rw s.insights_timer h.insights_set;
  poll_set = rw s.poll_timer h.poll_set;
  incidents_set = rw s.incidents_timer h.incidents_set;
}

-- The effect of the insights, where its timer has been cleared.
pub insights_effect-IsTimed :
    (p : Intervals) (t : Timers) (days : ℕ)
    → p.auto_load ≡ true
    → IsTimed p t
    → IsTimed p (insights_effect p (record (clear_interval t.insights_timer t) { days = days }))
insights_effect-IsTimed p t days e h = reset-IsTimed p (clear_interval t.insights_timer t) days e (
    IsTimed-IsCleared p t (clear_interval t.insights_timer t)
      (clear_interval-active t.insights_timer t
        ∙ ap (dropped t.insights_timer) h.active
        ∙ cleared_insights t.insights_timer t.poll_timer t.incidents_timer (loads t.days) polls
            loads_incidents h.insights_poll h.insights_incidents)
      (clear_interval-IsSame t.insights_timer t) h)

-- Without `autoLoad` no variable holds a timer.
pub idle-IsTimed :
    (p : Intervals) (days : ℕ) (t : Timers)
    → p.auto_load ≡ false
    → IsTimed p t
    → IsTimed p (record t { days = days })
idle-IsTimed p days t e h =
    let k = IsHeld-none t.insights_timer _ h.insights_set (ground (arith, e)) in
    without_insights p t days k (record {
      active =
          h.active
          ∙ ap
              (λ o.
                own o (loads t.days)
                ++ (own t.poll_timer polls ++ own t.incidents_timer loads_incidents))
              k;
      insights_below = h.insights_below;
      poll_below = h.poll_below;
      incidents_below = h.incidents_below;
      poll_incidents = h.poll_incidents;
      insights_set = h.insights_set;
      poll_set = h.poll_set;
      incidents_set = h.incidents_set;
    })

pub render_days-IsTimed :
    (p : Intervals) (days : ℕ) (t : Timers) → IsTimed p t → IsTimed p (render_days p days t)
unfolding render_days
render_days-IsTimed p days t h =
    if-intro (IsTimed p) (t.days == days) (λ e. h)
      (λ e.
        if-intro (IsTimed p) p.auto_load (λ a. insights_effect-IsTimed p t days a h)
          (λ a. idle-IsTimed p days t a h))

pub idle_active : (p : Intervals) (t : Timers) → p.auto_load ≡ false → IsTimed p t → t.active ≡ []
idle_active p t e h =
    h.active
    ∙ rw
        (
          IsHeld-none t.insights_timer _ h.insights_set (ground (arith, e)),
          IsHeld-none t.poll_timer _ h.poll_set (ground (arith, e)),
          IsHeld-none t.incidents_timer _ h.incidents_set (ground (arith, e)),
        )
        refl

pub unmount_effects-active :
    (p : Intervals) (t : Timers) → IsTimed p t → (unmount_effects p t).active ≡ []
unfolding unmount_effects
unmount_effects-active p t h =
    if-intro (λ (u : Timers). u.active ≡ []) p.auto_load
      (λ e.
        clear_interval-active t.insights_timer _
        ∙ ap (dropped t.insights_timer) (clear_interval-active t.poll_timer _)
        ∙ ap (λ xs. dropped t.insights_timer (dropped t.poll_timer xs))
            (clear_interval-active t.incidents_timer t)
        ∙ ap (λ xs. dropped t.insights_timer (dropped t.poll_timer (dropped t.incidents_timer xs)))
            h.active
        ∙ cleared_all t.insights_timer t.poll_timer t.incidents_timer (loads t.days) polls
            loads_incidents h.insights_poll h.insights_incidents h.poll_incidents)
      (λ e. idle_active p t e h)
