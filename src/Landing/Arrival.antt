-- ===== src/Landing/Arrival.antt =====
-- The count of frontend/src/landing/composables/useReveal.js ends at its target, and never shows more.
use native.Mathlib.Nat.{mul-le-mul_left}
use ai_routing_panel.Prelude.{
  if_true, not, ◌&&◌, ◌||◌, if-intro, Bool, suc, sym, arith, inr, inl, length, ◌∙◌, ltb, Bool-cases,
  ◌+◌, ap, ◌-◌, ◌*◌, if◌then◌else◌, ◌⊎◌, ◌≤◌, [], false, true, ◌≡◌, ◌<◌, map, ◌∷◌, List, ℕ, refl,
}
use mathlib.Core.Path.{subst}
use ai_routing_panel.Landing.CountUp.{
  leaves, uncounted, observes, unmount, sees, mount, eased, tick_from, zero_text, frame_at, whole,
  shaped, Moment, Display, Counter, start_at, moments, moment, tick,
}

-- Every time is after the one before it, the first after `t`.
abbrev pub IsRising : ℕ → List ℕ → Type 0
IsRising t [] = Unit
IsRising t (u ∷ us) = (t < u) × IsRising u us

-- No more than the target is shown.
abbrev pub IsWithin : ℕ → Display → Type 0
IsWithin target zero_text = Unit
IsWithin target (shaped f) = f.over ≤ target * f.under

unfoldable pub frames : List ℕ → List Moment
frames ts = map frame_at ts

-- Without a frame that is asked for, nothing changes.
idle_frames :
    (duration target : ℕ) (ts : List ℕ) (c : Counter)
    → c.is_waiting ≡ false
    → moments duration target (frames ts) c ≡ c
unfolding moments frames moment
idle_frames duration target [] c h = refl
idle_frames duration target (u ∷ ts) c h =
    let e : (if c.is_waiting then tick duration target u c else c) ≡ c = rw h refl in
    ap (moments duration target (frames ts)) e ∙ idle_frames duration target ts c h

-- The count started at `start`, and its last frame was at `t`.
record IsCounting (duration start t : ℕ) (c : Counter) : Type 0 where
  waiting : c.is_waiting ≡ true
  own_start : c.start ≡ start
  started : 0 < start
  since : start ≤ t
  short : t - start < duration

pub record IsFinished (target : ℕ) (c : Counter) : Type 0 where
  pub shows : c.display ≡ shaped (whole target)
  pub rests : c.is_waiting ≡ false

-- A frame shows the target and ends the count, or the count goes on.
tick_cases :
    (duration target start u : ℕ) (c : Counter)
    → 0 < start
    → start ≤ u
    → IsFinished target (tick_from duration target start u c)
      ⊎ IsCounting duration start u (tick_from duration target start u c)
unfolding tick_from
tick_cases duration target start u c p l = elim (Bool-cases (ltb (u - start) duration)) [
  | inl e ↦ rw e (
      inr (record {
        waiting = refl;
        own_start = refl;
        started = p;
        since = l;
        short = ground (arith, e);
      }))
  | inr e ↦ rw e (inl (record { shows = refl; rests = refl }))
]

resumed : (s start u : ℕ) → s ≡ start → 0 < start → start_at s u ≡ start
unfolding start_at
resumed s start u e p = ground (arith, e, p)

-- The frame of a count that runs goes on from its own start.
frame_cases :
    (duration target start t u : ℕ) (c : Counter)
    → IsCounting duration start t c
    → t < u
    → IsFinished target (moment duration target (frame_at u) c)
      ⊎ IsCounting duration start u (moment duration target (frame_at u) c)
unfolding moment tick start_at
frame_cases duration target start t u c h l =
    let e : moment duration target (frame_at u) c ≡ tick_from duration target start u c =
      if_true c h.waiting
      ∙ ap (λ s. tick_from duration target s u c) (resumed c.start start u h.own_start h.started) in
    subst (λ d. IsFinished target d ⊎ IsCounting duration start u d) (sym e)
      (tick_cases duration target start u c h.started (omega (arith, h.since, l)))

later :
    {duration start t u : ℕ} (n : ℕ)
    → t < u
    → start ≤ t
    → duration ≤ (t - start) + suc n
    → duration ≤ (u - start) + n
later n h s l = omega (arith, h, s, l)

-- A counter whose frame is asked for ends, where enough time passes.
frames-IsFinished :
    (duration target start t : ℕ) (ts : List ℕ) (c : Counter)
    → IsFinished target c ⊎ IsCounting duration start t c
    → IsRising t ts
    → duration ≤ (t - start) + length ts
    → IsFinished target (moments duration target (frames ts) c)
unfolding moments frames
frames-IsFinished duration target start t ts c (inl f) r l =
    subst (IsFinished target) (sym (idle_frames duration target ts c f.rests)) f
frames-IsFinished duration target start t [] c (inr h) r l = absurd (omega (arith, h.short, l))
frames-IsFinished duration target start t (u ∷ ts) c (inr h) r l =
    frames-IsFinished duration target start u ts (moment duration target (frame_at u) c)
      (frame_cases duration target start t u c h r.0) r.1 (later (length ts) r.0 h.since l)

-- A counter as it comes into view.
abbrev woken : Counter → Counter
woken c = record c { is_observed = false; start = 0; is_waiting = true }

-- The count of a counter that comes into view ends with its target, and asks for no further frame,
-- where the frames come at increasing times and at least `duration` frames follow the first.
pub count-IsFinished :
    (duration target first : ℕ) (ts : List ℕ) (c : Counter)
    → c.is_observed ≡ true
    → 0 < first
    → IsRising first ts
    → duration ≤ length ts
    → IsFinished target (moments duration target (observes true ∷ frames (first ∷ ts)) c)
unfolding moments moment sees tick start_at frames
count-IsFinished duration target first ts c o p r l = rw o (
    frames-IsFinished duration target first first ts
      (tick_from duration target first first (woken c))
      (subst
        (λ s.
          IsFinished target (tick_from duration target s first (woken c))
          ⊎ IsCounting duration first first (tick_from duration target s first (woken c)))
        refl (tick_cases duration target first first (woken c) p (omega arith)))
      r (omega (arith, l)))

whole-IsWithin : (target : ℕ) → IsWithin target (shaped (whole target))
whole-IsWithin target = omega arith

eased-IsWithin :
    (duration target elapsed : ℕ) → IsWithin target (shaped (eased duration target elapsed))
unfolding eased
eased-IsWithin duration target elapsed = mul-le-mul_left target (omega arith)

step-IsWithin :
    (duration target : ℕ) (e : Moment) (c : Counter)
    → IsWithin target c.display
    → IsWithin target (moment duration target e c).display
unfolding moment sees unmount tick tick_from
step-IsWithin duration target (observes b) c h =
    if-intro (λ (d : Counter). IsWithin target d.display) (c.is_observed && b) (λ e. h) (λ e. h)
step-IsWithin duration target (frame_at ts) c h =
    if-intro (λ (d : Counter). IsWithin target d.display) c.is_waiting
      (λ e.
        if-intro (λ (d : Counter). IsWithin target d.display)
          (ltb (ts - start_at c.start ts) duration)
          (λ e2. eased-IsWithin duration target (ts - start_at c.start ts))
          (λ e2. whole-IsWithin target))
      (λ e. h)
step-IsWithin duration target leaves c h = h

run-IsWithin :
    (duration target : ℕ) (es : List Moment) (c : Counter)
    → IsWithin target c.display
    → IsWithin target (moments duration target es c).display
unfolding moments
run-IsWithin duration target [] c h = h
run-IsWithin duration target (e ∷ es) c h =
    run-IsWithin duration target es (moment duration target e c)
      (step-IsWithin duration target e c h)

-- A counter never shows more than its target.
moments-IsWithin :
    (duration target : ℕ) (reduced has_observer : Bool) (es : List Moment)
    → IsWithin target
        (moments duration target es (mount target reduced has_observer uncounted)).display
unfolding mount
moments-IsWithin duration target reduced has_observer es =
    run-IsWithin duration target es (mount target reduced has_observer uncounted) (
      if-intro (λ (d : Counter). IsWithin target d.display) (reduced || not has_observer)
        (λ e. whole-IsWithin target) (λ e. tt))
