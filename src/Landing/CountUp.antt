-- ===== src/Landing/CountUp.antt =====
-- `useCountUp` of frontend/src/landing/composables/useReveal.js. Times are natural numbers of one
-- unit, and a value is an exact fraction: the rounding of the numbers, `format` and `toFixed` are left out.
use ai_routing_panel.Prelude.{
  [], not, true, ◌-◌, ◌&&◌, ◌||◌, ◌==◌, ◌^◌, ◌∷◌, ltb, if◌then◌else◌, List, ◌*◌, Bool, ℕ, false,
}

-- `over / under`
pub record Fraction : Type 0 where
  pub over : ℕ
  pub under : ℕ

pub data Display : Type 0 where
  zero_text : Display
  shaped : Fraction → Display

abbrev pub whole : ℕ → Fraction
whole n = record { over = n; under = 1 }

-- `target * eased` where the part `elapsed` of `duration` is over.
unfoldable pub eased : ℕ → ℕ → ℕ → Fraction
eased duration target elapsed = record {
  over = target * (duration ^ 3 - (duration - elapsed) ^ 3);
  under = duration ^ 3;
}

-- `is_waiting` holds while a frame is asked for; `start` is that of the callback.
pub record Counter : Type 0 where
  pub display : Display
  pub is_observed : Bool
  pub start : ℕ
  pub is_waiting : Bool

abbrev pub uncounted : Counter
uncounted = record { display = zero_text; is_observed = false; start = 0; is_waiting = false }

unfoldable pub mount : ℕ → Bool → Bool → Counter → Counter
mount target reduced has_observer c =
    if reduced || not has_observer
    then record c { display = shaped (whole target) }
    else record c { is_observed = true }

unfoldable pub start_at : ℕ → ℕ → ℕ
start_at start ts = if start == 0 then ts else start

-- The rest of `tick`, where `start` is set.
unfoldable pub tick_from : ℕ → ℕ → ℕ → ℕ → Counter → Counter
tick_from duration target start ts c =
    if ltb (ts - start) duration
    then record c {
      start = start;
      display = shaped (eased duration target (ts - start));
      is_waiting = true;
    }
    else record c { start = start; display = shaped (whole target); is_waiting = false }

unfoldable pub tick : ℕ → ℕ → ℕ → Counter → Counter
tick duration target ts c = tick_from duration target (start_at c.start ts) ts c

unfoldable pub sees : Bool → Counter → Counter
sees is_intersecting c =
    if c.is_observed && is_intersecting
    then record c { is_observed = false; start = 0; is_waiting = true }
    else c

unfoldable pub unmount : Counter → Counter
unmount c = record c { is_waiting = false; is_observed = false }

pub data Moment : Type 0 where
  observes : Bool → Moment
  frame_at : ℕ → Moment
  leaves : Moment

unfoldable pub moment : ℕ → ℕ → Moment → Counter → Counter
moment duration target (observes b) c = sees b c
moment duration target (frame_at ts) c = if c.is_waiting then tick duration target ts c else c
moment duration target leaves c = unmount c

unfoldable pub moments : ℕ → ℕ → List Moment → Counter → Counter
moments duration target [] c = c
moments duration target (e ∷ es) c = moments duration target es (moment duration target e c)
