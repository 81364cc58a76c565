-- ===== src/Format/Frame.antt =====
-- The lines that frontend/src/admin/components/charts/index.jsx draws stay inside the frame of their chart.
use ai_routing_panel.Format.Charts.{maximum, usable, amount, max_value, values_of, point_x}
use ai_routing_panel.Format.Series.{
  spark_corners, sparkline, has_series_data, polyline, values_in, Corner, corners, series_chart,
  polylines,
}
use ai_routing_panel.Js.{get, elements, Value, Builtins}
use ai_routing_panel.Format.Scales.{maximum-All, depth_bounds, point_x_bounds}
use mathlib.Core.Option
use mathlib.Core.Path.{subst}
use ai_routing_panel.Prelude.{
  refl, arith, if-intro, ap, ◌-◌, refl, arith, if-intro, ap, false, true, none, not, ◌||◌,
  if◌then◌else◌, Bool, ◌==◌, refl, arith, if-intro, ap, All-of_map, [], map, All-split, suc, ◌≡◌,
  ◌∷◌, length, ◌+◌, All, ◌≤◌, ◌*◌, leb, List, ◌<◌, ℕ, refl, arith, if-intro, ap, some,
}

-- A corner between the left and the right padding, at 14 and 706, and between the top padding and
-- the base line, of a chart with this inner height and maximum.
pub record IsInFrame (inner max : ℕ) (c : Corner) : Type 0 where
  pub divisor : 0 < c.across.1
  pub left : 14 * c.across.1 ≤ c.across.0
  pub right : c.across.0 ≤ 706 * c.across.1
  pub top : 14 * max ≤ c.depth
  pub base : c.depth ≤ (14 + inner) * max

point_x_divisor : (count index : ℕ) → 0 < (point_x count index).1
unfolding point_x
point_x_divisor count index =
    if-intro (λ (x : ℕ × ℕ). 0 < x.1) (leb count 1) (λ e. ground arith) (λ e. ground arith)

corners-IsInFrame :
    (js : Builtins) (count inner max index : ℕ) (vs : List Value)
    → index + length vs ≤ count
    → All (λ (v : Value). amount js v ≤ max) vs
    → All (IsInFrame inner max) (corners js count inner max index vs)
unfolding corners
corners-IsInFrame js count inner max index [] l h = tt
corners-IsInFrame js count inner max index (v ∷ vs) l h =
    let x = point_x_bounds count index (omega (arith, l)) in
    let y = depth_bounds inner max (amount js v) h.0 in
    (
      record {
        divisor = point_x_divisor count index;
        left = x.0;
        right = x.1;
        top = y.0;
        base = y.1;
      },
      corners-IsInFrame js count inner max (suc index) vs (omega (arith, l)) h.1,
    )

-- The values of every series are at most the maximum of all values.
values_of-All :
    (js : Builtins) (max : ℕ) (series : List Value)
    → All (λ n. n ≤ max) (values_of js series)
    → All (λ (s : Value). All (λ (v : Value). amount js v ≤ max) (values_in s)) series
unfolding values_of values_in
values_of-All js max [] h = tt
values_of-All js max (s ∷ ss) h =
    let (front, back) =
      All-split (λ (n : ℕ). n ≤ max) (map (amount js) (elements (get s "values"))) (values_of js ss)
        h in
    (
      All-of_map (λ (n : ℕ). n ≤ max) (amount js) (elements (get s "values")) front,
      values_of-All js max ss back,
    )

polylines-IsInFrame :
    (js : Builtins) (count inner max : ℕ) (series : List Value)
    → All (λ (s : Value). length (values_in s) ≤ count) series
    → All (λ (s : Value). All (λ (v : Value). amount js v ≤ max) (values_in s)) series
    → (length (polylines js count inner max series) ≡ length series)
      × All (All (IsInFrame inner max)) (polylines js count inner max series)
unfolding polylines polyline
polylines-IsInFrame js count inner max [] l h = (refl, tt)
polylines-IsInFrame js count inner max (s ∷ ss) l h =
    let (e, rest) = polylines-IsInFrame js count inner max ss l.1 h.1 in
    (
      ap suc e,
      (corners-IsInFrame js count inner max 0 (values_in s) (omega (arith, l.0)) h.0, rest),
    )

drawn :
    (b : Bool) (xs ys : List (List Corner))
    → (if b then none else some xs) ≡ some ys
    → some xs ≡ some ys
drawn true xs ys e = cc
drawn false xs ys e = e

-- A chart of series that have no more values than there are labels, and that is at least as high as its
-- padding of 40: where it is drawn,
-- it has a line for each series with values, and every corner of every line lies between the left
-- and the right padding, and between the top padding and the base line.
pub series_chart-IsInFrame :
    (js : Builtins) (labels series : List Value) (inner : ℕ) (lines : List (List Corner))
    → All (λ (s : Value). length (values_in s) ≤ length labels) (usable series)
    → series_chart js labels series inner ≡ some lines
    → (length lines ≡ length (usable series))
      × All (All (IsInFrame inner (max_value js series))) lines
unfolding series_chart max_value
series_chart-IsInFrame js labels series inner lines l e =
    let values = values_of js (usable series) in
    let h =
      polylines-IsInFrame js (length labels) inner (maximum values) (usable series) l
        (values_of-All js (maximum values) (usable series) (maximum-All values)) in
    let q = Option.some-injective _ _ (
      drawn
        (length labels == 0
          || length (usable series) == 0
          || not (has_series_data js (usable series)))
        _ lines e) in
    subst
      (λ (ls : List (List Corner)).
        (length ls ≡ length (usable series)) × All (All (IsInFrame inner (maximum values))) ls)
      q h

-- The corners of a sparkline lie in a picture of 100 by 28.
sparks_within :
    (js : Builtins) (last max index : ℕ) (vs : List Value)
    → index + length vs ≤ suc last
    → All
        (λ (c : Corner). (c.across.0 ≤ 100 * c.across.1) × (c.depth ≤ 28 * max))
        (spark_corners js last max index vs)
unfolding spark_corners
sparks_within js last max index [] l = tt
sparks_within js last max index (v ∷ vs) l = (
  (
    if-intro (λ (x : ℕ × ℕ). x.0 ≤ 100 * x.1) (last == 0) (λ e. omega arith)
        (λ e. omega (arith, l)),
    omega arith,
  ),
  sparks_within js last max (suc index) vs (omega (arith, l)),
)

sparkline-within :
    (js : Builtins) (values : List Value)
    → All
        (λ (c : Corner).
          (c.across.0 ≤ 100 * c.across.1) × (c.depth ≤ 28 * maximum (map (amount js) values)))
        (sparkline js values)
unfolding sparkline
sparkline-within js values =
    sparks_within js (length values - 1) (maximum (map (amount js) values)) 0 values (omega arith)
