-- ===== src/Format/Scales.antt =====
-- The scales of frontend/src/admin/components/charts/index.jsx stay inside their pictures.
use ai_routing_panel.Format.Charts.{
  point_x, c_danger, tone_for, amount, is_healthy, usable, values_of, gauge_fraction, max_value,
  gauge_tone, bar_width, percent, maximum, availability, gauge_percent, point_depth, bar_widths,
}
use ai_routing_panel.Js.{get, Builtins, Value}
use ai_routing_panel.Prelude.{
  arith, if-intro, arith, if-intro, arith, if-intro, arith, if-intro, leb, if-intro, ◌-◌,
  All-get_elem?, ◌+◌, ◌*◌, some, ◌↔◌, ◌≡◌, All-map, filter, [], ◌∷◌, arith, get_elem?, map, length,
  ◌≤◌, Bool, ◌<◌, All, ℕ, List,
}

maximum_cons : (n : ℕ) (ns : List ℕ) → (n ≤ maximum (n ∷ ns)) × (maximum ns ≤ maximum (n ∷ ns))
unfolding maximum
maximum_cons n ns = ground arith

pub maximum-All : (ns : List ℕ) → All (λ n. n ≤ maximum ns) ns
maximum-All [] = tt
maximum-All (n ∷ ns) = (
  (maximum_cons n ns).0,
  All-map ns (λ m h. omega (arith, h, (maximum_cons n ns).1)) (maximum-All ns),
)

maximum_positive : (ns : List ℕ) → 1 ≤ maximum ns
unfolding maximum
maximum_positive [] = ground arith
maximum_positive (n ∷ ns) = ground (arith, maximum_positive ns)

percent-le : (a b : ℕ) → 0 < b → a ≤ b → percent a b ≤ 100
unfolding percent
percent-le a b p h = grind arith

bar_width_bounds :
    (value max : ℕ)
    → 1 ≤ max
    → value ≤ max
    → (2 ≤ bar_width value max) × (bar_width value max ≤ 100)
unfolding bar_width
bar_width_bounds value max p h = ground (arith, percent-le value max p h)

bars_All :
    (max : ℕ) (ns : List ℕ)
    → 1 ≤ max
    → All (λ n. n ≤ max) ns
    → All (λ w. (2 ≤ w) × (w ≤ 100)) (map (λ v. bar_width v max) ns)
bars_All max [] p h = tt
bars_All max (n ∷ ns) p h = (bar_width_bounds n max p h.0, bars_All max ns p h.1)

-- Every bar of a ranking is between 2 and 100 percent wide.
bar_widths_bounds :
    (js : Builtins) (items : List Value) (i w : ℕ)
    → get_elem? (bar_widths js items) i ≡ some w
    → (2 ≤ w) × (w ≤ 100)
unfolding bar_widths
bar_widths_bounds js items i w h =
    let values = map (λ v. amount js (get v "value")) items in
    All-get_elem? (λ n. (2 ≤ n) × (n ≤ 100)) (map (λ v. bar_width v (maximum values)) values) i
      (bars_All (maximum values) values (maximum_positive values) (maximum-All values)) h

depth_lem :
    (k m n : ℕ) → n ≤ m → (14 * m ≤ (14 + k) * m - k * n) × ((14 + k) * m - k * n ≤ (14 + k) * m)
depth_lem k m n b = grind arith

pub depth_bounds :
    (inner max v : ℕ)
    → v ≤ max
    → (14 * max ≤ point_depth inner max v) × (point_depth inner max v ≤ (14 + inner) * max)
unfolding point_depth
depth_bounds inner max v b = depth_lem inner max v b

-- Every point of a series is drawn between the top padding and the base line: its depth is at least
-- 14 and at most 14 more than the inner height.
pub point_depth_bounds :
    (js : Builtins) (series : List Value) (inner i v : ℕ)
    → get_elem? (values_of js (usable series)) i ≡ some v
    → (14 * max_value js series ≤ point_depth inner (max_value js series) v)
      × (point_depth inner (max_value js series) v ≤ (14 + inner) * max_value js series)
unfolding max_value
point_depth_bounds js series inner i v h =
    let values = values_of js (usable series) in
    depth_bounds inner (maximum values) v
      (All-get_elem? (λ n. n ≤ maximum values) values i (maximum-All values) h)

length-filter : (p : Value → Bool) (xs : List Value) → length (filter p xs) ≤ length xs
length-filter p [] = omega arith
length-filter p (x ∷ xs) = ground (arith, length-filter p xs)

-- The availability of a strip with a check is at most 100 percent.
availability-le : (checks : List Value) → 0 < length checks → availability checks ≤ 100
unfolding availability
availability-le checks h =
    percent-le (length (filter is_healthy checks)) (length checks) h
      (length-filter is_healthy checks)

gauge_fraction-le :
    (used limit : ℕ)
    → (0 < (gauge_fraction used limit).1)
      × ((gauge_fraction used limit).0 ≤ (gauge_fraction used limit).1)
unfolding gauge_fraction
gauge_fraction-le used limit =
    if-intro (λ (f : ℕ × ℕ). (0 < f.1) × (f.0 ≤ f.1)) (leb limit 0) (λ e. ground arith)
      (λ e.
        if-intro (λ (f : ℕ × ℕ). (0 < f.1) × (f.0 ≤ f.1)) (leb limit used) (λ k. ground arith)
          (λ k. ground arith))

gauge_fraction_full :
    (used limit : ℕ)
    → 0 < limit
    → ((gauge_fraction used limit).1 ≤ (gauge_fraction used limit).0) ↔ (limit ≤ used)
unfolding gauge_fraction
gauge_fraction_full used limit p =
    if-intro (λ (f : ℕ × ℕ). (f.1 ≤ f.0) ↔ (limit ≤ used)) (leb limit 0)
      (λ e. absurd (ground arith))
      (λ e.
        if-intro (λ (f : ℕ × ℕ). (f.1 ≤ f.0) ↔ (limit ≤ used)) (leb limit used) (λ k. ground arith)
          (λ k. ground arith))

-- The choice of a colour, for a fraction `a / b`.
tone_iff : (limit a b : ℕ) → (tone_for limit a b ≡ c_danger) ↔ ((0 < limit) × (b ≤ a))
unfolding tone_for
tone_iff limit a b = ground arith

gauge_tone_iff :
    (used limit : ℕ) → (gauge_tone used limit ≡ c_danger) ↔ ((0 < limit) × (limit ≤ used))
unfolding gauge_tone
gauge_tone_iff used limit =
    let f = gauge_fraction used limit in
    let t = tone_iff limit f.0 f.1 in
    (
      λ e. ((t.0 e).0, (gauge_fraction_full used limit (t.0 e).0).0 (t.0 e).1),
      λ h. t.1 (h.0, (gauge_fraction_full used limit h.0).1 h.1),
    )

-- A gauge shows at most 100 percent, and is drawn in the colour of danger exactly where there is a
-- limit and it is reached.
pub gauge_bounds :
    (used limit : ℕ)
    → (gauge_percent used limit ≤ 100)
      × ((gauge_tone used limit ≡ c_danger) ↔ ((0 < limit) × (limit ≤ used)))
unfolding gauge_percent
gauge_bounds used limit =
    let f = gauge_fraction-le used limit in (percent-le _ _ f.0 f.1, gauge_tone_iff used limit)

-- The point of a label of a series lies between the left and the right padding: from 14 to 706.
pub point_x_bounds :
    (count index : ℕ)
    → index < count
    → (14 * (point_x count index).1 ≤ (point_x count index).0)
      × ((point_x count index).0 ≤ 706 * (point_x count index).1)
unfolding point_x
point_x_bounds count index h =
    if-intro (λ (x : ℕ × ℕ). (14 * x.1 ≤ x.0) × (x.0 ≤ 706 * x.1)) (leb count 1) (λ e. ground arith)
      (λ e. ground arith)
