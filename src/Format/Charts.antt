-- ===== src/Format/Charts.antt =====
-- The scales of frontend/src/admin/components/charts/index.jsx. A coordinate that is a quotient is
-- kept as its numerator over the maximum of the chart. The size of a chart is given by its inner height,
-- which is `height` less the padding of 14 above and 26 below: 130 for the default height of 170. A
-- chart lower than its padding, whose inner height is negative, is not modelled.
use ai_routing_panel.Js.{nat, get, nan, is_str, elements, is_array, to_num, Builtins, Value}
use ai_routing_panel.Prelude.{
  ◌==◌, not, ◌&&◌, ◌++◌, [], leb, ◌/◌, ltb, length, ◌-◌, if◌then◌else◌, Bool, ◌+◌, ◌*◌, filter, ◌∷◌,
  map, ℕ, List,
}

-- `Number(value) || 0`
unfoldable pub amount : Builtins → Value → ℕ
amount js v = elim (to_num js v) [ nan ↦ 0 | nat n ↦ n ]

-- `Math.max(1, ...ns)`
unfoldable pub maximum : List ℕ → ℕ
maximum [] = 1
maximum (n ∷ ns) = let rest = maximum ns in if ltb rest n then n else rest

-- `Math.round(100 * a / b)`
unfoldable pub percent : ℕ → ℕ → ℕ
percent a b = (200 * a + b) / (2 * b)

-- The width of a bar of `BarRanking`, in percent.
unfoldable pub bar_width : ℕ → ℕ → ℕ
bar_width value max = let p = percent value max in if ltb p 2 then 2 else p

unfoldable pub bar_widths : Builtins → List Value → List ℕ
bar_widths js items =
    let values = map (λ i. amount js (get i "value")) items in
    map (λ v. bar_width v (maximum values)) values

-- The distance of a point of `SeriesChart` below the top of a chart with this inner height, times the
-- maximum: `pointY`. A value is at most the maximum.
unfoldable pub point_depth : ℕ → ℕ → ℕ → ℕ
point_depth inner max value = (14 + inner) * max - inner * value

-- `pointX`, times the last index; a single label stands in the middle.
unfoldable pub point_x : ℕ → ℕ → ℕ × ℕ
point_x count index =
    if leb count 1 then (14 + 692 / 2, 1) else (14 * (count - 1) + 692 * index, count - 1)

-- The series with a non-empty array of values, and their values.
unfoldable pub usable : List Value → List Value
usable series =
    filter (λ s. is_array (get s "values") && not (length (elements (get s "values")) == 0)) series

unfoldable pub values_of : Builtins → List Value → List ℕ
values_of js [] = []
values_of js (s ∷ rest) = map (amount js) (elements (get s "values")) ++ values_of js rest

unfoldable pub max_value : Builtins → List Value → ℕ
max_value js series = maximum (values_of js (usable series))

-- `AvailabilityStrip`: the healthy checks, in percent of all.
unfoldable pub is_healthy : Value → Bool
is_healthy check = is_str (get check "status") "healthy"

unfoldable pub availability : List Value → ℕ
availability checks = percent (length (filter is_healthy checks)) (length checks)

-- `GaugeRing`: the fraction, its percent and its tone; a limit of zero is none.
unfoldable pub gauge_fraction : ℕ → ℕ → ℕ × ℕ
gauge_fraction used limit =
    if leb limit 0 then (0, 1) else if leb limit used then (1, 1) else (used, limit)

unfoldable pub gauge_percent : ℕ → ℕ → ℕ
gauge_percent used limit = let f = gauge_fraction used limit in percent f.0 f.1

-- The palette entries `var(--c-primary)` and so on.
pub data Colour : Type 0 where
  c_primary c_danger c_warning c_success : Colour

unfoldable pub tone_for : ℕ → ℕ → ℕ → Colour
tone_for limit a b =
    if leb limit 0
    then c_primary
    else if leb b a
    then c_danger
    else if leb (85 * b) (100 * a)
    then c_warning
    else c_success

unfoldable pub gauge_tone : ℕ → ℕ → Colour
gauge_tone used limit = let f = gauge_fraction used limit in tone_for limit f.0 f.1
