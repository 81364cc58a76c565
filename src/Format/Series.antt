-- ===== src/Format/Series.antt =====
-- `SeriesChart` and `Sparkline` of frontend/src/admin/components/charts/index.jsx: when a chart is drawn,
-- and the corners of its lines.
use ai_routing_panel.Prelude.{
  none, suc, map, ◌*◌, ◌||◌, ◌==◌, not, [], ◌-◌, if◌then◌else◌, any, Option, ◌∷◌, true, length, ℕ,
  List, Bool, some,
}
use ai_routing_panel.Format.Charts.{max_value, usable, amount, point_depth, maximum, point_x}
use ai_routing_panel.Js.{nan, nat, to_num, get, elements, Builtins, Value}

-- `Number(value) !== 0`
unfoldable pub is_nonzero : Builtins → Value → Bool
is_nonzero js v = elim (to_num js v) [ nan ↦ true | nat n ↦ not (n == 0) ]

-- `item.values || []`
unfoldable pub values_in : Value → List Value
values_in s = elements (get s "values")

unfoldable pub has_series_data : Builtins → List Value → Bool
has_series_data js series = any (λ s. any (is_nonzero js) (values_in s)) series

-- A corner: its place across, as a quotient, and its depth, times the maximum of the chart.
pub record Corner : Type 0 where
  pub across : ℕ × ℕ
  pub depth : ℕ

-- The corners of a line from the label of this index on, given the number of labels, the inner height
-- and the maximum.
unfoldable pub corners : Builtins → ℕ → ℕ → ℕ → ℕ → List Value → List Corner
corners js count inner max index [] = []
corners js count inner max index (v ∷ vs) =
    record { across = point_x count index; depth = point_depth inner max (amount js v) }
    ∷ corners js count inner max (suc index) vs

unfoldable pub polyline : Builtins → ℕ → ℕ → ℕ → Value → List Corner
polyline js count inner max s = corners js count inner max 0 (values_in s)

unfoldable pub polylines : Builtins → ℕ → ℕ → ℕ → List Value → List (List Corner)
polylines js count inner max [] = []
polylines js count inner max (s ∷ ss) =
    polyline js count inner max s ∷ polylines js count inner max ss

-- The lines of a chart of this inner height, or none where the remark is shown instead.
unfoldable pub series_chart : Builtins → List Value → List Value → ℕ → Option (List (List Corner))
series_chart js labels series inner =
    if length labels == 0 || length (usable series) == 0 || not (has_series_data js (usable series))
    then none
    else some (polylines js (length labels) inner (max_value js series) (usable series))

-- The corners of a `Sparkline` with this last index, from an index on; the depth is times the maximum.
unfoldable pub spark_corners : Builtins → ℕ → ℕ → ℕ → List Value → List Corner
spark_corners js last max index [] = []
spark_corners js last max index (v ∷ vs) =
    record {
      across = if last == 0 then (0, 1) else (100 * index, last);
      depth = 28 * max - 28 * amount js v;
    }
    ∷ spark_corners js last max (suc index) vs

unfoldable pub sparkline : Builtins → List Value → List Corner
sparkline js values =
    spark_corners js (length values - 1) (maximum (map (amount js) values)) 0 values
