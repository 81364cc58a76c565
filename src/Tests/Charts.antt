-- ===== src/Tests/Charts.antt =====
-- Runs of the scales of the charts.
use ai_routing_panel.Prelude.{
  refl, arith, refl, arith, ◌===◌, if◌then◌else◌, refl, arith, refl, arith, All, length, some,
  arith, ◌+◌, refl, ◌<◌, ◌↔◌, [], ◌∷◌, ◌≡◌, ◌≤◌, List, ◌*◌,
}
use ai_routing_panel.Js.{
  nan, nat, truthy, or_else, number, Builtins, is_str, is_array, elements, fields_of, lookup_field,
  get, to_num, array, num, str, object, Value,
}
use ai_routing_panel.Format.Scales.{point_depth_bounds, gauge_bounds}
use ai_routing_panel.Tests.Samples.{plain}
use ai_routing_panel.Format.Series.{
  Corner, values_in, series_chart, polylines, polyline, is_nonzero, has_series_data, corners,
}
use ai_routing_panel.Format.Frame.{series_chart-IsInFrame, IsInFrame}
use ai_routing_panel.Format.Ring.{ring_tone, gauge_text, ring_text}
use ai_routing_panel.Format.Rings.{ring-gauge}
use ai_routing_panel.Format.Charts.{
  point_x, is_healthy, point_depth, max_value, c_danger, maximum, gauge_tone, percent, amount,
  bar_width, usable, bar_widths, values_of, gauge_percent, availability,
}

abbrev rows : List Value
rows = object (("value", num 300) ∷ []) ∷ object (("value", num 1) ∷ []) ∷ []

two_bars : bar_widths plain rows ≡ 100 ∷ 2 ∷ []
unfolding bar_widths bar_width percent maximum amount to_num get lookup_field fields_of
two_bars = refl

abbrev traffic : List Value
traffic = object (("values", array (num 5 ∷ num 20 ∷ [])) ∷ []) ∷ []

point_in_chart :
    (14 * max_value plain traffic ≤ point_depth 130 (max_value plain traffic) 5)
    × (point_depth 130 (max_value plain traffic) 5 ≤ (14 + 130) * max_value plain traffic)
unfolding values_of usable amount to_num get lookup_field fields_of elements is_array array
point_in_chart = point_depth_bounds plain traffic 130 0 5 refl

abbrev checks : List Value
checks = object (("status", str "healthy") ∷ []) ∷ object (("status", str "failed") ∷ []) ∷ []

half_available : availability checks ≡ 50
unfolding availability percent is_healthy is_str get lookup_field fields_of
half_available = refl

gauge_in_circle : (gauge_percent 9 4 ≤ 100) × ((gauge_tone 9 4 ≡ c_danger) ↔ ((0 < 4) × (4 ≤ 9)))
gauge_in_circle = gauge_bounds 9 4

abbrev dates : List Value
dates = str "1" ∷ str "2" ∷ []

abbrev two_corners : List (List Corner)
two_corners =
    (record { across = (14, 1); depth = 2230 } ∷ record { across = (706, 1); depth = 280 } ∷ [])
    ∷ []

chart_run : series_chart plain dates traffic 130 ≡ some two_corners
unfolding series_chart has_series_data is_nonzero values_in polylines polyline corners point_x
    point_depth max_value maximum values_of usable amount to_num get lookup_field fields_of elements
    is_array array
chart_run = refl

series_chart-IsInFrame_example :
    (length two_corners ≡ length (usable traffic))
    × All (All (IsInFrame 130 (max_value plain traffic))) two_corners
unfolding values_in usable get lookup_field fields_of elements is_array array
series_chart-IsInFrame_example =
    series_chart-IsInFrame plain dates traffic 130 two_corners (omega arith, tt) chart_run

-- Built-ins where the number of the empty text is 0.
abbrev counting : Builtins
counting = record plain { parse_number = λ s. if s === "" then nat 0 else nan }

ring-gauge_example :
    (ring_text counting (num 9) (str "")
      ≡ gauge_text (amount counting (num 9)) (amount counting (str "")))
    × (ring_tone counting (num 9) (str "")
        ≡ gauge_tone (amount counting (num 9)) (amount counting (str "")))
unfolding number or_else truthy to_num
ring-gauge_example = ring-gauge counting (num 9) (str "") 9 0 refl refl refl
