-- ===== src/Format/Ring.antt =====
-- frontend/src/shared/ui/TrafficRing.vue, and the text of `GaugeRing` in
-- frontend/src/admin/components/charts/index.jsx.
use ai_routing_panel.Prelude.{false, ◌*◌, ◌⧺◌, leb, Bool, if◌then◌else◌, ℕ, String}
use ai_routing_panel.Format.Bytes.{not_a_number, usage_fraction, ratio, Ratio}
use ai_routing_panel.Format.Charts.{
  c_warning, c_danger, gauge_percent, percent, c_primary, c_success, Colour,
}
use ai_routing_panel.Js.Text.{show}
use ai_routing_panel.Js.{number, Value, Builtins, nan, nat}

-- `unlimited`; NaN is not at most zero.
unfoldable pub is_unlimited : Builtins → Value → Bool
is_unlimited js limit = elim (number js limit) [ nan ↦ false | nat l ↦ leb l 0 ]

-- `percent`
unfoldable pub ring_percent : Ratio → String
ring_percent not_a_number = "NaN"
ring_percent (ratio a b) = show (percent a b)

-- `tone`; a NaN is not at least anything.
unfoldable pub fraction_tone : Ratio → Colour
fraction_tone not_a_number = c_success
fraction_tone (ratio a b) =
    if leb b a then c_danger else if leb (85 * b) (100 * a) then c_warning else c_success

unfoldable pub ring_tone : Builtins → Value → Value → Colour
ring_tone js used limit =
    if is_unlimited js limit then c_primary else fraction_tone (usage_fraction js used limit)

-- The text in the ring.
unfoldable pub ring_text : Builtins → Value → Value → String
ring_text js used limit =
    if is_unlimited js limit then "∞" else ring_percent (usage_fraction js used limit) ⧺ "%"

-- The text in the gauge.
unfoldable pub gauge_text : ℕ → ℕ → String
gauge_text used limit = if leb limit 0 then "∞" else show (gauge_percent used limit) ⧺ "%"
