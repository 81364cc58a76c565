-- ===== src/Tests/Rate.antt =====
-- Two refreshes of an empty dashboard, two seconds apart.
use ai_routing_panel.Prelude.{[], some, ◌≡◌, String, refl}
use ai_routing_panel.Js.{
  to_num, number, le_num, join_items, join, add_num, undefined, stringify, object, nat, Value,
  truthy, or_else, lookup_field, is_nullish, is_array, get, fields_of, elements, array,
}
use ai_routing_panel.Dashboard.Panel.{
  total_traffic_bytes, empty_panel, prepare_ports, ports_of, panel_of, normalize_dashboard,
  array_or,
}
use ai_routing_panel.Console.Apply.{
  take_sample, sub_num, sort_ids, show_panel, port_ids, or_flash, is_comparable, apply_reply,
  apply_panel, apply_dashboard, activity_of, sample_of, refresh_settled,
}
use ai_routing_panel.Dashboard.Signature.{signature_value, target_of, routing_signature}
use ai_routing_panel.Topology.Facts.{empty}
use ai_routing_panel.Console.Rate.{refresh_settled-IsRateOf, IsRateOf}
use ai_routing_panel.Tests.Samples.{plain}
use ai_routing_panel.Console.State.{initial, Clock, answered, Activity}

abbrev at_start : Clock
at_start = record { now = 0; date = 0 }

abbrev after_two : Clock
after_two = record { now = 2000000; date = 2 }

abbrev calm : Activity
calm = record { bytes = nat 0; elapsed = 2000000 }

abbrev bare : Value
bare = object []

abbrev bare_signature : String
bare_signature = stringify plain (signature_value empty_panel undefined)

bare_normalized : normalize_dashboard (or_else (get bare "dashboard") empty) ≡ some empty_panel
unfolding normalize_dashboard ports_of truthy get or_else lookup_field fields_of array is_array
    prepare_ports elements is_nullish panel_of array_or
bare_normalized = refl

bare_signed : routing_signature plain empty_panel ≡ some bare_signature
unfolding routing_signature target_of is_nullish get lookup_field
bare_signed = refl

calm_rate :
    (refresh_settled plain after_two
      (answered bare)
      (refresh_settled plain at_start (answered bare) initial)).traffic_activity
    ≡ some calm
unfolding refresh_settled apply_reply or_flash apply_dashboard normalize_dashboard ports_of truthy
    get or_else lookup_field fields_of apply_panel routing_signature target_of is_nullish panel_of
    show_panel take_sample activity_of is_comparable port_ids sample_of sort_ids sub_num array_or
    array total_traffic_bytes add_num number to_num join join_items le_num is_array elements
calm_rate = refl

refresh_settled-IsRateOf_example :
    IsRateOf (sample_of plain at_start empty_panel) (sample_of plain after_two empty_panel) calm
refresh_settled-IsRateOf_example =
    refresh_settled-IsRateOf plain at_start after_two bare bare empty_panel empty_panel
      bare_signature bare_signature initial calm bare_normalized bare_signed bare_normalized
      bare_signed calm_rate
