-- ===== src/Tests/Diagnose.antt =====
-- Runs of the checklist: a snapshot with two complaints, and one without any.
use ai_routing_panel.Dashboard.Panel.{empty_panel, Panel}
use ai_routing_panel.Diagnose.Checks.{
  port_items, manual_items, is_port_limited, is_inconsistent, is_dns_incomplete, is_ai_node_lost,
  is_ai_bad, failure_text, dns_target_items, dns_config_items, data_plane_items, consistency_items,
  ai_routing_items, ai_node_items, Item, failures_of, failure_items,
}
use ai_routing_panel.Diagnose.Clear.{build_checklist-IsClear, IsClear}
use ai_routing_panel.Tests.Samples.{plain}
use ai_routing_panel.Js.{
  truthy, to_str, to_num, or_else, number, lookup_field, join_items, is_str, is_positive,
  is_nullish, is_false, fields_of, str, elements, null, bool, get, object,
}
use ai_routing_panel.Prelude.{ℕ, some, refl, ◌≡◌, [], false, ◌∷◌, true, List}
use ai_routing_panel.Diagnose.Order.{build_checklist-IsSorted, of_tone, IsSorted}
use ai_routing_panel.Js.Text.{show, digit}
use ai_routing_panel.Diagnose.Checklist.{
  sort_items, rank, parts, insert_item, concat, found, or_all_clear, all_clear, build_checklist,
}

abbrev forced_panel : Panel
forced_panel = record empty_panel {
  data_plane_status = object (("configured", bool true) ∷ ("xray_running", bool false) ∷ []);
  ai_routing_status = object (("manual_mode", str "forced_fallback") ∷ []);
}

abbrev calm_panel : Panel
calm_panel = record empty_panel {
  data_plane_status = object (("configured", bool true) ∷ ("xray_running", bool true) ∷ []);
}

forced_panel-IsSorted :
    (items : List Item) × (build_checklist plain forced_panel null null ≡ some items)
    × IsSorted items
    × ((r : ℕ) → of_tone r items ≡ of_tone r (or_all_clear (found plain forced_panel [] null)))
unfolding failure_items failures_of get elements
forced_panel-IsSorted = build_checklist-IsSorted plain forced_panel null null [] refl

build_checklist-IsClear_example : IsClear plain calm_panel null null
unfolding build_checklist failure_items failures_of elements get sort_items or_all_clear found
    concat parts data_plane_items truthy lookup_field fields_of is_false ai_routing_items is_ai_bad
    manual_items insert_item rank ai_node_items consistency_items dns_config_items dns_target_items
    failure_text is_ai_node_lost is_dns_incomplete is_inconsistent is_port_limited port_items digit
    show is_nullish is_positive is_str join_items number or_else to_num to_str
build_checklist-IsClear_example =
    build_checklist-IsClear plain calm_panel null null all_clear refl refl
