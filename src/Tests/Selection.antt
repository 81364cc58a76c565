-- ===== src/Tests/Selection.antt =====
-- A run of the filter and the selection of ports.
use ai_routing_panel.Console.Ports.{
  keep_selection, selected_port, searched, is_found, query_of, is_shown, filtered_ports,
}
use ai_routing_panel.Console.State.{initial, Console}
use ai_routing_panel.Prelude.{refl, true, some, ◌≡◌, [], ◌===◌, ◌∷◌, Bool, String}
use ai_routing_panel.Tests.Samples.{plain}
use ai_routing_panel.Console.Selection.{selected_port-keep_selection}
use ai_routing_panel.Js.{
  truthy, to_str, same, or_else, is_str, fields_of, lookup_field, get, str, num, object, Value,
}

-- A test that is right for equal texts, which suffices here.
abbrev includes : String → String → Bool
includes text part = text === part

abbrev port : Value
port = object (("id", num 7) ∷ ("listen_port", str "8443") ∷ ("status", str "active") ∷ [])

abbrev filtered : Console
filtered = record initial {
  panel = record (initial.panel) { ports = port ∷ [] };
  filters = record { query = str "8443"; status = str "all" };
  selected_port_id = num 3;
}

selected_port-keep_selection_example :
    (q : Value) × (selected_port plain includes (keep_selection plain includes filtered) ≡ some q)
    × (is_shown plain includes filtered.filters q ≡ true)
unfolding filtered_ports is_shown query_of is_found searched get lookup_field fields_of same is_str
    or_else truthy to_str
selected_port-keep_selection_example =
    selected_port-keep_selection plain includes filtered port [] refl refl
