-- ===== src/Tests/Samples.antt =====
-- Snapshots in the form of the control plane's payload, and built-ins that suffice for ASCII texts.
use ai_routing_panel.Prelude.{String, ◌⧺◌, Bool, true, false, [], ◌∷◌}
use ai_routing_panel.Topology.Summary.{
  warning_of, warning_from, report_time_of, pending_warning, is_relay_active, is_active,
  dns_target_of, build_traffic_topology,
}
use ai_routing_panel.Topology.Build.{
  relay_state_or_unknown, backup_exit_nodes, ai_exit_nodes, ordinary_exit_nodes, exit_nodes,
  add_candidates, add_backup_mode, add_backup, add_normal, build_graph,
}
use ai_routing_panel.Topology.Facts.{
  settled_path, selected_probe, select, probe_state, is_some, is_report_time, is_applied, facts_of,
  entry_of, direct_state_of, candidates_of, ai_state_of, address,
}
use ai_routing_panel.Topology.Nodes.{
  relay_state, relay_probe_label, relay_of, relay_node, relay_match, normal_node, normal_edge_state,
  normal_direct_node, match_probe, is_relay_upstream, is_mode, is_direct_only, entry_state,
  client_node, backup_node, backup_direct_state, backup_direct_node,
}
use ai_routing_panel.Topology.Candidates.{
  is_selected, candidate_text, candidate_state, candidate_probe_label, candidate_node, candidate_id,
  candidate_edges, candidate_edge_state,
}
use ai_routing_panel.Topology.Model.{
  Topology, state_or, parse_path, is_path, is_normal, is_entry, is_backup,
}
use ai_routing_panel.Js.Text.{show}
use ai_routing_panel.Js.{
  truthy, to_str, same, put_field, put, or_else, lookup_field, is_true, is_str, is_object,
  is_nullish, is_false, is_array, get, fields_of, elements, coalesce, Value, bool, num, str,
  Builtins, nan, object, array,
}

abbrev pub plain : Builtins
plain = record {
  to_lower = λ s. s;
  trim = λ s. s;
  parse_number = λ s. nan;
  is_date = λ s. true;
  quote = λ s. "\"" ⧺ s ⧺ "\"";
  type_error = "TypeError";
  encode = λ s. s;
}

abbrev pub candidate : String → Bool → Bool → Value
candidate host selected reachable = object (
    ("upstream_host", str host)
    ∷ ("upstream_port", num 443)
    ∷ ("selected", bool selected)
    ∷ ("is_reachable", bool reachable)
    ∷ [])

abbrev pub routing : String → Value
routing path = object (("path", str path) ∷ ("ai_branch_state", str "active") ∷ [])

abbrev pub applied_report : Value
applied_report = object (
    ("status", str "applied")
    ∷ ("config_apply_status", str "unchanged")
    ∷ ("report_generated_at", str "2026-01-02T03:04:05+08:00")
    ∷ (
      "ai_candidates",
      array (candidate "a.example" true true ∷ candidate "b.example" false false ∷ []),
    )
    ∷ [])

abbrev pub configured : Value
configured = object (("configured", bool true) ∷ [])

-- the AI path, applied and confirmed
abbrev pub ai_snapshot : Value
ai_snapshot = object (
    ("trafficRouting", routing "normal_ai")
    ∷ ("aiRoutingStatus", applied_report)
    ∷ ("dataPlaneStatus", configured)
    ∷ [])

abbrev pub relay_dns : Value
relay_dns = object (
    ("enabled", bool true)
    ∷ ("configured", bool true)
    ∷ ("backup_xray_mode", str "relay")
    ∷ (
      "backup_relay_target",
      object (("upstream_host", str "a.example") ∷ ("upstream_port", num 443) ∷ []),
    )
    ∷ [])

-- the backup entry in relay mode
abbrev pub relay_snapshot : Value
relay_snapshot = object (
    ("trafficRouting", routing "dns_backup_relay_ai")
    ∷ ("aiRoutingStatus", applied_report)
    ∷ ("dataPlaneStatus", configured)
    ∷ ("dnsFailoverStatus", relay_dns)
    ∷ [])

-- `build_traffic_topology`, which runs where this name is unfolded
unfoldable pub topology_of : Value → Topology
unfolding build_traffic_topology build_graph add_normal add_backup add_backup_mode add_candidates
    exit_nodes ordinary_exit_nodes ai_exit_nodes backup_exit_nodes relay_of relay_state_or_unknown
    candidate_node candidate_edges candidate_id candidate_state candidate_edge_state
    candidate_probe_label candidate_text is_selected client_node normal_node normal_direct_node
    backup_node relay_node backup_direct_node entry_state normal_edge_state is_direct_only
    relay_match is_relay_upstream match_probe relay_state relay_probe_label backup_direct_state
    is_mode facts_of candidates_of select is_report_time is_applied selected_probe is_some
    settled_path entry_of direct_state_of ai_state_of probe_state address parse_path is_path
    is_normal is_backup state_or is_entry warning_of warning_from is_relay_active is_active
    pending_warning report_time_of dns_target_of get lookup_field or_else truthy is_true is_false
    is_str is_object is_array elements put put_field coalesce is_nullish same to_str fields_of array
    show
topology_of value = build_traffic_topology plain value
