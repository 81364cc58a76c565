-- ===== src/Tests/Hosts.antt =====
-- A run of the host inventory: two AI nodes and a backup entry.
use ai_routing_panel.Hosts.Inventory.{
  single_ai_host, null_before, node_id_of, is_backup_node, has_null, first_of, backup_hosts,
  backup_host, ai_key, ai_hosts, detail_from, host_state_label, detail_of, ai_host, data_plane_host,
  build_host_inventory, Host, host_tone,
}
use ai_routing_panel.Dashboard.Panel.{empty_panel, Panel}
use ai_routing_panel.Hosts.State.{host_tone-host_state_label, tone_of_label}
use ai_routing_panel.Js.{
  null, truthy, to_str, or_else, lookup_field, is_str, is_nullish, get, fields_of, elements, str,
  bool, object, array,
}
use ai_routing_panel.Hosts.Rows.{build_host_inventory_keys, backup_keys, ai_keys}
use ai_routing_panel.Prelude.{
  find, ◌++◌, refl, true, none, map, ◌∷◌, some, [], String, ◌≡◌, Option, List,
}

abbrev pub hosts_panel : Panel
hosts_panel = record empty_panel {
  ai_nodes = array (object (("node_id", str "n1") ∷ []) ∷ object [] ∷ []);
  nodes = array (object (("key", str "control_plane_backup") ∷ []) ∷ []);
}

abbrev keys_of : Option (List Host) → List String
keys_of none = []
keys_of (some hosts) = map (λ h. h.key) hosts

abbrev expected_keys : List String
expected_keys = "data_plane" ∷ "ai_node:n1" ∷ "ai_node" ∷ "control_plane_backup" ∷ []

inventory_run : keys_of (build_host_inventory hosts_panel null) ≡ expected_keys
unfolding build_host_inventory data_plane_host detail_of detail_from first_of ai_hosts ai_host
    ai_key node_id_of single_ai_host backup_hosts backup_host has_null null_before is_backup_node
    get lookup_field fields_of elements array truthy or_else to_str is_nullish is_str
inventory_run = refl

abbrev hosts_of : Option (List Host) → List Host
hosts_of none = []
hosts_of (some hosts) = hosts

keys_run :
    map (λ h. h.key) (hosts_of (build_host_inventory hosts_panel null))
    ≡ "data_plane"
      ∷ (ai_keys (elements hosts_panel.ai_nodes)
          ++ backup_keys (find is_backup_node (elements hosts_panel.nodes)))
unfolding build_host_inventory data_plane_host detail_of detail_from first_of ai_hosts ai_host
    ai_key node_id_of single_ai_host backup_hosts backup_host has_null null_before is_backup_node
    get lookup_field fields_of elements array truthy or_else to_str is_nullish is_str
keys_run =
    build_host_inventory_keys hosts_panel null (hosts_of (build_host_inventory hosts_panel null))
      refl

abbrev idle : Host
idle = ai_host [] (object (("configured", bool true) ∷ []))

idle_tone : host_tone idle ≡ tone_of_label (host_state_label idle)
idle_tone = host_tone-host_state_label idle
