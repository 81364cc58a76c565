-- ===== src/Topology/Nodes.antt =====
-- The nodes of the entries, the direct exits and the backup relay in `buildTrafficTopology`
-- (frontend/src/admin/lib/topology.js).
use ai_routing_panel.Prelude.{
  String, ◌⧺◌, ◌===◌, Bool, ◌&&◌, ◌||◌, Option, none, some, find, if◌then◌else◌,
}
use ai_routing_panel.Js.{
  Value, undefined, str, Builtins, truthy, or_else, get, is_true, is_false, is_str, same, to_str,
}
use ai_routing_panel.Topology.Model.{
  RoutePath, normal_fallback, normal_direct, dns_backup_relay_ai, dns_backup_direct,
  dns_backup_pending, unknown_path, is_path, State, active, standby, blocked, unknown, state_or,
  client, entry, direct, relay, Node, Edge, Entry, normal, backup, is_entry,
}
use ai_routing_panel.Topology.Texts.{
  client_text, normal_mixed_text, normal_all_text, normal_text, direct_mixed_text, direct_all_text,
  direct_only_text, direct_text, backup_text, relay_text, backup_direct_text,
}
use ai_routing_panel.Topology.Facts.{Facts, empty, address, probe_state}

-- `add`
abbrev pub edge : String → String → State → String → Edge
edge f t s class = record { id = f ⧺ "-" ⧺ t; from = f; to = t; state = s; traffic_class = class }

-- `mixedTraffic ? a : allTraffic ? b : c`
abbrev pub by_scope : Facts → String → String → String → String
by_scope f mixed all other = if f.mixed_traffic then mixed else if f.all_traffic then all else other

unfoldable pub is_direct_only : RoutePath → Bool
is_direct_only p = is_path p normal_fallback || is_path p normal_direct

unfoldable pub entry_state : Facts → Entry → State
entry_state f e = if is_entry f.entry e then active else standby

unfoldable pub client_node : Facts → Node
client_node f = record {
  id = "client";
  kind = client;
  label = str "客户端";
  role = "流量来源";
  state = elim f.entry [ none ↦ unknown | some e ↦ active ];
  address = undefined;
  selected = undefined;
  probe_label = undefined;
  description = client_text;
}

unfoldable pub normal_node : Facts → Node
normal_node f = record {
  id = "normal";
  kind = entry;
  label = str "普通数据面";
  role = "主入口";
  state = entry_state f normal;
  address =
      or_else (or_else (get f.dns "primary_content") (get (get f.panel "subscription") "server"))
        (str "未报告接入地址");
  selected = undefined;
  probe_label = undefined;
  description = by_scope f normal_mixed_text normal_all_text normal_text;
}

unfoldable pub normal_direct_node : Facts → Node
normal_direct_node f = record {
  id = "normal-direct";
  kind = direct;
  label = str "数据面直出";
  role = "freedom 出口";
  state = f.direct_state;
  address = undefined;
  selected = undefined;
  probe_label = undefined;
  description =
      by_scope f direct_mixed_text direct_all_text
        (if is_direct_only f.path then direct_only_text else direct_text);
}

-- the edge from the client to the primary entry
unfoldable pub normal_edge_state : Facts → State
normal_edge_state f =
    if is_entry f.entry normal
    then active
    else if is_path f.path dns_backup_pending || is_path f.path unknown_path
    then unknown
    else standby

unfoldable pub backup_node : Facts → Node
backup_node f = record {
  id = "backup";
  kind = entry;
  label = or_else (get f.dns "backup_label") (str "控制面备用");
  role = "备用入口";
  state = entry_state f backup;
  address = or_else (get f.dns "backup_content") (str "未报告接入地址");
  selected = undefined;
  probe_label = undefined;
  description = backup_text;
}

abbrev pub relay_target : Facts → Value
relay_target f = or_else (get f.dns "backup_relay_target") empty

-- the candidate that is the upstream of the backup relay
unfoldable pub is_relay_upstream : Builtins → Value → Value → Bool
is_relay_upstream js target c =
    truthy (get target "upstream_host")
    && js.to_lower (to_str (or_else (get c "upstream_host") (str "")))
      === js.to_lower (to_str (get target "upstream_host"))
    && same (get c "upstream_port") (get target "upstream_port")

unfoldable pub relay_match : Builtins → Facts → Option Value
relay_match js f = find (is_relay_upstream js (relay_target f)) f.candidates

-- `match?.is_reachable`
unfoldable pub match_probe : Option Value → Value
match_probe none = undefined
match_probe (some c) = get c "is_reachable"

unfoldable pub relay_state : Facts → Value → State
relay_state f probe =
    if is_entry f.entry backup && is_path f.path dns_backup_relay_ai
    then (if truthy (get (relay_target f) "upstream_host") && is_true probe
        then state_or (get f.routing "ai_branch_state") unknown
        else if is_false probe
        then blocked
        else unknown)
    else probe_state probe

unfoldable pub relay_probe_label : Option Value → String
relay_probe_label none = "没有匹配的业务探测"
relay_probe_label (some c) =
    if is_true (get c "is_reachable")
    then "匹配上游探测可达"
    else if is_false (get c "is_reachable")
    then "匹配上游探测不可达"
    else "匹配上游探测未确认"

unfoldable pub relay_node : Builtins → Facts → Node
relay_node js f = record {
  id = "backup-relay";
  kind = relay;
  label = str "备用中继上游";
  role = "全部域名中继";
  state = relay_state f (match_probe (relay_match js f));
  address =
      str (address (get (relay_target f) "upstream_host") (get (relay_target f) "upstream_port"));
  selected = undefined;
  probe_label = str (relay_probe_label (relay_match js f));
  description = relay_text;
}

unfoldable pub backup_direct_state : Facts → State
backup_direct_state f =
    if is_path f.path dns_backup_direct && is_entry f.entry backup
    then state_or (get f.routing "ordinary_direct_state") unknown
    else standby

unfoldable pub backup_direct_node : Facts → Node
backup_direct_node f = record {
  id = "backup-direct";
  kind = direct;
  label = str "备用直出";
  role = "freedom 出口";
  state = backup_direct_state f;
  address = undefined;
  selected = undefined;
  probe_label = undefined;
  description = backup_direct_text;
}

unfoldable pub is_mode : Facts → String → Bool
is_mode f mode = is_str (get f.dns "backup_xray_mode") mode

-- The variable `relay`: the node that the backup branch has pushed, if any.
unfoldable pub relay_of : Builtins → Facts → Option Node
relay_of js f = if f.has_backup && is_mode f "relay" then some (relay_node js f) else none
