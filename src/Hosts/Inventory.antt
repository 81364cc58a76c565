-- ===== src/Hosts/Inventory.antt =====
-- `buildHostInventory`, `hostTone` and `hostStateLabel` of frontend/src/admin/lib/hosts.js. `none` is
-- the TypeError of an entry that is `null`.
use ai_routing_panel.Dashboard.Panel.{Panel}
use ai_routing_panel.Js.{
  is_false, truthy, end, str, is_true, is_nullish, obj, get, is_str, undefined, or_else, to_str,
  elements, Value,
}
use ai_routing_panel.Prelude.{
  find, ◌++◌, true, ◌&&◌, ◌⧺◌, none, ◌||◌, not, ◌===◌, false, any, map, some, Bool, [], ◌∷◌,
  if◌then◌else◌, List, String, Option,
}
use ai_routing_panel.Dashboard.Labels.{Tone, success, warning, danger, neutral}

pub record Host : Type 0 where
  pub key : String
  pub role : String
  pub role_label : String
  pub label : Value
  pub target : Value
  pub configured : Bool
  pub reachable : Bool
  pub running : Value
  pub supports_restart : Bool
  pub supports_sync : Bool
  pub api_server : Value
  pub config_path : Value
  pub access_log_path : Value
  pub last_error : Value
  pub node_id : String

-- `detail.get(key) || {}`: a later host with the key takes the place of an earlier one.
unfoldable pub detail_from : String → List Value → Value
detail_from k [] = undefined
detail_from k (h ∷ hs) =
    let rest = detail_from k hs in if is_nullish rest && is_str (get h "key") k then h else rest

unfoldable pub detail_of : String → List Value → Value
detail_of k hosts = or_else (detail_from k hosts) (obj end)

-- `a.k || b.k || ""`
unfoldable pub first_of : Value → Value → String → Value
first_of a b k = or_else (get a k) (or_else (get b k) (str ""))

unfoldable pub data_plane_host : Panel → List Value → Host
data_plane_host p details =
    let plane = p.data_plane_status in
    let extra = detail_of "data_plane" details in
    record {
      key = "data_plane";
      role = "data_plane";
      role_label = "普通数据面";
      label = or_else (get plane "label") (str "普通数据面");
      target = first_of plane extra "management_target";
      configured = truthy (get plane "configured");
      reachable = truthy (get plane "reachable");
      running = get plane "xray_running";
      supports_restart = truthy (get plane "supports_restart");
      supports_sync = truthy (get plane "supports_sync");
      api_server = first_of extra plane "api_server";
      config_path = first_of extra plane "config_path";
      access_log_path = first_of extra plane "access_log_path";
      last_error = first_of extra plane "last_error";
      node_id = "";
    }

-- `String(node.node_id || "")`, and the key that it gives
unfoldable pub node_id_of : Value → String
node_id_of node = to_str (or_else (get node "node_id") (str ""))

unfoldable pub ai_key : String → String
ai_key id = if id === "" then "ai_node" else "ai_node:" ⧺ id

unfoldable pub ai_host : List Value → Value → Host
ai_host details node =
    let id = node_id_of node in
    let extra = detail_of (ai_key id) details in
    record {
      key = ai_key id;
      role = "ai_node";
      role_label = "AI 数据面";
      label = or_else (get node "label") (str "AI 节点");
      target = first_of node extra "management_target";
      configured = truthy (get node "configured");
      reachable = truthy (get node "reachable");
      running = get node "xray_running";
      supports_restart = truthy (get node "supports_restart");
      supports_sync = truthy (get node "supports_sync");
      api_server = first_of extra node "api_server";
      config_path = first_of extra node "config_path";
      access_log_path = first_of extra node "access_log_path";
      last_error = first_of extra node "last_error";
      node_id = id;
    }

-- Without a list of nodes, the one AI node of the snapshot.
unfoldable pub single_ai_host : Panel → List Value → Host
single_ai_host p details =
    let node = p.ai_node_status in
    let extra = detail_of "ai_node" details in
    record {
      key = "ai_node";
      role = "ai_node";
      role_label = "AI 数据面";
      label = or_else (get node "label") (str "AI 节点");
      target = first_of node extra "management_target";
      configured = truthy (get node "configured");
      reachable = truthy (get node "reachable");
      running = get node "xray_running";
      supports_restart = truthy (get node "supports_restart");
      supports_sync = truthy (get node "supports_sync");
      api_server = or_else (get extra "api_server") (str "");
      config_path = or_else (get extra "config_path") (str "");
      access_log_path = or_else (get extra "access_log_path") (str "");
      last_error = first_of extra node "last_error";
      node_id = "";
    }

unfoldable pub ai_hosts : Panel → List Value → List Value → List Host
ai_hosts p details [] = single_ai_host p details ∷ []
ai_hosts p details (n ∷ ns) = map (ai_host details) (n ∷ ns)

unfoldable pub is_backup_node : Value → Bool
is_backup_node node = is_str (get node "key") "control_plane_backup"

unfoldable pub backup_host : Value → Host
backup_host b = record {
  key = "control_plane_backup";
  role = "backup";
  role_label = "控制面备用入口";
  label = or_else (get b "label") (str "控制面备用");
  target = or_else (get b "management_target") (str "");
  configured = truthy (get b "configured");
  reachable = truthy (get b "reachable");
  running = get b "xray_running";
  supports_restart = false;
  supports_sync = false;
  api_server = str "";
  config_path = str "";
  access_log_path = str "";
  last_error = str "";
  node_id = "";
}

unfoldable pub backup_hosts : Option Value → List Host
backup_hosts none = []
backup_hosts (some b) = backup_host b ∷ []

-- Reading a field of an entry of these lists is a TypeError where the entry is `null`. The search for
-- the backup ends at the first match.
unfoldable pub has_null : List Value → Bool
has_null vs = any is_nullish vs

unfoldable pub null_before : List Value → Bool
null_before [] = false
null_before (n ∷ ns) =
    let rest = null_before ns in
    if is_nullish n then true else if is_backup_node n then false else rest

unfoldable pub build_host_inventory : Panel → Value → Option (List Host)
build_host_inventory p insights =
    let details = elements (get insights "hosts") in
    let ai_nodes = elements p.ai_nodes in
    let nodes = elements p.nodes in
    if has_null details || has_null ai_nodes || null_before nodes
    then none
    else some (
        data_plane_host p details
        ∷ (ai_hosts p details ai_nodes ++ backup_hosts (find is_backup_node nodes)))

unfoldable pub host_tone : Host → Tone
host_tone h =
    if not h.configured
    then neutral
    else if is_true h.running
    then success
    else if is_false h.running
    then danger
    else if h.reachable
    then success
    else warning

unfoldable pub host_state_label : Host → String
host_state_label h =
    if not h.configured
    then "未配置"
    else if is_true h.running
    then "运行中"
    else if is_false h.running
    then "未运行"
    else if h.reachable
    then "可达"
    else "待探测"
