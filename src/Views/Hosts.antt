-- ===== src/Views/Hosts.antt =====
-- frontend/src/admin/workspaces/HostsWorkspace.jsx: the figures of the hosts, the flow, and the
-- buttons of a host card.
use ai_routing_panel.Js.{is_nullish, str, to_str, is_true, or_else, get, elements, Value}
use ai_routing_panel.Hosts.Inventory.{Host}
use ai_routing_panel.Console.State.{Console}
use ai_routing_panel.Views.Controls.{acts, asks, shown_if, is_busy, Question, Control}
use ai_routing_panel.Console.Actions.{
  diagnose_data_plane, restart_ai_node, restart_data_plane, Action,
}
use ai_routing_panel.Dashboard.Labels.{success, warning, Tone}
use ai_routing_panel.Prelude.{
  [], not, ◌∷◌, true, ◌++◌, ◌==◌, ◌&&◌, ◌===◌, filter, ◌⧺◌, length, if◌then◌else◌, Bool, List,
  String, ℕ,
}

unfoldable pub reachable_count : List Host → ℕ
reachable_count hosts = length (filter (λ h. h.reachable) hosts)

unfoldable pub running_count : List Host → ℕ
running_count hosts = length (filter (λ h. is_true h.running) hosts)

-- The tone of the metric cards "可达" and "Xray 运行".
unfoldable pub count_tone : ℕ → ℕ → Tone
count_tone n total = if n == total then success else warning

pub record FlowNode : Type 0 where
  pub role : String
  pub name : Value
  pub is_active : Bool

-- `Array.prototype.join(separator)`
unfoldable pub join_with : String → List Value → String
join_with separator [] = ""
join_with separator (v ∷ []) = (if is_nullish v then "" else to_str v)
join_with separator (v ∷ w ∷ vs) =
    (if is_nullish v then "" else to_str v) ⧺ separator ⧺ join_with separator (w ∷ vs)

-- `flowNodes`; `transit_nodes` is an array where it is present.
unfoldable pub flow_nodes : Value → List FlowNode
flow_nodes routing =
    let transit = elements (get routing "transit_nodes") in
    record {
      role = "入口";
      name = or_else (get routing "entry_node") (str "普通数据面");
      is_active = true;
    }
    ∷ record {
      role = "中转";
      name = or_else (str (join_with " · " transit)) (str "直出");
      is_active = not (length transit == 0);
    }
    ∷ record { role = "出口"; name = or_else (get routing "exit_node") (str "待确认"); is_active = true }
    ∷ []

unfoldable pub is_data_plane : Host → Bool
is_data_plane h = h.role === "data_plane"

-- `restart`
unfoldable pub restart_question : Host → Question
restart_question h = record {
  title = "重启" ⧺ (if is_data_plane h then "数据面" else "AI 节点") ⧺ "？";
  body =
      to_str h.label ⧺ "（" ⧺ to_str (or_else h.target (str "未配置管理目标")) ⧺ "）会短暂中断连接，随后由控制面重新下发配置。";
  tone = "danger";
  confirm_label = "确认重启";
}

unfoldable pub restart_action : Host → Action
restart_action h = if is_data_plane h then restart_data_plane else restart_ai_node h.node_id

unfoldable pub restart_key : Host → String
restart_key h = if is_data_plane h then "restart-data-plane" else "restart-ai-node:" ⧺ h.node_id

unfoldable pub supported : Host → String
supported h =
    if h.supports_restart && h.supports_sync
    then "重启 · 下发配置"
    else if h.supports_restart
    then "重启"
    else if h.supports_sync
    then "下发配置"
    else "只读"

unfoldable pub restart_control : Console → Host → Control
restart_control c h =
    let busy = is_busy c (restart_key h) in
    record {
      text = if busy then "重启中…" else "重启";
      disabled = busy;
      effect = asks (restart_question h) (restart_action h);
    }

unfoldable pub diagnose_control : Console → Control
diagnose_control c =
    let busy = is_busy c "diagnose-data-plane" in
    record {
      text = if busy then "体检中…" else "数据面体检";
      disabled = busy;
      effect = acts diagnose_data_plane;
    }

unfoldable pub host_controls : Console → Host → List Control
host_controls c h =
    shown_if h.supports_restart (restart_control c h)
    ++ shown_if (is_data_plane h) (diagnose_control c)
