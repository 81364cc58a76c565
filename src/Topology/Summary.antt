-- ===== src/Topology/Summary.antt =====
-- The warning, the other texts and the result of `buildTrafficTopology`
-- (frontend/src/admin/lib/topology.js).
use ai_routing_panel.Prelude.{
  String, ◌⧺◌, [], ◌∷◌, List, Bool, true, false, not, ◌&&◌, Option, none, some, [], ◌∷◌, length,
  if◌then◌else◌,
}
use ai_routing_panel.Js.{Value, str, Builtins, truthy, or_else, get, is_str}
use ai_routing_panel.Js.Text.{show}
use ai_routing_panel.Topology.Model.{
  RoutePath, Node, normal_ai, normal_ai_pending, dns_backup_relay_ai, dns_backup_unknown,
  dns_backup_pending, unknown_path, is_path, State, active, Topology,
}
use ai_routing_panel.Topology.Texts.{
  pending_text, no_candidate_text, all_unconfirmed_text, ai_unconfirmed_text,
  relay_unconfirmed_text, backup_unknown_text, backup_pending_text, unknown_text,
  pending_scenario_text,
}
use ai_routing_panel.Topology.Facts.{Facts, facts_of}
use ai_routing_panel.Topology.Nodes.{relay_of}
use ai_routing_panel.Topology.Build.{build_graph}

unfoldable pub is_active : State → Bool
is_active active = true
is_active _ = false

-- `relay?.state === "active"`
unfoldable pub is_relay_active : Option Node → Bool
is_relay_active none = false
is_relay_active (some n) = is_active n.state

-- `candidates.length ? … : …`
unfoldable pub pending_warning : List Value → String
pending_warning [] = no_candidate_text
pending_warning (c ∷ cs) = "已配置 " ⧺ show (length (c ∷ cs)) ⧺ pending_text

unfoldable pub warning_from : RoutePath → Bool → Bool → Bool → List Value → Option String
warning_from normal_ai_pending all_traffic ai_active relay_active cs = some (pending_warning cs)
warning_from normal_ai all_traffic ai_active relay_active cs =
    if ai_active
    then none
    else some (if all_traffic then all_unconfirmed_text else ai_unconfirmed_text)
warning_from dns_backup_relay_ai all_traffic ai_active relay_active cs =
    if relay_active then none else some relay_unconfirmed_text
warning_from dns_backup_unknown all_traffic ai_active relay_active cs = some backup_unknown_text
warning_from dns_backup_pending all_traffic ai_active relay_active cs = some backup_pending_text
warning_from unknown_path all_traffic ai_active relay_active cs = some unknown_text
warning_from _ all_traffic ai_active relay_active cs = none

unfoldable pub warning_of : Builtins → Facts → Option String
warning_of js f =
    warning_from f.path f.all_traffic (is_active f.ai_state) (is_relay_active (relay_of js f))
      f.candidates

unfoldable pub report_time_of : Value → Value
report_time_of report =
    let display = get report "report_generated_at_display" in
    if truthy display && not (is_str display "暂无")
    then display
    else or_else (get report "report_generated_at") (str "暂无报告")

unfoldable pub dns_target_of : Value → String
dns_target_of dns =
    if truthy (get dns "enabled")
    then (if is_str (get dns "current_target") "primary"
        then "主入口"
        else if is_str (get dns "current_target") "backup"
        then "备用入口"
        else "未确认")
    else "未启用 DNS 切换"

unfoldable pub build_traffic_topology : Builtins → Value → Topology
build_traffic_topology js value =
    let f = facts_of js value in
    let g = build_graph js f in
    let pending = is_path f.path normal_ai_pending in
    record {
      path = f.path;
      nodes = g.nodes;
      edges = g.edges;
      warning = warning_of js f;
      label =
          if pending && is_str (get f.routing "path") "normal_ai"
          then str "普通直出 · 等待 AI 路由报告"
          else or_else (get f.routing "label") (str "等待路由状态同步");
      scenario =
          if pending
          then str pending_scenario_text
          else or_else (get f.routing "scenario") (str "尚未确认当前流量路径。");
      report_time = report_time_of f.ai;
      dns_target = dns_target_of f.dns;
    }
