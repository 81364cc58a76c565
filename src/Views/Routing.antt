-- ===== src/Views/Routing.antt =====
-- frontend/src/admin/workspaces/RoutingWorkspace.jsx: the texts that are derived from the routing
-- report. A label table has the names that the source lists; an entry of a list is an object.
use ai_routing_panel.Js.{
  null, undefined, end, is_nullish, is_false, num, obj, truthy, same, get, bool, is_true, is_str,
  str, to_str, or_else, Builtins, Value,
}
use ai_routing_panel.Topology.Model.{
  dns_backup_direct, normal_direct, normal_fallback, Kind, is_path, Node, Topology, RoutePath,
}
use ai_routing_panel.Topology.Summary.{is_active, build_traffic_topology}
use ai_routing_panel.Dashboard.Labels.{success, warning, danger, Tone}
use ai_routing_panel.Js.Text.{show}
use ai_routing_panel.Prelude.{
  ◌==◌, ◌+◌, ◌||◌, ◌&&◌, ◌⧺◌, ◌===◌, find, some, not, Option, String, if◌then◌else◌, [], none, Bool,
  ◌∷◌, List, ℕ,
}

abbrev pub Table : Type 0
Table = List (String × String)

unfoldable pub table_label : Table → Value → Option String
table_label [] v = none
table_label ((k, label) ∷ rest) v =
    let other = table_label rest v in if to_str v === k then some label else other

-- `TABLE[v] || w`
unfoldable pub label_or : Table → Value → Value → Value
label_or table v w = elim (table_label table v) [ none ↦ w | some label ↦ str label ]

abbrev pub mode_labels : Table
mode_labels =
    ("auto", "自动探测")
    ∷ ("primary", "人工固定主 AI")
    ∷ ("backup", "人工固定备用 AI")
    ∷ ("forced_fallback", "应急直出")
    ∷ []

abbrev pub apply_labels : Table
apply_labels =
    ("direct", "已直接应用")
    ∷ ("unchanged", "配置一致，无需重写")
    ∷ ("delegated", "已委托同步，结果待确认")
    ∷ ("unmanaged", "由外部管理，应用结果待确认")
    ∷ ("not_needed", "无需更新配置")
    ∷ []

abbrev pub cache_labels : Table
cache_labels = ("available", "数据库可用") ∷ ("legacy", "仅有历史 AI 分类") ∷ ("unavailable", "分类数据库不可用") ∷ []

abbrev pub classification_labels : Table
classification_labels =
    ("ai", "AI 域名") ∷ ("not_ai", "普通域名") ∷ ("non_ai", "普通域名") ∷ ("unknown", "待分类") ∷ []

abbrev pub source_labels : Table
source_labels =
    ("builtin", "内置分类")
    ∷ ("codex", "Codex 分类器")
    ∷ ("openai", "OpenAI 分类器")
    ∷ ("cache", "历史缓存")
    ∷ ("database", "历史数据库")
    ∷ ("llm", "AI 分类器")
    ∷ ("ai", "AI 分类器")
    ∷ ("pending", "待分类")
    ∷ ("history", "历史分类")
    ∷ []

abbrev pub domain_route_labels : Table
domain_route_labels =
    ("fallback", "普通数据面回退")
    ∷ ("direct", "普通数据面直出")
    ∷ ("ai", "AI 节点路由")
    ∷ ("ai_route", "AI 节点路由")
    ∷ ("unknown", "路由待确认")
    ∷ ("per_port", "按端口转发")
    ∷ []

unfoldable pub candidate_address : Value → Value
candidate_address candidate =
    if not (truthy candidate)
    then str "地址待确认"
    else or_else (get candidate "candidate_label") (
        str (
          to_str (or_else (get candidate "upstream_host") (str "地址待确认"))
          ⧺ ":"
          ⧺ to_str (or_else (get candidate "upstream_port") (str "—"))))

unfoldable pub has_index : ℕ → Value → Bool
has_index n candidate = same (get candidate "index") (num n)

-- The text of `index + 1`, which joins texts and adds numbers.
unfoldable pub next_text : Value → String
next_text undefined = "NaN"
next_text null = "1"
next_text (bool b) = if b then "2" else "1"
next_text (num n) = show (n + 1)
next_text v = to_str v ⧺ "1"

unfoldable pub candidate_label : Value → Value
candidate_label candidate = or_else (get candidate "label") (
    str (
      if has_index 0 candidate
      then "主 AI 节点"
      else if has_index 1 candidate
      then "备用 AI 节点"
      else "AI 候选 " ⧺ next_text (get candidate "index")))

-- `label` and `tone`
unfoldable pub candidate_status : Value → String × Tone
candidate_status candidate =
    if is_true (get candidate "probe_management_error")
    then ("探测异常", warning)
    else if is_nullish (get candidate "is_reachable")
    then ("待探测", warning)
    else if truthy (get candidate "is_reachable")
    then ("可达", success)
    else ("不可达", danger)

unfoldable pub mode_for_candidate : Value → Option String
mode_for_candidate candidate =
    if has_index 0 candidate
    then some "primary"
    else if has_index 1 candidate
    then some "backup"
    else none

-- `a === b` for kinds of nodes
unfoldable pub kind_code : Kind → ℕ
kind_code Kind.client = 0
kind_code Kind.entry = 1
kind_code Kind.direct = 2
kind_code Kind.relay = 3
kind_code Kind.ai = 4
kind_code Kind.exit = 5

unfoldable pub is_kind : Kind → Kind → Bool
is_kind k l = kind_code k == kind_code l

unfoldable pub is_ai_outlet : Node → Bool
is_ai_outlet n = is_active n.state && (is_kind n.kind Kind.ai || is_kind n.kind Kind.relay)

unfoldable pub is_direct_outlet : Node → Bool
is_direct_outlet n = is_active n.state && is_kind n.kind Kind.direct

unfoldable pub is_direct_path : RoutePath → Bool
is_direct_path p =
    is_path p normal_fallback || is_path p normal_direct || is_path p dns_backup_direct

unfoldable pub outlet_of : Topology → Option Node
outlet_of t = elim (find is_ai_outlet t.nodes) [
  | some n ↦ some n
  | none ↦ if is_direct_path t.path then find is_direct_outlet t.nodes else none
]

-- `label` and `detail`
unfoldable pub outlet_text : Topology → Option Node → Value × Value
outlet_text t none = (str "出口待确认", elim t.warning [ none ↦ t.scenario | some w ↦ str w ])
outlet_text t (some n) =
    if is_kind n.kind Kind.ai || is_kind n.kind Kind.relay
    then (n.label, n.address)
    else if n.id === "normal-direct"
    then (str "普通数据面", str "freedom 直出 · 按当前流量路径回退或直出")
    else (str "控制面备用", str "备用入口 freedom 直出")

unfoldable pub effective_outlet : Builtins → Value → Value × Value
effective_outlet js panel = let t = build_traffic_topology js panel in outlet_text t (outlet_of t)

unfoldable pub domain_route : Value → String
domain_route row =
    let route = or_else (get row "traffic_route") (obj end) in
    to_str
      (label_or domain_route_labels (get route "mode") (or_else (get route "mode") (str "路由待确认")))
    ⧺ (if truthy (get route "outbound_tag") then " · " ⧺ to_str (get route "outbound_tag") else "")

abbrev pub is_bool : Value → Bool
is_bool v = is_true v || is_false v

-- `changeEvidence` and `retryEvidence`
unfoldable pub change_evidence : Value → String
change_evidence routing =
    if is_bool (get routing "config_changed")
    then (if is_true (get routing "config_changed") then "已生成配置变更" else "无配置变更")
    else "配置变更待确认"

unfoldable pub retry_evidence : Value → String
retry_evidence routing =
    if is_bool (get routing "config_retried")
    then (if is_true (get routing "config_retried") then "已触发配置重试" else "未触发配置重试")
    else "配置重试待确认"

unfoldable pub scope_text : Value → String
scope_text routing =
    let applied = get routing "applied_traffic_scope" in
    if is_str (get routing "scope_apply_state") "confirmed"
    then (if is_str applied "mixed"
        then "当前应用：按端口转发，已开启的端口全部走 AI，其余按域名分流。"
        else if is_str applied "all"
        then "当前应用：全部代理流量转发到 AI 节点。"
        else if is_str applied "direct"
        then "当前应用：数据面直出；保留已选择的转发范围。"
        else "当前应用：仅已分类 AI 域名转发。")
    else "应用结果待确认，请查看配置应用与最近报告。"

unfoldable pub port_scope_text : Value → String
port_scope_text port =
    (if is_str (get port "traffic_scope") "all" then "全部走 AI" else "域名分流")
    ⧺ (if truthy (get port "inherited") then " · 沿用默认" else " · 单独设置")

unfoldable pub port_applied_text : Value → String
port_applied_text port =
    if not (truthy (get port "active"))
    then "账号未启用或已到期"
    else if not (is_str (get port "scope_apply_state") "confirmed")
    then "应用结果待确认"
    else if is_str (get port "applied_traffic_scope") "direct"
    then "故障回退 / 应急直出"
    else if is_str (get port "applied_traffic_scope") "all"
    then "全部走 AI"
    else "域名分流"
