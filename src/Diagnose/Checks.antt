-- ===== src/Diagnose/Checks.antt =====
-- The checks of `buildChecklist` (frontend/src/admin/lib/diagnose.js): each gives the items that it
-- pushes. `recent_failures` is an array where the snapshot has one.
use ai_routing_panel.Dashboard.Panel.{Panel}
use ai_routing_panel.Js.{
  is_false, is_nullish, number, num, str, is_str, get, or_else, truthy, is_positive, elements,
  to_str, Builtins, Value,
}
use ai_routing_panel.Prelude.{
  length, suc, ◌||◌, none, ◌&&◌, some, not, [], ◌∷◌, ◌⧺◌, Bool, if◌then◌else◌, Option, String, List,
}
use ai_routing_panel.Js.Text.{show}
use ai_routing_panel.Dashboard.Labels.{Tone, warning, danger}

pub record Item : Type 0 where
  pub tone : Tone
  pub title : String
  pub detail : Value

-- `push`
abbrev pub item : Tone → String → Value → List Item
item t title detail = record { tone = t; title = title; detail = detail } ∷ []

unfoldable pub data_plane_items : Panel → List Item
data_plane_items p =
    if not (truthy (get p.data_plane_status "configured"))
    then item warning "数据面未配置" (str "先配置数据面的管理目标，再排查流量问题。")
    else if is_false (get p.data_plane_status "xray_running")
    then item danger "数据面未运行" (str "端口不会接受连接；先重启数据面或检查容器状态。")
    else []

unfoldable pub is_ai_bad : Panel → Bool
is_ai_bad p =
    truthy (get p.ai_routing_status "configured")
    && is_str (get p.ai_routing_status "status_tone") "bad"

unfoldable pub ai_routing_items : Panel → List Item
ai_routing_items p =
    if is_ai_bad p
    then item danger "AI 路由异常" (
        or_else (get p.ai_routing_status "sync_error")
          (or_else (get p.ai_routing_status "status_label") (str "查看 AI 路由报告。")))
    else []

unfoldable pub manual_items : Panel → List Item
manual_items p =
    if is_str (get p.ai_routing_status "manual_mode") "forced_fallback"
    then item warning "当前为人工强制直出" (str "AI 域名走普通数据面，确认这是有意为之。")
    else []

unfoldable pub is_ai_node_lost : Panel → Bool
is_ai_node_lost p =
    truthy (get p.ai_node_status "configured") && is_false (get p.ai_node_status "reachable")

unfoldable pub ai_node_items : Panel → List Item
ai_node_items p =
    if is_ai_node_lost p
    then item warning "AI 节点不可达"
        (or_else (get p.ai_node_status "last_error") (str "检查 AI 节点 SSH 通道与容器状态。"))
    else []

unfoldable pub is_dns_incomplete : Panel → Bool
is_dns_incomplete p =
    truthy (get p.dns_failover_status "enabled")
    && not (truthy (get p.dns_failover_status "configured"))

unfoldable pub dns_config_items : Panel → List Item
dns_config_items p =
    if is_dns_incomplete p
    then item danger "DNS 切换配置不完整"
        (or_else (get p.dns_failover_status "config_error") (str "自动切换不会生效。"))
    else []

unfoldable pub dns_target_items : Panel → List Item
dns_target_items p =
    if is_str (get p.dns_failover_status "current_target") "backup"
    then item warning "DNS 当前指向备用" (
        str (
          "最近切换："
          ⧺ to_str (or_else (get p.dns_failover_status "last_switch_at_display") (str "暂无"))
          ⧺ " · "
          ⧺ to_str (or_else (get p.dns_failover_status "last_switch_reason") (str "无原因记录"))))
    else []

-- `insights?.probes?.recent_failures || []`
unfoldable pub failures_of : Value → List Value
failures_of insights = elements (get (get insights "probes") "recent_failures")

unfoldable pub failure_text : Value → String
failure_text first =
    "端口 "
    ⧺ to_str (get first "listen_port")
    ⧺ "："
    ⧺ to_str (or_else (get first "failure_reason") (str "无失败原因"))
    ⧺ "（"
    ⧺ to_str (get first "checked_at_display")
    ⧺ "）"

-- Reading a field of a first failure that is `null` is a TypeError.
unfoldable pub failure_items : List Value → Option (List Item)
failure_items [] = some []
failure_items (first ∷ rest) =
    if is_nullish first
    then none
    else some (item danger (show (suc (length rest)) ⧺ " 个端口最近探测失败") (str (failure_text first)))

abbrev count_text : Panel → String → String
count_text p k = to_str (or_else (get p.summary k) (num 0))

unfoldable pub is_port_limited : Builtins → Panel → Bool
is_port_limited js p =
    is_positive (number js (get p.summary "expired_ports"))
    || is_positive (number js (get p.summary "quota_ports"))

unfoldable pub port_items : Builtins → Panel → List Item
port_items js p =
    if is_port_limited js p
    then item warning "存在过期或超额限速的端口" (
        str (
          "过期 "
          ⧺ count_text p "expired_ports"
          ⧺ " · 超额 5 Mbps "
          ⧺ count_text p "quota_ports"
          ⧺ " · 已停用 "
          ⧺ count_text p "disabled_ports"))
    else []

unfoldable pub is_inconsistent : Value → Bool
is_inconsistent diagnosis =
    truthy (get (get diagnosis "consistency") "available")
    && not (truthy (get (get diagnosis "consistency") "all_match"))

unfoldable pub consistency_items : Value → List Item
consistency_items diagnosis =
    if is_inconsistent diagnosis
    then item danger "订阅下发参数与数据面不一致" (str "按“数据面体检”的一致性表逐项核对 UUID / shortId / SNI。")
    else []
