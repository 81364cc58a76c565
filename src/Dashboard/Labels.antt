-- ===== src/Dashboard/Labels.antt =====
-- The labels and tones of frontend/src/admin/lib/dashboard.js.
use ai_routing_panel.Prelude.{String, not, ◌||◌, if◌then◌else◌}
use ai_routing_panel.Js.{Value, str, or_else, get, truthy, is_true, is_false, is_str}

pub data Tone : Type 0 where
  success warning danger info neutral : Tone

-- `!status || !status.configured`: a field of a falsy value is never read.
unfoldable pub data_plane_running_label : Value → String
data_plane_running_label status =
    if not (truthy status) || not (truthy (get status "configured"))
    then "未配置"
    else if is_true (get status "xray_running")
    then "运行中"
    else if is_false (get status "xray_running")
    then "未运行"
    else "未知"

unfoldable pub ai_routing_label : Value → Value
ai_routing_label status =
    if not (truthy status) || not (truthy (get status "configured"))
    then str "未启用"
    else or_else (get status "status_label") (str "未知")

unfoldable pub ai_node_status_label : Value → String
ai_node_status_label status =
    if not (truthy status) || not (truthy (get status "configured"))
    then "未纳管"
    else if truthy (get status "reachable")
    then "可达"
    else if truthy (get status "last_error")
    then "不可达"
    else "待探测"

unfoldable pub tone_from_status : Value → Tone
tone_from_status tone =
    if is_str tone "ok" || is_str tone "success"
    then success
    else if is_str tone "bad" || is_str tone "danger"
    then danger
    else if is_str tone "warn" || is_str tone "warning"
    then warning
    else if is_str tone "info"
    then info
    else neutral

unfoldable pub dns_failover_tone : Value → Tone
dns_failover_tone status =
    if not (truthy status) || not (truthy (get status "enabled"))
    then warning
    else if not (truthy (get status "configured"))
    then danger
    else if is_str (get status "current_target") "backup"
    then warning
    else if is_str (get status "last_probe_status") "unhealthy"
    then danger
    else success

unfoldable pub dns_failover_summary : Value → Value
dns_failover_summary status =
    if not (truthy status) || not (truthy (get status "enabled"))
    then str "未启用"
    else if not (truthy (get status "configured"))
    then str "配置不完整"
    else or_else (get status "current_target_label") (str "未知")

unfoldable pub port_tone : Value → Tone
port_tone port =
    if is_str (get port "status") "active"
    then success
    else if is_str (get port "status") "disabled"
    then danger
    else warning
