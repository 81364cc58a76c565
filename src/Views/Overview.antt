-- ===== src/Views/Overview.antt =====
-- frontend/src/admin/workspaces/OverviewWorkspace.jsx: the figures, the first items of the checklist and
-- the list of nodes.
use ai_routing_panel.Prelude.{
  [], ◌∷◌, none, not, take, map, List, if◌then◌else◌, Option, String, some,
}
use ai_routing_panel.Diagnose.Checks.{Item}
use ai_routing_panel.Js.{
  is_false, is_true, nan, truthy, num, elements, or_else, nat, get, str, Builtins, Num, Value,
}
use ai_routing_panel.Console.State.{Console}
use ai_routing_panel.Format.Bytes.{human_bytes}
use ai_routing_panel.Diagnose.Checklist.{build_checklist}
use ai_routing_panel.Dashboard.Panel.{attention_port_count, total_traffic_bytes}
use ai_routing_panel.Dashboard.Labels.{
  ai_routing_label, tone_from_status, Tone, success, warning, danger, info, neutral,
}

-- `buildChecklist(…).slice(0, 3)`; `none` is its TypeError.
unfoldable pub first_items : Option (List Item) → Option (List Item)
first_items none = none
first_items (some items) = some (take 3 items)

unfoldable pub overview_checklist : Builtins → Console → Option (List Item)
overview_checklist js c = first_items (build_checklist js c.panel c.insights c.diagnosis)

-- The word before an item.
unfoldable pub tone_word : Tone → String
tone_word danger = "阻断"
tone_word warning = "注意"
tone_word _ = "正常"

-- `historyMessage`
unfoldable pub overview_message : Console → Value
overview_message c =
    if c.insights_loading then str "正在加载流量历史…" else or_else c.insights_error (str "暂无流量历史记录。")

-- The head of the page: its tone, its label and the scenario.
pub record Headline : Type 0 where
  pub tone : Tone
  pub label : Value
  pub scenario : Value

unfoldable pub headline : Console → Headline
headline c = record {
  tone = tone_from_status (get c.panel.ai_routing_status "status_tone");
  label = ai_routing_label c.panel.ai_routing_status;
  scenario = or_else (get c.panel.traffic_routing "scenario") (str "等待路由状态同步");
}

-- `humanBytes(n)` and `n` itself of a number that was computed; NaN is falsy.
unfoldable pub bytes_of_num : Builtins → Num → Value
bytes_of_num js nan = str (human_bytes js (num 0))
bytes_of_num js (nat n) = str (human_bytes js (num n))

unfoldable pub num_value : Num → Value
num_value nan = str "NaN"
num_value (nat n) = num n

-- A card: its label, its value and its tone.
abbrev pub MetricText : Type 0
MetricText = String × Value × Tone

unfoldable pub overview_metrics : Builtins → Console → List MetricText
overview_metrics js c =
    ("运行端口", or_else (get c.panel.summary "active_ports") (num 0), success)
    ∷ ("累计总流量", bytes_of_num js (total_traffic_bytes js c.panel.summary), neutral)
    ∷ ("租户数量", or_else (get c.panel.subscription "tenant_count") (num 0), info)
    ∷ ("需处理端口", num_value (attention_port_count js c.panel.summary), warning)
    ∷ []

-- The pill of a node.
unfoldable pub overview_node_tone : Value → Tone
overview_node_tone node =
    if not (truthy (get node "configured"))
    then neutral
    else if is_true (get node "xray_running")
    then success
    else if is_false (get node "xray_running")
    then danger
    else warning

unfoldable pub overview_node_label : Value → String
overview_node_label node =
    if not (truthy (get node "configured"))
    then "未配置"
    else if is_true (get node "xray_running")
    then "运行中"
    else if is_false (get node "xray_running")
    then "未运行"
    else "待探测"

pub record NodeRow : Type 0 where
  pub key : Value
  pub label : Value
  pub target : Value
  pub tone : Tone
  pub state : String

unfoldable pub node_row : Value → NodeRow
node_row node = record {
  key = get node "key";
  label = get node "label";
  target = or_else (get node "management_target") (str "未配置管理目标");
  tone = overview_node_tone node;
  state = overview_node_label node;
}

unfoldable pub node_rows : Console → List NodeRow
node_rows c = map node_row (elements c.panel.nodes)
