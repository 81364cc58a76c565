-- ===== src/Views/Incidents.antt =====
-- frontend/src/admin/components/IncidentRecords.jsx: the labels of a record, and the dialog that shows
-- its report. The request of a report is identified by its number, as the source does.
use ai_routing_panel.Prelude.{
  remove_at, length, ◌⧺◌, ◌&&◌, true, not, ◌==◌, [], String, if◌then◌else◌, false, ◌∷◌, some, Bool,
  List, get_elem?, ℕ, suc, none, Option,
}
use ai_routing_panel.Views.Routing.{label_or, Table}
use ai_routing_panel.Js.{elements, get, str, to_str, is_str, or_else, truthy, Value}
use ai_routing_panel.Dashboard.Labels.{warning, info, danger, success, Tone}
use ai_routing_panel.Console.State.{Console, Reply, answered, refused}

abbrev pub statuses : Table
statuses = ("queued", "排队中") ∷ ("running", "分析中") ∷ ("completed", "分析完成") ∷ ("failed", "分析失败") ∷ []

abbrev pub sources : Table
sources =
    ("upstream", "普通上游")
    ∷ ("ai_upstream", "AI 上游")
    ∷ ("dns_failover", "DNS 主入口")
    ∷ ("diagnostics", "按需体检")
    ∷ []

unfoldable pub incident_tone : Value → Tone
incident_tone incident =
    if is_str (get incident "status") "failed"
    then danger
    else if is_str (get incident "status") "completed"
    then success
    else info

-- The label and the tone of the second pill.
unfoldable pub recovery_pill : Value → String × Tone
recovery_pill incident =
    if truthy (get incident "recovered_at") then ("探测已恢复", success) else ("故障持续中", warning)

unfoldable pub incident_line : Value → String
incident_line incident =
    to_str (label_or sources (get incident "source") (get incident "source"))
    ⧺ " · "
    ⧺ (if is_str (get incident "kind") "executor_error" then "探测执行器错误" else "节点请求失败")
    ⧺ " · 探测来源 "
    ⧺ to_str (or_else (get incident "probe_origin") (str "未记录"))

unfoldable pub can_open : Value → Bool
can_open incident = truthy (get incident "report_available")

unfoldable pub shows_empty : Console → Bool
shows_empty c =
    not c.incidents_loading
    && not (truthy c.incidents_error)
    && (length (elements c.incidents) == 0)

-- `report`
pub record IncidentReport : Type 0 where
  pub incident : Value
  pub loading : Bool
  pub text : Value
  pub error : Value

-- `waiting` has the calls of `loadIncidentReport` that have not ended, the latest first: the number
-- of each call and its incident.
pub record Viewer : Type 0 where
  pub report : Option IncidentReport
  pub report_request : ℕ
  pub waiting : List (ℕ × Value)

abbrev pub no_viewer : Viewer
no_viewer = record { report = none; report_request = 0; waiting = [] }

unfoldable pub close_report : Viewer → Viewer
close_report v = record v { report_request = suc v.report_request; report = none }

unfoldable pub open_report : Value → Viewer → Viewer
open_report incident v = record {
  report = some (record { incident = incident; loading = true; text = str ""; error = str "" });
  report_request = suc v.report_request;
  waiting = (suc v.report_request, incident) ∷ v.waiting;
}

-- The report that an ended request gives. `loadIncidentReport` takes `data.report || ""`.
unfoldable pub report_with : Value → Reply → IncidentReport
report_with incident (answered reply) = record {
  incident = incident;
  loading = false;
  text = or_else (get reply "report") (str "");
  error = str "";
}
report_with incident (refused e) = record {
  incident = incident;
  loading = false;
  text = str "";
  error = or_else e.message (str "故障文档加载失败。");
}

-- The rest of `open` after its await.
unfoldable pub report_settled : ℕ × Value → Reply → Viewer → Viewer
report_settled call reply v =
    if call.0 == v.report_request then record v { report = some (report_with call.1 reply) } else v

pub data ViewerEvent : Type 0 where
  opens : Value → ViewerEvent
  closes : ViewerEvent
  -- the call at this place of `waiting` ends
  ends : ℕ → Reply → ViewerEvent

unfoldable pub viewer_step : ViewerEvent → Viewer → Viewer
viewer_step (opens incident) v = open_report incident v
viewer_step closes v = close_report v
viewer_step (ends k reply) v = elim (get_elem? v.waiting k) [
  | none ↦ v
  | some call ↦ record (report_settled call reply v) { waiting = remove_at k v.waiting }
]

unfoldable pub viewer_run : List ViewerEvent → Viewer → Viewer
viewer_run [] v = v
viewer_run (e ∷ es) v = viewer_run es (viewer_step e v)
