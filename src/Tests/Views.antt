-- ===== src/Tests/Views.antt =====
-- Clicks, records and workspaces, and the theorems on the views at them.
use ai_routing_panel.Prelude.{
  refl, refl, refl, some, none, [], ◌≤◌, ◌∷◌, true, if◌then◌else◌, false, length, List, ◌≡◌, refl,
}
use ai_routing_panel.Tests.Samples.{ai_snapshot, plain, topology_of}
use ai_routing_panel.Console.World.{
  mark, call_action, has_key, step, run, start, Event, call, settle_initial,
}
use ai_routing_panel.Views.Controls.{Question, is_busy, action_of}
use ai_routing_panel.Console.Apply.{
  take_sample, show_panel, or_flash, initial_settled, apply_reply, apply_panel, apply_dashboard,
}
use ai_routing_panel.Js.{
  null, bool, num, object, str, Value, truthy, or_else, lookup_field, is_str, is_nullish, get,
  fields_of, elements,
}
use ai_routing_panel.Dashboard.Panel.{ports_of, panel_of, normalize_dashboard}
use ai_routing_panel.Views.Confirm.{
  callback_done, escapes, confirms, asks_for, Touch, unasked, touch_all, touch, press_escape,
  is_open, confirm, click_confirm, callback_ends, ask,
}
use ai_routing_panel.Views.Routing.{outlet_of, kind_code, is_kind, is_ai_outlet}
use ai_routing_panel.Views.Switches.{
  Routes, scope_control, routing_of, routing_controls, routing_busy, port_scopes, is_configured,
  is_all_traffic,
}
use ai_routing_panel.Views.Shell.{
  refreshed, resizes, refreshes, picks, opens_nav, ShellEvent, update_viewport, syncing, shell_step,
  shell_run, select_workspace, refresh_ends, refresh, opened, mobile_viewport, is_nav_hidden,
  is_content_inert, drawer_open, close_nav,
}
use ai_routing_panel.Views.Gates.{controls-run, controls-run_guarded}
use ai_routing_panel.Views.Hosts.{
  restart_key, is_data_plane, restart_action, restart_control, host_controls,
}
use ai_routing_panel.Console.Actions.{request_of, run_dns_failover_check, key_of}
use ai_routing_panel.Dashboard.Signature.{target_of, routing_signature}
use ai_routing_panel.Views.Steady.{shell_run-IsSteady, IsSteady}
use ai_routing_panel.Hosts.Inventory.{Host}
use ai_routing_panel.Views.Reading.{viewer_run-read_run, closed, read_run, shown_of}
use ai_routing_panel.Console.Busy.{keys}
use ai_routing_panel.Views.Incidents.{ends, opens, no_viewer, ViewerEvent, viewer_run}
use ai_routing_panel.Views.Exclusion.{routing_controls-IsExclusive, routing_keys}
use ai_routing_panel.Views.Consent.{touch_all-running, asks_of}
use ai_routing_panel.Topology.Summary.{build_traffic_topology, is_active}
use ai_routing_panel.Topology.Model.{active, Kind, Node}
use ai_routing_panel.Views.Outlets.{outlet_of-IsShownExit, IsShownExit}
use ai_routing_panel.Topology.Texts.{ai_selected_text}
use ai_routing_panel.Views.Drawing.{draw, Drawing}
use ai_routing_panel.Views.Drawn.{draw-IsDrawing, IsDrawing}
use ai_routing_panel.Console.State.{Clock, answered}

abbrev noon : Clock
noon = record { now = 5; date = 9 }

abbrev node : Host
node = record {
  key = "ai-3";
  role = "ai";
  role_label = "AI 节点";
  label = str "a";
  target = str "a.example";
  configured = true;
  reachable = true;
  running = bool true;
  supports_restart = true;
  supports_sync = false;
  api_server = str "";
  config_path = str "";
  access_log_path = str "";
  last_error = str "";
  node_id = "3";
}

-- A restart of the node runs.
abbrev restarts : List Event
restarts = call true (restart_action node) ∷ []

controls-run_example :
    has_key
      (keys (run plain restarts start).running)
      (key_of (action_of (restart_control (run plain restarts start).console node).effect))
    ≡ true
unfolding host_controls is_data_plane restart_control is_busy restart_key restart_action key_of
    action_of step run call_action request_of mark
controls-run_example =
    controls-run plain restarts node null 1
      (restart_control (run plain restarts start).console node) refl refl

controls-run_guarded_example :
    (restart_control (run plain restarts start).console node).disabled
    ≡ has_key
        (keys (run plain restarts start).running)
        (key_of (action_of (restart_control (run plain restarts start).console node).effect))
unfolding host_controls is_data_plane
controls-run_guarded_example =
    controls-run_guarded plain restarts node null 1
      (restart_control (run plain restarts start).console node) (refl, tt) refl

-- A dashboard where all traffic goes to the AI node, and the restart of a node while it is shown.
abbrev routing_status : Value
routing_status = object (("configured", bool true) ∷ ("traffic_scope", str "all") ∷ [])

abbrev dashboard : Value
dashboard = object (("meta", object (("ai_routing_status", routing_status) ∷ [])) ∷ [])

abbrev loads : List Event
loads =
    settle_initial false noon (answered (object (("dashboard", dashboard) ∷ [])))
    ∷ call false (restart_action node)
    ∷ []

abbrev routes : Routes
routes = record { console = (run plain loads start).console; scope_busy = false }

routing_controls-IsExclusive_example :
    (has_key (keys (run plain loads start).running) "switch-ai-backup" ≡ false)
    × (has_key (routing_keys routes) (key_of (action_of (scope_control routes).effect)) ≡ true)
unfolding is_data_plane call_action request_of restart_action key_of mark take_sample show_panel
    or_flash apply_panel apply_dashboard apply_reply initial_settled step run ports_of panel_of
    normalize_dashboard truthy or_else lookup_field get is_nullish is_str elements fields_of
    routing_of is_all_traffic port_scopes routing_busy is_configured scope_control routing_controls
    is_busy target_of routing_signature
routing_controls-IsExclusive_example =
    routing_controls-IsExclusive plain loads routes 0 (scope_control routes) "switch-ai-backup"
      (tt, (refl, tt)) refl refl refl refl

abbrev chosen : Node
chosen = record {
  id = "ai-0";
  kind = Kind.ai;
  label = str "AI 候选 1";
  role = "AI 候选";
  state = active;
  address = str "a.example:443";
  selected = bool true;
  probe_label = str "候选探测可达";
  description = ai_selected_text;
}

outlet_of-IsShownExit_example : IsShownExit plain ai_snapshot chosen
unfolding topology_of outlet_of is_ai_outlet is_kind kind_code is_active
outlet_of-IsShownExit_example = outlet_of-IsShownExit plain ai_snapshot chosen refl

abbrev incident : Value
incident = object (("id", num 4) ∷ [])

abbrev newer : Value
newer = object (("id", num 5) ∷ [])

-- Two records are opened, and the answers come in the order of the requests.
abbrev readings : List ViewerEvent
readings =
    opens incident
    ∷ opens newer
    ∷ ends 1 (answered (object (("report", str "old") ∷ [])))
    ∷ ends 0 (answered (object (("report", str "new") ∷ [])))
    ∷ []

viewer_run-read_run_example : shown_of (viewer_run readings no_viewer) ≡ read_run readings closed
viewer_run-read_run_example = viewer_run-read_run readings

abbrev ask_restart : Question
ask_restart = record { title = "重启？"; body = ""; tone = "danger"; confirm_label = "" }

-- A confirmed ask_restart, with a second click while its callback runs.
abbrev touches : List Touch
touches =
    asks_for (ask_restart, run_dns_failover_check)
    ∷ confirms
    ∷ confirms
    ∷ escapes
    ∷ callback_done 0
    ∷ []

touches_end : touch_all touches unasked ≡ record unasked { started = run_dns_failover_check ∷ [] }
unfolding touch_all touch ask click_confirm press_escape is_open confirm callback_ends
touches_end = refl

touch_all-running_example :
    (length (touch_all touches unasked).running
      ≡ (if (touch_all touches unasked).busy then 1 else 0))
    × (length (touch_all touches unasked).started ≤ asks_of touches)
touch_all-running_example = touch_all-running touches

abbrev visit : List ShellEvent
visit =
    opens_nav
    ∷ picks 4
    ∷ refreshes false
    ∷ refreshes false
    ∷ opens_nav
    ∷ resizes 1200
    ∷ refreshed
    ∷ []

visit_end : shell_run visit (opened 400) ≡ record {
  active = "routing";
  is_mobile = false;
  nav_open = false;
  refreshing = false;
  pending = 0;
}
unfolding shell_run shell_step opened update_viewport mobile_viewport is_nav_hidden is_content_inert
    drawer_open select_workspace refresh syncing refresh_ends close_nav
visit_end = refl

shell-IsSteady : IsSteady (shell_run visit (opened 400))
shell-IsSteady = shell_run-IsSteady 400 visit

draw-IsDrawing_example :
    (d : Drawing) × (draw (build_traffic_topology plain ai_snapshot) "ai-0" none ≡ some d)
    × IsDrawing (build_traffic_topology plain ai_snapshot) d
draw-IsDrawing_example = draw-IsDrawing plain ai_snapshot "ai-0" none
