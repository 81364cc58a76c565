-- ===== src/Views/Switches.antt =====
-- The switches of frontend/src/admin/workspaces/RoutingWorkspace.jsx: when they are disabled, and
-- which mutation they start. `scope_busy` is the view's own state; it is set while a change of the
-- forwarding scope runs.
use ai_routing_panel.Views.Controls.{is_busy, asks, acts, shown_if, Effect, Question, Control}
use ai_routing_panel.Console.State.{Console}
use ai_routing_panel.Js.{
  str, undefined, is_object, to_str, get, elements, or_else, is_str, truthy, Value,
}
use ai_routing_panel.Views.Routing.{
  candidate_status, candidate_address, has_index, mode_for_candidate,
}
use ai_routing_panel.Console.Actions.{
  switch_ai_routing_mode, switch_port_ai_routing_scope, switch_ai_routing_scope,
}
use ai_routing_panel.Prelude.{
  true, some, ◌==◌, ◌&&◌, ◌===◌, none, ◌++◌, [], length, any, ◌∷◌, filter, not, ◌⧺◌, ◌||◌,
  if◌then◌else◌, List, false, Option, String, Bool,
}

-- The console as the view reads it.
pub record Routes : Type 0 where
  pub console : Console
  pub scope_busy : Bool

unfoldable pub routing_of : Routes → Value
routing_of r = r.console.panel.ai_routing_status

unfoldable pub route_candidates : Routes → List Value
route_candidates r = filter is_object (elements (get (routing_of r) "ai_candidates"))

unfoldable pub manual_mode : Routes → Value
manual_mode r = or_else (get (routing_of r) "manual_mode") (str "auto")

unfoldable pub is_all_traffic : Routes → Bool
is_all_traffic r = is_str (get (routing_of r) "traffic_scope") "all"

unfoldable pub port_scopes : Routes → List Value
port_scopes r = elements (get (routing_of r) "port_scopes")

abbrev pub modes : List String
modes = "scope" ∷ "auto" ∷ "primary" ∷ "backup" ∷ "forced_fallback" ∷ []

abbrev pub port_switch_key : Value → String
port_switch_key port = "switch-ai-port-" ⧺ to_str (get port "id")

abbrev pub mode_key : String → String
mode_key mode = "switch-ai-" ⧺ mode

-- `routingBusy`
unfoldable pub routing_busy : Routes → Bool
routing_busy r =
    r.scope_busy
    || (any (λ p. is_busy r.console (port_switch_key p)) (port_scopes r)
        || any (λ m. is_busy r.console (mode_key m)) modes)

unfoldable pub is_configured : Routes → Bool
is_configured r = truthy (get (routing_of r) "configured")

unfoldable pub has_candidates : Routes → Bool
has_candidates r = not (length (route_candidates r) == 0)

-- The switch of the default scope.
unfoldable pub scope_control : Routes → Control
scope_control r = record {
  text =
      if routing_busy r
      then "应用中…"
      else if is_all_traffic r
      then "关闭全部转发，恢复域名分流"
      else "启用全部转发到 AI 节点";
  disabled =
      not (is_configured r) || routing_busy r || (not (is_all_traffic r) && not (has_candidates r));
  effect = acts (switch_ai_routing_scope (str (if is_all_traffic r then "classified" else "all")));
}

unfoldable pub is_port_on : Value → Bool
is_port_on port = is_str (get port "traffic_scope") "all"

unfoldable pub port_scope_control : Routes → Value → Control
port_scope_control r port = record {
  text = if is_port_on port then "已开启" else "已关闭";
  disabled =
      not (truthy (get port "active"))
      || not (is_configured r)
      || routing_busy r
      || (not (is_port_on port) && not (has_candidates r));
  effect = acts (
      switch_port_ai_routing_scope (get port "id")
        (str (if is_port_on port then "classified" else "all")));
}

unfoldable pub inherit_control : Routes → Value → Control
inherit_control r port = record {
  text = "恢复默认";
  disabled = routing_busy r || not (is_configured r);
  effect = acts (switch_port_ai_routing_scope (get port "id") (str "inherit"));
}

unfoldable pub port_switches : Routes → Value → List Control
port_switches r port =
    port_scope_control r port
    ∷ shown_if (not (truthy (get port "inherited"))) (inherit_control r port)

-- `requestSwitch`
unfoldable pub switch_question : String → Value → Question
switch_question mode candidate = record {
  title =
      if mode === "forced_fallback"
      then "启用应急直出？"
      else if mode === "auto"
      then "恢复自动探测？"
      else "确认切换到" ⧺ to_str (or_else (get candidate "label") (str "该 AI 节点")) ⧺ "？";
  body =
      if mode === "forced_fallback"
      then "动态 AI 路由会被移除，进入服务器的代理流量回到普通数据面的 freedom 直出；保留转发范围偏好。恢复 AI 节点路由需要手动恢复自动探测。"
      else if mode === "auto"
      then "控制面将恢复按全部候选的优先级与可达性自动选择，不再固定当前人工目标。"
      else to_str (candidate_address candidate)
        ⧺ " · "
        ⧺ (candidate_status candidate).0
        ⧺ "。此操作固定 AI 目标，健康探测仍会继续；不可达时回退普通数据面，恢复后继续使用固定目标。";
  tone = if mode === "forced_fallback" then "danger" else "primary";
  confirm_label = "确认切换";
}

unfoldable pub mode_effect : String → Value → Effect
mode_effect mode candidate =
    asks (switch_question mode candidate) (switch_ai_routing_mode (str mode))

unfoldable pub recovery_control : Routes → Control
recovery_control r = record {
  text = if is_busy r.console (mode_key "auto") then "恢复中…" else "恢复自动探测";
  disabled = routing_busy r;
  effect = mode_effect "auto" undefined;
}

unfoldable pub is_fixed : Routes → String → Bool
is_fixed r mode = is_str (manual_mode r) mode

unfoldable pub fix_control : Routes → Value → String → Control
fix_control r candidate mode = record {
  text =
      if is_busy r.console (mode_key mode)
      then "切换中…"
      else if is_fixed r mode
      then "已固定此目标"
      else if has_index 0 candidate
      then "固定主 AI"
      else "切换到备用 AI";
  disabled = is_fixed r mode || not (is_configured r) || routing_busy r;
  effect = mode_effect mode candidate;
}

-- A candidate without a mode has no button.
unfoldable pub candidate_controls : Routes → Value → List Control
candidate_controls r candidate = elim (mode_for_candidate candidate) [
  | none ↦ []
  | some mode ↦ fix_control r candidate mode ∷ []
]

unfoldable pub emergency_control : Routes → Control
emergency_control r = record {
  text =
      if is_busy r.console (mode_key "forced_fallback")
      then "处理中…"
      else if is_fixed r "forced_fallback"
      then "已启用数据面直出"
      else "强制直出";
  disabled = not (is_configured r) || is_fixed r "forced_fallback" || routing_busy r;
  effect = mode_effect "forced_fallback" undefined;
}

unfoldable pub concat_map : (Value → List Control) → List Value → List Control
concat_map f [] = []
concat_map f (v ∷ vs) = f v ++ concat_map f vs

unfoldable pub routing_controls : Routes → List Control
routing_controls r =
    scope_control r
    ∷ (concat_map (port_switches r) (port_scopes r)
        ++ (shown_if (not (is_fixed r "auto")) (recovery_control r)
            ++ (concat_map (candidate_controls r) (route_candidates r)
                ++ (emergency_control r ∷ []))))

-- `switchScope` and `switchPortScope` up to their await; `none` where they return at once. `end_scope`
-- is their `finally`.
unfoldable pub start_scope : Routes → Option Routes
start_scope r = if routing_busy r then none else some (record r { scope_busy = true })

unfoldable pub end_scope : Routes → Routes
end_scope r = record r { scope_busy = false }
