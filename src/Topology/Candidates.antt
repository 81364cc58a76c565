-- ===== src/Topology/Candidates.antt =====
-- The node and the edges of an AI candidate in `buildTrafficTopology`
-- (frontend/src/admin/lib/topology.js).
use ai_routing_panel.Prelude.{
  ℕ, ◌+◌, String, ◌⧺◌, ◌===◌, Bool, false, ◌&&◌, ◌||◌, Option, none, some, List, [], ◌∷◌, any, ◌==◌,
  if◌then◌else◌,
}
use ai_routing_panel.Js.{Value, bool, num, str, or_else, get, is_true, is_false, coalesce, to_str}
use ai_routing_panel.Js.Text.{show}
use ai_routing_panel.Topology.Model.{
  normal_ai, normal_ai_pending, is_path, State, standby, blocked, unknown, ai, Node, Edge,
}
use ai_routing_panel.Topology.Texts.{ai_mixed_text, ai_all_text, ai_selected_text, ai_text}
use ai_routing_panel.Topology.Facts.{Facts, address, probe_state}
use ai_routing_panel.Topology.Nodes.{edge, by_scope}

-- `candidate === selected`, by position
unfoldable pub is_selected : Option (ℕ × Value) → ℕ → Bool
is_selected none position = false
is_selected (some (chosen, c)) position = position == chosen

-- An id that is taken is made distinct by the position.
unfoldable pub candidate_id : List Node → ℕ → Value → String
candidate_id nodes position c =
    let base = "ai-" ⧺ to_str (coalesce (get c "index") (num position)) in
    if any (λ n. n.id === base) nodes then base ⧺ "-" ⧺ show position else base

unfoldable pub candidate_state : Facts → ℕ → Value → State
candidate_state f position c =
    if f.normal_path && is_path f.path normal_ai && is_selected f.selected position
    then f.ai_state
    else if is_path f.path normal_ai_pending
    then unknown
    else probe_state (get c "is_reachable")

unfoldable pub candidate_edge_state : Facts → ℕ → State → State
candidate_edge_state f position s =
    if f.normal_path
      && is_selected f.selected position
      && (is_path f.path normal_ai || is_path f.path normal_ai_pending)
    then s
    else elim s [ blocked ↦ blocked | unknown ↦ unknown | _ ↦ standby ]

unfoldable pub candidate_probe_label : Value → String
candidate_probe_label c =
    if is_true (get c "is_reachable")
    then "候选探测可达"
    else if is_false (get c "is_reachable")
    then "候选探测不可达"
    else "候选探测尚未确认"

unfoldable pub candidate_text : Facts → Bool → String
candidate_text f chosen =
    if f.mixed_traffic && chosen
    then ai_mixed_text
    else if f.all_traffic && chosen
    then ai_all_text
    else if chosen
    then ai_selected_text
    else ai_text

unfoldable pub candidate_node : Facts → List Node → ℕ → Value → Node
candidate_node f nodes position c = record {
  id = candidate_id nodes position c;
  kind = ai;
  role = "AI 候选";
  label =
      or_else (or_else (get c "label") (get c "candidate_label"))
        (str ("AI 候选 " ⧺ show (position + 1)));
  state = candidate_state f position c;
  address = str (address (get c "upstream_host") (get c "upstream_port"));
  selected = bool (is_true (get c "selected"));
  probe_label = str (candidate_probe_label c);
  description = candidate_text f (is_selected f.selected position);
}

unfoldable pub candidate_edges : Facts → ℕ → Node → List Edge
candidate_edges f position n =
    let out = edge n.id "ai-exit" n.state "AI 目标访问" in
    if f.has_normal
    then edge "normal" n.id (candidate_edge_state f position n.state)
        (by_scope f "所选端口全部流量 / 其余 AI 域名" "全部代理 TCP/UDP" "AI 域名")
      ∷ out
      ∷ []
    else out ∷ []
