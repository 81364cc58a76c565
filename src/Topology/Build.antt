-- ===== src/Topology/Build.antt =====
-- The nodes and edges in the order in which `buildTrafficTopology` pushes them
-- (frontend/src/admin/lib/topology.js).
use ai_routing_panel.Prelude.{
  ℕ, ◌+◌, String, ◌&&◌, Option, none, some, List, [], ◌∷◌, ◌++◌, if◌then◌else◌,
}
use ai_routing_panel.Js.{Value, undefined, str, Builtins, get}
use ai_routing_panel.Topology.Model.{
  normal_ai, dns_backup_relay_ai, dns_backup_direct, is_path, State, standby, unknown, state_or,
  exit, Node, backup, Graph,
}
use ai_routing_panel.Topology.Texts.{ordinary_exit_text, ai_exit_text, backup_exit_text}
use ai_routing_panel.Topology.Facts.{Facts}
use ai_routing_panel.Topology.Nodes.{
  edge, by_scope, is_direct_only, entry_state, client_node, normal_node, normal_direct_node,
  normal_edge_state, backup_node, relay_node, backup_direct_state, backup_direct_node, is_mode,
  relay_of,
}
use ai_routing_panel.Topology.Candidates.{candidate_node, candidate_edges}

-- `if (normal) { … }`
unfoldable pub add_normal : Facts → Graph → Graph
add_normal f g =
    if f.has_normal
    then record {
      nodes = g.nodes ++ (normal_node f ∷ normal_direct_node f ∷ []);
      edges =
          g.edges
          ++ (edge "client" "normal" (normal_edge_state f) "接入流量"
              ∷ edge "normal" "normal-direct" f.direct_state
                  (if is_direct_only f.path then "全部域名" else "普通 / 未分类域名")
              ∷ edge "normal-direct" "ordinary-exit" f.direct_state "直接访问"
              ∷ []);
    }
    else g

-- the branch on `backup_xray_mode`
unfoldable pub add_backup_mode : Builtins → Facts → Graph → Graph
add_backup_mode js f g =
    let r = relay_node js f in
    let s = backup_direct_state f in
    if is_mode f "relay"
    then record {
      nodes = g.nodes ++ (r ∷ []);
      edges =
          g.edges
          ++ (edge "backup" r.id r.state "全部域名" ∷ edge r.id "backup-exit" r.state "中继后出站" ∷ []);
    }
    else if is_mode f "direct"
    then record {
      nodes = g.nodes ++ (backup_direct_node f ∷ []);
      edges =
          g.edges
          ++ (edge "backup" "backup-direct" s "全部域名"
              ∷ edge "backup-direct" "backup-exit" s "直接访问"
              ∷ []);
    }
    else g

-- `if (backup) { … }`
unfoldable pub add_backup : Builtins → Facts → Graph → Graph
add_backup js f g =
    if f.has_backup
    then add_backup_mode js f (record {
      nodes = g.nodes ++ (backup_node f ∷ []);
      edges = g.edges ++ (edge "client" "backup" (entry_state f backup) "DNS 备用接入" ∷ []);
    })
    else g

-- `candidates.forEach`
unfoldable pub add_candidates : Facts → ℕ → List Value → Graph → Graph
add_candidates f position [] g = g
add_candidates f position (c ∷ cs) g =
    let n = candidate_node f g.nodes position c in
    add_candidates f (position + 1) cs
      (record { nodes = g.nodes ++ (n ∷ []); edges = g.edges ++ candidate_edges f position n })

-- `exit`
abbrev pub exit_node : String → String → State → String → Node
exit_node i l s text = record {
  id = i;
  kind = exit;
  label = str l;
  role = "访问目的地";
  state = s;
  address = undefined;
  selected = undefined;
  probe_label = undefined;
  description = text;
}

unfoldable pub ordinary_exit_nodes : Facts → List Node
ordinary_exit_nodes f =
    if f.has_normal
    then exit_node "ordinary-exit" (if is_direct_only f.path then "全部域名目标" else "普通 / 未分类目标")
        f.direct_state ordinary_exit_text
      ∷ []
    else []

-- `if (candidates.length)`
unfoldable pub ai_exit_nodes : Facts → List Value → List Node
ai_exit_nodes f [] = []
ai_exit_nodes f (c ∷ cs) =
    exit_node "ai-exit" (by_scope f "按端口策略的代理目标" "全部代理目标" "AI 域名目标")
      (if f.normal_path && is_path f.path normal_ai then f.ai_state else unknown) ai_exit_text
    ∷ []

-- `relay?.state || "unknown"`
unfoldable pub relay_state_or_unknown : Option Node → State
relay_state_or_unknown none = unknown
relay_state_or_unknown (some n) = n.state

unfoldable pub backup_exit_nodes : Builtins → Facts → List Node
backup_exit_nodes js f =
    if f.has_backup
    then exit_node "backup-exit" "全部域名目标"
        (if is_path f.path dns_backup_direct
          then state_or (get f.routing "ordinary_direct_state") unknown
          else if is_path f.path dns_backup_relay_ai
          then relay_state_or_unknown (relay_of js f)
          else standby)
        backup_exit_text
      ∷ []
    else []

unfoldable pub exit_nodes : Builtins → Facts → List Node
exit_nodes js f = ordinary_exit_nodes f ++ (ai_exit_nodes f f.candidates ++ backup_exit_nodes js f)

unfoldable pub build_graph : Builtins → Facts → Graph
build_graph js f =
    let g0 : Graph = record { nodes = client_node f ∷ []; edges = [] } in
    let g1 = add_backup js f (add_normal f g0) in
    let g2 = add_candidates f 0 f.candidates g1 in
    record { nodes = g2.nodes ++ exit_nodes js f; edges = g2.edges }
