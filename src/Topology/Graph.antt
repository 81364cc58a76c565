-- ===== src/Topology/Graph.antt =====
-- How the parts of the graph of `buildTrafficTopology` make up the whole
-- (frontend/src/admin/lib/topology.js): a predicate on the nodes, node by node.
use ai_routing_panel.Prelude.{ℕ, ◌+◌, String, List, [], ◌∷◌, All, All-append, if-intro}
use ai_routing_panel.Js.{Value, Builtins}
use ai_routing_panel.Topology.Model.{State, Node, Graph}
use ai_routing_panel.Topology.Facts.{Facts}
use ai_routing_panel.Topology.Nodes.{
  client_node, normal_node, normal_direct_node, backup_node, relay_node, backup_direct_node,
  is_mode,
}
use ai_routing_panel.Topology.Candidates.{candidate_node}
use ai_routing_panel.Topology.Build.{
  add_normal, add_backup_mode, add_backup, add_candidates, exit_node, ordinary_exit_nodes,
  ai_exit_nodes, backup_exit_nodes, exit_nodes, build_graph,
}

module _ (js : Builtins) (f : Facts) (P : Node → Type 0) where
  -- `P` holds of every node that the code may push.
  pub record OfEvery : Type 0 where
    pub of_client : P (client_node f)
    pub of_normal : P (normal_node f)
    pub of_normal_direct : P (normal_direct_node f)
    pub of_backup : P (backup_node f)
    pub of_relay : P (relay_node js f)
    pub of_backup_direct : P (backup_direct_node f)
    pub of_candidate : (ns : List Node) (i : ℕ) (c : Value) → P (candidate_node f ns i c)
    pub of_exit : (i l : String) (s : State) (text : String) → P (exit_node i l s text)

  abbrev AllNodes : Graph → Type 0
  AllNodes g = All P g.nodes

  add_normal-All : (g : Graph) → OfEvery → All P g.nodes → All P (add_normal f g).nodes
  unfolding add_normal
  add_normal-All g h a =
      if-intro AllNodes f.has_normal
        (λ _. All-append P g.nodes _ a (h.of_normal, (h.of_normal_direct, tt))) (λ _. a)

  add_backup_mode-All : (g : Graph) → OfEvery → All P g.nodes → All P (add_backup_mode js f g).nodes
  unfolding add_backup_mode
  add_backup_mode-All g h a =
      if-intro AllNodes (is_mode f "relay") (λ _. All-append P g.nodes _ a (h.of_relay, tt))
        (λ _.
          if-intro AllNodes (is_mode f "direct")
            (λ _. All-append P g.nodes _ a (h.of_backup_direct, tt)) (λ _. a))

  add_backup-All : (g : Graph) → OfEvery → All P g.nodes → All P (add_backup js f g).nodes
  unfolding add_backup
  add_backup-All g h a =
      if-intro AllNodes f.has_backup
        (λ _. add_backup_mode-All _ h (All-append P g.nodes _ a (h.of_backup, tt))) (λ _. a)

  add_candidates-All :
      (i : ℕ) (cs : List Value) (g : Graph)
      → OfEvery
      → All P g.nodes
      → All P (add_candidates f i cs g).nodes
  unfolding add_candidates
  add_candidates-All i [] g h a = a
  add_candidates-All i (c ∷ cs) g h a =
      add_candidates-All (i + 1) cs _ h (All-append P g.nodes _ a (h.of_candidate g.nodes i c, tt))

  ordinary_exit-All : OfEvery → All P (ordinary_exit_nodes f)
  unfolding ordinary_exit_nodes
  ordinary_exit-All h = if-intro (All P) f.has_normal (λ _. (h.of_exit _ _ _ _, tt)) (λ _. tt)

  ai_exit-All : (cs : List Value) → OfEvery → All P (ai_exit_nodes f cs)
  unfolding ai_exit_nodes
  ai_exit-All [] h = tt
  ai_exit-All (c ∷ cs) h = (h.of_exit _ _ _ _, tt)

  backup_exit-All : OfEvery → All P (backup_exit_nodes js f)
  unfolding backup_exit_nodes
  backup_exit-All h = if-intro (All P) f.has_backup (λ _. (h.of_exit _ _ _ _, tt)) (λ _. tt)

  exit_nodes-All : OfEvery → All P (exit_nodes js f)
  unfolding exit_nodes
  exit_nodes-All h =
      All-append P _ _ (ordinary_exit-All h)
        (All-append P _ _ (ai_exit-All f.candidates h) (backup_exit-All h))

  pub build_graph-All : OfEvery → All P (build_graph js f).nodes
  unfolding build_graph
  build_graph-All h =
      let start : Graph = record { nodes = client_node f ∷ []; edges = [] } in
      let entries = add_backup-All _ h (add_normal-All start h (h.of_client, tt)) in
      All-append P _ _ (add_candidates-All 0 f.candidates _ h entries) (exit_nodes-All h)
