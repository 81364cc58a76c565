-- ===== src/Topology/Links.antt =====
-- The graph of `buildTrafficTopology` (frontend/src/admin/lib/topology.js) is closed: no edge
-- leads to a node that is not drawn.
use ai_routing_panel.Prelude.{
  ℕ, ◌+◌, String, ◌===◌, eq_refl, Bool, true, List, [], ◌∷◌, ◌++◌, any, any-append, All, All-append,
  All-map, ◌≡◌, refl, arith, if-intro,
}
use ai_routing_panel.Js.{Value, Builtins}
use ai_routing_panel.Topology.Model.{Node, Edge, Graph}
use ai_routing_panel.Topology.Facts.{Facts, facts_of}
use ai_routing_panel.Topology.Nodes.{
  client_node, normal_node, normal_direct_node, backup_node, relay_node, backup_direct_node,
  is_mode,
}
use ai_routing_panel.Topology.Candidates.{candidate_node, candidate_edges}
use ai_routing_panel.Topology.Build.{
  add_normal, add_backup_mode, add_backup, add_candidates, ordinary_exit_nodes, ai_exit_nodes,
  backup_exit_nodes, exit_nodes, build_graph,
}
use ai_routing_panel.Topology.Summary.{build_traffic_topology}

abbrev pub has_id : List Node → String → Bool
has_id ns i = any (λ n. n.id === i) ns

abbrev pub IsLinked : List Node → Edge → Type 0
IsLinked ns e = (has_id ns e.from ≡ true) × (has_id ns e.to ≡ true)

pub has_id-append_left :
    (ns ms : List Node) (i : String) → has_id ns i ≡ true → has_id (ns ++ ms) i ≡ true
has_id-append_left ns ms i h = rw (any-append (λ n. n.id === i) ns ms, h)

pub has_id-append_right :
    (ns ms : List Node) (i : String) → has_id ms i ≡ true → has_id (ns ++ ms) i ≡ true
has_id-append_right ns ms i h = ground (arith, any-append (λ n. n.id === i) ns ms)

-- A node stays when others are pushed before the last part.
has_id-push :
    (ns ms X : List Node) (i : String)
    → has_id (ns ++ X) i ≡ true
    → has_id ((ns ++ ms) ++ X) i ≡ true
has_id-push ns ms X i h = ground (
  arith,
  any-append (λ n. n.id === i) ns X,
  any-append (λ n. n.id === i) (ns ++ ms) X,
  any-append (λ n. n.id === i) ns ms,
)

abbrev HasId : String → Graph → Type 0
HasId i g = has_id g.nodes i ≡ true

-- Every edge of `g` is linked once the nodes `X` follow.
abbrev IsClosed : List Node → Graph → Type 0
IsClosed X g = All (IsLinked (g.nodes ++ X)) g.edges

push-IsClosed :
    (X : List Node) (g : Graph) (ms : List Node) (es : List Edge)
    → IsClosed X g
    → All (IsLinked ((g.nodes ++ ms) ++ X)) es
    → IsClosed X (record { nodes = g.nodes ++ ms; edges = g.edges ++ es })
push-IsClosed X g ms es h k =
    All-append _ g.edges es
      (All-map g.edges
        (λ e p. (has_id-push g.nodes ms X e.from p.0, has_id-push g.nodes ms X e.to p.1)) h)
      k

in_graph :
    (ns ms X : List Node) (i : String) → has_id ns i ≡ true → has_id ((ns ++ ms) ++ X) i ≡ true
in_graph ns ms X i h = has_id-append_left (ns ++ ms) X i (has_id-append_left ns ms i h)

in_pushed :
    (ns ms X : List Node) (i : String) → has_id ms i ≡ true → has_id ((ns ++ ms) ++ X) i ≡ true
in_pushed ns ms X i h = has_id-append_left (ns ++ ms) X i (has_id-append_right ns ms i h)

in_exits :
    (ns ms X : List Node) (i : String) → has_id X i ≡ true → has_id ((ns ++ ms) ++ X) i ≡ true
in_exits ns ms X i h = has_id-append_right (ns ++ ms) X i h

module _ (js : Builtins) (f : Facts) (X : List Node) where
  add_normal-IsClosed :
      (g : Graph)
      → has_id g.nodes "client" ≡ true
      → (f.has_normal ≡ true → has_id X "ordinary-exit" ≡ true)
      → IsClosed X g
      → IsClosed X (add_normal f g)
  unfolding add_normal normal_node normal_direct_node
  add_normal-IsClosed g client out h =
      if-intro (IsClosed X) f.has_normal
        (λ e. push-IsClosed X g _ _ h (
          (in_graph g.nodes _ X "client" client, in_pushed g.nodes _ X "normal" refl),
          (
            (in_pushed g.nodes _ X "normal" refl, in_pushed g.nodes _ X "normal-direct" refl),
            (
              (
                in_pushed g.nodes _ X "normal-direct" refl,
                in_exits g.nodes (normal_node f ∷ normal_direct_node f ∷ []) X "ordinary-exit"
                    (out e),
              ),
              tt,
            ),
          ),
        ))
        (λ _. h)

  add_backup_mode-IsClosed :
      (g : Graph)
      → has_id g.nodes "backup" ≡ true
      → has_id X "backup-exit" ≡ true
      → IsClosed X g
      → IsClosed X (add_backup_mode js f g)
  unfolding add_backup_mode relay_node backup_direct_node
  add_backup_mode-IsClosed g backup out h =
      if-intro (IsClosed X) (is_mode f "relay")
        (λ _. push-IsClosed X g _ _ h (
          (in_graph g.nodes _ X "backup" backup, in_pushed g.nodes _ X "backup-relay" refl),
          (
            (
              in_pushed g.nodes _ X "backup-relay" refl,
              in_exits g.nodes (relay_node js f ∷ []) X "backup-exit" out,
            ),
            tt,
          ),
        ))
        (λ _.
          if-intro (IsClosed X) (is_mode f "direct")
            (λ _. push-IsClosed X g _ _ h (
              (in_graph g.nodes _ X "backup" backup, in_pushed g.nodes _ X "backup-direct" refl),
              (
                (
                  in_pushed g.nodes _ X "backup-direct" refl,
                  in_exits g.nodes (backup_direct_node f ∷ []) X "backup-exit" out,
                ),
                tt,
              ),
            ))
            (λ _. h))

  add_backup-IsClosed :
      (g : Graph)
      → has_id g.nodes "client" ≡ true
      → (f.has_backup ≡ true → has_id X "backup-exit" ≡ true)
      → IsClosed X g
      → IsClosed X (add_backup js f g)
  unfolding add_backup backup_node
  add_backup-IsClosed g client out h =
      if-intro (IsClosed X) f.has_backup
        (λ e.
          add_backup_mode-IsClosed _
            (has_id-append_right g.nodes (backup_node f ∷ []) "backup" refl) (out e)
            (push-IsClosed X g _ _ h
              ((in_graph g.nodes _ X "client" client, in_pushed g.nodes _ X "backup" refl), tt)))
        (λ _. h)

  candidate_edges-All :
      (ns : List Node) (i : ℕ) (n : Node)
      → (f.has_normal ≡ true → has_id ns "normal" ≡ true)
      → has_id X "ai-exit" ≡ true
      → All (IsLinked ((ns ++ (n ∷ [])) ++ X)) (candidate_edges f i n)
  unfolding candidate_edges
  candidate_edges-All ns i n normal out =
      if-intro (All (IsLinked ((ns ++ (n ∷ [])) ++ X))) f.has_normal
        (λ e. ((in_graph ns _ X "normal" (normal e), self), ((self, exits), tt)))
        (λ _. ((self, exits), tt))
    where
      self : has_id ((ns ++ (n ∷ [])) ++ X) n.id ≡ true
      self = in_pushed ns (n ∷ []) X n.id (rw (eq_refl n.id))

      exits : has_id ((ns ++ (n ∷ [])) ++ X) "ai-exit" ≡ true
      exits = has_id-append_right (ns ++ (n ∷ [])) X "ai-exit" out

  add_candidates-IsClosed :
      (i : ℕ) (cs : List Value) (g : Graph)
      → (f.has_normal ≡ true → has_id g.nodes "normal" ≡ true)
      → has_id X "ai-exit" ≡ true
      → IsClosed X g
      → IsClosed X (add_candidates f i cs g)
  unfolding add_candidates
  add_candidates-IsClosed i [] g normal out h = h
  add_candidates-IsClosed i (c ∷ cs) g normal out h =
      let n = candidate_node f g.nodes i c in
      add_candidates-IsClosed (i + 1) cs _
        (λ e. has_id-append_left g.nodes (n ∷ []) "normal" (normal e)) out
        (push-IsClosed X g (n ∷ []) _ h (candidate_edges-All g.nodes i n normal out))

  all_candidates-IsClosed :
      (cs : List Value) (g : Graph)
      → (f.has_normal ≡ true → has_id g.nodes "normal" ≡ true)
      → ((d : Value) (ds : List Value) → cs ≡ d ∷ ds → has_id X "ai-exit" ≡ true)
      → IsClosed X g
      → IsClosed X (add_candidates f 0 cs g)
  unfolding add_candidates
  all_candidates-IsClosed [] g normal out h = h
  all_candidates-IsClosed (c ∷ cs) g normal out h =
      unfold add_candidates in add_candidates-IsClosed 0 (c ∷ cs) g normal (out c cs refl) h

  -- Nothing that is drawn disappears.
  add_backup_mode-has_id :
      (g : Graph) (i : String)
      → has_id g.nodes i ≡ true
      → has_id (add_backup_mode js f g).nodes i ≡ true
  unfolding add_backup_mode
  add_backup_mode-has_id g i h =
      if-intro (HasId i) (is_mode f "relay") (λ _. has_id-append_left g.nodes _ i h)
        (λ _.
          if-intro (HasId i) (is_mode f "direct") (λ _. has_id-append_left g.nodes _ i h) (λ _. h))

  add_backup-has_id :
      (g : Graph) (i : String) → has_id g.nodes i ≡ true → has_id (add_backup js f g).nodes i ≡ true
  unfolding add_backup
  add_backup-has_id g i h =
      if-intro (HasId i) f.has_backup
        (λ _. add_backup_mode-has_id _ i (has_id-append_left g.nodes (backup_node f ∷ []) i h))
        (λ _. h)

  add_normal-has_id :
      (g : Graph) (i : String) → has_id g.nodes i ≡ true → has_id (add_normal f g).nodes i ≡ true
  unfolding add_normal
  add_normal-has_id g i h =
      if-intro (HasId i) f.has_normal (λ _. has_id-append_left g.nodes _ i h) (λ _. h)

  add_normal-has_id_normal :
      (g : Graph) → f.has_normal ≡ true → has_id (add_normal f g).nodes "normal" ≡ true
  unfolding add_normal normal_node
  add_normal-has_id_normal g e =
      if-intro (HasId "normal") f.has_normal
        (λ _. has_id-append_right g.nodes (normal_node f ∷ normal_direct_node f ∷ []) "normal" refl)
        (λ no. cc)

module _ (js : Builtins) (f : Facts) where
  ordinary_exit_drawn : f.has_normal ≡ true → has_id (exit_nodes js f) "ordinary-exit" ≡ true
  unfolding exit_nodes
  ordinary_exit_drawn e =
      has_id-append_left (ordinary_exit_nodes f) _ "ordinary-exit"
        (unfold ordinary_exit_nodes in ground arith)

  backup_exit_drawn : f.has_backup ≡ true → has_id (exit_nodes js f) "backup-exit" ≡ true
  unfolding exit_nodes
  backup_exit_drawn e = has_id-append_right (ordinary_exit_nodes f) _ "backup-exit" (
      has_id-append_right (ai_exit_nodes f f.candidates) (backup_exit_nodes js f) "backup-exit"
        (unfold backup_exit_nodes in ground arith))

  ai_exit_drawn :
      (c : Value) (cs : List Value)
      → f.candidates ≡ c ∷ cs
      → has_id (exit_nodes js f) "ai-exit" ≡ true
  unfolding exit_nodes
  ai_exit_drawn c cs e = has_id-append_right (ordinary_exit_nodes f) _ "ai-exit" (
      has_id-append_left (ai_exit_nodes f f.candidates) (backup_exit_nodes js f) "ai-exit"
        (unfold ai_exit_nodes in simp e))

  pub build_graph-IsLinked : All (IsLinked (build_graph js f).nodes) (build_graph js f).edges
  unfolding build_graph
  build_graph-IsLinked =
      let X = exit_nodes js f in
      let start : Graph = record { nodes = client_node f ∷ []; edges = [] } in
      let client : has_id start.nodes "client" ≡ true = unfold client_node in refl in
      all_candidates-IsClosed js f X f.candidates (add_backup js f (add_normal f start))
        (λ e. add_backup-has_id js f X _ "normal" (add_normal-has_id_normal js f X start e))
        ai_exit_drawn
        (add_backup-IsClosed js f X _ (add_normal-has_id js f X start "client" client)
          backup_exit_drawn (add_normal-IsClosed js f X start client ordinary_exit_drawn tt))

-- Every edge of the topology starts and ends at a node of the topology, whatever the snapshot.
pub edges-IsLinked :
    (js : Builtins) (value : Value)
    → All (IsLinked (build_traffic_topology js value).nodes) (build_traffic_topology js value).edges
unfolding build_traffic_topology
edges-IsLinked js value = build_graph-IsLinked js (facts_of js value)

add_candidates-has_id :
    (f : Facts) (position : ℕ) (cs : List Value) (g : Graph) (i : String)
    → has_id g.nodes i ≡ true
    → has_id (add_candidates f position cs g).nodes i ≡ true
unfolding add_candidates
add_candidates-has_id f position [] g i h = h
add_candidates-has_id f position (c ∷ cs) g i h =
    add_candidates-has_id f (position + 1) cs _ i (has_id-append_left g.nodes _ i h)

-- The client is a node of every topology.
pub client_drawn :
    (js : Builtins) (value : Value) → has_id (build_traffic_topology js value).nodes "client" ≡ true
unfolding build_traffic_topology build_graph client_node
client_drawn js value =
    let f = facts_of js value in
    let g0 : Graph = record { nodes = client_node f ∷ []; edges = [] } in
    let g1 = add_backup js f (add_normal f g0) in
    has_id-append_left (add_candidates f 0 f.candidates g1).nodes (exit_nodes js f) "client" (
      add_candidates-has_id f 0 f.candidates g1 "client" (
        add_backup-has_id js f [] (add_normal f g0) "client"
          (add_normal-has_id js f [] g0 "client" refl)))
