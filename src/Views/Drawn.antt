-- ===== src/Views/Drawn.antt =====
-- frontend/src/admin/components/TrafficTopology.jsx draws every topology: no node of an edge is
-- missing, and every node lies within the drawing.
use native.Mathlib.Nat.{mul-pos, mul-lt-mul_of_pos_left}
use mathlib.Core.List.{append_assoc}
use ai_routing_panel.Prelude.{
  Option-cases, ap, map, Option, All, ◌∙◌, false, suc, [], inr, ◌===◌, inl, Bool-cases, some,
  ==_iff, ◌+◌, filter, true, ◌==◌, ◌∷◌, length, ◌≡◌, ◌*◌, ◌++◌, Bool, ◌≤◌, ◌<◌, List, ℕ, String,
  refl, arith,
}
use ai_routing_panel.Topology.Model.{Topology, Edge, Node, Kind}
use ai_routing_panel.Topology.Links.{client_drawn, edges-IsLinked, IsLinked, has_id}
use ai_routing_panel.Console.State.{Activity}
use mathlib.Core.Path.{subst}
use ai_routing_panel.Js.{Value, Builtins}
use ai_routing_panel.Topology.Summary.{build_traffic_topology}
use ai_routing_panel.Views.Drawing.{
  routes_of, Drawing, selected_place, curve_between, Curve, layout, curves_of, curve_of, in_column,
  PlacedNode, places_from, place, height_of, find_place, column_size, column_of, draw,
}

-- A place between the margins of the drawing of this height.
pub record IsInside (height : ℕ) (p : PlacedNode) : Type 0 where
  pub left : 105 ≤ p.x
  pub right : p.x ≤ 855
  pub top : 0 < p.y_over
  pub bottom : p.y_over < height * p.y_under

column_of-le : (k : Kind) → column_of k ≤ 3
unfolding column_of
column_of-le Kind.client = omega arith
column_of-le Kind.entry = omega arith
column_of-le Kind.ai = omega arith
column_of-le Kind.relay = omega arith
column_of-le Kind.direct = omega arith
column_of-le Kind.exit = omega arith

filter-append :
    (p : Node → Bool) (xs ys : List Node)
    → length (filter p (xs ++ ys)) ≡ length (filter p xs) + length (filter p ys)
filter-append p [] ys = omega arith
filter-append p (x ∷ xs) ys = grind (arith, filter-append p xs ys)

filter_kept :
    (p : Node → Bool) (x : Node) (xs : List Node)
    → p x ≡ true
    → length (filter p (x ∷ xs)) ≡ suc (length (filter p xs))
filter_kept p x xs e = ground (arith, e)

-- The node itself comes after those before it.
column_size-lt :
    (before : List Node) (n : Node) (ns : List Node)
    → column_size (column_of n.kind) before < column_size (column_of n.kind) (before ++ (n ∷ ns))
unfolding column_size
column_size-lt before n ns =
    let own : (column_of n.kind == column_of n.kind) ≡ true =
      (==_iff (column_of n.kind) (column_of n.kind)).1 refl in
    omega (
      arith,
      filter-append (in_column (column_of n.kind)) before (n ∷ ns),
      filter_kept (in_column (column_of n.kind)) n ns own,
    )

height_of-pos : (ns : List Node) → 0 < height_of ns
unfolding height_of
height_of-pos ns = ground arith

place-IsInside :
    (before : List Node) (n : Node) (ns : List Node)
    → IsInside (height_of (before ++ (n ∷ ns))) (place (before ++ (n ∷ ns)) before n)
unfolding place
place-IsInside before n ns =
    let h = height_of-pos (before ++ (n ∷ ns)) in
    record {
      left = omega arith;
      right = omega (arith, column_of-le n.kind);
      top = mul-pos h (omega arith);
      bottom = mul-lt-mul_of_pos_left (omega (arith, column_size-lt before n ns)) h;
    }

find_here :
    (id : String) (p : PlacedNode) (ps : List PlacedNode)
    → (p.node.id === id) ≡ true
    → find_place id (p ∷ ps) ≡ some p
unfolding find_place
find_here id p ps e = ground (arith, e)

find_later :
    (id : String) (p : PlacedNode) (ps : List PlacedNode)
    → (p.node.id === id) ≡ false
    → find_place id (p ∷ ps) ≡ find_place id ps
unfolding find_place
find_later id p ps e = ground (arith, e)

find_place-some :
    (id : String) (all before ns : List Node)
    → has_id ns id ≡ true
    → (p : PlacedNode) × (find_place id (places_from all before ns) ≡ some p)
unfolding places_from place
find_place-some id all before [] h = absurd (ground (arith, h))
find_place-some id all before (n ∷ ns) h = elim (Bool-cases (n.id === id)) [
  | inl e ↦ (place all before n, find_here id _ _ e)
  | inr e ↦
      let later = find_place-some id all (before ++ (n ∷ [])) ns (ground (arith, e, h)) in
      (later.0, find_later id _ _ e ∙ later.1)
]

places_from-IsInside :
    (all before ns : List Node)
    → before ++ ns ≡ all
    → All (IsInside (height_of all)) (places_from all before ns)
unfolding places_from
places_from-IsInside all before [] e = tt
places_from-IsInside all before (n ∷ ns) e = (
  subst (λ a. IsInside (height_of a) (place a before n)) e (place-IsInside before n ns),
  places_from-IsInside all (before ++ (n ∷ [])) ns (append_assoc before (n ∷ []) ns ∙ e),
)

curve_of-some :
    (activity : Option Activity) (ns : List Node) (e : Edge)
    → IsLinked ns e
    → (c : Curve) × (curve_of activity (layout ns) e ≡ some c) × (c.edge ≡ e)
unfolding curve_of layout curve_between
curve_of-some activity ns e h =
    let source = find_place-some e.from ns [] ns h.0 in
    let target = find_place-some e.to ns [] ns h.1 in
    (curve_between activity e source.0 target.0, rw (source.1, target.1, curve_of) refl, refl)

curves_of-some :
    (activity : Option Activity) (ns : List Node) (es : List Edge)
    → All (IsLinked ns) es
    → (cs : List Curve) × (curves_of activity (layout ns) es ≡ some cs)
      × (map (λ c. c.edge) cs ≡ es)
unfolding curves_of
curves_of-some activity ns [] h = ([], refl, refl)
curves_of-some activity ns (e ∷ es) h =
    let c = curve_of-some activity ns e h.0 in
    let rest = curves_of-some activity ns es h.1 in
    (
      c.0 ∷ rest.0,
      rw (c.1, rest.1, curves_of) refl,
      ap (λ d. d ∷ map (λ c. c.edge) rest.0) c.2 ∙ ap (λ ds. e ∷ ds) rest.2,
    )

selected_place-some :
    (id : String) (ns : List Node)
    → has_id ns "client" ≡ true
    → (p : PlacedNode) × (selected_place id (layout ns) ≡ some p)
unfolding layout places_from selected_place place
selected_place-some id [] h = absurd (ground (arith, h))
selected_place-some id (n ∷ ns) h = elim (Option-cases (find_place id (layout (n ∷ ns)))) [
  | inl e ↦ (place (n ∷ ns) [] n, rw (e, selected_place) refl)
  | inr (p, e) ↦ (p, rw (e, selected_place) refl)
]

places_from-node : (all before ns : List Node) → map (λ p. p.node) (places_from all before ns) ≡ ns
unfolding places_from place
places_from-node all before [] = refl
places_from-node all before (n ∷ ns) =
    ap (λ ms. n ∷ ms) (places_from-node all (before ++ (n ∷ [])) ns)

-- The drawing has the nodes and the edges of the topology, and the nodes lie within it.
pub record IsDrawing (t : Topology) (d : Drawing) : Type 0 where
  pub nodes : map (λ p. p.node) d.places ≡ t.nodes
  pub edges : map (λ c. c.edge) d.curves ≡ t.edges
  pub inside : All (IsInside (height_of t.nodes)) d.places

-- The topology of every snapshot is drawn without a TypeError, whichever node was clicked and whatever
-- the traffic is: each of its nodes once, between the margins, each of its edges once, and one node
-- is selected.
pub draw-IsDrawing :
    (js : Builtins) (value : Value) (id : String) (activity : Option Activity)
    → (d : Drawing) × (draw (build_traffic_topology js value) id activity ≡ some d)
      × IsDrawing (build_traffic_topology js value) d
unfolding layout draw
draw-IsDrawing js value id activity =
    let t = build_traffic_topology js value in
    let cs = curves_of-some activity t.nodes t.edges (edges-IsLinked js value) in
    let p = selected_place-some id t.nodes (client_drawn js value) in
    (
      record {
        places = layout t.nodes;
        curves = cs.0;
        selected = p.0;
        routes = routes_of (layout t.nodes) t.edges;
      },
      rw (cs.1, p.1, draw) refl,
      record {
        nodes = places_from-node t.nodes [] t.nodes;
        edges = cs.2;
        inside = places_from-IsInside t.nodes [] t.nodes refl;
      },
    )
