-- ===== src/Views/Drawing.antt =====
-- frontend/src/admin/components/TrafficTopology.jsx: where the nodes and the edges of the topology are
-- drawn. The nodes of a topology are distinct objects, so `group.indexOf(node)` counts those of the
-- column before it. An x coordinate is a whole number and a y coordinate a quotient.
use ai_routing_panel.Prelude.{
  ltb, ◌&&◌, ◌-◌, get_elem?, ◌===◌, none, false, ◌==◌, leb, ◌++◌, ◌+◌, [], filter, ◌∷◌, some,
  if◌then◌else◌, find, Bool, length, ◌*◌, Option, String, List, ℕ,
}
use ai_routing_panel.Console.State.{Activity}
use ai_routing_panel.Js.{nat, nan}
use ai_routing_panel.Views.Routing.{is_kind}
use ai_routing_panel.Topology.Summary.{is_active}
use ai_routing_panel.Topology.Model.{Topology, Node, Edge, Kind}

-- `COLUMN`
unfoldable pub column_of : Kind → ℕ
column_of Kind.client = 0
column_of Kind.entry = 1
column_of Kind.ai = 2
column_of Kind.relay = 2
column_of Kind.direct = 2
column_of Kind.exit = 3

abbrev pub in_column : ℕ → Node → Bool
in_column column n = column_of n.kind == column

unfoldable pub column_size : ℕ → List Node → ℕ
column_size column ns = length (filter (in_column column) ns)

abbrev pub larger : ℕ → ℕ → ℕ
larger a b = if leb a b then b else a

unfoldable pub height_of : List Node → ℕ
height_of ns = larger 320 (larger (column_size 2 ns) (column_size 3 ns) * 94 + 90)

unfoldable pub min_height_of : List Node → ℕ
min_height_of ns = larger 280 ((column_size 2 ns + 1) * 78)

-- `y` is `y_over / y_under`.
pub record PlacedNode : Type 0 where
  pub node : Node
  pub x : ℕ
  pub y_over : ℕ
  pub y_under : ℕ

-- The place of a node of `all` that has the nodes of `before` before it.
unfoldable pub place : List Node → List Node → Node → PlacedNode
place all before n = record {
  node = n;
  x = 105 + column_of n.kind * 250;
  y_over = height_of all * (column_size (column_of n.kind) before + 1);
  y_under = column_size (column_of n.kind) all + 1;
}

unfoldable pub places_from : List Node → List Node → List Node → List PlacedNode
places_from all before [] = []
places_from all before (n ∷ ns) = place all before n ∷ places_from all (before ++ (n ∷ [])) ns

-- `layout(nodes).nodes`
unfoldable pub layout : List Node → List PlacedNode
layout ns = places_from ns [] ns

unfoldable pub find_place : String → List PlacedNode → Option PlacedNode
find_place id ps = find (λ p. p.node.id === id) ps

-- `activity?.bytes > 0`
unfoldable pub has_traffic : Option Activity → Bool
has_traffic none = false
has_traffic (some activity) = elim activity.bytes [ nan ↦ false | nat n ↦ ltb 0 n ]

-- The path of an edge: `twice_mid` is `x1 + x2`.
pub record Curve : Type 0 where
  pub edge : Edge
  pub source : PlacedNode
  pub target : PlacedNode
  pub x1 : ℕ
  pub x2 : ℕ
  pub twice_mid : ℕ
  pub moving : Bool

unfoldable pub curve_between : Option Activity → Edge → PlacedNode → PlacedNode → Curve
curve_between activity e source target = record {
  edge = e;
  source = source;
  target = target;
  x1 = source.x + 78;
  x2 = target.x - 78;
  twice_mid = source.x + 78 + (target.x - 78);
  moving = e.from === "client" && is_active e.state && has_traffic activity;
}

-- `none` is the TypeError of reading a coordinate of a node that is not there.
unfoldable pub curve_of : Option Activity → List PlacedNode → Edge → Option Curve
curve_of activity ps e = elim (find_place e.from ps) [
  | none ↦ none
  | some source ↦ elim (find_place e.to ps) [
    | none ↦ none
    | some target ↦ some (curve_between activity e source target)
  ]
]

unfoldable pub curves_of : Option Activity → List PlacedNode → List Edge → Option (List Curve)
curves_of activity ps [] = some []
curves_of activity ps (e ∷ es) = elim (curve_of activity ps e) [
  | none ↦ none
  | some c ↦ elim (curves_of activity ps es) [ none ↦ none | some cs ↦ some (c ∷ cs) ]
]

unfoldable pub is_entry_place : Option PlacedNode → Bool
is_entry_place none = false
is_entry_place (some p) = is_kind p.node.kind Kind.entry

-- `routes`
unfoldable pub routes_of : List PlacedNode → List Edge → List Edge
routes_of ps es = filter (λ e. is_entry_place (find_place e.from ps)) es

-- `nodes.find(…) || nodes[0]`
unfoldable pub selected_place : String → List PlacedNode → Option PlacedNode
selected_place id ps = elim (find_place id ps) [ some p ↦ some p | none ↦ get_elem? ps 0 ]

pub record Drawing : Type 0 where
  pub places : List PlacedNode
  pub curves : List Curve
  pub selected : PlacedNode
  pub routes : List Edge

-- The drawing with the node that was clicked last; `none` is a TypeError.
unfoldable pub draw : Topology → String → Option Activity → Option Drawing
draw t id activity =
    let ps : List PlacedNode = layout t.nodes in
    elim (curves_of activity ps t.edges) [
      | none ↦ none
      | some cs ↦ elim (selected_place id ps) [
        | none ↦ none
        | some p ↦
            some (record { places = ps; curves = cs; selected = p; routes = routes_of ps t.edges })
      ]
    ]
