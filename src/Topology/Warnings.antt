-- ===== src/Topology/Warnings.antt =====
-- What the absence of a warning means in `buildTrafficTopology`
-- (frontend/src/admin/lib/topology.js).
use ai_routing_panel.Prelude.{Bool, true, Option, none, some, List, ◌≡◌, refl, ◌⊎◌, inl, inr, arith}
use ai_routing_panel.Js.{Value, Builtins}
use ai_routing_panel.Topology.Model.{
  RoutePath, normal_ai, normal_fallback, normal_direct, dns_backup_relay_ai, dns_backup_direct,
  State, active, Node,
}
use ai_routing_panel.Topology.Facts.{Facts, facts_of}
use ai_routing_panel.Topology.Nodes.{relay_of}
use ai_routing_panel.Topology.Summary.{
  is_active, is_relay_active, warning_from, warning_of, build_traffic_topology,
}

-- The paths on which nothing is to be confirmed by a probe.
abbrev pub IsDirectPath : RoutePath → Type 0
IsDirectPath p = (p ≡ normal_fallback) ⊎ (p ≡ normal_direct) ⊎ (p ≡ dns_backup_direct)

abbrev pub IsQuiet : Builtins → Facts → Type 0
IsQuiet js f =
    ((f.path ≡ normal_ai) × (f.ai_state ≡ active))
    ⊎ ((f.path ≡ dns_backup_relay_ai)
        × ((n : Node) × (relay_of js f ≡ some n) × (n.state ≡ active)))
    ⊎ IsDirectPath f.path

is_active-eq : (s : State) → is_active s ≡ true → s ≡ active
unfolding is_active
is_active-eq s h = ground arith

is_relay_active-some :
    (o : Option Node) → is_relay_active o ≡ true → (n : Node) × (o ≡ some n) × (n.state ≡ active)
unfolding is_relay_active
is_relay_active-some none h = cc
is_relay_active-some (some n) h = (n, refl, is_active-eq n.state h)

-- By the path: where a warning is due, its absence is impossible.
warning_from-none :
    (p : RoutePath) (all_traffic ai_active relay_active : Bool) (cs : List Value)
    → warning_from p all_traffic ai_active relay_active cs ≡ none
    → ((p ≡ normal_ai) × (ai_active ≡ true))
      ⊎ ((p ≡ dns_backup_relay_ai) × (relay_active ≡ true))
      ⊎ IsDirectPath p
unfolding warning_from
warning_from-none normal_ai all_traffic ai_active relay_active cs h = inl (refl, ground arith)
warning_from-none dns_backup_relay_ai all_traffic ai_active relay_active cs h =
    inr (inl (refl, ground arith))
warning_from-none normal_fallback all_traffic ai_active relay_active cs h = inr (inr (inl refl))
warning_from-none normal_direct all_traffic ai_active relay_active cs h = inr (inr (inr (inl refl)))
warning_from-none dns_backup_direct all_traffic ai_active relay_active cs h =
    inr (inr (inr (inr refl)))
warning_from-none _ all_traffic ai_active relay_active cs h = cc

warning_of-IsQuiet : (js : Builtins) (f : Facts) → warning_of js f ≡ none → IsQuiet js f
unfolding warning_of
warning_of-IsQuiet js f h =
    elim (warning_from-none f.path f.all_traffic (is_active f.ai_state) _ f.candidates h) [
      | inl (p, a) ↦ inl (p, is_active-eq f.ai_state a)
      | inr (inl (p, a)) ↦ inr (inl (p, is_relay_active-some _ a))
      | inr (inr d) ↦ inr (inr d)
    ]

-- If the topology carries no warning, then the path is the AI path with its branch confirmed active,
-- or the relay path with its relay confirmed active, or one of the three direct paths.
pub no_warning-IsQuiet :
    (js : Builtins) (value : Value)
    → (build_traffic_topology js value).warning ≡ none
    → IsQuiet js (facts_of js value)
unfolding build_traffic_topology
no_warning-IsQuiet js value h = warning_of-IsQuiet js (facts_of js value) h
