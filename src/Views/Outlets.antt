-- ===== src/Views/Outlets.antt =====
-- What the card "当前出口" of the routing view shows is confirmed by the snapshot.
use ai_routing_panel.Topology.Summary.{build_traffic_topology, is_active}
use ai_routing_panel.Views.Routing.{
  is_direct_path, is_direct_outlet, is_ai_outlet, outlet_of, kind_code, is_kind,
}
use ai_routing_panel.Prelude.{
  Option, if-intro, Option-cases, ◌≢◌, [], suc, inr, ◌∙◌, sym, ap, inl, Bool-cases, ◌∷◌, get_elem?,
  ℕ, some, arith, true, find, List, ◌≡◌, Bool,
}
use ai_routing_panel.Js.{Value, Builtins}
use ai_routing_panel.Topology.Evidence.{active-IsConfirmed, IsConfirmed}
use ai_routing_panel.Topology.Facts.{facts_of}
use ai_routing_panel.Topology.Entries.{active_relay-IsConfirmed, IsRelayConfirmed}
use ai_routing_panel.Topology.Model.{active, Kind, State, Node}

get_find :
    (p : Node → Bool) (xs : List Node) (n : Node)
    → find p xs ≡ some n
    → (i : ℕ) × (get_elem? xs i ≡ some n) × (p n ≡ true)
get_find p [] n h = cc
get_find p (x ∷ xs) n h = elim (Bool-cases (p x)) [
  | inl e ↦ let same : x ≡ n = ground (arith, e, h) in (0, ap some same, ap p (sym same) ∙ e)
  | inr e ↦ let rest = get_find p xs n (ground (arith, e, h)) in (suc rest.0, rest.1, rest.2)
]

is_kind-eq : (k l : Kind) → is_kind k l ≡ true → kind_code k ≡ kind_code l
unfolding is_kind
is_kind-eq k l h = ground arith

is_kind_ai : (k : Kind) → is_kind k Kind.ai ≡ true → k ≡ Kind.ai
unfolding is_kind kind_code
is_kind_ai k h = ground arith

is_kind_relay : (k : Kind) → is_kind k Kind.relay ≡ true → k ≡ Kind.relay
unfolding is_kind kind_code
is_kind_relay k h = ground arith

is_active-eq : (s : State) → is_active s ≡ true → s ≡ active
unfolding is_active
is_active-eq s h = ground arith

-- The evidence for the node that is shown as the current exit.
pub record IsShownExit (js : Builtins) (value : Value) (n : Node) : Type 0 where
  pub state : n.state ≡ active
  pub ai_exit : n.kind ≡ Kind.ai → IsConfirmed js (facts_of js value)
  pub relay_exit : n.kind ≡ Kind.relay → IsRelayConfirmed js (facts_of js value)
  pub other_exit :
      n.kind ≢ Kind.ai
      → n.kind ≢ Kind.relay
      → (n.kind ≡ Kind.direct) × (is_direct_path (build_traffic_topology js value).path ≡ true)

is_kind_direct : (k : Kind) → is_kind k Kind.direct ≡ true → k ≡ Kind.direct
unfolding is_kind kind_code
is_kind_direct k h = ground arith

module _ (js : Builtins) (value : Value) (n : Node) where
  ai_outlet-IsShownExit :
      find is_ai_outlet (build_traffic_topology js value).nodes ≡ some n → IsShownExit js value n
  unfolding is_ai_outlet
  ai_outlet-IsShownExit h =
      let found = get_find is_ai_outlet (build_traffic_topology js value).nodes n h in
      let s = is_active-eq n.state (ground (arith, found.2)) in
      record {
        state = s;
        ai_exit = λ k. active-IsConfirmed js value found.0 n found.1 k s;
        relay_exit = λ k. active_relay-IsConfirmed js value found.0 n found.1 k s;
        other_exit = λ p q. absurd (ai_or_relay found.2 p q);
      }
    where
      ai_or_relay : is_ai_outlet n ≡ true → n.kind ≢ Kind.ai → n.kind ≢ Kind.relay → ⊥
      ai_or_relay e p q = elim (Bool-cases (is_kind n.kind Kind.ai)) [
        | inl k ↦ p (is_kind_ai n.kind k)
        | inr k ↦ q (is_kind_relay n.kind (ground (arith, e, k)))
      ]

  direct_outlet-IsShownExit :
      is_direct_path (build_traffic_topology js value).path ≡ true
      → find is_direct_outlet (build_traffic_topology js value).nodes ≡ some n
      → IsShownExit js value n
  unfolding is_direct_outlet
  direct_outlet-IsShownExit d h =
      let found = get_find is_direct_outlet (build_traffic_topology js value).nodes n h in
      let s = is_active-eq n.state (ground (arith, found.2)) in
      let k = is_kind_direct n.kind (ground (arith, found.2)) in
      record { state = s; ai_exit = λ e. cc; relay_exit = λ e. cc; other_exit = λ p q. (k, d) }

  -- If the card names an exit, this node of the topology is active, and the snapshot confirms it: an
  -- AI exit by the evidence of an applied AI path, a relay by that of the backup relay, and any other
  -- is a direct exit on a path that leaves directly.
  pub outlet_of-IsShownExit :
      outlet_of (build_traffic_topology js value) ≡ some n → IsShownExit js value n
  unfolding outlet_of
  outlet_of-IsShownExit h =
      elim (Option-cases (find is_ai_outlet (build_traffic_topology js value).nodes)) [
        | inl e ↦
            if-intro (λ (o : Option Node). o ≡ some n → IsShownExit js value n)
              (is_direct_path (build_traffic_topology js value).path)
              (λ d q. direct_outlet-IsShownExit d q) (λ _ q. cc) (rw (e, outlet_of) at h)
        | inr (m, e) ↦
            let same : some m ≡ some n = rw (e, outlet_of) at h in ai_outlet-IsShownExit (e ∙ same)
      ]
