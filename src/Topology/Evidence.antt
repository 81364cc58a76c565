-- ===== src/Topology/Evidence.antt =====
-- When `buildTrafficTopology` (frontend/src/admin/lib/topology.js) marks an AI exit as active.
use ai_routing_panel.Prelude.{
  get_elem?, All-get_elem?, ℕ, Bool, true, false, ◌&&◌, Option, none, some, All, ◌≡◌, refl, ◌⊎◌,
  ◌≢◌, arith,
}
use ai_routing_panel.Js.{Value, Builtins, get, is_true, is_str, truthy}
use ai_routing_panel.Topology.Model.{
  Node, RoutePath, normal_ai, parse_path, is_path, is_normal, active, unknown, state_or, Kind,
}
use ai_routing_panel.Topology.Facts.{
  Facts, facts_of, is_applied, is_report_time, candidates_of, select, selected_probe, is_some,
  settled_path, ai_state_of, probe_state,
}
use ai_routing_panel.Topology.Candidates.{candidate_state, candidate_node}
use ai_routing_panel.Topology.Nodes.{
  client_node, normal_node, normal_direct_node, backup_node, relay_node, backup_direct_node,
}
use ai_routing_panel.Topology.Summary.{build_traffic_topology}
use ai_routing_panel.Topology.Graph.{build_graph-All}

pub is_path-eq : (p : RoutePath) → is_path p normal_ai ≡ true → p ≡ normal_ai
unfolding is_path
is_path-eq p h = ground arith

pub state_or-active : (v : Value) → state_or v unknown ≡ active → is_str v "active" ≡ true
unfolding state_or is_str
state_or-active v h = ground arith

-- A settled AI path was reported, applied, and has one selected candidate.
pub settled_path-eq :
    (p : RoutePath) (applied : Bool) (s : Option (ℕ × Value))
    → settled_path p applied s ≡ normal_ai
    → (p ≡ normal_ai) × (applied ≡ true) × (is_some s ≡ true)
unfolding settled_path is_path
settled_path-eq p applied s h = ground arith

pub probe_state-ne-active : (v : Value) → probe_state v ≢ active
unfolding probe_state
probe_state-ne-active v h = ground arith

-- What the report of the snapshot says where an AI path is applied.
pub record IsAppliedReport (js : Builtins) (report : Value) : Type 0 where
  pub status :
      (is_str (get report "status") "applied" ≡ true)
      ⊎ ((is_str (get report "status") "probe_error" ≡ true)
          × (is_true (get report "route_preserved") ≡ true))
  pub config :
      (is_str (get report "config_apply_status") "direct" ≡ true)
      ⊎ (is_str (get report "config_apply_status") "unchanged" ≡ true)
  pub dated : is_report_time js (get report "report_generated_at") ≡ true
  pub no_error : truthy (get report "sync_error") ≡ false

is_applied-IsAppliedReport :
    (js : Builtins) (report : Value) → is_applied js report ≡ true → IsAppliedReport js report
unfolding is_applied
is_applied-IsAppliedReport js report h = ground arith

-- The evidence for an active AI exit, in the parts of the snapshot.
pub record IsConfirmed (js : Builtins) (f : Facts) : Type 0 where
  pub managed : is_true (get (get f.panel "dataPlaneStatus") "configured") ≡ true
  pub reported : parse_path (get f.routing "path") ≡ normal_ai
  pub report : IsAppliedReport js f.ai
  pub branch : is_str (get f.routing "ai_branch_state") "active" ≡ true
  pub chosen :
      (i : ℕ) × (c : Value) × (select (candidates_of f.ai) ≡ some (i, c))
      × (is_true (get c "is_reachable") ≡ true)

and_right : (a b : Bool) → (a && b) ≡ true → b ≡ true
and_right a b h = ground arith

selected_probe-some :
    (s : Option (ℕ × Value))
    → is_true (selected_probe s) ≡ true
    → (i : ℕ) × (c : Value) × (s ≡ some (i, c)) × (is_true (get c "is_reachable") ≡ true)
unfolding selected_probe is_true
selected_probe-some none h = cc
selected_probe-some (some (i, c)) h = (i, c, refl, h)

ai_state_of-active :
    (routing : Value) (p : RoutePath) (probe : Value)
    → ai_state_of routing p probe ≡ active
    → (is_path p normal_ai ≡ true)
      × (is_true probe ≡ true)
      × (is_str (get routing "ai_branch_state") "active" ≡ true)
unfolding ai_state_of
ai_state_of-active routing p probe h =
    ground (arith, state_or-active (get routing "ai_branch_state"))

-- A candidate is active only on the confirmed path of a configured data plane.
candidate_state-active :
    (f : Facts) (i : ℕ) (c : Value)
    → candidate_state f i c ≡ active
    → (f.normal_path ≡ true) × (f.ai_state ≡ active)
unfolding candidate_state
candidate_state-active f i c h = ground (arith, probe_state-ne-active (get c "is_reachable"))

facts_of-IsConfirmed :
    (js : Builtins) (value : Value)
    → (facts_of js value).normal_path ≡ true
    → (facts_of js value).ai_state ≡ active
    → IsConfirmed js (facts_of js value)
unfolding facts_of
facts_of-IsConfirmed js value h k =
    let (here, probed, branch) = ai_state_of-active routing path probe k in
    let (reported, applied, one) = settled_path-eq _ f.applied f.selected (is_path-eq path here) in
    record {
      managed = and_right (is_normal path) _ h;
      reported = reported;
      report = is_applied-IsAppliedReport js f.ai applied;
      branch = branch;
      chosen = selected_probe-some f.selected probed;
    }
  where
    f : Facts
    f = facts_of js value

    open f use {routing, path}

    probe : Value
    probe = selected_probe f.selected

nodes-IsConfirmed :
    (js : Builtins) (value : Value)
    → All
        (λ n. n.kind ≡ Kind.ai → n.state ≡ active → IsConfirmed js (facts_of js value))
        (build_traffic_topology js value).nodes
unfolding build_traffic_topology client_node normal_node normal_direct_node backup_node relay_node
    backup_direct_node candidate_node
nodes-IsConfirmed js value = build_graph-All js (facts_of js value) _ (record {
  of_client = λ k s. cc;
  of_normal = λ k s. cc;
  of_normal_direct = λ k s. cc;
  of_backup = λ k s. cc;
  of_relay = λ k s. cc;
  of_backup_direct = λ k s. cc;
  of_candidate = λ ns i c k s.
      let (path, state) = candidate_state-active (facts_of js value) i c s in
      facts_of-IsConfirmed js value path state;
  of_exit = λ i l s text k e. cc;
})

-- If the topology marks the node of an AI candidate as active, then the snapshot holds the whole
-- evidence: the data plane is configured, the reported path is the AI path, the report is applied,
-- dated and free of errors, exactly one candidate is selected and its probe found it reachable, and
-- the branch is reported active.
pub active-IsConfirmed :
    (js : Builtins) (value : Value) (i : ℕ) (n : Node)
    → get_elem? (build_traffic_topology js value).nodes i ≡ some n
    → n.kind ≡ Kind.ai
    → n.state ≡ active
    → IsConfirmed js (facts_of js value)
active-IsConfirmed js value i n h = All-get_elem? _ _ i (nodes-IsConfirmed js value) h
