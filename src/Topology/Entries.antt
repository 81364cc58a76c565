-- ===== src/Topology/Entries.antt =====
-- Which entry `buildTrafficTopology` (frontend/src/admin/lib/topology.js) marks as active, and when
-- it marks the upstream of the backup relay as active.
use ai_routing_panel.Prelude.{
  get_elem?, All-get_elem?, ℕ, String, Bool, true, ◌&&◌, Option, none, some, All, ◌≡◌, refl, arith,
  sym, ◌∙◌,
}
use ai_routing_panel.Js.{Value, Builtins, get, is_true, is_str, truthy}
use ai_routing_panel.Topology.Model.{
  RoutePath, dns_backup_relay_ai, is_path, is_normal, is_backup, active, Kind, Node, Entry, normal,
  backup, is_entry,
}
use ai_routing_panel.Topology.Facts.{Facts, facts_of, entry_of}
use ai_routing_panel.Topology.Nodes.{
  client_node, normal_node, normal_direct_node, backup_node, relay_node, backup_direct_node,
  entry_state, relay_target, relay_match, match_probe, relay_state,
}
use ai_routing_panel.Topology.Candidates.{candidate_node}
use ai_routing_panel.Topology.Summary.{build_traffic_topology}
use ai_routing_panel.Topology.Graph.{build_graph-All}
use ai_routing_panel.Topology.Evidence.{state_or-active, probe_state-ne-active}

-- What an entry needs to be active: a path of its kind, and its own configuration.
abbrev pub IsOpen : Facts → Entry → Type 0
IsOpen f normal =
    (is_normal f.path ≡ true) × (is_true (get (get f.panel "dataPlaneStatus") "configured") ≡ true)
IsOpen f backup =
    (is_backup f.path ≡ true)
    × (is_true (get f.dns "enabled") ≡ true)
    × (is_true (get f.dns "configured") ≡ true)

abbrev pub id_of : Entry → String
id_of normal = "normal"
id_of backup = "backup"

-- The nodes that may be active besides the exits: the client, and the entry itself.
abbrev EntryMark : Facts → Node → Type 0
EntryMark f n =
    n.kind ≡ Kind.entry → n.state ≡ active → (e : Entry) × (f.entry ≡ some e) × (n.id ≡ id_of e)

is_entry-eq : (o : Option Entry) (e : Entry) → is_entry o e ≡ true → o ≡ some e
unfolding is_entry
is_entry-eq none e h = cc
is_entry-eq (some normal) normal h = refl
is_entry-eq (some normal) backup h = cc
is_entry-eq (some backup) normal h = cc
is_entry-eq (some backup) backup h = refl

entry_state-active : (f : Facts) (e : Entry) → entry_state f e ≡ active → f.entry ≡ some e
unfolding entry_state
entry_state-active f e h = ground (arith, is_entry-eq f.entry e)

nodes-EntryMark :
    (js : Builtins) (value : Value)
    → All (EntryMark (facts_of js value)) (build_traffic_topology js value).nodes
unfolding build_traffic_topology client_node normal_node normal_direct_node backup_node relay_node
    backup_direct_node candidate_node
nodes-EntryMark js value = build_graph-All js f _ (record {
  of_client = λ k s. cc;
  of_normal = λ k s. (normal, entry_state-active f normal s, refl);
  of_normal_direct = λ k s. cc;
  of_backup = λ k s. (backup, entry_state-active f backup s, refl);
  of_relay = λ k s. cc;
  of_backup_direct = λ k s. cc;
  of_candidate = λ ns i c k s. cc;
  of_exit = λ i l s text k e. cc;
})
  where
    f : Facts
    f = facts_of js value

entry_of-normal :
    (p : RoutePath) (a b : Bool) → entry_of p a b ≡ some normal → (is_normal p ≡ true) × (a ≡ true)
unfolding entry_of
entry_of-normal p a b h = ground arith

entry_of-backup :
    (p : RoutePath) (a b c : Bool)
    → entry_of p a (b && c) ≡ some backup
    → (is_backup p ≡ true) × (b ≡ true) × (c ≡ true)
unfolding entry_of
entry_of-backup p a b c h = ground arith

entry_of-IsOpen :
    (js : Builtins) (value : Value) (e : Entry)
    → (facts_of js value).entry ≡ some e
    → IsOpen (facts_of js value) e
unfolding facts_of
entry_of-IsOpen js value normal h = entry_of-normal _ _ _ h
entry_of-IsOpen js value backup h = entry_of-backup _ _ _ _ h

-- An entry node that is marked as active is the normal or the backup entry, and is open: the path
-- is of its kind, and the snapshot says that the data plane is configured, or that the DNS
-- failover is enabled and configured.
pub active_entry-IsOpen :
    (js : Builtins) (value : Value) (i : ℕ) (n : Node)
    → get_elem? (build_traffic_topology js value).nodes i ≡ some n
    → n.kind ≡ Kind.entry
    → n.state ≡ active
    → (e : Entry) × (n.id ≡ id_of e) × IsOpen (facts_of js value) e
active_entry-IsOpen js value i n h k s =
    let (e, chosen, named) = All-get_elem? _ _ i (nodes-EntryMark js value) h k s in
    (e, named, entry_of-IsOpen js value e chosen)

some-injective : (d e : Entry) → ◌≡◌ {A = Option Entry} (some d) (some e) → d ≡ e
some-injective d e h = ground arith

-- Two entry nodes are never both active: those that are have the same id.
pub active_entry_unique :
    (js : Builtins) (value : Value) (i j : ℕ) (n m : Node)
    → get_elem? (build_traffic_topology js value).nodes i ≡ some n
    → get_elem? (build_traffic_topology js value).nodes j ≡ some m
    → n.kind ≡ Kind.entry
    → m.kind ≡ Kind.entry
    → n.state ≡ active
    → m.state ≡ active
    → n.id ≡ m.id
active_entry_unique js value i j n m at_i at_j kn km sn sm =
    let (d, chosen_d, named_d) = All-get_elem? _ _ i (nodes-EntryMark js value) at_i kn sn in
    let (e, chosen_e, named_e) = All-get_elem? _ _ j (nodes-EntryMark js value) at_j km sm in
    cc (some-injective d e (sym chosen_d ∙ chosen_e))

-- What the relay needs to be active: the backup entry is open on the relay path, the configured
-- upstream is that of a candidate whose probe found it reachable, and the branch is reported active.
pub record IsRelayConfirmed (js : Builtins) (f : Facts) : Type 0 where
  pub open_entry : IsOpen f backup
  pub path : f.path ≡ dns_backup_relay_ai
  pub target : truthy (get (relay_target f) "upstream_host") ≡ true
  pub probed : is_true (match_probe (relay_match js f)) ≡ true
  pub branch : is_str (get f.routing "ai_branch_state") "active" ≡ true

is_path-relay : (p : RoutePath) → is_path p dns_backup_relay_ai ≡ true → p ≡ dns_backup_relay_ai
unfolding is_path
is_path-relay p h = ground arith

relay_state-active :
    (f : Facts) (probe : Value)
    → relay_state f probe ≡ active
    → (is_entry f.entry backup ≡ true)
      × (is_path f.path dns_backup_relay_ai ≡ true)
      × (truthy (get (relay_target f) "upstream_host") ≡ true)
      × (is_true probe ≡ true)
      × (is_str (get f.routing "ai_branch_state") "active" ≡ true)
unfolding relay_state
relay_state-active f probe h =
    ground (arith, probe_state-ne-active probe, state_or-active (get f.routing "ai_branch_state"))

relay_state-IsRelayConfirmed :
    (js : Builtins) (value : Value)
    → relay_state (facts_of js value) (match_probe (relay_match js (facts_of js value))) ≡ active
    → IsRelayConfirmed js (facts_of js value)
relay_state-IsRelayConfirmed js value h =
    let f = facts_of js value in
    let (here, path, target, probed, branch) = relay_state-active f _ h in
    record {
      open_entry = entry_of-IsOpen js value backup (is_entry-eq f.entry backup here);
      path = is_path-relay f.path path;
      target = target;
      probed = probed;
      branch = branch;
    }

nodes-IsRelayConfirmed :
    (js : Builtins) (value : Value)
    → All
        (λ n. n.kind ≡ Kind.relay → n.state ≡ active → IsRelayConfirmed js (facts_of js value))
        (build_traffic_topology js value).nodes
unfolding build_traffic_topology client_node normal_node normal_direct_node backup_node relay_node
    backup_direct_node candidate_node
nodes-IsRelayConfirmed js value = build_graph-All js (facts_of js value) _ (record {
  of_client = λ k s. cc;
  of_normal = λ k s. cc;
  of_normal_direct = λ k s. cc;
  of_backup = λ k s. cc;
  of_relay = λ k s. relay_state-IsRelayConfirmed js value s;
  of_backup_direct = λ k s. cc;
  of_candidate = λ ns i c k s. cc;
  of_exit = λ i l s text k e. cc;
})

-- If the topology marks the upstream of the backup relay as active, then the snapshot holds the
-- evidence of `IsRelayConfirmed`.
pub active_relay-IsConfirmed :
    (js : Builtins) (value : Value) (i : ℕ) (n : Node)
    → get_elem? (build_traffic_topology js value).nodes i ≡ some n
    → n.kind ≡ Kind.relay
    → n.state ≡ active
    → IsRelayConfirmed js (facts_of js value)
active_relay-IsConfirmed js value i n h = All-get_elem? _ _ i (nodes-IsRelayConfirmed js value) h
