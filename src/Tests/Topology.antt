-- ===== src/Tests/Topology.antt =====
-- The topology of two snapshots, and its theorems at them.
use ai_routing_panel.Tests.Samples.{plain, relay_snapshot, ai_snapshot, topology_of}
use ai_routing_panel.Topology.Model.{unknown, blocked, standby, active, Entry, Kind, Node}
use ai_routing_panel.Topology.Entries.{
  active_entry-IsOpen, active_relay-IsConfirmed, IsOpen, id_of, active_entry_unique,
  IsRelayConfirmed,
}
use ai_routing_panel.Topology.Evidence.{active-IsConfirmed, IsConfirmed}
use ai_routing_panel.Topology.Warnings.{no_warning-IsQuiet, IsQuiet}
use ai_routing_panel.Topology.Links.{edges-IsLinked, IsLinked}
use ai_routing_panel.Js.{bool, undefined, str}
use ai_routing_panel.Topology.Summary.{build_traffic_topology}
use ai_routing_panel.Topology.Facts.{facts_of}
use ai_routing_panel.Topology.Texts.{ai_selected_text, normal_text, relay_text}
use ai_routing_panel.Prelude.{true, All, [], ◌∷◌, map, ◌≡◌, refl}

ids :
    map (λ n. n.id) (topology_of ai_snapshot).nodes
    ≡ "client" ∷ "normal" ∷ "normal-direct" ∷ "ai-0" ∷ "ai-1" ∷ "ordinary-exit" ∷ "ai-exit" ∷ []
unfolding topology_of
ids = refl

relay_states :
    map (λ n. n.state) (topology_of relay_snapshot).nodes
    ≡ active ∷ standby ∷ standby ∷ active ∷ active ∷ standby ∷ blocked ∷ standby ∷ unknown ∷ active
      ∷ []
unfolding topology_of
relay_states = refl

-- the nodes of the witnesses
abbrev chosen : Node
chosen = record {
  id = "ai-0";
  kind = Kind.ai;
  label = str "AI 候选 1";
  role = "AI 候选";
  state = active;
  address = str "a.example:443";
  selected = bool true;
  probe_label = str "候选探测可达";
  description = ai_selected_text;
}

abbrev primary : Node
primary = record {
  id = "normal";
  kind = Kind.entry;
  label = str "普通数据面";
  role = "主入口";
  state = active;
  address = str "未报告接入地址";
  selected = undefined;
  probe_label = undefined;
  description = normal_text;
}

abbrev upstream : Node
upstream = record {
  id = "backup-relay";
  kind = Kind.relay;
  label = str "备用中继上游";
  role = "全部域名中继";
  state = active;
  address = str "a.example:443";
  selected = undefined;
  probe_label = str "匹配上游探测可达";
  description = relay_text;
}

active-IsConfirmed_example : IsConfirmed plain (facts_of plain ai_snapshot)
unfolding topology_of
active-IsConfirmed_example = active-IsConfirmed plain ai_snapshot 3 chosen refl refl refl

entry-IsOpen : (e : Entry) × (primary.id ≡ id_of e) × IsOpen (facts_of plain ai_snapshot) e
unfolding topology_of
entry-IsOpen = active_entry-IsOpen plain ai_snapshot 1 primary refl refl refl

one_entry : primary.id ≡ primary.id
unfolding topology_of
one_entry = active_entry_unique plain ai_snapshot 1 1 primary primary refl refl refl refl refl refl

active_relay-IsConfirmed_example : IsRelayConfirmed plain (facts_of plain relay_snapshot)
unfolding topology_of
active_relay-IsConfirmed_example =
    active_relay-IsConfirmed plain relay_snapshot 4 upstream refl refl refl

no_warning-IsQuiet_example : IsQuiet plain (facts_of plain relay_snapshot)
unfolding topology_of
no_warning-IsQuiet_example = no_warning-IsQuiet plain relay_snapshot refl

edges-IsLinked_example :
    All
      (IsLinked (build_traffic_topology plain relay_snapshot).nodes)
      (build_traffic_topology plain relay_snapshot).edges
edges-IsLinked_example = edges-IsLinked plain relay_snapshot
