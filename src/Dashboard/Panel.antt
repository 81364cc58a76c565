-- ===== src/Dashboard/Panel.antt =====
-- `normalizeDashboard` and the totals of frontend/src/admin/lib/dashboard.js, and the empty form of
-- frontend/src/utils.js. `none` is the TypeError that JavaScript raises on a malformed payload.
use ai_routing_panel.Prelude.{List, [], ◌∷◌, Option, none, some, if◌then◌else◌}
use ai_routing_panel.Js.{
  Value, str, obj, end, Builtins, Num, or_else, coalesce, get, put, is_array, is_nullish, elements,
  truthy, to_str, number, add_num, object, array,
}

pub record Panel : Type 0 where
  pub meta : Value
  pub summary : Value
  pub subscription : Value
  pub data_plane_status : Value
  pub ai_node_status : Value
  pub ai_nodes : Value
  pub ai_routing_status : Value
  pub dns_failover_status : Value
  pub nodes : Value
  pub traffic_routing : Value
  pub ai_domain_stats : Value
  pub ports : List Value

abbrev pub empty : Value
empty = obj end

-- `EMPTY_PANEL`
abbrev pub empty_panel : Panel
empty_panel = record {
  meta = empty;
  summary = empty;
  subscription = empty;
  data_plane_status = empty;
  ai_node_status = empty;
  ai_nodes = array [];
  ai_routing_status = empty;
  dns_failover_status = empty;
  nodes = array [];
  traffic_routing = empty;
  ai_domain_stats = empty;
  ports = [];
}

-- `createEmptyPortForm`
abbrev pub empty_port_form : Value
empty_port_form = object (
    ("listen_port", str "")
    ∷ ("expires_at", str "")
    ∷ ("traffic_limit", str "")
    ∷ ("note", str "")
    ∷ [])

-- `preparePort` of a port that can be read
unfoldable pub prepared : Value → Value
prepared port =
    put "form"
      (object (
        ("listen_port", str (to_str (coalesce (get port "listen_port") (str ""))))
        ∷ ("expires_at", or_else (get port "expires_at_input") (str ""))
        ∷ ("traffic_limit", or_else (get port "traffic_limit_input") (str ""))
        ∷ ("note", or_else (get port "note") (str ""))
        ∷ []))
      port

-- Reading a field of `null` or `undefined` is a TypeError.
unfoldable pub prepare_ports : List Value → Option (List Value)
prepare_ports [] = some []
prepare_ports (p ∷ ps) =
    let rest = prepare_ports ps in
    if is_nullish p then none else elim rest [ none ↦ none | some qs ↦ some (prepared p ∷ qs) ]

-- `(payload.ports || []).map(preparePort)`
unfoldable pub ports_of : Value → Option (List Value)
ports_of ports =
    if truthy ports
    then (if is_array ports then prepare_ports (elements ports) else none)
    else some []

-- An array, or the empty one.
unfoldable pub array_or : Value → Value → Value
array_or v w = if is_array v then v else w

unfoldable pub panel_of : Value → Value → List Value → Panel
panel_of payload meta ports =
    let ai_node_status = or_else (get meta "ai_node_status") empty in
    record {
      meta = meta;
      summary = or_else (get payload "summary") empty;
      subscription = or_else (get payload "subscription") empty;
      data_plane_status = or_else (get meta "data_plane_status") empty;
      ai_node_status = ai_node_status;
      ai_nodes = array_or (get meta "ai_nodes") (array_or (get ai_node_status "nodes") (array []));
      ai_routing_status = or_else (get meta "ai_routing_status") empty;
      dns_failover_status = or_else (get meta "dns_failover_status") empty;
      nodes = array_or (get meta "nodes") (array []);
      traffic_routing = or_else (get meta "traffic_routing") empty;
      ai_domain_stats = or_else (get meta "ai_domain_stats") empty;
      ports = ports;
    }

unfoldable pub normalize_dashboard : Value → Option Panel
normalize_dashboard dashboard =
    let payload = or_else dashboard empty in
    let meta = or_else (get payload "meta") empty in
    elim (ports_of (get payload "ports")) [
      | none ↦ none
      | some ports ↦ some (panel_of payload meta ports)
    ]

-- The panel as the object that the builders take.
unfoldable pub panel_value : Panel → Value
panel_value p = object (
    ("meta", p.meta)
    ∷ ("summary", p.summary)
    ∷ ("subscription", p.subscription)
    ∷ ("dataPlaneStatus", p.data_plane_status)
    ∷ ("aiNodeStatus", p.ai_node_status)
    ∷ ("aiNodes", p.ai_nodes)
    ∷ ("aiRoutingStatus", p.ai_routing_status)
    ∷ ("dnsFailoverStatus", p.dns_failover_status)
    ∷ ("nodes", p.nodes)
    ∷ ("trafficRouting", p.traffic_routing)
    ∷ ("aiDomainStats", p.ai_domain_stats)
    ∷ ("ports", array p.ports)
    ∷ [])

module _ (js : Builtins) where
  unfoldable pub total_traffic_bytes : Value → Num
  total_traffic_bytes summary =
      add_num (number js (get summary "total_bytes_received"))
        (number js (get summary "total_bytes_sent"))

  unfoldable pub attention_port_count : Value → Num
  attention_port_count summary =
      add_num
        (add_num (number js (get summary "expired_ports")) (number js (get summary "quota_ports")))
        (number js (get summary "disabled_ports"))

  unfoldable pub traffic_today : Value → Num
  traffic_today port =
      add_num (number js (get port "today_bytes_received"))
        (number js (get port "today_bytes_sent"))

  unfoldable pub port_total_bytes : Value → Num
  port_total_bytes port =
      add_num (number js (get port "total_bytes_received"))
        (number js (get port "total_bytes_sent"))
