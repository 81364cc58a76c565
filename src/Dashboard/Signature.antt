-- ===== src/Dashboard/Signature.antt =====
-- `routingSignature` of frontend/src/admin/lib/dashboard.js: a text that changes when the routing
-- decision does. `none` is the TypeError of a candidate list that cannot be filtered.
use ai_routing_panel.Prelude.{String, List, [], ◌∷◌, Option, none, some, if◌then◌else◌}
use ai_routing_panel.Js.{
  Value, undefined, str, Builtins, or_else, get, truthy, is_nullish, is_array, elements, array,
  object, stringify,
}
use ai_routing_panel.Dashboard.Panel.{Panel}

abbrev triple : Value → Value
triple c = array (get c "upstream_host" ∷ get c "upstream_port" ∷ get c "is_reachable" ∷ [])

-- `.filter((candidate) => candidate.selected).map(…)`
unfoldable pub selected_triples : List Value → Option (List Value)
selected_triples [] = some []
selected_triples (c ∷ cs) =
    let rest = selected_triples cs in
    if is_nullish c then none else elim rest [
      | none ↦ none
      | some ts ↦ some (if truthy (get c "selected") then triple c ∷ ts else ts)
    ]

unfoldable pub target_of : Value → Option Value
target_of cs =
    if is_nullish cs
    then some undefined
    else if is_array cs
    then elim (selected_triples (elements cs)) [ none ↦ none | some ts ↦ some (array ts) ]
    else none

abbrev pub signature_value : Panel → Value → Value
signature_value p target = object (
    ("path", or_else (get p.traffic_routing "path") (str "unknown"))
    ∷ ("target", target)
    ∷ ("dnsTarget", or_else (get p.dns_failover_status "current_target") (str ""))
    ∷ ("aiMode", or_else (get p.ai_routing_status "manual_mode") (str "auto"))
    ∷ ("backupMode", or_else (get p.meta "backup_xray_mode") (str ""))
    ∷ [])

unfoldable pub routing_signature : Builtins → Panel → Option String
routing_signature js p = elim (target_of (get p.ai_routing_status "ai_candidates")) [
  | none ↦ none
  | some target ↦ some (stringify js (signature_value p target))
]
