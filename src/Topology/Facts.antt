-- ===== src/Topology/Facts.antt =====
-- The first part of `buildTrafficTopology` (frontend/src/admin/lib/topology.js): what it concludes
-- from the snapshot before it draws anything.
use Prim.Native.Char.{code}
use mathlib.Core.List.{reverse}
use ai_routing_panel.Prelude.{
  ℕ, ◌+◌, String, ◌⧺◌, ◌===◌, Bool, true, false, not, ◌&&◌, ◌||◌, Option, none, some, List, [], ◌∷◌,
  map, filter, any, leb, ◌==◌, if◌then◌else◌,
}
use ai_routing_panel.Js.{
  Value, undefined, null, bool, str, obj, end, Builtins, truthy, or_else, get, is_true, is_false,
  is_str, is_object, is_array, elements, put, to_str,
}
use ai_routing_panel.Topology.Model.{
  RoutePath, normal_ai, normal_ai_pending, State, active, standby, blocked, unknown, Entry, normal,
  backup, parse_path, is_path, is_normal, is_backup, state_or,
}

-- the code points of a text
abbrev pub code_points : String → List ℕ
code_points String.[] = []
code_points (String.◌∷◌ letter rest) = code letter ∷ code_points rest

is_digit : ℕ → Bool
is_digit c = leb b'0' c && leb c b'9'

-- `/(?:Z|[+-]\d{2}:\d{2})$/`, over the characters from the last to the first
zone_suffix : List ℕ → Bool
zone_suffix [] = false
zone_suffix (m ∷ n ∷ colon ∷ h ∷ k ∷ sign ∷ rest) =
    m == b'Z'
    || is_digit m
      && is_digit n
      && colon == b':'
      && is_digit h
      && is_digit k
      && (sign == b'+' || sign == b'-')
zone_suffix (c ∷ rest) = c == b'Z'

unfoldable pub has_zone : String → Bool
unfolding is_digit zone_suffix
has_zone s = zone_suffix (reverse (code_points s))

-- `probeState`
unfoldable pub probe_state : Value → State
probe_state (bool true) = standby
probe_state (bool false) = blocked
probe_state _ = unknown

-- `address`
unfoldable pub address : Value → Value → String
address (str host) port =
    if host === ""
    then "未报告上游地址"
    else (if any (λ c. c == b':') (code_points host) then "[" ⧺ host ⧺ "]" else host)
      ⧺ (if truthy port then ":" ⧺ to_str port else "")
address _ port = "未报告上游地址"

-- A probe that the management channel failed says nothing of the candidate.
masked : Value → Value
masked c = if is_true (get c "probe_management_error") then put "is_reachable" null c else c

unfoldable pub candidates_of : Value → List Value
unfolding masked
candidates_of ai =
    if is_array (get ai "ai_candidates")
    then map masked (filter is_object (elements (get ai "ai_candidates")))
    else []

-- The candidates that the report selects, each with its position.
selected_from : ℕ → List Value → List (ℕ × Value)
selected_from position [] = []
selected_from position (c ∷ cs) =
    let rest = selected_from (position + 1) cs in
    if is_true (get c "selected") then (position, c) ∷ rest else rest

only : List (ℕ × Value) → Option (ℕ × Value)
only (x ∷ []) = some x
only _ = none

unfoldable pub select : List Value → Option (ℕ × Value)
unfolding selected_from only
select cs = only (selected_from 0 cs)

-- a report time that is a text with a zone, and a date
unfoldable pub is_report_time : Builtins → Value → Bool
unfolding has_zone
is_report_time js (str s) = has_zone s && js.is_date s
is_report_time js _ = false

unfoldable pub is_applied : Builtins → Value → Bool
is_applied js ai =
    let preserved = is_str (get ai "status") "probe_error" && is_true (get ai "route_preserved") in
    (is_str (get ai "status") "applied" || preserved)
    && (is_str (get ai "config_apply_status") "direct"
        || is_str (get ai "config_apply_status") "unchanged")
    && is_report_time js (get ai "report_generated_at")
    && not (truthy (get ai "sync_error"))

pub record Facts : Type 0 where
  pub panel : Value
  pub routing : Value
  pub ai : Value
  pub dns : Value
  pub candidates : List Value
  pub selected : Option (ℕ × Value)
  pub applied : Bool
  pub path : RoutePath
  pub all_traffic : Bool
  pub mixed_traffic : Bool
  -- the data plane is configured; the DNS failover is enabled and configured
  pub has_normal : Bool
  pub has_backup : Bool
  pub normal_path : Bool
  pub entry : Option Entry
  pub direct_state : State
  pub ai_state : State

abbrev pub empty : Value
empty = obj end

-- `is_reachable` of the selected candidate
unfoldable pub selected_probe : Option (ℕ × Value) → Value
selected_probe none = undefined
selected_probe (some (position, c)) = get c "is_reachable"

unfoldable pub is_some : Option (ℕ × Value) → Bool
is_some none = false
is_some (some x) = true

-- An AI path without its evidence is only pending.
unfoldable pub settled_path : RoutePath → Bool → Option (ℕ × Value) → RoutePath
settled_path path applied selected =
    if is_path path normal_ai && (not applied || not (is_some selected))
    then normal_ai_pending
    else path

unfoldable pub entry_of : RoutePath → Bool → Bool → Option Entry
entry_of path has_normal has_backup =
    if is_normal path && has_normal
    then some normal
    else if is_backup path && has_backup
    then some backup
    else none

unfoldable pub direct_state_of : Value → Bool → Bool → State
direct_state_of routing all_traffic normal_path =
    if all_traffic
    then standby
    else if normal_path
    then state_or (get routing "ordinary_direct_state") active
    else standby

unfoldable pub ai_state_of : Value → RoutePath → Value → State
ai_state_of routing path probe =
    if is_path path normal_ai && is_true probe
    then state_or (get routing "ai_branch_state") unknown
    else if is_false probe && is_path path normal_ai
    then blocked
    else unknown

unfoldable pub facts_of : Builtins → Value → Facts
facts_of js value =
    let panel = or_else (get value "panel") value in
    let routing = or_else (get panel "trafficRouting") empty in
    let ai = or_else (get panel "aiRoutingStatus") empty in
    let dns = or_else (get panel "dnsFailoverStatus") empty in
    let candidates = candidates_of ai in
    let selected = select candidates in
    let applied = is_applied js ai in
    let path = settled_path (parse_path (get routing "path")) applied selected in
    let scope = λ (s : String).
      applied && is_str (get ai "applied_traffic_scope") s && is_path path normal_ai in
    let has_normal = is_true (get (get panel "dataPlaneStatus") "configured") in
    let has_backup = is_true (get dns "enabled") && is_true (get dns "configured") in
    let normal_path = is_normal path && has_normal in
    record {
      panel = panel;
      routing = routing;
      ai = ai;
      dns = dns;
      candidates = candidates;
      selected = selected;
      applied = applied;
      path = path;
      all_traffic = scope "all";
      mixed_traffic = scope "mixed";
      has_normal = has_normal;
      has_backup = has_backup;
      normal_path = normal_path;
      entry = entry_of path has_normal has_backup;
      direct_state = direct_state_of routing (scope "all") normal_path;
      ai_state = ai_state_of routing path (selected_probe selected);
    }
