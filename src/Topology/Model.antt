-- ===== src/Topology/Model.antt =====
-- The data of frontend/src/admin/lib/topology.js: the sets PATHS and STATES as data types, nodes
-- and edges as records. A field that holds what the payload holds is a `Value`.
use ai_routing_panel.Prelude.{
  ℕ, String, Bool, true, false, Option, some, List, ◌==◌, ◌===◌, if◌then◌else◌,
}
use ai_routing_panel.Js.{Value, str}

pub data RoutePath : Type 0 where
  normal_ai normal_ai_pending normal_fallback normal_direct : RoutePath
  dns_backup_relay_ai dns_backup_direct dns_backup_unknown dns_backup_pending : RoutePath
  unknown_path : RoutePath

-- `PATHS.has(name) ? name : "unknown"` for a text
path_of_name : String → RoutePath
path_of_name s =
    if s === "normal_ai"
    then normal_ai
    else if s === "normal_ai_pending"
    then normal_ai_pending
    else if s === "normal_fallback"
    then normal_fallback
    else if s === "normal_direct"
    then normal_direct
    else if s === "dns_backup_relay_ai"
    then dns_backup_relay_ai
    else if s === "dns_backup_direct"
    then dns_backup_direct
    else if s === "dns_backup_unknown"
    then dns_backup_unknown
    else if s === "dns_backup_pending"
    then dns_backup_pending
    else unknown_path

unfoldable pub parse_path : Value → RoutePath
unfolding path_of_name
parse_path (str s) = path_of_name s
parse_path _ = unknown_path

path_code : RoutePath → ℕ
path_code normal_ai = 0
path_code normal_ai_pending = 1
path_code normal_fallback = 2
path_code normal_direct = 3
path_code dns_backup_relay_ai = 4
path_code dns_backup_direct = 5
path_code dns_backup_unknown = 6
path_code dns_backup_pending = 7
path_code unknown_path = 8

-- `path === q`
unfoldable pub is_path : RoutePath → RoutePath → Bool
unfolding path_code
is_path p q = path_code p == path_code q

-- `path.startsWith("normal_")`
unfoldable pub is_normal : RoutePath → Bool
is_normal normal_ai = true
is_normal normal_ai_pending = true
is_normal normal_fallback = true
is_normal normal_direct = true
is_normal _ = false

-- the paths of `backupPath`
unfoldable pub is_backup : RoutePath → Bool
is_backup dns_backup_relay_ai = true
is_backup dns_backup_direct = true
is_backup dns_backup_unknown = true
is_backup _ = false

pub data State : Type 0 where
  active standby blocked unknown : State

state_of_name : String → State → State
state_of_name s fallback =
    if s === "active"
    then active
    else if s === "standby"
    then standby
    else if s === "blocked"
    then blocked
    else if s === "unknown"
    then unknown
    else fallback

-- `stateOr`
unfoldable pub state_or : Value → State → State
unfolding state_of_name
state_or (str s) fallback = state_of_name s fallback
state_or _ fallback = fallback

pub data Kind : Type 0 where
  client entry direct relay ai exit : Kind

pub record Node : Type 0 where
  pub id : String
  pub kind : Kind
  pub label : Value
  pub role : String
  pub state : State
  pub address : Value
  pub selected : Value
  pub probe_label : Value
  pub description : String

pub record Edge : Type 0 where
  pub id : String
  pub from : String
  pub to : String
  pub state : State
  pub traffic_class : String

pub data Entry : Type 0 where
  normal backup : Entry

unfoldable pub is_entry : Option Entry → Entry → Bool
is_entry (some normal) normal = true
is_entry (some backup) backup = true
is_entry _ _ = false

pub record Graph : Type 0 where
  pub nodes : List Node
  pub edges : List Edge

pub record Topology : Type 0 where
  pub path : RoutePath
  pub nodes : List Node
  pub edges : List Edge
  pub warning : Option String
  pub label : Value
  pub scenario : Value
  pub report_time : Value
  pub dns_target : String
