-- ===== src/Console/State.antt =====
-- The state that `PanelProvider` (frontend/src/admin/state/PanelProvider.jsx) keeps: one field for
-- each useState and useRef, and the monad of code that changes it and may raise.
use ai_routing_panel.Prelude.{ℕ, String, Bool, true, false, List, [], Option, none}
use ai_routing_panel.Js.{Value, null, str, Num}
use ai_routing_panel.Dashboard.Panel.{Panel, empty_panel, empty_port_form}
use ai_routing_panel.Js.{array}

-- `message` and `level` of a flash; the empty message is none.
pub record Flash : Type 0 where
  pub message : Value
  pub level : Value

abbrev pub no_flash : Flash
no_flash = record { message = str ""; level = str "info" }

-- The last traffic sample; `at` is in microseconds of `performance.now()`.
pub record Sample : Type 0 where
  pub at : ℕ
  pub bytes : Num
  pub port_ids : String

-- `bytes` over `elapsed` microseconds: `bytesPerSecond` is the quotient, times 10^6.
pub record Activity : Type 0 where
  pub bytes : Num
  pub elapsed : ℕ

pub record Filters : Type 0 where
  pub query : Value
  pub status : Value

abbrev pub no_filters : Filters
no_filters = record { query = str ""; status = str "all" }

pub record Console : Type 0 where
  pub panel : Panel
  pub loading : Bool
  pub flash : Flash
  -- the keys of `busy`
  pub busy : List String
  pub insights : Value
  pub insights_error : Value
  pub insights_loading : Bool
  pub insights_days : ℕ
  pub incidents : Value
  pub incidents_error : Value
  pub incidents_loading : Bool
  pub incident_request : ℕ
  pub diagnosis : Value
  pub path_changed_at : ℕ
  pub signature : String
  pub ready : Bool
  pub history_request : ℕ
  pub traffic_sample : Option Sample
  pub traffic_activity : Option Activity
  pub create_form : Value
  pub filters : Filters
  pub selected_port_id : Value

abbrev pub initial : Console
initial = record {
  panel = empty_panel;
  loading = true;
  flash = no_flash;
  busy = [];
  insights = null;
  insights_error = str "";
  insights_loading = false;
  insights_days = 1;
  incidents = array [];
  incidents_error = str "";
  incidents_loading = false;
  incident_request = 0;
  diagnosis = null;
  path_changed_at = 0;
  signature = "";
  ready = false;
  history_request = 0;
  traffic_sample = none;
  traffic_activity = none;
  create_form = empty_port_form;
  filters = no_filters;
  selected_port_id = null;
}

-- An error that is thrown: an ApiError carries the status.
pub record Failure : Type 0 where
  pub message : Value
  pub status : Value

-- How an awaited request ends.
pub data Reply : Type 0 where
  answered : Value → Reply
  refused : Failure → Reply

-- What the clocks show: `performance.now()` in microseconds, and `Date.now()`.
pub record Clock : Type 0 where
  pub now : ℕ
  pub date : ℕ

pub data Outcome {ℓ} (A : Type ℓ) : Type ℓ where
  done : A → Outcome A
  raise : Failure → Outcome A

-- Synchronous code: what it changed before it raised stays changed.
abbrev pub M {ℓ} : Type ℓ → Type ℓ
M A = Console → Console × Outcome A

infixl 5 ◌>>=◌ ◌>>◌
abbrev pub ◌>>=◌ {ℓ κ} : {A : Type ℓ} {B : Type κ} → M A → (A → M B) → Console → Console × Outcome B
◌>>=◌ m k c = let (c', o) = m c in elim o [ done a ↦ k a c' | raise e ↦ (c', raise e) ]

abbrev pub ◌>>◌ {κ} : {B : Type κ} → M (Unit {0}) → M B → Console → Console × Outcome B
m >> k = m >>= λ _. k

abbrev pub return {ℓ} : {A : Type ℓ} → A → M A
return a c = (c, done a)

abbrev pub throw {ℓ} : {A : Type ℓ} → Failure → M A
throw e c = (c, raise e)

abbrev pub modify : (Console → Console) → M (Unit {0})
modify f c = (f c, done tt)
