-- ===== src/Client/Model.antt =====
-- The data of frontend/src/shared/apiClient.js and the reports of failed requests.
use ai_routing_panel.Js.{str, or_else, to_str, Value}
use ai_routing_panel.Prelude.{
  none, false, true, some, ◌++◌, ◌∷◌, ◌||◌, ◌===◌, ◌&&◌, any, ◌==◌, if◌then◌else◌, leb, Option,
  Bool, String, [], ℕ, List,
}

-- An `Error` object; `id` is its identity. `ApiError` has a status and a payload.
pub record Failure : Type 0 where
  pub id : ℕ
  pub name : String
  pub message : String
  pub status : Option ℕ
  pub payload : Value

-- What a caller of `reportClientError` hands over: an error object, or a primitive that was thrown. A
-- function that was thrown is not modelled.
pub data Thrown : Type 0 where
  error_object : Failure → Thrown
  primitive : Value → Thrown

-- What `fetch` and `response.text()` do: reject, or give a status and a text.
pub data Exchange : Type 0 where
  unsent : Failure → Exchange
  unread : ℕ → Failure → Exchange
  answered : ℕ → String → Exchange

pub data Result : Type 0 where
  returned : Value → Result
  thrown : Failure → Result

-- The body of a report to /api/client-errors, less the stack, the online flag and the redaction of
-- the path. `error_id` is the identity of the error object, and is not sent.
pub record Report : Type 0 where
  pub error_id : Option ℕ
  pub error_name : String
  pub message : String
  pub source : String
  pub method : String
  pub status : Option ℕ
  pub url : String

-- `reported` is the WeakSet `reportedErrors`, `visited` the targets that the unauthorized handler
-- was called with, and `next_id` the identity of the next error object.
pub record Page : Type 0 where
  pub reported : List ℕ
  pub sent : List Report
  pub visited : List Value
  pub next_id : ℕ

abbrev pub start : Page
start = record { reported = []; sent = []; visited = []; next_id = 0 }

abbrev pub is_marked : ℕ → List ℕ → Bool
is_marked n ids = any (λ m. m == n) ids

-- `markErrorReported(error)`: whether the error was marked before, and the page with it marked. Only
-- an object is marked.
unfoldable pub mark_error_reported : Thrown → Page → Bool × Page
mark_error_reported (error_object e) page =
    if is_marked e.id page.reported
    then (true, page)
    else (false, record page { reported = e.id ∷ page.reported })
mark_error_reported (primitive v) page = (false, page)

-- The identity, the name and the message of what was thrown.
unfoldable pub identity_of : Thrown → Option ℕ
identity_of (error_object e) = some e.id
identity_of (primitive v) = none

unfoldable pub name_of : Thrown → String
name_of (error_object e) = if e.name === "" then "Error" else e.name
name_of (primitive v) = "Error"

unfoldable pub message_of : Thrown → String
message_of (error_object e) = if e.message === "" then e.name else e.message
message_of (primitive v) = to_str (or_else v (str "客户端请求失败。"))

unfoldable pub report_of : Thrown → String → String → String → Option ℕ → Report
report_of e url method source status = record {
  error_id = identity_of e;
  error_name = name_of e;
  message = message_of e;
  source = source;
  method = method;
  status = status;
  url = url;
}

-- `reportClientError`; the report of a failed report is not sent.
unfoldable pub report_client_error : Page → Thrown → String → String → String → Option ℕ → Page
report_client_error page e url method source status =
    if url === "/api/client-errors"
    then page
    else let (was_reported, marked) = mark_error_reported e page in
      if was_reported
      then marked
      else record marked { sent = marked.sent ++ (report_of e url method source status ∷ []) }

unfoldable pub should_report_http_error : ℕ → Bool
should_report_http_error code = code == 401 || leb 500 code

-- `response.ok`
unfoldable pub is_ok : ℕ → Bool
is_ok status = leb 200 status && leb status 299
