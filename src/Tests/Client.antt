-- ===== src/Tests/Client.antt =====
-- Runs of the client against given answers.
use ai_routing_panel.Prelude.{
  refl, ◌<◌, All, ◌≤◌, length, ◌↔◌, true, some, [], ◌∷◌, ◌===◌, refl, if◌then◌else◌, ◌≡◌, none,
  Option, List, String,
}
use ai_routing_panel.Client.Once.{
  page_run, uncaught, run_reports-IsDistinct, ended, page_run, ids, PageEvent, IsDistinct,
}
use ai_routing_panel.Client.Model.{
  error_object, primitive, returned, start, unsent, answered, Failure,
}
use ai_routing_panel.Js.{null, bool, object, Value, undefined, str, get}
use ai_routing_panel.Tests.Samples.{plain}
use ai_routing_panel.Client.Headers.{headers_of-token}
use ai_routing_panel.Client.Outcome.{settle_iff, IsAccepted, settle-visited}
use ai_routing_panel.Client.Paths.{
  Text, split, slice, safe_url_path, push_unit, mask, join_parts, is_digits,
}
use ai_routing_panel.Client.Redaction.{safe_url_path-short}
use ai_routing_panel.Client.Request.{headers_of, settle, Options, data_of}

-- A parser that knows three texts.
abbrev parse : String → Option Value
parse text =
    if text === "true"
    then some (object (("ok", bool true) ∷ []))
    else if text === "null"
    then some null
    else none

settle_iff_example :
    (settle plain "/login" "/api/ports" "POST" parse (answered 200 "true") start
      ≡ (start, returned (object (("ok", bool true) ∷ []))))
    ↔ IsAccepted parse (answered 200 "true") (object (("ok", bool true) ∷ []))
settle_iff_example =
    settle_iff plain "/login" "/api/ports" "POST" start parse (answered 200 "true")
      (object (("ok", bool true) ∷ []))

settle-visited_example :
    (settle plain "/login" "/api/ports" "POST" parse (answered 401 "<html>") start).0.visited
    ≡ str "/login" ∷ []
unfolding data_of
settle-visited_example =
    settle-visited plain "/login" "/api/ports" "POST" start parse 401 "<html>" refl

abbrev lost : Failure
lost = record {
  id = 7;
  name = "TypeError";
  message = "Failed to fetch";
  status = none;
  payload = undefined;
}

abbrev twice : List PageEvent
twice =
    ended "/api/ports" "GET" (unsent lost)
    ∷ uncaught (error_object lost) "/admin" "unhandledrejection"
    ∷ uncaught (primitive (str "stop")) "/admin" "window.error"
    ∷ []

run_reports-IsDistinct_example : IsDistinct (ids (page_run plain "/login" parse twice start).sent)
run_reports-IsDistinct_example = run_reports-IsDistinct plain "/login" parse twice

abbrev no_options : Options
no_options = record { method = str "POST"; headers = undefined; body = undefined; json = undefined }

headers_of-token_example : get (headers_of "t0" "POST" no_options) "X-CSRF-Token" ≡ str "t0"
headers_of-token_example = headers_of-token "t0" "POST" no_options refl refl

-- A parser that keeps the text, which suffices for paths.
abbrev kept : Text → Option Text
kept url = some url

-- "/a/12"
abbrev numbered_url : Text
numbered_url = 47 ∷ 97 ∷ 47 ∷ 49 ∷ 50 ∷ []

-- "/a/:id"
numbered_url_masked : safe_url_path kept numbered_url ≡ 47 ∷ 97 ∷ 47 ∷ 58 ∷ 105 ∷ 100 ∷ []
unfolding safe_url_path slice join_parts split push_unit mask is_digits
numbered_url_masked = refl

safe_url_path-short_example :
    (length (safe_url_path kept numbered_url) ≤ 300)
    × All (λ part. length part < 24) (split (safe_url_path kept numbered_url))
safe_url_path-short_example = safe_url_path-short kept numbered_url
