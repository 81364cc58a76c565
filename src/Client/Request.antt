-- ===== src/Client/Request.antt =====
-- `request` of `createApiClient` (frontend/src/shared/apiClient.js). `JSON.parse` and
-- `String.prototype.toUpperCase` are the parameters `parse` and `to_upper`.
use ai_routing_panel.Prelude.{
  ◌||◌, [], none, ◌&&◌, ◌==◌, some, ◌∷◌, false, true, ◌⧺◌, ◌===◌, not, Option, Bool, suc, ℕ, ◌++◌,
  if◌then◌else◌, String,
}
use ai_routing_panel.Client.Model.{
  error_object, returned, answered, unread, should_report_http_error, report_client_error, is_ok,
  unsent, Failure, thrown, Exchange, Result, Page,
}
use ai_routing_panel.Js.Text.{show}
use ai_routing_panel.Js.{
  is_false, end, null, undefined, get, stringify, put, or_else, field, str, is_nullish, to_str,
  object, Fields, obj, Builtins, Value,
}

-- The second argument of `request`.
pub record Options : Type 0 where
  pub method : Value
  pub headers : Value
  pub body : Value
  pub json : Value

pub record Sent : Type 0 where
  pub url : String
  pub method : String
  pub headers : Value
  pub body : Value

-- `String(options.method || "GET").toUpperCase()`
unfoldable pub method_of : (String → String) → Options → String
method_of to_upper o = to_upper (to_str (or_else o.method (str "GET")))

-- `{ ...v, ...w }` for an object `w`, and `v` for any other value
unfoldable pub put_all : Value → Fields → Value
put_all v end = v
put_all v (field k w fs) = put_all (put k w v) fs

unfoldable pub spread : Value → Value → Value
spread v (obj fs) = put_all v fs
spread v _ = v

unfoldable pub with_token : String → String → Value → Value
with_token token method headers =
    if not (method === "GET") && not (token === "")
    then put "X-CSRF-Token" (str token) headers
    else headers

unfoldable pub is_undefined : Value → Bool
is_undefined undefined = true
is_undefined _ = false

unfoldable pub headers_of : String → String → Options → Value
headers_of token method o =
    let headers =
      with_token token method
        (spread (object (("Accept", str "application/json") ∷ [])) (or_else o.headers (obj end))) in
    if is_undefined o.json then headers else put "Content-Type" (str "application/json") headers

-- The argument of `fetch`.
unfoldable pub sent_of : Builtins → (String → String) → String → String → Options → Sent
sent_of js to_upper token url o =
    let method = method_of to_upper o in
    record {
      url = url;
      method = method;
      headers = headers_of token method o;
      body = if is_undefined o.json then o.body else str (stringify js o.json);
    }

-- `handleUnauthorized(target)`
unfoldable pub handle_unauthorized : String → Value → Page → Page
handle_unauthorized login_url target page = record page {
  visited = page.visited ++ (or_else target (str login_url) ∷ []);
}

-- `new ApiError(message, status, payload)`
unfoldable pub api_error : Page → String → ℕ → Value → Failure
api_error page message status payload = record {
  id = page.next_id;
  name = "ApiError";
  message = message;
  status = some status;
  payload = payload;
}

unfoldable pub created : Page → Page
created page = record page { next_id = suc page.next_id }

-- `JSON.parse(rawText)`, where an empty text gives `{}`
unfoldable pub data_of : (String → Option Value) → String → Option Value
data_of parse text = if text === "" then some (obj end) else parse text

module _ (js : Builtins) (login_url url method : String) where
  unfoldable pub unparsed : ℕ → Page → Page × Result
  unparsed status page =
      let e = api_error page ("服务返回了无法解析的响应（" ⧺ show status ⧺ "）。") status null in
      let reported =
        report_client_error (created page) (error_object e) url method "response.parse"
          (some status) in
      (
        if status == 401 then handle_unauthorized login_url undefined reported else reported,
        thrown e,
      )

  -- Reading a field of `null` is a TypeError, which is not reported here.
  unfoldable pub type_error_of : Page → Page × Result
  type_error_of page = (
    created page,
    thrown (record {
      id = page.next_id;
      name = "TypeError";
      message = js.type_error;
      status = none;
      payload = undefined;
    }),
  )

  unfoldable pub unauthorized : Value → Page → Page × Result
  unauthorized payload page =
      let e =
        api_error page (to_str (or_else (get payload "message") (str "登录已失效，请重新登录。"))) 401
          payload in
      (
        report_client_error (created (handle_unauthorized login_url (get payload "login_url") page))
            (error_object e) url method "http" (some 401),
        thrown e,
      )

  unfoldable pub refused : ℕ → Value → Page → Page × Result
  refused status payload page =
      let e =
        api_error page
          (to_str (or_else (get payload "message") (str ("请求失败（" ⧺ show status ⧺ "）。")))) status
          payload in
      (
        if should_report_http_error status
            then report_client_error (created page) (error_object e) url method "http" (some status)
            else created page,
        thrown e,
      )

  unfoldable pub decide : ℕ → Value → Page → Page × Result
  decide status payload page =
      if is_nullish payload
      then type_error_of page
      else if status == 401
      then unauthorized payload page
      else if not (is_ok status) || is_false (get payload "ok")
      then refused status payload page
      else (page, returned payload)

  -- The rest of `request`, from the call of `fetch` on.
  unfoldable pub settle : (String → Option Value) → Exchange → Page → Page × Result
  settle parse (unsent e) page =
      (report_client_error page (error_object e) url method "fetch" none, thrown e)
  settle parse (unread status e) page =
      (report_client_error page (error_object e) url method "response.read" (some status), thrown e)
  settle parse (answered status text) page = elim (data_of parse text) [
    | none ↦ unparsed status page
    | some payload ↦ decide status payload page
  ]
