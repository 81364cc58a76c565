-- ===== src/Client/Outcome.antt =====
-- What a request of the client gives, and when the operator is sent to the login page.
use ai_routing_panel.Js.{truthy, str, or_else, get, is_false, is_nullish, Value, Builtins}
use ai_routing_panel.Client.Model.{
  Thrown, mark_error_reported, unread, unsent, report_client_error, answered, returned, Exchange,
  is_ok, Page,
}
use ai_routing_panel.Client.Request.{
  created, handle_unauthorized, refused, data_of, unauthorized, type_error_of, unparsed, decide,
  settle,
}
use mathlib.Core.Path.{subst}
use ai_routing_panel.Prelude.{
  refl, arith, sym, ap, refl, arith, sym, ap, Bool, refl, [], ◌∷◌, inr, sym, ◌++◌, inl, ◌==◌,
  Option-cases, if◌then◌else◌, ◌∙◌, ◌↔◌, ◌≢◌, ap, arith, none, false, some, true, ◌≡◌, ℕ, Option,
  String,
}

-- The answer is a success of HTTP, and its text is empty or JSON that is not null and does not say
-- `ok: false`.
pub record IsAccepted (parse : String → Option Value) (ex : Exchange) (v : Value) : Type 0 where
  pub status : ℕ
  pub text : String
  pub answer : ex ≡ answered status text
  pub success : is_ok status ≡ true
  pub read : data_of parse text ≡ some v
  pub present : is_nullish v ≡ false
  pub agreed : is_false (get v "ok") ≡ false

module _ (js : Builtins) (login_url url method : String) (page : Page) where
  decide-returned :
      (status : ℕ) (payload v : Value)
      → (decide js login_url url method status payload page).1 ≡ returned v
      → (is_ok status ≡ true)
        × (payload ≡ v)
        × (is_nullish payload ≡ false)
        × (is_false (get payload "ok") ≡ false)
  unfolding decide type_error_of unauthorized refused
  decide-returned status payload v h = ground arith

  decide_accepted :
      (status : ℕ) (v : Value)
      → is_ok status ≡ true
      → is_nullish v ≡ false
      → is_false (get v "ok") ≡ false
      → decide js login_url url method status v page ≡ (page, returned v)
  unfolding decide is_ok
  decide_accepted status v h n k = ground arith

  pub settle-unparsed :
      (parse : String → Option Value) (status : ℕ) (text : String)
      → data_of parse text ≡ none
      → settle js login_url url method parse (answered status text) page
        ≡ unparsed js login_url url method status page
  unfolding settle
  settle-unparsed parse status text e = rw (e, settle)

  pub settle_of_payload :
      (parse : String → Option Value) (status : ℕ) (text : String) (payload : Value)
      → data_of parse text ≡ some payload
      → settle js login_url url method parse (answered status text) page
        ≡ decide js login_url url method status payload page
  unfolding settle
  settle_of_payload parse status text payload e = rw (e, settle)

  unparsed-thrown :
      (status : ℕ) (v : Value) → (unparsed js login_url url method status page).1 ≢ returned v
  unfolding unparsed
  unparsed-thrown status v h = cc

  settle-returned :
      (parse : String → Option Value) (ex : Exchange) (v : Value)
      → (settle js login_url url method parse ex page).1 ≡ returned v
      → IsAccepted parse ex v
  unfolding settle
  settle-returned parse (unsent e) v h = cc
  settle-returned parse (unread status e) v h = cc
  settle-returned parse (answered status text) v h = elim (Option-cases (data_of parse text)) [
    | inl e ↦
        absurd
          (unparsed-thrown status v (ap (λ r. r.1) (sym (settle-unparsed parse status text e)) ∙ h))
    | inr (payload, e) ↦
        let d =
          decide-returned status payload v
            (ap (λ r. r.1) (sym (settle_of_payload parse status text payload e)) ∙ h) in
        record {
          status = status;
          text = text;
          answer = refl;
          success = d.0;
          read = e ∙ ap some d.1;
          present = subst (λ w. is_nullish w ≡ false) d.1 d.2;
          agreed = subst (λ w. is_false (get w "ok") ≡ false) d.1 d.3;
        }
  ]

  settle_accepted :
      (parse : String → Option Value) (ex : Exchange) (v : Value)
      → IsAccepted parse ex v
      → settle js login_url url method parse ex page ≡ (page, returned v)
  settle_accepted parse ex v a =
      ap (λ x. settle js login_url url method parse x page) a.answer
      ∙ settle_of_payload parse a.status a.text v a.read
      ∙ decide_accepted a.status v a.success a.present a.agreed

  -- A request returns a value exactly where the answer is accepted with that value, and then it
  -- reports nothing and redirects nowhere.
  pub settle_iff :
      (parse : String → Option Value) (ex : Exchange) (v : Value)
      → (settle js login_url url method parse ex page ≡ (page, returned v)) ↔ IsAccepted parse ex v
  settle_iff parse ex v =
      (λ h. settle-returned parse ex v (ap (λ r. r.1) h), settle_accepted parse ex v)

  report-visited :
      (q : Page) (e : Thrown) (source : String) (status : Option ℕ)
      → (report_client_error q e url method source status).visited ≡ q.visited
  unfolding report_client_error mark_error_reported
  report-visited q e source status = ground arith

  decide-visited :
      (status : ℕ) (payload : Value)
      → is_nullish payload ≡ false
      → (decide js login_url url method status payload page).0.visited ≡ (
          if status == 401
          then page.visited ++ (or_else (get payload "login_url") (str login_url) ∷ [])
          else page.visited)
  unfolding decide unauthorized refused handle_unauthorized created report_client_error
      mark_error_reported
  decide-visited status payload n = ground arith

  unparsed-visited :
      (status : ℕ)
      → (unparsed js login_url url method status page).0.visited
        ≡ (if status == 401 then page.visited ++ (str login_url ∷ []) else page.visited)
  unfolding unparsed handle_unauthorized report_client_error mark_error_reported created or_else
      truthy
  unparsed-visited status = ground arith

  -- The target of a redirect: the one that the answer names, or the login page.
  abbrev pub redirect_target : Option Value → Value
  redirect_target none = str login_url
  redirect_target (some payload) = or_else (get payload "login_url") (str login_url)

  abbrev pub is_null_body : Option Value → Bool
  is_null_body none = false
  is_null_body (some payload) = is_nullish payload

  -- Unless the body is the JSON text null, an answer redirects exactly once if its status is 401,
  -- whether its body can be parsed or not, and never otherwise.
  pub settle-visited :
      (parse : String → Option Value) (status : ℕ) (text : String)
      → is_null_body (data_of parse text) ≡ false
      → (settle js login_url url method parse (answered status text) page).0.visited ≡ (
          if status == 401
          then page.visited ++ (redirect_target (data_of parse text) ∷ [])
          else page.visited)
  settle-visited parse status text n = elim (Option-cases (data_of parse text)) [
    | inl e ↦
        ap (λ r. r.0.visited) (settle-unparsed parse status text e)
        ∙ unparsed-visited status
        ∙ rw e refl
    | inr (payload, e) ↦
        ap (λ r. r.0.visited) (settle_of_payload parse status text payload e)
        ∙ decide-visited status payload (ap is_null_body (sym e) ∙ n)
        ∙ rw e refl
  ]
