-- ===== src/Client/Headers.antt =====
-- The headers of a request of the client.
use ai_routing_panel.Prelude.{
  ◌∙◌, inr, if-intro, eq_iff, sym, [], ◌∷◌, inl, Bool-cases, false, ◌===◌, refl, eq_refl, arith,
  ◌≡◌, String,
}
use ai_routing_panel.Client.Request.{is_undefined, spread, Options, with_token, headers_of}
use mathlib.Core.Path.{subst}
use ai_routing_panel.Js.{
  or_else, object, null, undefined, arr, str, num, bool, put, obj, get, end, field, Fields, Value,
  put_field, lookup_field,
}

get_field-put_field : (k : String) (w : Value) (fs : Fields) → lookup_field k (put_field k w fs) ≡ w
unfolding lookup_field put_field
get_field-put_field k w end = ground (arith, eq_refl k)
get_field-put_field k w (field j v fs) = ground (arith, eq_refl k, get_field-put_field k w fs)

get-put : (k : String) (w v : Value) → get (put k w v) k ≡ w
unfolding get put lookup_field
get-put k w (obj fs) = get_field-put_field k w fs
get-put k w undefined = ground (arith, eq_refl k)
get-put k w null = ground (arith, eq_refl k)
get-put k w (bool b) = ground (arith, eq_refl k)
get-put k w (num n) = ground (arith, eq_refl k)
get-put k w (str s) = ground (arith, eq_refl k)
get-put k w (arr vs) = ground (arith, eq_refl k)

other_field-put_field :
    (fs : Fields) (w : Value)
    → lookup_field "X-CSRF-Token" (put_field "Content-Type" w fs) ≡ lookup_field "X-CSRF-Token" fs
unfolding lookup_field put_field
other_field-put_field end w = refl
other_field-put_field (field j v fs) w = elim (Bool-cases (j === "Content-Type")) [
  | inl e ↦
      subst
        (λ k.
          lookup_field "X-CSRF-Token" (put_field "Content-Type" w (field k v fs))
          ≡ lookup_field "X-CSRF-Token" (field k v fs))
        (sym ((eq_iff j "Content-Type").0 e)) refl
  | inr e ↦ ground (arith, e, other_field-put_field fs w)
]

other_get-put : (w v : Value) → get (put "Content-Type" w v) "X-CSRF-Token" ≡ get v "X-CSRF-Token"
unfolding get put lookup_field
other_get-put w (obj fs) = other_field-put_field fs w
other_get-put w undefined = refl
other_get-put w null = refl
other_get-put w (bool b) = refl
other_get-put w (num n) = refl
other_get-put w (str s) = refl
other_get-put w (arr vs) = refl

get-with_token :
    (token method : String) (headers : Value)
    → (method === "GET") ≡ false
    → (token === "") ≡ false
    → get (with_token token method headers) "X-CSRF-Token" ≡ str token
unfolding with_token
get-with_token token method headers m h = simp (m, h) (get-put "X-CSRF-Token" (str token) headers)

-- A request that is not a GET carries the CSRF token of the client, where it has one, whatever
-- headers the caller gives and with or without a JSON body.
pub headers_of-token :
    (token method : String) (o : Options)
    → (method === "GET") ≡ false
    → (token === "") ≡ false
    → get (headers_of token method o) "X-CSRF-Token" ≡ str token
unfolding headers_of
headers_of-token token method o m h =
    let spreaded =
      spread (object (("Accept", str "application/json") ∷ [])) (or_else o.headers (obj end)) in
    let carried = get-with_token token method spreaded m h in
    if-intro (λ v. get v "X-CSRF-Token" ≡ str token) (is_undefined o.json) (λ _. carried)
      (λ _. other_get-put (str "application/json") (with_token token method spreaded) ∙ carried)
