-- ===== src/Client/Redirect.antt =====
-- `sameOriginLoginUrl` (frontend/src/shared/url.js), the redirect of the console after a 401
-- (frontend/src/admin/lib/consoleApi.js). The URL parser of the browser is the parameter `parse_url`;
-- a text that it refuses gives `none`.
use ai_routing_panel.Js.{str, or_else, to_str, Value}
use ai_routing_panel.Prelude.{
  refl, arith, eq_iff, Bool-cases, inr, ◌===◌, inl, if◌then◌else◌, Option-cases, some, none, ◌⊎◌,
  ◌≡◌, Option, String,
}

pub record Url : Type 0 where
  pub origin : String
  pub href : String

module _ (parse_url : String → String → Option Url) where
  unfoldable pub same_origin_login_url : Value → String → String
  same_origin_login_url value origin =
      elim (parse_url (to_str (or_else value (str "/login"))) origin) [
        | none ↦ "/login"
        | some destination ↦ if destination.origin === origin then destination.href else "/login"
      ]

  -- Whatever target the answer names, the operator is sent to the login page of the console or to a
  -- URL that the parser accepts and whose origin is that of the console.
  pub same_origin_login_url_own :
      (value : Value) (origin : String)
      → (same_origin_login_url value origin ≡ "/login")
        ⊎ ((u : Url) × (parse_url (to_str (or_else value (str "/login"))) origin ≡ some u)
            × (u.origin ≡ origin)
            × (same_origin_login_url value origin ≡ u.href))
  unfolding same_origin_login_url
  same_origin_login_url_own value origin =
      elim (Option-cases (parse_url (to_str (or_else value (str "/login"))) origin)) [
        | inl e ↦ inl (rw (e, same_origin_login_url) refl)
        | inr (u, e) ↦ elim (Bool-cases (u.origin === origin)) [
          | inl k ↦ inr (
            u,
            e,
            (eq_iff u.origin origin).0 k,
            rw (e, same_origin_login_url) (ground (arith, k)),
          )
          | inr k ↦ inl (rw (e, same_origin_login_url) (ground (arith, k)))
        ]
      ]
