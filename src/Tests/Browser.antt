-- ===== src/Tests/Browser.antt =====
-- Runs of the redirect and of the clipboard.
use ai_routing_panel.Client.Clipboard.{copy_text_iff, copied, Browser, copy_text}
use ai_routing_panel.Prelude.{
  ◌&&◌, ◌⧺◌, some, ◌↔◌, ◌===◌, if◌then◌else◌, ◌⊎◌, refl, [], ◌≡◌, true, ◌∷◌, Option, false, String,
}
use ai_routing_panel.Js.{str, truthy, to_str, or_else}
use ai_routing_panel.Client.Redirect.{same_origin_login_url_own, Url, same_origin_login_url}

-- A parser for an absolute URL of another origin; every other text is a path of the console.
abbrev parse_url : String → String → Option Url
parse_url text base =
    if text === "https://evil.example/"
    then some (record { origin = "https://evil.example"; href = text })
    else some (record { origin = base; href = base ⧺ text })

same_origin_login_url_own_example :
    (same_origin_login_url parse_url (str "https://evil.example/") "https://panel" ≡ "/login")
    ⊎ ((u : Url) × (parse_url
            (to_str (or_else (str "https://evil.example/") (str "/login")))
            "https://panel"
          ≡ some u)
        × (u.origin ≡ "https://panel")
        × (same_origin_login_url parse_url (str "https://evil.example/") "https://panel" ≡ u.href))
same_origin_login_url_own_example =
    same_origin_login_url_own parse_url (str "https://evil.example/") "https://panel"

-- The URL of another origin is not followed.
refused_run :
    same_origin_login_url parse_url (str "https://evil.example/") "https://panel" ≡ "/login"
unfolding same_origin_login_url to_str or_else truthy
refused_run = refl

abbrev insecure : Browser
insecure = record { has_clipboard = false; is_secure = false; writes = false; copies = true }

copied_run :
    (((copy_text insecure ("main" ∷ [])).0 ≡ copied) ↔ (
      (if insecure.has_clipboard && insecure.is_secure then insecure.writes else insecure.copies)
      ≡ true))
    × ((copy_text insecure ("main" ∷ [])).1 ≡ "main" ∷ [])
copied_run = copy_text_iff insecure ("main" ∷ [])
