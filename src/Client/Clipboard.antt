-- ===== src/Client/Clipboard.antt =====
-- frontend/src/shared/clipboard.js: copying a text. The browser's answers are given.
use ai_routing_panel.Prelude.{
  inr, inl, Bool-cases, arith, refl, ap, true, [], ◌↔◌, ◌&&◌, ◌++◌, if◌then◌else◌, ◌∷◌, ◌≡◌, String,
  Bool, List,
}

-- `navigator.clipboard && window.isSecureContext`, whether `writeText` succeeds, and what
-- `document.execCommand("copy")` returns.
pub record Browser : Type 0 where
  pub has_clipboard : Bool
  pub is_secure : Bool
  pub writes : Bool
  pub copies : Bool

-- The end of `copyText`: true, the error of `writeText`, or that of the fallback.
pub data Copy : Type 0 where
  copied write_failed copy_failed : Copy

-- `fallbackCopyText` on the children of the body: the text area is appended, and removed again.
unfoldable pub remove_last : List String → List String
remove_last [] = []
remove_last (c ∷ []) = []
remove_last (c ∷ d ∷ cs) = c ∷ remove_last (d ∷ cs)

unfoldable pub fallback_copy_text : Browser → List String → Bool × List String
fallback_copy_text b body = (b.copies, remove_last (body ++ ("textarea" ∷ [])))

unfoldable pub copy_text : Browser → List String → Copy × List String
copy_text b body =
    let fallback = fallback_copy_text b body in
    if b.has_clipboard && b.is_secure
    then (if b.writes then copied else write_failed, body)
    else (if fallback.0 then copied else copy_failed, fallback.1)

remove_last-append : (cs : List String) (c : String) → remove_last (cs ++ (c ∷ [])) ≡ cs
unfolding remove_last
remove_last-append [] c = refl
remove_last-append (d ∷ []) c = refl
remove_last-append (d ∷ e ∷ cs) c = ap (λ ds. d ∷ ds) (remove_last-append (e ∷ cs) c)

-- A copy succeeds exactly where the way that the context allows succeeds, and it leaves no element
-- behind, successful or not.
pub copy_text_iff :
    (b : Browser) (body : List String)
    → (((copy_text b body).0 ≡ copied)
        ↔ ((if b.has_clipboard && b.is_secure then b.writes else b.copies) ≡ true))
      × ((copy_text b body).1 ≡ body)
unfolding copy_text fallback_copy_text
copy_text_iff b body = (ground arith, left_as_is)
  where
    left_as_is : (copy_text b body).1 ≡ body
    left_as_is = elim (Bool-cases (b.has_clipboard && b.is_secure)) [
      | inl e ↦ ground (arith, e)
      | inr e ↦ ground (arith, e, remove_last-append body "textarea")
    ]
