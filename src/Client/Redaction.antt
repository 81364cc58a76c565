-- ===== src/Client/Redaction.antt =====
-- What `safeUrlPath` of frontend/src/shared/apiClient.js lets through: no long part of a path.
use ai_routing_panel.Prelude.{
  if_true, sym, Option-cases, ◌≤◌, Option, ◌≢◌, map, ◌-◌, zero, inr, inl, Bool-cases, if_false, suc,
  leb, ap, false, if-intro, [], ◌==◌, ◌<◌, ◌∙◌, ◌++◌, length, ◌≡◌, ◌∷◌, All, List, ℕ, refl, arith,
}
use mathlib.Core.Path.{subst}
use ai_routing_panel.Client.Paths.{
  unknown_url_path, slice, join_parts, is_digits, slash, Text, split, push_unit, mask,
  safe_url_path,
}

abbrev IsPart : Text → Type 0
IsPart s = All (λ c. (c == slash) ≡ false) s

-- The first part is shorter than `m`, and every later one than 24.
abbrev IsShort : ℕ → List Text → Type 0
IsShort m [] = Unit
IsShort m (s ∷ ss) = (length s < m) × All (λ t. length t < 24) ss

push_unit-All :
    (c : ℕ) (ss : List Text) → (c == slash) ≡ false → All IsPart ss → All IsPart (push_unit c ss)
unfolding push_unit
push_unit-All c [] e h = ((e, tt), tt)
push_unit-All c (s ∷ ss) e h = ((e, h.0), h.1)

split-All : (cs : Text) → All IsPart (split cs)
unfolding split
split-All [] = (tt, tt)
split-All (c ∷ cs) =
    if-intro (All IsPart) (c == slash) (λ e. (tt, split-All cs))
      (λ e. push_unit-All c (split cs) e (split-All cs))

split-part : (s : Text) → IsPart s → split s ≡ s ∷ []
unfolding split push_unit
split-part [] h = refl
split-part (c ∷ cs) h = if_false ([] ∷ split cs) h.0 ∙ ap (push_unit c) (split-part cs h.1)

split-append : (s cs : Text) → IsPart s → split (s ++ (slash ∷ cs)) ≡ s ∷ split cs
unfolding split push_unit
split-append [] cs h = refl
split-append (c ∷ s) cs h =
    if_false ([] ∷ split (s ++ (slash ∷ cs))) h.0 ∙ ap (push_unit c) (split-append s cs h.1)

split-join_parts :
    (s : Text) (ss : List Text) → All IsPart (s ∷ ss) → split (join_parts (s ∷ ss)) ≡ s ∷ ss
unfolding join_parts
split-join_parts s [] h = split-part s h.0
split-join_parts s (t ∷ ss) h =
    split-append s (join_parts (t ∷ ss)) h.0 ∙ ap (λ ts. s ∷ ts) (split-join_parts t ss h.1)

mask-IsPart : (s : Text) → IsPart s → IsPart (mask s)
unfolding mask
mask-IsPart [] h = tt
mask-IsPart (c ∷ cs) h =
    if-intro IsPart (is_digits (c ∷ cs)) (λ e. (refl, (refl, (refl, tt))))
      (λ e.
        if-intro IsPart (leb 24 (length (c ∷ cs)))
          (λ g. (refl, (refl, (refl, (refl, (refl, (refl, (refl, (refl, (refl, tt))))))))))
          (λ g. h))

mask-short : (s : Text) → length (mask s) < 24
unfolding mask
mask-short [] = omega arith
mask-short (c ∷ cs) =
    if-intro (λ (t : Text). length t < 24) (is_digits (c ∷ cs)) (λ e. omega arith)
      (λ e.
        if-intro (λ (t : Text). length t < 24) (leb 24 (length (c ∷ cs))) (λ g. omega arith)
          (λ g. ground (arith, g)))

push_unit-nonempty : (c : ℕ) (ss : List Text) → push_unit c ss ≢ []
unfolding push_unit
push_unit-nonempty c [] e = cc
push_unit-nonempty c (s ∷ ss) e = cc

split-nonempty : (cs : Text) → split cs ≢ []
unfolding split
split-nonempty [] = λ e. cc
split-nonempty (c ∷ cs) =
    if-intro (λ (ss : List Text). ss ≢ []) (c == slash) (λ e g. cc)
      (λ e. push_unit-nonempty c (split cs))

-- A first part without its first unit, and with one more.
peeled-IsShort :
    (m c : ℕ) (ss : List Text)
    → ss ≢ []
    → IsShort m (push_unit c ss)
    → (0 < m - 1) × IsShort (m - 1) ss
unfolding push_unit
peeled-IsShort m c [] ne h = absurd (ne refl)
peeled-IsShort m c (s ∷ ss) ne h = (omega (arith, h.0), (omega (arith, h.0), h.1))

push_unit-IsShort :
    (m c : ℕ) (ss : List Text) → 0 < m - 1 → IsShort (m - 1) ss → IsShort m (push_unit c ss)
unfolding push_unit
push_unit-IsShort m c [] p h = (omega (arith, p), tt)
push_unit-IsShort m c (s ∷ ss) p h = (omega (arith, h.0, p), h.1)

IsShort-All : (ss : List Text) → IsShort 24 ss → All (λ t. length t < 24) ss
IsShort-All [] h = tt
IsShort-All (s ∷ ss) h = h

All-IsShort : (ss : List Text) → All (λ t. length t < 24) ss → IsShort 24 ss
All-IsShort [] h = tt
All-IsShort (s ∷ ss) h = h

slice-IsShort :
    (m n : ℕ) (cs : Text) → 0 < m → IsShort m (split cs) → IsShort m (split (slice n cs))
unfolding slice split
slice-IsShort m zero cs p h = (p, tt)
slice-IsShort m (suc n) [] p h = (p, tt)
slice-IsShort m (suc n) (c ∷ cs) p h = elim (Bool-cases (c == slash)) [
  | inl e ↦ subst (IsShort m) (sym (if_true (push_unit c (split (slice n cs))) e)) (
    p,
    IsShort-All (split (slice n cs)) (
        slice-IsShort 24 n cs (omega arith)
          (All-IsShort (split cs) (subst (IsShort m) (if_true (push_unit c (split cs)) e) h).1)),
  )
  | inr e ↦
      let q : (0 < m - 1) × IsShort (m - 1) (split cs) =
        peeled-IsShort m c (split cs) (split-nonempty cs)
          (subst (IsShort m) (if_false ([] ∷ split cs) e) h) in
      subst (IsShort m) (sym (if_false ([] ∷ split (slice n cs)) e))
        (push_unit-IsShort m c (split (slice n cs)) q.0 (slice-IsShort (m - 1) n cs q.0 q.1))
]

masked-IsPart : (ss : List Text) → All IsPart ss → All IsPart (map mask ss)
masked-IsPart [] h = tt
masked-IsPart (s ∷ ss) h = (mask-IsPart s h.0, masked-IsPart ss h.1)

masked-short : (ss : List Text) → All (λ t. length t < 24) (map mask ss)
masked-short [] = tt
masked-short (s ∷ ss) = (mask-short s, masked-short ss)

masked_path-short :
    (ss : List Text)
    → ss ≢ []
    → All IsPart ss
    → All (λ t. length t < 24) (split (join_parts (map mask ss)))
masked_path-short [] ne h = absurd (ne refl)
masked_path-short (s ∷ ss) ne h =
    subst (All (λ t. length t < 24))
      (sym (split-join_parts (mask s) (map mask ss) (masked-IsPart (s ∷ ss) h)))
      (masked-short (s ∷ ss))

length-slice : (n : ℕ) (cs : Text) → length (slice n cs) ≤ n
unfolding slice
length-slice zero cs = omega arith
length-slice (suc n) [] = omega arith
length-slice (suc n) (c ∷ cs) = omega (arith, length-slice n cs)

unknown_url_path-short : All (λ t. length t < 24) (split unknown_url_path)
unfolding split push_unit
unknown_url_path-short = (omega arith, tt)

-- Whatever the URL and its parser, the path of a report has at most 300 units, and every part of it
-- between two slashes has fewer than 24, so no token of 24 units or more is reported.
pub safe_url_path-short :
    (pathname : Text → Option Text) (url : Text)
    → (length (safe_url_path pathname url) ≤ 300)
      × All (λ part. length part < 24) (split (safe_url_path pathname url))
unfolding safe_url_path
safe_url_path-short pathname url = elim (Option-cases (pathname url)) [
  | inl e ↦ rw (e, safe_url_path) (omega arith, unknown_url_path-short)
  | inr (path, e) ↦
      rw (e, safe_url_path)
        (
          length-slice 300 (join_parts (map mask (split path))),
          IsShort-All (split (slice 300 (join_parts (map mask (split path))))) (
              slice-IsShort 24 300 (join_parts (map mask (split path))) (omega arith) (
                All-IsShort (split (join_parts (map mask (split path))))
                  (masked_path-short (split path) (split-nonempty path) (split-All path)))),
        )
]
