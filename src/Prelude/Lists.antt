-- ===== src/Prelude/Lists.antt =====
-- Lists measured and searched by native numbers and Boolean tests, under the library's names, and
-- a predicate on every element.
use Prim.Native.Nat.{ℕ, zero, suc, ◌+◌}
use mathlib.Core.Path.{◌≡◌, refl, subst}
use mathlib.Core.Bool.{Bool, true, false, ◌||◌}
use mathlib.Core.List.{List, [], ◌∷◌, ◌++◌, map}
use mathlib.Core.Option
use mathlib.Core.Option.{Option, none, some}
use native.Mathlib.Omega.{arith}

module _ {ℓ} {A : Type ℓ} where
  abbrev pub length : List A → ℕ
  length [] = 0
  length (x ∷ xs) = suc (length xs)

  abbrev pub any : (A → Bool) → List A → Bool
  any p [] = false
  any p (x ∷ xs) = p x || any p xs

  -- `Array.prototype.filter`
  abbrev pub filter : (A → Bool) → List A → List A
  filter p [] = []
  filter p (x ∷ xs) = let rest = filter p xs in elim (p x) [ true ↦ x ∷ rest | false ↦ rest ]

  -- `Array.prototype.find`; `undefined` is `none`.
  abbrev pub find : (A → Bool) → List A → Option A
  find p [] = none
  find p (x ∷ xs) = let rest = find p xs in elim (p x) [ true ↦ some x | false ↦ rest ]

  abbrev pub get_elem? : List A → ℕ → Option A
  get_elem? [] i = none
  get_elem? (x ∷ xs) zero = some x
  get_elem? (x ∷ xs) (suc i) = get_elem? xs i

  abbrev pub take : ℕ → List A → List A
  take zero xs = []
  take (suc n) [] = []
  take (suc n) (x ∷ xs) = x ∷ take n xs

  abbrev pub drop : ℕ → List A → List A
  drop zero xs = xs
  drop (suc n) [] = []
  drop (suc n) (x ∷ xs) = drop n xs

  -- the list without the element at this place
  abbrev pub remove_at : ℕ → List A → List A
  remove_at k [] = []
  remove_at zero (x ∷ xs) = xs
  remove_at (suc k) (x ∷ xs) = x ∷ remove_at k xs

  pub length-append : (xs ys : List A) → length (xs ++ ys) ≡ length xs + length ys
  length-append [] ys = omega arith
  length-append (x ∷ xs) ys = omega (arith, length-append xs ys)

  pub any-append : (p : A → Bool) (xs ys : List A) → any p (xs ++ ys) ≡ (any p xs || any p ys)
  any-append p [] ys = refl
  any-append p (x ∷ xs) ys = ground (arith, any-append p xs ys)

-- A predicate by recursion, which the tactics read and build as tuples.
module _ {ℓ κ} {A : Type ℓ} where
  -- every element satisfies `Q`
  abbrev pub All : (A → Type κ) → List A → Type κ
  All Q [] = Unit
  All Q (a ∷ rest) = Q a × All Q rest

  pub All-append :
      (Q : A → Type κ) (front back : List A) → All Q front → All Q back → All Q (front ++ back)
  All-append Q [] back f b = b
  All-append Q (a ∷ front) back (q, f) b = (q, All-append Q front back f b)

  pub All-map : {P Q : A → Type κ} (xs : List A) → ((x : A) → P x → Q x) → All P xs → All Q xs
  All-map [] f h = tt
  All-map (x ∷ xs) f h = (f x h.0, All-map xs f h.1)

  pub All-get_elem? :
      (P : A → Type κ) (xs : List A) (i : ℕ) {x : A} → All P xs → get_elem? xs i ≡ some x → P x
  All-get_elem? P [] i h e = cc
  All-get_elem? P (x ∷ xs) zero h e = subst P (Option.some-injective _ _ e) h.0
  All-get_elem? P (x ∷ xs) (suc i) h e = All-get_elem? P xs i h.1 e

  pub All-split :
      (Q : A → Type κ) (front back : List A) → All Q (front ++ back) → All Q front × All Q back
  All-split Q [] back h = (tt, h)
  All-split Q (a ∷ front) back h = let (f, b) = All-split Q front back h.1 in ((h.0, f), b)

-- A predicate on the images holds of the elements after the function.
pub All-of_map {ℓ κ μ} :
    {A : Type ℓ} {B : Type κ} (Q : B → Type μ) (f : A → B) (xs : List A)
    → All Q (map f xs)
    → All (λ x. Q (f x)) xs
All-of_map Q f [] h = tt
All-of_map Q f (x ∷ xs) h = (h.0, All-of_map Q f xs h.1)
