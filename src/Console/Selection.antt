-- ===== src/Console/Selection.antt =====
-- The selection of a port (frontend/src/admin/state/PanelProvider.jsx) follows the filter.
use ai_routing_panel.Js.{get, same, Builtins, Value}
use ai_routing_panel.Console.Ports.{
  first_id, is_selected_port, is_shown, filtered_ports, keep_selection, selected_port,
}
use ai_routing_panel.Console.State.{Console}
use mathlib.Core.Path.{subst}
use ai_routing_panel.Prelude.{
  inr, inl, if-intro, Bool-cases, refl, [], ◌∙◌, sym, ap, arith, some, filter, ◌∷◌, ◌≡◌, any, find,
  All, List, String, Bool, true, false,
}

any_finds :
    (p : Value → Bool) (xs : List Value) → any p xs ≡ true → (x : Value) × (find p xs ≡ some x)
any_finds p [] h = cc
any_finds p (x ∷ xs) h = elim (Bool-cases (p x)) [
  | inl e ↦ (x, ground (arith, e))
  | inr e ↦ let rest = any_finds p xs (ground (arith, e, h)) in (rest.0, ground (arith, e, rest.1))
]

All-find :
    (q p : Value → Bool) (xs : List Value) (x : Value)
    → find p xs ≡ some x
    → All (λ y. q y ≡ true) xs
    → q x ≡ true
All-find q p [] x e a = cc
All-find q p (y ∷ ys) x e a = elim (Bool-cases (p y)) [
  | inl k ↦ let same_port : y ≡ x = ground (arith, k, e) in ap q (sym same_port) ∙ a.0
  | inr k ↦ All-find q p ys x (ground (arith, k, e)) a.1
]

All-choice :
    (q : Value → Bool) (b : Bool) (x : Value) (xs : List Value)
    → (b ≡ true → q x ≡ true)
    → All (λ y. q y ≡ true) xs
    → All (λ y. q y ≡ true) (elim b [ true ↦ x ∷ xs | false ↦ xs ])
All-choice q true x xs h a = (h refl, a)
All-choice q false x xs h a = a

All-filter : (q : Value → Bool) (xs : List Value) → All (λ y. q y ≡ true) (filter q xs)
All-filter q [] = tt
All-filter q (x ∷ xs) = All-choice q (q x) x (filter q xs) (λ e. e) (All-filter q xs)

module _ (js : Builtins) (includes : String → String → Bool) where
  filtered_ports-keep_selection :
      (c : Console)
      → filtered_ports js includes (keep_selection js includes c) ≡ filtered_ports js includes c
  unfolding keep_selection filtered_ports
  filtered_ports-keep_selection c =
      if-intro
        (λ (d : Console).
          filter (is_shown js includes d.filters) (d.panel.ports) ≡ filtered_ports js includes c)
        (any (is_selected_port c.selected_port_id) (filtered_ports js includes c)) (λ _. refl)
        (λ _. refl)

  kept-any :
      (c : Console) (p : Value) (ps : List Value)
      → filtered_ports js includes c ≡ p ∷ ps
      → same (get p "id") (get p "id") ≡ true
      → any
          (is_selected_port (keep_selection js includes c).selected_port_id)
          (filtered_ports js includes c)
        ≡ true
  unfolding keep_selection is_selected_port first_id
  kept-any c p ps h r =
      if-intro
        (λ (d : Console).
          any (is_selected_port d.selected_port_id) (filtered_ports js includes c) ≡ true)
        (any (is_selected_port c.selected_port_id) (filtered_ports js includes c)) (λ e. e)
        (λ _.
          subst (λ xs. any (is_selected_port (first_id xs)) xs ≡ true) (sym h) (ground (arith, r)))

  -- After the effect of a render that shows a port whose id can be compared, a port is selected, and
  -- it is a shown one.
  pub selected_port-keep_selection :
      (c : Console) (p : Value) (ps : List Value)
      → filtered_ports js includes c ≡ p ∷ ps
      → same (get p "id") (get p "id") ≡ true
      → (q : Value) × (selected_port js includes (keep_selection js includes c) ≡ some q)
        × (is_shown js includes c.filters q ≡ true)
  unfolding selected_port filtered_ports
  selected_port-keep_selection c p ps h r =
      let kept = keep_selection js includes c in
      let found =
        any_finds (is_selected_port kept.selected_port_id) (filtered_ports js includes c)
          (kept-any c p ps h r) in
      (
        found.0,
        ap (find (is_selected_port kept.selected_port_id)) (filtered_ports-keep_selection c)
            ∙ found.1,
        All-find (is_shown js includes c.filters) (is_selected_port kept.selected_port_id)
            (filtered_ports js includes c) found.0 found.1 (All-filter _ (c.panel.ports)),
      )
