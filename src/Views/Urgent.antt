-- ===== src/Views/Urgent.antt =====
-- The three items that frontend/src/admin/workspaces/OverviewWorkspace.jsx shows of the checklist of
-- frontend/src/admin/lib/diagnose.js are the most urgent ones.
use ai_routing_panel.Prelude.{
  refl, arith, ap, ◌∙◌, inl, inr, zero, ◌⊎◌, [], ◌∷◌, ◌≡◌, suc, ◌≤◌, ◌++◌, All, take, length, drop,
  List, ℕ, refl, arith, ap, some,
}
use ai_routing_panel.Views.Overview.{first_items, overview_checklist}
use ai_routing_panel.Diagnose.Order.{build_checklist-IsSorted, of_tone, IsSorted}
use ai_routing_panel.Diagnose.Checklist.{found, or_all_clear, rank}
use ai_routing_panel.Js.{Builtins}
use ai_routing_panel.Console.State.{Console}
use ai_routing_panel.Diagnose.Checks.{failures_of, failure_items, Item}

take-drop : (n : ℕ) (xs : List Item) → take n xs ++ drop n xs ≡ xs
take-drop zero xs = refl
take-drop (suc n) [] = refl
take-drop (suc n) (x ∷ xs) = ap (λ ys. x ∷ ys) (take-drop n xs)

drop-All : (P : Item → Type 0) (n : ℕ) (xs : List Item) → All P xs → All P (drop n xs)
drop-All P zero xs h = h
drop-All P (suc n) [] h = h
drop-All P (suc n) (x ∷ xs) h = drop-All P n xs h.1

-- No element of the rest ranks before an element of the front.
abbrev pub IsBefore : List Item → List Item → Type 0
IsBefore front rest = All (λ a. All (λ b. rank a.tone ≤ rank b.tone) rest) front

take-IsBefore : (n : ℕ) (xs : List Item) → IsSorted xs → IsBefore (take n xs) (drop n xs)
take-IsBefore zero xs h = tt
take-IsBefore (suc n) [] h = tt
take-IsBefore (suc n) (x ∷ xs) h = (drop-All _ n xs h.0, take-IsBefore n xs h.1)

take-full : (n : ℕ) (xs : List Item) → (drop n xs ≡ []) ⊎ (length (take n xs) ≡ n)
take-full zero xs = inr refl
take-full (suc n) [] = inl refl
take-full (suc n) (x ∷ xs) = elim (take-full n xs) [ inl e ↦ inl e | inr e ↦ inr (ap suc e) ]

length-take : (n : ℕ) (xs : List Item) → length (take n xs) ≤ n
length-take zero xs = omega arith
length-take (suc n) [] = omega arith
length-take (suc n) (x ∷ xs) = omega (arith, length-take n xs)

-- Where the first of the recent failures can be read, the overview shows at most three items; with
-- the items that it leaves out they are what the checks found, or the all-clear item, those of one
-- tone in the order of the checks; an item is left out only if three are shown; and no item that is
-- left out has a more urgent tone than one that is shown.
pub overview_checklist-IsBefore :
    (js : Builtins) (c : Console) (failures : List Item)
    → failure_items (failures_of c.insights) ≡ some failures
    → (front : List Item) × (rest : List Item) × (overview_checklist js c ≡ some front)
      × ((r : ℕ)
          → of_tone r (front ++ rest)
            ≡ of_tone r (or_all_clear (found js c.panel failures c.diagnosis)))
      × (length front ≤ 3)
      × ((rest ≡ []) ⊎ (length front ≡ 3))
      × IsBefore front rest
unfolding overview_checklist first_items
overview_checklist-IsBefore js c failures h =
    let (all, e, sorted, same_tone) =
      build_checklist-IsSorted js c.panel c.insights c.diagnosis failures h in
    (
      take 3 all,
      drop 3 all,
      ap first_items e,
      λ r. ap (of_tone r) (take-drop 3 all) ∙ same_tone r,
      length-take 3 all,
      take-full 3 all,
      take-IsBefore 3 all sorted,
    )
