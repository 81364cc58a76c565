-- ===== src/Diagnose/Order.antt =====
-- The order of the checklist: sorted by tone, and within a tone the order of the checks.
use ai_routing_panel.Prelude.{
  some, refl, All-map, [], ◌==◌, leb, arith, if-intro, All, if◌then◌else◌, ◌∙◌, ◌∷◌, ◌≤◌, ◌≡◌, List,
  ℕ,
}
use ai_routing_panel.Diagnose.Checks.{failures_of, failure_items, Item}
use ai_routing_panel.Js.{Value, Builtins}
use ai_routing_panel.Dashboard.Panel.{Panel}
use ai_routing_panel.Diagnose.Checklist.{
  found, or_all_clear, build_checklist, insert_item, sort_items, rank,
}

-- The ranks increase along the list.
abbrev pub IsSorted : List Item → Type 0
IsSorted [] = Unit
IsSorted (a ∷ rest) = All (λ b. rank a.tone ≤ rank b.tone) rest × IsSorted rest

-- The items of a tone, in their order.
unfoldable pub of_tone : ℕ → List Item → List Item
of_tone r [] = []
of_tone r (a ∷ bs) = let rest = of_tone r bs in if rank a.tone == r then a ∷ rest else rest

insert_item-All :
    (n : ℕ) (a : Item) (bs : List Item)
    → n ≤ rank a.tone
    → All (λ b. n ≤ rank b.tone) bs
    → All (λ b. n ≤ rank b.tone) (insert_item a bs)
unfolding insert_item
insert_item-All n a [] h hs = (h, tt)
insert_item-All n a (b ∷ bs) h hs =
    if-intro (All (λ b. n ≤ rank b.tone)) (leb (rank a.tone) (rank b.tone)) (λ _. (h, hs))
      (λ _. (hs.0, insert_item-All n a bs h hs.1))

insert_item-IsSorted : (a : Item) (bs : List Item) → IsSorted bs → IsSorted (insert_item a bs)
unfolding insert_item
insert_item-IsSorted a [] h = (tt, tt)
insert_item-IsSorted a (b ∷ bs) h =
    if-intro IsSorted (leb (rank a.tone) (rank b.tone))
      (λ e. ((ground arith, All-map bs (λ c k. ground arith) h.0), h))
      (λ e. (insert_item-All (rank b.tone) a bs (ground arith) h.0, insert_item-IsSorted a bs h.1))

sort_items-IsSorted : (items : List Item) → IsSorted (sort_items items)
unfolding sort_items
sort_items-IsSorted [] = tt
sort_items-IsSorted (a ∷ rest) = insert_item-IsSorted a (sort_items rest) (sort_items-IsSorted rest)

-- An item goes before those of its own tone.
of_tone-insert_item :
    (r : ℕ) (a : Item) (bs : List Item) → of_tone r (insert_item a bs) ≡ of_tone r (a ∷ bs)
unfolding of_tone insert_item
of_tone-insert_item r a [] = refl
of_tone-insert_item r a (b ∷ bs) = ground (arith, of_tone-insert_item r a bs)

of_tone_cons :
    (r : ℕ) (a : Item) (bs cs : List Item)
    → of_tone r bs ≡ of_tone r cs
    → of_tone r (a ∷ bs) ≡ of_tone r (a ∷ cs)
unfolding of_tone
of_tone_cons r a bs cs h = ground arith

of_tone-sort_items : (r : ℕ) (items : List Item) → of_tone r (sort_items items) ≡ of_tone r items
unfolding sort_items
of_tone-sort_items r [] = refl
of_tone-sort_items r (a ∷ rest) =
    of_tone-insert_item r a (sort_items rest) ∙ of_tone_cons r a _ _ (of_tone-sort_items r rest)

-- Where the first of the recent failures can be read, the checklist is what the checks found, or
-- the all-clear item where they found nothing, sorted by tone: danger, warning, info, success;
-- the items of one tone keep the order of the checks.
pub build_checklist-IsSorted :
    (js : Builtins) (p : Panel) (insights diagnosis : Value) (failures : List Item)
    → failure_items (failures_of insights) ≡ some failures
    → (items : List Item) × (build_checklist js p insights diagnosis ≡ some items)
      × IsSorted items
      × ((r : ℕ) → of_tone r items ≡ of_tone r (or_all_clear (found js p failures diagnosis)))
unfolding build_checklist
build_checklist-IsSorted js p insights diagnosis failures h =
    let items = or_all_clear (found js p failures diagnosis) in
    (
      sort_items items,
      rw (h, build_checklist),
      sort_items-IsSorted items,
      λ r. of_tone-sort_items r items,
    )
