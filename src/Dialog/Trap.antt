-- ===== src/Dialog/Trap.antt =====
-- The focus of an open dialog is in it or on the body, from where the tabulator brings it back.
use ai_routing_panel.Prelude.{
  inr, inl, ◌⊎◌, [], arith, refl, true, ℕ, ◌≡◌, Bool, if-intro, ◌∷◌, List,
}
use ai_routing_panel.Dialog.Focus.{
  container, outside, inside, is_body, Place, body, move_focus, is_at_edge, other, escape, tab, Key,
  Press, Elements, contains, first_or_container, start_place, Document, open_dialog, on_key_down,
  on_focus_in, press, focus_start, press_all, on_tab,
}

-- The focus is in the dialog or on the body, and the page behind it does not scroll.
record IsHeld (d : Document) : Type 0 where
  pub held : (contains d.focus ≡ true) ⊎ (d.focus ≡ body)
  pub hidden : d.overflow ≡ "hidden"

-- The focus is in the dialog, or it is on the body and the tabulator moves it into the dialog, whatever
-- elements the dialog has then and whereto the browser would move it. The page behind the dialog does
-- not scroll.
pub record IsTrapped (d : Document) : Type 0 where
  pub held :
      (contains d.focus ≡ true)
      ⊎ ((d.focus ≡ body)
          × ((es : Elements) (shift : Bool) (moved : Place)
              → contains (press (record { elements = es; key = tab shift; moved = moved }) d).focus
                ≡ true))
  pub hidden : d.overflow ≡ "hidden"

start_place-IsWithin : (es : Elements) → contains (start_place es) ≡ true
unfolding start_place first_or_container contains
start_place-IsWithin es = ground arith

focus_start-IsHeld :
    (es : Elements) (d : Document) → d.overflow ≡ "hidden" → IsHeld (focus_start es d)
unfolding focus_start
focus_start-IsHeld es d h = record { held = inl (start_place-IsWithin es); hidden = h }

on_tab-IsHeld :
    (shift : Bool) (ns : List ℕ) (d : Document) → IsHeld d → IsHeld (on_tab shift ns d).1
unfolding on_tab contains
on_tab-IsHeld shift [] d h = record { held = inl refl; hidden = h.hidden }
on_tab-IsHeld shift (n ∷ ns) d h =
    if-intro (λ (r : Bool × Document). IsHeld r.1) (is_at_edge shift n ns d.focus)
      (λ _. record { held = inl refl; hidden = h.hidden }) (λ _. h)

on_key_down-IsHeld :
    (es : Elements) (key : Key) (d : Document) → IsHeld d → IsHeld (on_key_down es key d).1
unfolding on_key_down
on_key_down-IsHeld es escape d h = record { held = h.held; hidden = h.hidden }
on_key_down-IsHeld es (tab shift) d h = on_tab-IsHeld shift es.list d h
on_key_down-IsHeld es other d h = h

on_focus_in-IsHeld :
    (es : Elements) (d : Document) → d.overflow ≡ "hidden" → IsHeld (on_focus_in es d)
unfolding on_focus_in
on_focus_in-IsHeld es d h =
    if-intro IsHeld (contains d.focus) (λ e. record { held = inl e; hidden = h })
      (λ _. focus_start-IsHeld es d h)

is_body_iff : (p : Place) → is_body p ≡ true → p ≡ body
unfolding is_body
is_body_iff container e = cc
is_body_iff body e = refl
is_body_iff (inside n) e = cc
is_body_iff (outside n) e = cc

move_focus-IsHeld :
    (es : Elements) (moved : Place) (d : Document)
    → d.overflow ≡ "hidden"
    → IsHeld (move_focus es moved d)
unfolding move_focus
move_focus-IsHeld es moved d h =
    if-intro IsHeld (is_body moved) (λ e. record { held = inr (is_body_iff moved e); hidden = h })
      (λ _. on_focus_in-IsHeld es (record d { focus = moved }) h)

press-IsHeld : (e : Press) (d : Document) → IsHeld d → IsHeld (press e d)
unfolding press
press-IsHeld e d h =
    let handled = on_key_down-IsHeld e.elements e.key d h in
    if-intro IsHeld (on_key_down e.elements e.key d).0 (λ _. handled)
      (λ _. move_focus-IsHeld e.elements e.moved _ handled.hidden)

press_all-IsHeld : (es : List Press) (d : Document) → IsHeld d → IsHeld (press_all es d)
unfolding press_all
press_all-IsHeld [] d h = h
press_all-IsHeld (e ∷ es) d h = press_all-IsHeld es (press e d) (press-IsHeld e d h)

-- On the body, the handler of the tabulator prevents the default and focuses the dialog.
on_tab_body :
    (shift : Bool) (ns : List ℕ) (d : Document)
    → d.focus ≡ body
    → ((on_tab shift ns d).0 ≡ true) × (contains (on_tab shift ns d).1.focus ≡ true)
unfolding on_tab is_at_edge contains
on_tab_body shift [] d h = (refl, refl)
on_tab_body shift (n ∷ ns) d h = rw h (refl, refl)

press_tab_body :
    (es : Elements) (shift : Bool) (moved : Place) (d : Document)
    → d.focus ≡ body
    → contains (press (record { elements = es; key = tab shift; moved = moved }) d).focus ≡ true
unfolding press on_key_down
press_tab_body es shift moved d h = let back = on_tab_body shift es.list d h in rw (back.0) (back.1)

IsHeld-IsTrapped : (d : Document) → IsHeld d → IsTrapped d
IsHeld-IsTrapped d h = record {
  held = elim h.held [
    | inl e ↦ inl e
    | inr e ↦ inr (e, λ es shift moved. press_tab_body es shift moved d e)
  ];
  hidden = h.hidden;
}

-- From the opening of a dialog on, after any keys, clicks and moves of the focus by the browser, the
-- focus is in the dialog, or it is on the body and the next press of the tabulator moves it into the
-- dialog; the page behind the dialog does not scroll.
pub open_dialog-IsTrapped :
    (es : Elements) (presses : List Press) (d : Document)
    → IsTrapped (press_all presses (open_dialog es d))
unfolding open_dialog
open_dialog-IsTrapped es presses d =
    IsHeld-IsTrapped _
      (press_all-IsHeld presses _ (focus_start-IsHeld es (record d { overflow = "hidden" }) refl))
