-- ===== src/Dialog/Focus.antt =====
-- The handlers of `useDialogFocus` (frontend/src/admin/components/useDialogFocus.js). What
-- `focusableElements` finds in the document at an event is given with the event, and so is the place
-- where the browser moves the focus by default. A `focusin` event comes with an element that receives
-- the focus, and with none when the focus falls back to the body of the page.
use ai_routing_panel.Prelude.{
  ◌&&◌, ◌||◌, suc, not, [], none, some, false, ◌==◌, if◌then◌else◌, true, ◌∷◌, List, Bool, String,
  find, ℕ,
}

-- The container of the dialog, an element inside of it, one outside, or the body, where nothing has
-- the focus: after a click on the backdrop, or when the focused button is disabled.
pub data Place : Type 0 where
  container body : Place
  inside : ℕ → Place
  outside : ℕ → Place

pub record Document : Type 0 where
  pub focus : Place
  pub overflow : String
  -- the calls of the dismiss callback
  pub dismissed : ℕ

-- The focusable elements in their order, and whether one asks for the focus.
pub record Elements : Type 0 where
  pub list : List ℕ
  pub has_autofocus : ℕ → Bool

-- `container.contains(place)`
unfoldable pub contains : Place → Bool
contains (outside n) = false
contains body = false
contains _ = true

unfoldable pub is_container : Place → Bool
is_container container = true
is_container _ = false

unfoldable pub is_body : Place → Bool
is_body body = true
is_body _ = false

unfoldable pub is_inside : ℕ → Place → Bool
is_inside n (inside m) = m == n
is_inside n _ = false

unfoldable pub first_or_container : List ℕ → Place
first_or_container [] = container
first_or_container (n ∷ ns) = inside n

-- the last of `n` and `ns`
unfoldable pub last_of : ℕ → List ℕ → ℕ
last_of n [] = n
last_of n (m ∷ ns) = last_of m ns

unfoldable pub start_place : Elements → Place
start_place es = elim (find es.has_autofocus es.list) [
  | some n ↦ inside n
  | none ↦ first_or_container es.list
]

unfoldable pub focus_start : Elements → Document → Document
focus_start es d = record d { focus = start_place es }

pub data Key : Type 0 where
  escape other : Key
  -- with the shift key or without
  tab : Bool → Key

-- The focus would leave the elements `n` and `ns`, or has left the dialog.
unfoldable pub is_at_edge : Bool → ℕ → List ℕ → Place → Bool
is_at_edge shift n ns focus =
    not (contains focus)
    || (shift && (is_inside n focus || is_container focus))
    || (not shift && is_inside (last_of n ns) focus)

-- `onKeyDown` on the tabulator, and whether it prevents the default of the browser.
unfoldable pub on_tab : Bool → List ℕ → Document → Bool × Document
on_tab shift [] d = (true, record d { focus = container })
on_tab shift (n ∷ ns) d =
    if is_at_edge shift n ns d.focus
    then (true, record d { focus = inside (if shift then last_of n ns else n) })
    else (false, d)

unfoldable pub on_key_down : Elements → Key → Document → Bool × Document
on_key_down es escape d = (true, record d { dismissed = suc d.dismissed })
on_key_down es (tab shift) d = on_tab shift es.list d
on_key_down es other d = (false, d)

unfoldable pub on_focus_in : Elements → Document → Document
on_focus_in es d = if contains d.focus then d else focus_start es d

-- The browser moves the focus to `moved`.
unfoldable pub move_focus : Elements → Place → Document → Document
move_focus es moved d =
    let there = record d { focus = moved } in if is_body moved then there else on_focus_in es there

-- A key that is pressed while the dialog is open, or a click or another move of the focus, with the
-- key `other`: the browser moves the focus to `moved`, unless the handler prevents it.
pub record Press : Type 0 where
  pub elements : Elements
  pub key : Key
  pub moved : Place

unfoldable pub press : Press → Document → Document
press e d =
    let handled = on_key_down e.elements e.key d in
    if handled.0 then handled.1 else move_focus e.elements e.moved handled.1

unfoldable pub press_all : List Press → Document → Document
press_all [] d = d
press_all (e ∷ es) d = press_all es (press e d)

-- The effect that opens the scope, and its cleanup.
unfoldable pub open_dialog : Elements → Document → Document
open_dialog es d = focus_start es (record d { overflow = "hidden" })

unfoldable pub close_dialog : Document → Bool → Document → Document
close_dialog previous is_connected d =
    let restored = record d { overflow = previous.overflow } in
    if is_connected then record restored { focus = previous.focus } else restored
