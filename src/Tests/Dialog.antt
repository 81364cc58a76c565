-- ===== src/Tests/Dialog.antt =====
-- A run of the focus of a dialog with two buttons: the tabulator on the last one, a move
-- of the focus to another element, and a click on the backdrop.
use ai_routing_panel.Dialog.Focus.{
  body, inside, last_of, is_container, is_inside, contains, other, is_at_edge, start_place,
  focus_start, tab, Press, open_dialog, press_all, outside, on_tab, Document, Elements,
}
use ai_routing_panel.Dialog.Trap.{open_dialog-IsTrapped, IsTrapped}
use ai_routing_panel.Prelude.{refl, ◌≡◌, false, ◌==◌, [], ◌∷◌, List}

abbrev buttons : Elements
buttons = record { list = 4 ∷ 5 ∷ []; has_autofocus = λ n. n == 5 }

abbrev page : Document
page = record { focus = outside 1; overflow = "auto"; dismissed = 0 }

abbrev presses : List Press
presses =
    record { elements = buttons; key = tab false; moved = outside 2 }
    ∷ record { elements = buttons; key = other; moved = outside 3 }
    ∷ record { elements = buttons; key = other; moved = body }
    ∷ []

open_dialog-IsTrapped_example : IsTrapped (press_all presses (open_dialog buttons page))
open_dialog-IsTrapped_example = open_dialog-IsTrapped buttons presses page

wrapped_run : (on_tab false (4 ∷ 5 ∷ []) (open_dialog buttons page)).1.focus ≡ inside 4
unfolding on_tab open_dialog focus_start start_place is_at_edge contains is_inside is_container
    last_of
wrapped_run = refl
