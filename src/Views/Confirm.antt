-- ===== src/Views/Confirm.antt =====
-- `useConfirm` and `ConfirmDialog` of frontend/src/admin/components/ConfirmDialog.jsx: the question that
-- is shown, and the callbacks of confirmed questions that have not ended.
use ai_routing_panel.Prelude.{
  remove_at, remove_at, remove_at, remove_at, remove_at, remove_at, remove_at, remove_at, remove_at,
  remove_at, remove_at, remove_at, remove_at, remove_at, remove_at, remove_at, remove_at, not, [],
  ◌&&◌, ◌∷◌, true, false, get_elem?, ◌===◌, Bool, none, if◌then◌else◌, List, some, String, Option,
  ℕ,
}
use ai_routing_panel.Console.Actions.{Action}
use ai_routing_panel.Views.Controls.{Question}

-- The argument of `ask`, with its `onConfirm`.
abbrev pub Asked : Type 0
Asked = Question × Action

-- `running` has the callbacks that have not ended, the latest first, and `started` all that were
-- called.
pub record Confirmation : Type 0 where
  pub request : Option Asked
  pub busy : Bool
  pub running : List Action
  pub started : List Action

abbrev pub unasked : Confirmation
unasked = record { request = none; busy = false; running = []; started = [] }

unfoldable pub ask : Asked → Confirmation → Confirmation
ask asked c = record c { request = some asked }

unfoldable pub close : Confirmation → Confirmation
close c = record c { request = none }

-- `confirm` up to its await.
unfoldable pub confirm : Confirmation → Confirmation
confirm c = elim c.request [
  | none ↦ c
  | some asked ↦ record c {
    busy = true;
    running = asked.1 ∷ c.running;
    started = asked.1 ∷ c.started;
  }
]

-- The `finally` of `confirm`, after the callback at this place of `running` has returned or thrown.
unfoldable pub callback_ends : ℕ → Confirmation → Confirmation
callback_ends k c = elim (get_elem? c.running k) [
  | none ↦ c
  | some a ↦ record c { busy = false; request = none; running = remove_at k c.running }
]

-- The dialog is there only with a question, and its controls and its backdrop do nothing while busy.
unfoldable pub is_open : Confirmation → Bool
is_open c = elim c.request [ none ↦ false | some asked ↦ true ]

unfoldable pub click_cancel : Confirmation → Confirmation
click_cancel c = if is_open c && not c.busy then close c else c

unfoldable pub click_confirm : Confirmation → Confirmation
click_confirm c = if is_open c && not c.busy then confirm c else c

unfoldable pub click_backdrop : Bool → Confirmation → Confirmation
click_backdrop on_itself c = if is_open c && on_itself && not c.busy then close c else c

unfoldable pub press_escape : Confirmation → Confirmation
press_escape c = if is_open c && not c.busy then close c else c

abbrev pub shown_label : Bool → String → String
shown_label busy label = if busy then "处理中…" else if label === "" then "确认" else label

abbrev pub shown_tone : String → String
shown_tone tone = if tone === "danger" then "danger" else "primary"

pub data Touch : Type 0 where
  asks_for : Asked → Touch
  cancels : Touch
  confirms : Touch
  touches_backdrop : Bool → Touch
  escapes : Touch
  callback_done : ℕ → Touch

unfoldable pub touch : Touch → Confirmation → Confirmation
touch (asks_for asked) c = ask asked c
touch cancels c = click_cancel c
touch confirms c = click_confirm c
touch (touches_backdrop on_itself) c = click_backdrop on_itself c
touch escapes c = press_escape c
touch (callback_done k) c = callback_ends k c

unfoldable pub touch_all : List Touch → Confirmation → Confirmation
touch_all [] c = c
touch_all (t ∷ ts) c = touch_all ts (touch t c)
