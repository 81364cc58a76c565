-- ===== src/Views/Copying.antt =====
-- `CopyField` of frontend/src/admin/components/ui.jsx: its label and its timer. The component's host
-- gives callbacks that do not raise. frontend/src/shared/ui/CopyField.vue is written in the same way.
use ai_routing_panel.Prelude.{
  zero, true, any, Option, [], ◌==◌, suc, false, ◌∷◌, if◌then◌else◌, none, ℕ, String, List, Bool,
  some,
}

-- The timers of the window that wait, the ref `timer`, and the number of copies that have not ended.
pub record CopyField : Type 0 where
  pub copied : Bool
  pub timer : Option ℕ
  pub running : List ℕ
  pub next_timer : ℕ
  pub copying : ℕ
  pub is_mounted : Bool

unfoldable pub new_field : CopyField
new_field = record {
  copied = false;
  timer = none;
  running = [];
  next_timer = 1;
  copying = 0;
  is_mounted = true;
}

unfoldable pub stop_timer : ℕ → List ℕ → List ℕ
stop_timer k [] = []
stop_timer k (j ∷ js) = let rest = stop_timer k js in if j == k then rest else j ∷ rest

-- `if (timer.current) window.clearTimeout(timer.current)`
unfoldable pub clear_timer : CopyField → CopyField
clear_timer f = elim f.timer [ none ↦ f | some k ↦ record f { running = stop_timer k f.running } ]

-- `onCopy` up to its await, and from there on.
unfoldable pub on_copy : CopyField → CopyField
on_copy f = record f { copying = suc f.copying }

unfoldable pub start_timer : CopyField → CopyField
start_timer f = record f {
  timer = some f.next_timer;
  running = f.next_timer ∷ f.running;
  next_timer = suc f.next_timer;
}

unfoldable pub copy_ends : Bool → CopyField → CopyField
copy_ends true f = start_timer (clear_timer (record f { copied = true }))
copy_ends false f = f

-- The function of the timer.
unfoldable pub timer_fires : ℕ → CopyField → CopyField
timer_fires k f =
    if any (λ j. j == k) f.running
    then record f { copied = false; running = stop_timer k f.running }
    else f

-- The cleanup of the effect.
unfoldable pub leave_field : CopyField → CopyField
leave_field f = record (clear_timer f) { is_mounted = false }

-- The text of the button.
unfoldable pub copy_label : CopyField → String
copy_label f = if f.copied then "已复制" else "复制"

pub data CopyEvent : Type 0 where
  clicks_copy : CopyEvent
  -- a copy ends, with or without success
  copies_ended : Bool → CopyEvent
  fires : ℕ → CopyEvent
  leaves : CopyEvent

unfoldable pub ended_copy : Bool → ℕ → CopyField → CopyField
ended_copy ok zero f = f
ended_copy ok (suc n) f = copy_ends ok (record f { copying = n })

unfoldable pub copy_step : CopyEvent → CopyField → CopyField
copy_step clicks_copy f = if f.is_mounted then on_copy f else f
copy_step (copies_ended ok) f = ended_copy ok f.copying f
copy_step (fires k) f = timer_fires k f
copy_step leaves f = if f.is_mounted then leave_field f else f

unfoldable pub copy_run : List CopyEvent → CopyField → CopyField
copy_run [] f = f
copy_run (e ∷ es) f = copy_run es (copy_step e f)
