-- ===== src/Tests/Copying.antt =====
-- Two copies, the second while the timer of the first runs.
use ai_routing_panel.Views.Copying.{
  fires, copies_ended, clicks_copy, CopyEvent, timer_fires, stop_timer, start_timer, on_copy,
  new_field, ended_copy, copy_step, copy_run, copy_label, copy_ends, clear_timer,
}
use ai_routing_panel.Views.Copied.{copy_run-IsOneTimer, IsOneTimer}
use ai_routing_panel.Prelude.{[], true, ◌∷◌, List, ◌≡◌, refl}

abbrev copies : List CopyEvent
copies = clicks_copy ∷ clicks_copy ∷ copies_ended true ∷ copies_ended true ∷ fires 1 ∷ []

-- The first timer has been stopped.
copies_label : copy_label (copy_run copies new_field) ≡ "已复制"
unfolding copy_label copy_run copy_step on_copy ended_copy copy_ends start_timer clear_timer
    stop_timer timer_fires new_field
copies_label = refl

copy_run-IsOneTimer_example : IsOneTimer (copy_run copies new_field)
copy_run-IsOneTimer_example = copy_run-IsOneTimer copies
