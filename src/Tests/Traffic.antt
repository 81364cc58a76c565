-- ===== src/Tests/Traffic.antt =====
-- The views of the traffic and of the overview, at a change of the period.
use ai_routing_panel.Prelude.{
  refl, arith, refl, arith, ◌⊎◌, ◌≤◌, length, ◌++◌, true, false, ◌≡◌, [], ◌∷◌, ◌===◌, Bool, String,
  ℕ, List, refl, arith, some,
}
use ai_routing_panel.Console.State.{refused}
use ai_routing_panel.Js.{
  null, elements, bool, truthy, or_else, str, array, num, fields_of, object, lookup_field, Value,
  get,
}
use ai_routing_panel.Views.Traffic.{period_label, view_with, traffic_view}
use ai_routing_panel.Console.Apply.{start_insights}
use ai_routing_panel.Views.Period.{change_days-shown, change_days-IsBlank, reloaded, IsBlank}
use ai_routing_panel.Tests.Samples.{plain}
use ai_routing_panel.Diagnose.Checks.{failures_of, failure_items, Item}
use ai_routing_panel.Console.State.{Console, initial}
use ai_routing_panel.Views.Overview.{overview_checklist}
use ai_routing_panel.Diagnose.Order.{of_tone}
use ai_routing_panel.Diagnose.Checklist.{found, or_all_clear}
use ai_routing_panel.Views.Urgent.{overview_checklist-IsBefore, IsBefore}
use ai_routing_panel.Console.World.{
  clear_flash, load_insights, change_days, run, settle_insights, Event, step, start,
}

-- A test that is right for equal texts, which suffices here.
abbrev holds_text : String → String → Bool
holds_text text part = text === part

abbrev counts : ℕ → Value
counts n = object (
    ("total_bytes", num n)
    ∷ ("bytes_received", num n)
    ∷ ("bytes_sent", num 0)
    ∷ ("connections", num 3)
    ∷ [])

abbrev history : ℕ → Value
history days = object (
    ("days", num days)
    ∷ ("totals", counts 5)
    ∷ ("ports", array (object (("listen_port", num 8443) ∷ ("totals", counts 4) ∷ []) ∷ []))
    ∷ [])

abbrev weekly : Value
weekly = object (("insights", object (("traffic", history 7) ∷ [])) ∷ [])

-- The load of the first period is refused late.
abbrev meanwhile : List Event
meanwhile = settle_insights 1 (refused (record { message = str "no"; status = num 500 })) ∷ []

change_days-IsBlank_example : IsBlank (
    traffic_view plain holds_text
      (run plain meanwhile (step plain (change_days 7) (step plain load_insights start))).console)
unfolding step start_insights
change_days-IsBlank_example =
    change_days-IsBlank plain holds_text (step plain load_insights start) 7 meanwhile
      (omega arith, tt)

change_days-shown_example :
    (traffic_view plain holds_text (reloaded plain start 7 [] weekly (clear_flash ∷ [])).console
      ≡ view_with plain holds_text
          (some (history 7))
          (reloaded plain start 7 [] weekly (clear_flash ∷ [])).console)
    × ((traffic_view plain holds_text
          (reloaded plain start 7 [] weekly (clear_flash ∷ [])).console).label
        ≡ period_label 7)
    × ((reloaded plain start 7 [] weekly (clear_flash ∷ [])).console.insights_loading ≡ false)
unfolding get lookup_field fields_of or_else truthy
change_days-shown_example =
    change_days-shown plain holds_text start 7 [] (clear_flash ∷ []) weekly (history 7) tt (tt, tt)
      refl refl

-- A console with two things to attend to.
abbrev stopped : Console
stopped = record initial {
  panel = record (initial.panel) {
    data_plane_status = object (("configured", bool true) ∷ ("xray_running", bool false) ∷ []);
    ai_routing_status = object (("manual_mode", str "forced_fallback") ∷ []);
  };
}

overview_checklist-IsBefore_example :
    (front : List Item) × (rest : List Item) × (overview_checklist plain stopped ≡ some front)
    × ((r : ℕ)
        → of_tone r (front ++ rest) ≡ of_tone r (or_all_clear (found plain stopped.panel [] null)))
    × (length front ≤ 3)
    × ((rest ≡ []) ⊎ (length front ≡ 3))
    × IsBefore front rest
unfolding failure_items failures_of get elements
overview_checklist-IsBefore_example = overview_checklist-IsBefore plain stopped [] refl
