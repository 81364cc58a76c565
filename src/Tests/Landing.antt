-- ===== src/Tests/Landing.antt =====
-- Runs of the effects of the landing page, and the theorems on them at these runs.
use ai_routing_panel.Landing.Canvas.{
  sizes, runs_frame, views, CanvasEvent, unmounted, before_unmount, Support, viewed, stop_canvas,
  start_canvas, sized, run_frame, request_frame, remove_frame, observe_size, mounted, frame,
  draw_static, canvas_step, canvas_run, animate,
}
use ai_routing_panel.Landing.CountUp.{
  shaped, uncounted, observes, Counter, tick_from, tick, start_at, sees, moments, moment, eased,
}
use ai_routing_panel.Landing.Arrival.{count-IsFinished, IsFinished, frames}
use ai_routing_panel.Landing.Reveal.{
  fresh, intersects, Sight, LandingPage, Element, sights, init_reveal,
}
use ai_routing_panel.Console.State.{Reply, answered}
use ai_routing_panel.Landing.Visible.{price_stage-hidden, reveal-IsReachable, IsReachable}
use ai_routing_panel.Landing.Pricing.{priced, unpriced, arrives}
use ai_routing_panel.Js.{object}
use ai_routing_panel.Landing.Frames.{before_unmount-gone}
use ai_routing_panel.Prelude.{arith, some, [], ◌∷◌, ◌≡◌, true, false, get_elem?, List, refl}

abbrev counter : Counter
counter = record uncounted { is_observed = true }

count-IsFinished_example :
    IsFinished 99 (moments 3 99 (observes true ∷ frames (5 ∷ 6 ∷ 7 ∷ 9 ∷ 12 ∷ [])) counter)
count-IsFinished_example =
    count-IsFinished 3 99 5 (6 ∷ 7 ∷ 9 ∷ 12 ∷ []) counter refl (omega arith)
      (omega arith, (omega arith, (omega arith, (omega arith, tt)))) (omega arith)

halfway :
    (moments 4 80 (observes true ∷ frames (5 ∷ 7 ∷ [])) counter).display
    ≡ shaped (record { over = 4480; under = 64 })
unfolding moments moment sees tick tick_from start_at eased frames
halfway = refl

abbrev hidden_element : Element
hidden_element = record { is_in = false; is_observed = false }

abbrev page : LandingPage
page = record { is_enabled = false; elements = hidden_element ∷ hidden_element ∷ [] }

abbrev glances : List Sight
glances = intersects ((1, true) ∷ []) ∷ intersects ((0, false) ∷ []) ∷ []

reveal-IsReachable_example : IsReachable (sights glances (init_reveal false true page))
reveal-IsReachable_example = reveal-IsReachable false true page glances refl (tt, (tt, tt))

abbrev no_plans : Reply
no_plans = answered (object [])

price_stage-hidden_example :
    (get_elem?
        (sights glances
          (arrives 1 unpriced (priced no_plans) (sights [] (init_reveal false true page)))).elements
        1
      ≡ some fresh)
    × ((sights glances (
          arrives 1 unpriced
            (priced no_plans)
            (sights [] (init_reveal false true page)))).is_enabled
        ≡ (sights [] (init_reveal false true page)).is_enabled)
unfolding sights init_reveal
price_stage-hidden_example =
    price_stage-hidden 1 [] glances no_plans (init_reveal false true page) (omega arith)
      (tt, (tt, tt))

abbrev browser : Support
browser = record {
  context = true;
  resize_observer = true;
  intersection_observer = true;
  reduced_motion = false;
}

abbrev scrolls : List CanvasEvent
scrolls = views true ∷ runs_frame 0 ∷ sizes ∷ views false ∷ views true ∷ runs_frame 0 ∷ []

scrolls_draw : (canvas_run scrolls (mounted browser unmounted)).clears ≡ 2
unfolding canvas_run canvas_step viewed start_canvas stop_canvas run_frame frame request_frame
    remove_frame sized draw_static mounted animate observe_size
scrolls_draw = refl

before_unmount-gone_example :
    ((before_unmount (canvas_run scrolls (mounted browser unmounted))).pending ≡ [])
    × (canvas_run scrolls (before_unmount (canvas_run scrolls (mounted browser unmounted)))
        ≡ before_unmount (canvas_run scrolls (mounted browser unmounted)))
before_unmount-gone_example = before_unmount-gone browser scrolls scrolls
