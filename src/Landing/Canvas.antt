-- ===== src/Landing/Canvas.antt =====
-- frontend/src/landing/sections/SignalCanvas.vue: when the wave is drawn. The frames that the browser
-- was asked for are their numbers; what is drawn, and its size, are left out.
use ai_routing_panel.Prelude.{
  some, none, not, [], true, ◌&&◌, ◌==◌, get_elem?, List, suc, ◌∷◌, false, Bool, ℕ, if◌then◌else◌,
}

-- `raf` is the number of the last frame that was asked for, 0 before the first; `pending` has those
-- that will run, and `next` the number of the next one. `clears` counts the drawings.
pub record Canvas : Type 0 where
  pub has_context : Bool
  pub is_running : Bool
  pub raf : ℕ
  pub ticks : ℕ
  pub io : Bool
  pub ro : Bool
  pub listens : Bool
  pub pending : List ℕ
  pub next : ℕ
  pub clears : ℕ

abbrev pub unmounted : Canvas
unmounted = record {
  has_context = false;
  is_running = false;
  raf = 0;
  ticks = 0;
  io = false;
  ro = false;
  listens = false;
  pending = [];
  next = 1;
  clears = 0;
}

unfoldable pub remove_frame : ℕ → List ℕ → List ℕ
remove_frame n [] = []
remove_frame n (m ∷ ms) = let rest : List ℕ = remove_frame n ms in if m == n then rest else m ∷ rest

-- `raf = requestAnimationFrame(frame)`
unfoldable pub request_frame : Canvas → Canvas
request_frame c = record c { raf = c.next; pending = c.next ∷ c.pending; next = suc c.next }

-- The first half of the drawing is `drawStatic` too.
unfoldable pub draw_static : Canvas → Canvas
draw_static c = record c { clears = suc c.clears }

unfoldable pub frame : Canvas → Canvas
frame c =
    if c.is_running
    then request_frame (record c { clears = suc c.clears; ticks = suc c.ticks })
    else c

unfoldable pub start_canvas : Canvas → Canvas
start_canvas c = if c.is_running then c else request_frame (record c { is_running = true })

unfoldable pub stop_canvas : Canvas → Canvas
stop_canvas c =
    if c.raf == 0
    then record c { is_running = false }
    else record c { is_running = false; pending = remove_frame c.raf c.pending }

-- What the browser offers.
pub record Support : Type 0 where
  pub context : Bool
  pub resize_observer : Bool
  pub intersection_observer : Bool
  pub reduced_motion : Bool

unfoldable pub observe_size : Support → Canvas → Canvas
observe_size b c = if b.resize_observer then record c { ro = true } else record c { listens = true }

unfoldable pub animate : Support → Canvas → Canvas
animate b c =
    if b.reduced_motion
    then draw_static c
    else if b.intersection_observer
    then record c { io = true }
    else start_canvas c

unfoldable pub mounted : Support → Canvas → Canvas
mounted b c = if b.context then animate b (observe_size b (record c { has_context = true })) else c

unfoldable pub before_unmount : Canvas → Canvas
before_unmount c = record (stop_canvas c) { io = false; ro = false; listens = false }

-- The browser runs the frame at this place of `pending`.
unfoldable pub run_frame : ℕ → Canvas → Canvas
run_frame k c = elim (get_elem? c.pending k) [
  | none ↦ c
  | some n ↦ frame (record c { pending = remove_frame n c.pending })
]

unfoldable pub sized : Canvas → Canvas
sized c = if c.ro && not c.is_running then draw_static c else c

unfoldable pub viewed : Bool → Canvas → Canvas
viewed is_intersecting c =
    if c.io then (if is_intersecting then start_canvas c else stop_canvas c) else c

pub data CanvasEvent : Type 0 where
  views : Bool → CanvasEvent
  sizes : CanvasEvent
  runs_frame : ℕ → CanvasEvent

unfoldable pub canvas_step : CanvasEvent → Canvas → Canvas
canvas_step (views b) c = viewed b c
canvas_step sizes c = sized c
canvas_step (runs_frame k) c = run_frame k c

unfoldable pub canvas_run : List CanvasEvent → Canvas → Canvas
canvas_run [] c = c
canvas_run (e ∷ es) c = canvas_run es (canvas_step e c)
