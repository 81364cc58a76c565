-- ===== src/Landing/Frames.antt =====
-- The frames of frontend/src/landing/sections/SignalCanvas.vue: one is asked for exactly while the wave
-- runs, and nothing is drawn after the component is gone.
use mathlib.Core.Option
use ai_routing_panel.Prelude.{
  if_false, zero, suc, not, ◌&&◌, some, get_elem?, sym, Option-cases, Bool, List, inr, ap, inl,
  false, ◌∙◌, ◌==◌, if◌then◌else◌, [], true, ◌≡◌, ◌∷◌, if-intro, ℕ, refl, arith,
}
use mathlib.Core.Path.{subst}
use ai_routing_panel.Landing.Canvas.{
  before_unmount, sizes, runs_frame, views, unmounted, Support, CanvasEvent, viewed, sized,
  observe_size, mounted, draw_static, canvas_step, animate, Canvas, stop_canvas, start_canvas,
  run_frame, request_frame, remove_frame, frame, canvas_run,
}

-- One frame, the last one that was asked for, waits exactly while the wave runs.
record IsPaced (c : Canvas) : Type 0 where
  paced : c.pending ≡ (if c.is_running then c.raf ∷ [] else [])
  numbered : c.is_running ≡ true → (c.raf == 0) ≡ false
  counted : (c.next == 0) ≡ false

remove_own : (n : ℕ) → remove_frame n (n ∷ []) ≡ []
unfolding remove_frame
remove_own n = ground arith

request_frame-IsPaced :
    (c : Canvas)
    → c.pending ≡ []
    → c.is_running ≡ true
    → (c.next == 0) ≡ false
    → IsPaced (request_frame c)
unfolding request_frame
request_frame-IsPaced c p r n = record {
  paced = rw (p, r) refl;
  numbered = λ e. n;
  counted = ground arith;
}

start-IsPaced : (c : Canvas) → IsPaced c → IsPaced (start_canvas c)
unfolding start_canvas
start-IsPaced c h =
    if-intro IsPaced c.is_running (λ e. h)
      (λ e.
        request_frame-IsPaced (record c { is_running = true })
          (h.paced ∙ ap (λ b. if b then c.raf ∷ [] else []) e) refl h.counted)

remove_paced : (b : Bool) (r : ℕ) → remove_frame r (if b then r ∷ [] else []) ≡ []
unfolding remove_frame
remove_paced true r = remove_own r
remove_paced false r = refl

-- A frame that is due is the only one.
remove_due :
    (b : Bool) (r k n : ℕ)
    → get_elem? (if b then r ∷ [] else []) k ≡ some n
    → remove_frame n (if b then r ∷ [] else []) ≡ []
unfolding remove_frame
remove_due true r zero n e =
    subst (λ m. remove_frame m (r ∷ []) ≡ []) (Option.some-injective r n e) (remove_own r)
remove_due true r (suc k) n e = cc
remove_due false r k n e = refl

at_rest : (b : Bool) (r : ℕ) → (r == 0) ≡ true → (b ≡ true → (r == 0) ≡ false) → b ≡ false
at_rest false r e h = refl
at_rest true r e h = absurd (ground (arith, e, h refl))

stop-IsPaced : (c : Canvas) → IsPaced c → IsPaced (stop_canvas c)
unfolding stop_canvas
stop-IsPaced c h =
    if-intro IsPaced (c.raf == 0)
      (λ e. record {
        paced =
            h.paced
            ∙ ap (λ b. if b then c.raf ∷ [] else []) (at_rest c.is_running c.raf e h.numbered);
        numbered = λ g. absurd (ground (arith, g));
        counted = h.counted;
      })
      (λ e. record {
        paced = ap (remove_frame c.raf) h.paced ∙ remove_paced c.is_running c.raf;
        numbered = λ g. absurd (ground (arith, g));
        counted = h.counted;
      })

run_frame-IsPaced : (k : ℕ) (c : Canvas) → IsPaced c → IsPaced (run_frame k c)
unfolding run_frame frame
run_frame-IsPaced k c h = elim (Option-cases (get_elem? c.pending k)) [
  | inl e ↦ rw (e, run_frame) h
  | inr (n, e) ↦
      let p : remove_frame n c.pending ≡ [] =
        ap (remove_frame n) h.paced
        ∙ remove_due c.is_running c.raf k n (ap (λ l. get_elem? l k) (sym h.paced) ∙ e) in
      rw (e, run_frame)
        (if-intro IsPaced c.is_running (λ r. request_frame-IsPaced _ p r h.counted)
          (λ r. record {
            paced = p ∙ ap (λ b. if b then c.raf ∷ [] else []) (sym r);
            numbered = h.numbered;
            counted = h.counted;
          }))
]

step-IsPaced : (e : CanvasEvent) (c : Canvas) → IsPaced c → IsPaced (canvas_step e c)
unfolding canvas_step viewed sized draw_static
step-IsPaced (views b) c h =
    if-intro IsPaced c.io (λ e. if-intro IsPaced b (λ g. start-IsPaced c h) (λ g. stop-IsPaced c h))
      (λ e. h)
step-IsPaced sizes c h =
    if-intro IsPaced (c.ro && not c.is_running)
      (λ e. record { paced = h.paced; numbered = h.numbered; counted = h.counted }) (λ e. h)
step-IsPaced (runs_frame k) c h = run_frame-IsPaced k c h

run-IsPaced : (es : List CanvasEvent) (c : Canvas) → IsPaced c → IsPaced (canvas_run es c)
unfolding canvas_run
run-IsPaced [] c h = h
run-IsPaced (e ∷ es) c h = run-IsPaced es (canvas_step e c) (step-IsPaced e c h)

resting : (c : Canvas) → c.pending ≡ [] → c.is_running ≡ false → (c.next == 0) ≡ false → IsPaced c
resting c p r n = record {
  paced = p ∙ ap (λ b. if b then c.raf ∷ [] else []) (sym r);
  numbered = λ g. absurd (ground (arith, g, r));
  counted = n;
}

animate-IsPaced : (b : Support) (c : Canvas) → IsPaced c → IsPaced (animate b c)
unfolding animate draw_static
animate-IsPaced b c h =
    if-intro IsPaced b.reduced_motion
      (λ e. record { paced = h.paced; numbered = h.numbered; counted = h.counted })
      (λ e.
        if-intro IsPaced b.intersection_observer
          (λ g. record { paced = h.paced; numbered = h.numbered; counted = h.counted })
          (λ g. start-IsPaced c h))

mounted-IsPaced : (b : Support) → IsPaced (mounted b unmounted)
unfolding mounted animate observe_size draw_static
mounted-IsPaced b =
    if-intro IsPaced b.context
      (λ e.
        if-intro (λ (c : Canvas). IsPaced (animate b c)) b.resize_observer
          (λ e2.
            animate-IsPaced b (record unmounted { has_context = true; ro = true })
              (resting _ refl refl refl))
          (λ e2.
            animate-IsPaced b (record unmounted { has_context = true; listens = true })
              (resting _ refl refl refl)))
      (λ e. resting unmounted refl refl refl)

-- Once the component is mounted, one frame waits while the wave runs, the one that was asked for
-- last, and none otherwise.
canvas_run-pending :
    (b : Support) (es : List CanvasEvent)
    → let c : Canvas = canvas_run es (mounted b unmounted) in
      c.pending ≡ (if c.is_running then c.raf ∷ [] else [])
canvas_run-pending b es = (run-IsPaced es (mounted b unmounted) (mounted-IsPaced b)).paced

stopped : (c : Canvas) → (stop_canvas c).is_running ≡ false
unfolding stop_canvas
stopped c = if-intro (λ (d : Canvas). d.is_running ≡ false) (c.raf == 0) (λ e. refl) (λ e. refl)

-- Nothing is left that could draw.
record IsGone (c : Canvas) : Type 0 where
  none_waits : c.pending ≡ []
  unwatched : c.io ≡ false
  unsized : c.ro ≡ false

none_due : (k n : ℕ) → get_elem? {A = ℕ} [] k ≡ some n → ⊥
none_due zero n e = cc
none_due (suc k) n e = cc

step-gone : (e : CanvasEvent) (c : Canvas) → IsGone c → canvas_step e c ≡ c
unfolding canvas_step viewed sized run_frame
step-gone (views b) c h = if_false _ h.unwatched
step-gone sizes c h =
    if-intro (λ (d : Canvas). d ≡ c) (c.ro && not c.is_running)
      (λ e. absurd (ground (arith, e, h.unsized))) (λ e. refl)
step-gone (runs_frame k) c h = elim (Option-cases (get_elem? c.pending k)) [
  | inl e ↦ rw (e, run_frame) refl
  | inr (n, e) ↦ absurd (none_due k n (ap (λ l. get_elem? l k) (sym h.none_waits) ∙ e))
]

run-gone : (es : List CanvasEvent) (c : Canvas) → IsGone c → canvas_run es c ≡ c
unfolding canvas_run
run-gone [] c h = refl
run-gone (e ∷ es) c h = ap (canvas_run es) (step-gone e c h) ∙ run-gone es c h

-- After the component is unmounted, whatever happened before, no frame waits and no later event draws
-- or changes anything.
pub before_unmount-gone :
    (b : Support) (before after : List CanvasEvent)
    → let c : Canvas = before_unmount (canvas_run before (mounted b unmounted)) in
      (c.pending ≡ []) × (canvas_run after c ≡ c)
unfolding before_unmount
before_unmount-gone b before after =
    let c : Canvas = canvas_run before (mounted b unmounted) in
    let p : (stop_canvas c).pending ≡ [] =
      (stop-IsPaced c (run-IsPaced before (mounted b unmounted) (mounted-IsPaced b))).paced
      ∙ ap (λ r. if r then (stop_canvas c).raf ∷ [] else []) (stopped c) in
    (
      p,
      run-gone after (before_unmount c)
          (record { none_waits = p; unwatched = refl; unsized = refl }),
    )
