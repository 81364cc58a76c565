-- ===== src/Views/Reading.antt =====
-- What the dialog of the incident records promises, without numbers: it shows the record that was
-- opened last, and the answer to its own request.
use ai_routing_panel.Prelude.{
  remove_at, All-get_elem?, inr, refl, sym, ap, inl, Option-cases, get_elem?, ◌≡◌, arith, All-map,
  zero, suc, false, suc, true, if◌then◌else◌, some, ◌<◌, [], ◌∷◌, none, All, List, ℕ,
}
use ai_routing_panel.Js.{str, Value}
use ai_routing_panel.Console.State.{Reply, answered, refused}
use mathlib.Core.Path.{subst}
use ai_routing_panel.Views.Incidents.{
  no_viewer, viewer_run, close_report, open_report, report_settled, viewer_step, closes,
  report_with, ends, IncidentReport, opens, ViewerEvent, Viewer,
}

pub data Shown : Type 0 where
  closed : Shown
  fetching : Value → Shown
  showing : IncidentReport → Shown

-- Only the latest call may show something, and only while its record is open and waited for.
unfoldable pub read_step : ViewerEvent → Shown → Shown
read_step (opens incident) s = fetching incident
read_step closes s = closed
read_step (ends zero reply) (fetching incident) = showing (report_with incident reply)
read_step (ends zero reply) closed = closed
read_step (ends zero reply) (showing r) = showing r
read_step (ends (suc k) reply) s = s

unfoldable pub read_run : List ViewerEvent → Shown → Shown
read_run [] s = s
read_run (e ∷ es) s = read_run es (read_step e s)

-- What the dialog shows.
unfoldable pub shown_of : Viewer → Shown
shown_of v = elim v.report [
  | none ↦ closed
  | some r ↦ if r.loading then fetching r.incident else showing r
]

-- Every call that waits is older than the request.
abbrev Older : ℕ → List (ℕ × Value) → Type 0
Older n cs = All (λ c. c.0 < n) cs

-- The link of the two levels: where the view is fetching, the latest call is the current one.
data Linked : Viewer → Shown → Type 0 where
  is_closed :
      (n : ℕ) (cs : List (ℕ × Value))
      → Older n cs
      → Linked (record { report = none; report_request = n; waiting = cs }) closed
  is_fetching :
      (n : ℕ) (i t e : Value) (cs : List (ℕ × Value))
      → Older n cs
      → Linked
          (record {
            report = some (record { incident = i; loading = true; text = t; error = e });
            report_request = n;
            waiting = (n, i) ∷ cs;
          })
          (fetching i)
  is_showing :
      (n : ℕ) (i t e : Value) (cs : List (ℕ × Value))
      → Older n cs
      → Linked
          (record {
            report = some (record { incident = i; loading = false; text = t; error = e });
            report_request = n;
            waiting = cs;
          })
          (showing (record { incident = i; loading = false; text = t; error = e }))

Older-suc : (n : ℕ) (cs : List (ℕ × Value)) → Older n cs → Older (suc n) cs
Older-suc n cs h = All-map cs (λ c k. omega (arith, k)) h

Older-remove_at : (n k : ℕ) (cs : List (ℕ × Value)) → Older n cs → Older n (remove_at k cs)
Older-remove_at n k [] h = tt
Older-remove_at n zero (c ∷ cs) h = h.1
Older-remove_at n (suc k) (c ∷ cs) h = (h.0, Older-remove_at n k cs h.1)

-- The answer to an older call changes nothing but the list of calls.
old_settled :
    (call : ℕ × Value) (reply : Reply) (v : Viewer)
    → call.0 < v.report_request
    → report_settled call reply v ≡ v
unfolding report_settled
old_settled call reply v h = ground arith

own_settled :
    (i : Value) (reply : Reply) (v : Viewer)
    → report_settled (v.report_request, i) reply v
      ≡ record v { report = some (report_with i reply) }
unfolding report_settled
own_settled i reply v = ground arith

drop_absent : (k : ℕ) (cs : List (ℕ × Value)) → get_elem? cs k ≡ none → remove_at k cs ≡ cs
drop_absent k [] h = refl
drop_absent zero (c ∷ cs) h = cc
drop_absent (suc k) (c ∷ cs) h = ap (λ ds. c ∷ ds) (drop_absent k cs h)

-- Where every waiting call is old, an end only shortens the list.
old_ends :
    (k : ℕ) (reply : Reply) (v : Viewer)
    → Older v.report_request v.waiting
    → viewer_step (ends k reply) v ≡ record v { waiting = remove_at k v.waiting }
unfolding viewer_step
old_ends k reply v h = elim (Option-cases (get_elem? v.waiting k)) [
  | inl e ↦
      rw (e, viewer_step) (ap (λ cs. record v { waiting = cs }) (sym (drop_absent k v.waiting e)))
  | inr (c, e) ↦
      rw (e, viewer_step)
        (ap (λ (w : Viewer). record w { waiting = remove_at k v.waiting })
          (old_settled c reply v (All-get_elem? (λ c. c.0 < v.report_request) v.waiting k h e)))
]

-- In a view that is fetching, only the first call is its own.
later_ends :
    (k : ℕ) (reply : Reply) (v : Viewer) (c : ℕ × Value) (cs : List (ℕ × Value))
    → Older v.report_request cs
    → viewer_step (ends (suc k) reply) (record v { waiting = c ∷ cs })
      ≡ record v { waiting = c ∷ remove_at k cs }
unfolding viewer_step
later_ends k reply v c cs h = elim (Option-cases (get_elem? cs k)) [
  | inl e ↦
      rw (e, viewer_step) (ap (λ ds. record v { waiting = c ∷ ds }) (sym (drop_absent k cs e)))
  | inr (d, e) ↦
      rw (e, viewer_step)
        (ap (λ (w : Viewer). record w { waiting = c ∷ remove_at k cs })
          (old_settled d reply (record v { waiting = c ∷ cs })
            (All-get_elem? (λ c. c.0 < v.report_request) cs k h e)))
]

first_ends :
    (i : Value) (reply : Reply) (v : Viewer) (cs : List (ℕ × Value))
    → viewer_step (ends zero reply) (record v { waiting = (v.report_request, i) ∷ cs })
      ≡ record v { report = some (report_with i reply); waiting = cs }
unfolding viewer_step
first_ends i reply v cs =
    ap (λ (w : Viewer). record w { waiting = cs })
      (own_settled i reply (record v { waiting = (v.report_request, i) ∷ cs }))

-- The report of an ended request is not a waiting one.
shows-Linked :
    (i : Value) (reply : Reply) (n : ℕ) (cs : List (ℕ × Value))
    → Older n cs
    → Linked
        (record { report = some (report_with i reply); report_request = n; waiting = cs })
        (showing (report_with i reply))
unfolding report_with
shows-Linked i (answered r) n cs h = is_showing n i _ _ cs h
shows-Linked i (refused e) n cs h = is_showing n i _ _ cs h

old_ends-Linked :
    (k : ℕ) (reply : Reply) (v : Viewer) (s : Shown)
    → Older v.report_request v.waiting
    → Linked (record v { waiting = remove_at k v.waiting }) s
    → Linked (viewer_step (ends k reply) v) s
old_ends-Linked k reply v s h l = subst (λ w. Linked w s) (sym (old_ends k reply v h)) l

step-Linked :
    (e : ViewerEvent) (v : Viewer) (s : Shown)
    → Linked v s
    → Linked (viewer_step e v) (read_step e s)
unfolding read_step
step-Linked (opens j) v s (is_closed n cs h) =
    unfold viewer_step open_report in is_fetching (suc n) j (str "") (str "") cs (Older-suc n cs h)
step-Linked (opens j) v s (is_fetching n i t e cs h) =
    unfold viewer_step open_report in
    is_fetching (suc n) j (str "") (str "") ((n, i) ∷ cs) (omega arith, Older-suc n cs h)
step-Linked (opens j) v s (is_showing n i t e cs h) =
    unfold viewer_step open_report in is_fetching (suc n) j (str "") (str "") cs (Older-suc n cs h)
step-Linked closes v s (is_closed n cs h) =
    unfold viewer_step close_report in is_closed (suc n) cs (Older-suc n cs h)
step-Linked closes v s (is_fetching n i t e cs h) =
    unfold viewer_step close_report in
    is_closed (suc n) ((n, i) ∷ cs) (omega arith, Older-suc n cs h)
step-Linked closes v s (is_showing n i t e cs h) =
    unfold viewer_step close_report in is_closed (suc n) cs (Older-suc n cs h)
step-Linked (ends zero reply) v s (is_closed n cs h) =
    old_ends-Linked zero reply v s h (is_closed n (remove_at zero cs) (Older-remove_at n zero cs h))
step-Linked (ends (suc k) reply) v s (is_closed n cs h) =
    old_ends-Linked (suc k) reply v s h
      (is_closed n (remove_at (suc k) cs) (Older-remove_at n (suc k) cs h))
step-Linked (ends zero reply) v s (is_fetching n i t e cs h) =
    subst (λ w. Linked w (showing (report_with i reply))) (sym (first_ends i reply v cs))
      (shows-Linked i reply n cs h)
step-Linked (ends (suc k) reply) v s (is_fetching n i t e cs h) =
    subst (λ w. Linked w s) (sym (later_ends k reply v (n, i) cs h))
      (is_fetching n i t e (remove_at k cs) (Older-remove_at n k cs h))
step-Linked (ends zero reply) v s (is_showing n i t e cs h) =
    old_ends-Linked zero reply v s h
      (is_showing n i t e (remove_at zero cs) (Older-remove_at n zero cs h))
step-Linked (ends (suc k) reply) v s (is_showing n i t e cs h) =
    old_ends-Linked (suc k) reply v s h
      (is_showing n i t e (remove_at (suc k) cs) (Older-remove_at n (suc k) cs h))

run-Linked :
    (es : List ViewerEvent) (v : Viewer) (s : Shown)
    → Linked v s
    → Linked (viewer_run es v) (read_run es s)
unfolding viewer_run read_run
run-Linked [] v s h = h
run-Linked (e ∷ es) v s h = run-Linked es (viewer_step e v) (read_step e s) (step-Linked e v s h)

Linked-shown_of : (v : Viewer) (s : Shown) → Linked v s → shown_of v ≡ s
unfolding shown_of
Linked-shown_of v s (is_closed n cs h) = refl
Linked-shown_of v s (is_fetching n i t e cs h) = refl
Linked-shown_of v s (is_showing n i t e cs h) = refl

-- The dialog refines its promise: after any opening and closing of records, and any ends of their
-- requests in any order, it shows what `read_run` says, which knows no numbers: the record that was
-- opened last, until it is closed, and of all answers only the one to its own request.
pub viewer_run-read_run :
    (es : List ViewerEvent) → shown_of (viewer_run es no_viewer) ≡ read_run es closed
viewer_run-read_run es =
    Linked-shown_of (viewer_run es no_viewer) (read_run es closed)
      (run-Linked es no_viewer closed (is_closed 0 [] tt))
