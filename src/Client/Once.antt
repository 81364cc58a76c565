-- ===== src/Client/Once.antt =====
-- No error object is reported twice, although a failed request reports it and the page may report
-- it again as an unhandled rejection. A primitive that was thrown has no identity and may be.
use ai_routing_panel.Js.{get, is_false, undefined, is_nullish, Value, Builtins}
use ai_routing_panel.Client.Model.{
  primitive, identity_of, Thrown, mark_error_reported, error_object, is_ok, Result, start,
  should_report_http_error, answered, unread, unsent, report_of, report_client_error, Report,
  Exchange, Page,
}
use ai_routing_panel.Client.Model.{is_marked}
use ai_routing_panel.Client.Request.{
  data_of, unparsed, handle_unauthorized, created, refused, unauthorized, type_error_of, decide,
  settle,
}
use mathlib.Core.Path.{subst}
use ai_routing_panel.Client.Outcome.{settle_of_payload, settle-unparsed}
use ai_routing_panel.Prelude.{
  refl, arith, sym, if-intro, ap, if◌then◌else◌, Bool, some, refl, arith, sym, if-intro, ap, not,
  Option-cases, inr, sym, inl, Bool-cases, ◌||◌, ◌===◌, if-intro, arith, ◌∙◌, ◌==◌, none, refl,
  any-append, false, true, ap, ◌≡◌, [], ◌++◌, ◌∷◌, Option, ℕ, List, String,
}

-- A request that ends, or the report of `installClientErrorLogging` or `installVueErrorLogging` of what
-- nobody caught.
pub data PageEvent : Type 0 where
  ended : String → String → Exchange → PageEvent
  uncaught : Thrown → String → String → PageEvent

module _ (js : Builtins) (login_url : String) (parse : String → Option Value) where
  unfoldable pub page_step : PageEvent → Page → Page
  page_step (ended url method ex) page = (settle js login_url url method parse ex page).0
  page_step (uncaught e url source) page = report_client_error page e url "RUNTIME" source none

  unfoldable pub page_run : List PageEvent → Page → Page
  page_run [] page = page
  page_run (e ∷ es) page = page_run es (page_step e page)

-- The identities of the error objects that the reports are about.
abbrev pub ids : List Report → List ℕ
ids [] = []
ids (r ∷ rs) = elim r.error_id [ none ↦ ids rs | some n ↦ n ∷ ids rs ]

-- The elements of a list are pairwise different.
abbrev pub IsDistinct : List ℕ → Type 0
IsDistinct [] = Unit
IsDistinct (n ∷ ns) = (is_marked n ns ≡ false) × IsDistinct ns

-- The errors of the sent reports are different, and all are marked as reported.
record IsOnce (page : Page) : Type 0 where
  distinct : IsDistinct (ids page.sent)
  marked : (n : ℕ) → is_marked n (ids page.sent) ≡ true → is_marked n page.reported ≡ true

ids-append_object :
    (rs : List Report) (r : Report) (n : ℕ)
    → r.error_id ≡ some n
    → ids (rs ++ (r ∷ [])) ≡ ids rs ++ (n ∷ [])
ids-append_object [] r n h = rw h
ids-append_object (q ∷ rs) r n h = elim (Option-cases q.error_id) [
  | inl e ↦ rw e (ids-append_object rs r n h)
  | inr (m, e) ↦ rw e (ap (m ∷◌) (ids-append_object rs r n h))
]

ids-append_primitive :
    (rs : List Report) (r : Report) → r.error_id ≡ none → ids (rs ++ (r ∷ [])) ≡ ids rs
ids-append_primitive [] r h = rw h
ids-append_primitive (q ∷ rs) r h = elim (Option-cases q.error_id) [
  | inl e ↦ rw e (ids-append_primitive rs r h)
  | inr (m, e) ↦ rw e (ap (m ∷◌) (ids-append_primitive rs r h))
]

IsDistinct-append :
    (ns : List ℕ) (n : ℕ) → IsDistinct ns → is_marked n ns ≡ false → IsDistinct (ns ++ (n ∷ []))
IsDistinct-append [] n d h = (refl, tt)
IsDistinct-append (m ∷ ns) n d h =
    (any-append (λ k. k == m) ns (n ∷ []) ∙ ground arith, IsDistinct-append ns n d.1 (ground arith))

new_id :
    (page : Page) (n : ℕ)
    → IsOnce page
    → is_marked n page.reported ≡ false
    → is_marked n (ids page.sent) ≡ false
new_id page n h e = elim (Bool-cases (is_marked n (ids page.sent))) [
  | inl k ↦ let m = h.marked n k in cc
  | inr k ↦ k
]

-- The report of an object that is not marked yet, which is marked with it.
object-IsOnce :
    (page : Page) (n : ℕ) (r : Report)
    → r.error_id ≡ some n
    → is_marked n page.reported ≡ false
    → IsOnce page
    → IsOnce (record page { reported = n ∷ page.reported; sent = page.sent ++ (r ∷ []) })
object-IsOnce page n r e new h = record {
  distinct =
      subst IsDistinct (sym (ids-append_object page.sent r n e))
        (IsDistinct-append (ids page.sent) n h.distinct (new_id page n h new));
  marked = λ m k.
      let old = h.marked m in
      let both = any-append (λ i. i == m) (ids page.sent) (n ∷ []) in
      let split = sym (ap (is_marked m) (ids-append_object page.sent r n e) ∙ both) ∙ k in
      ground (arith, old, split);
}

-- The report of a primitive.
primitive-IsOnce :
    (page : Page) (r : Report)
    → r.error_id ≡ none
    → IsOnce page
    → IsOnce (record page { sent = page.sent ++ (r ∷ []) })
primitive-IsOnce page r e h =
    let same = sym (ids-append_primitive page.sent r e) in
    record {
      distinct = subst IsDistinct same h.distinct;
      marked = λ m k. h.marked m (ap (is_marked m) same ∙ k);
    }

report_client_error-IsOnce :
    (page : Page) (e : Thrown) (url method source : String) (status : Option ℕ)
    → IsOnce page
    → IsOnce (report_client_error page e url method source status)
unfolding report_client_error mark_error_reported report_of identity_of
report_client_error-IsOnce page (error_object e) url method source status h =
    if-intro IsOnce (url === "/api/client-errors") (λ _. h)
      (λ _.
        if-intro
          (λ (o : Bool × Page). IsOnce (
            if o.0 then o.1 else record (o.1) {
              sent = o.1.sent ++ (report_of (error_object e) url method source status ∷ []);
            }))
          (is_marked e.id page.reported) (λ _. h)
          (λ new.
            object-IsOnce page e.id (report_of (error_object e) url method source status) refl new
              h))
report_client_error-IsOnce page (primitive v) url method source status h =
    if-intro IsOnce (url === "/api/client-errors") (λ _. h)
      (λ _. primitive-IsOnce page (report_of (primitive v) url method source status) refl h)

abbrev HasOnce : Page × Result → Type 0
HasOnce r = IsOnce r.0

created-IsOnce : (page : Page) → IsOnce page → IsOnce (created page)
unfolding created
created-IsOnce page h = record { distinct = h.distinct; marked = h.marked }

redirected-IsOnce :
    (login_url : String) (target : Value) (page : Page)
    → IsOnce page
    → IsOnce (handle_unauthorized login_url target page)
unfolding handle_unauthorized
redirected-IsOnce login_url target page h = record { distinct = h.distinct; marked = h.marked }

module _ (js : Builtins) (login_url url method : String) (page : Page) (h : IsOnce page) where
  refused-IsOnce :
      (status : ℕ) (payload : Value)
      → IsOnce (refused js login_url url method status payload page).0
  unfolding refused
  refused-IsOnce status payload =
      if-intro IsOnce (should_report_http_error status)
        (λ _. report_client_error-IsOnce (created page) _ _ _ _ _ (created-IsOnce page h))
        (λ _. created-IsOnce page h)

  decide-IsOnce :
      (status : ℕ) (payload : Value) → IsOnce (decide js login_url url method status payload page).0
  unfolding decide type_error_of unauthorized
  decide-IsOnce status payload =
      if-intro HasOnce (is_nullish payload) (λ _. created-IsOnce page h)
        (λ _.
          if-intro HasOnce (status == 401)
            (λ _.
              report_client_error-IsOnce _ _ _ _ _ _
                (created-IsOnce _ (redirected-IsOnce login_url _ page h)))
            (λ _.
              if-intro HasOnce (not (is_ok status) || is_false (get payload "ok"))
                (λ _. refused-IsOnce status payload) (λ _. h)))

  unparsed-IsOnce : (status : ℕ) → IsOnce (unparsed js login_url url method status page).0
  unfolding unparsed
  unparsed-IsOnce status =
      let reported = report_client_error-IsOnce (created page) _ _ _ _ _ (created-IsOnce page h) in
      if-intro IsOnce (status == 401) (λ _. redirected-IsOnce login_url undefined _ reported)
        (λ _. reported)

  settle-IsOnce :
      (parse : String → Option Value) (ex : Exchange)
      → IsOnce (settle js login_url url method parse ex page).0
  unfolding settle
  settle-IsOnce parse (unsent e) = report_client_error-IsOnce page (error_object e) _ _ _ _ h
  settle-IsOnce parse (unread status e) = report_client_error-IsOnce page (error_object e) _ _ _ _ h
  settle-IsOnce parse (answered status text) = elim (Option-cases (data_of parse text)) [
    | inl e ↦
        subst HasOnce (sym (settle-unparsed js login_url url method page parse status text e))
          (unparsed-IsOnce status)
    | inr (payload, e) ↦
        subst HasOnce
          (sym (settle_of_payload js login_url url method page parse status text payload e))
          (decide-IsOnce status payload)
  ]

page_run-IsOnce :
    (js : Builtins) (login_url : String) (parse : String → Option Value) (es : List PageEvent)
    (page : Page)
    → IsOnce page
    → IsOnce (page_run js login_url parse es page)
unfolding page_run page_step
page_run-IsOnce js login_url parse [] page h = h
page_run-IsOnce js login_url parse (ended url method ex ∷ es) page h =
    page_run-IsOnce js login_url parse es _ (settle-IsOnce js login_url url method page h parse ex)
page_run-IsOnce js login_url parse (uncaught e url source ∷ es) page h =
    page_run-IsOnce js login_url parse es _
      (report_client_error-IsOnce page e url "RUNTIME" source none h)

-- After any sequence of ended requests and of uncaught error objects and primitives from the start of a
-- page, the sent reports that are about an error object are about pairwise different ones.
pub run_reports-IsDistinct :
    (js : Builtins) (login_url : String) (parse : String → Option Value) (es : List PageEvent)
    → IsDistinct (ids (page_run js login_url parse es start).sent)
run_reports-IsDistinct js login_url parse es =
    let once =
      page_run-IsOnce js login_url parse es start (record { distinct = tt; marked = λ n k. k }) in
    once.distinct
