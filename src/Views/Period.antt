-- ===== src/Views/Period.antt =====
-- A change of the period in frontend/src/admin/workspaces/TrafficWorkspace.jsx, with the loads of
-- frontend/src/admin/state/PanelProvider.jsx: no traffic of another period is shown for the chosen one.
use ai_routing_panel.Prelude.{
  refl, arith, sym, if_true, if-intro, ap, false, refl, arith, sym, if_true, if-intro, ap, refl,
  arith, sym, if_true, if-intro, ◌∙◌, sym, map, ◌∷◌, if_true, [], none, true, All, suc, Bool,
  if-intro, arith, String, List, ◌≡◌, Option, ℕ, some,
}
use ai_routing_panel.Console.World.{
  Event, load_insights, change_days, settle_insights, World, step, run, has_id,
}
use ai_routing_panel.Views.Traffic.{
  period_label, ranking, port_remark, plot_of, period_note, selected_traffic, count_or_dash, trend,
  TrafficRow, traffic_ports, series_of, remark, bytes_or_dash, PortDetail, plotted, figures,
  port_detail, Plot, Figures, traffic_message, traffic_of, view_with, detail_view, TrafficView,
  traffic_view, traffic_row,
}
use ai_routing_panel.Js.{or_else, num, same, null, get, str, Builtins, Value}
use ai_routing_panel.Console.Apply.{start_insights, insights_settled, change_insights_days}
use ai_routing_panel.Console.Latest.{
  latest_insights, insights_settled_stale, step-IsSameHistory, IsNoLoad, IsQuietFor,
}
use mathlib.Core.Path.{subst}
use ai_routing_panel.Console.Ports.{selected_port}
use ai_routing_panel.Console.State.{Console, Reply, answered, refused}

abbrev pub dash : Value
dash = str "—"

abbrev pub IsDashed : Figures → Type 0
IsDashed f = (f.all_bytes ≡ dash) × (f.received ≡ dash) × (f.sent ≡ dash) × (f.connections ≡ dash)

abbrev pub IsRemark : Plot → Type 0
IsRemark (plotted a b c) = ⊥
IsRemark (remark m) = m ≡ str "正在加载流量统计…"

-- The figures and the curve of the selected port that a history gives. Its quota, with the gauge and
-- the caption, what is left of it, and the expiry come from the port itself and are shown all the time.
abbrev pub IsBlankDetail : Option PortDetail → Type 0
IsBlankDetail none = Unit
IsBlankDetail (some d) = IsDashed d.shown × IsRemark d.plot

-- Every figure that a history gives is a dash, every curve and bar of one is missing, and the remark
-- is that of a load.
pub record IsBlank (v : TrafficView) : Type 0 where
  pub metrics : IsDashed v.metrics
  pub note : v.note ≡ str "正在加载流量统计…"
  pub site_plot : IsRemark v.site_plot
  pub bars : v.bars ≡ []
  pub rows : All (λ (r : TrafficRow). IsDashed r.shown × (r.trend_values ≡ [])) v.rows
  pub detail : IsBlankDetail v.detail

-- The request `n` is the latest one, nothing is kept, and the load is marked.
record IsLoading (n period : ℕ) (w : World) : Type 0 where
  latest : w.console.history_request ≡ n
  shown : w.console.insights ≡ null
  loading : w.console.insights_loading ≡ true
  days : w.console.insights_days ≡ period

rows-All :
    (js : Builtins) (selected : Option Value) (ports : List Value)
    → All
        (λ (r : TrafficRow). IsDashed r.shown × (r.trend_values ≡ []))
        (map (traffic_row js [] selected) ports)
unfolding traffic_row figures series_of trend bytes_or_dash count_or_dash
rows-All js selected [] = tt
rows-All js selected (p ∷ ps) = (((refl, refl, refl, refl), refl), rows-All js selected ps)

detail_view-IsBlankDetail :
    (js : Builtins) (includes : String → String → Bool) (o : Option Value)
    → IsBlankDetail (detail_view js includes none (str "正在加载流量统计…") o)
unfolding detail_view port_detail figures series_of traffic_ports bytes_or_dash count_or_dash
    selected_traffic plot_of port_remark
detail_view-IsBlankDetail js includes none = tt
detail_view-IsBlankDetail js includes (some p) = ((refl, refl, refl, refl), refl)

view_with-IsBlank :
    (js : Builtins) (includes : String → String → Bool) (c : Console)
    → traffic_message c ≡ str "正在加载流量统计…"
    → IsBlank (view_with js includes none c)
unfolding view_with figures bytes_or_dash count_or_dash period_note plot_of ranking traffic_ports
view_with-IsBlank js includes c h = record {
  metrics = (refl, refl, refl, refl);
  note = h;
  site_plot = h;
  bars = refl;
  rows = rows-All js (selected_port js includes c) (c.panel.ports);
  detail =
      subst (λ m. IsBlankDetail (detail_view js includes none m (selected_port js includes c)))
        (sym h) (detail_view-IsBlankDetail js includes (selected_port js includes c));
}

traffic_of_null : (c : Console) → c.insights ≡ null → traffic_of c ≡ none
unfolding traffic_of get same
traffic_of_null c h = rw h refl

traffic_message_loading :
    (c : Console) → c.insights_loading ≡ true → traffic_message c ≡ str "正在加载流量统计…"
unfolding traffic_message
traffic_message_loading c h = if_true _ h

module _ (js : Builtins) (n days : ℕ) where
  quiet-IsLoading :
      (e : Event) (w : World) → IsQuietFor n e → IsLoading n days w → IsLoading n days (step js e w)
  quiet-IsLoading load_insights w q h = absurd q
  quiet-IsLoading (change_days d) w q h = absurd q
  quiet-IsLoading (settle_insights m reply) w q h =
      unfold step in
      if-intro (IsLoading n days) (has_id w.insights_pending m)
        (λ _.
          rw (insights_settled_stale m reply w.console (λ e. q (e ∙ h.latest)))
            (record { latest = h.latest; shown = h.shown; loading = h.loading; days = h.days }))
        (λ _. h)
  quiet-IsLoading e w q h =
      let s = step-IsSameHistory js e w tt in
      record {
        latest = s.request ∙ h.latest;
        shown = s.shown ∙ h.shown;
        loading = s.loading ∙ h.loading;
        days = s.days ∙ h.days;
      }

  run-IsLoading :
      (es : List Event) (w : World)
      → All (IsQuietFor n) es
      → IsLoading n days w
      → IsLoading n days (run js es w)
  unfolding run
  run-IsLoading [] w q h = h
  run-IsLoading (e ∷ es) w q h = run-IsLoading es (step js e w) q.1 (quiet-IsLoading e w q.0 h)

  settled-days :
      (m : ℕ) (reply : Reply) (w : World)
      → (step js (settle_insights m reply) w).console.insights_days ≡ w.console.insights_days
  unfolding step insights_settled
  settled-days m (answered v) w = ground arith
  settled-days m (refused e) w = ground arith

  no_load-days :
      (e : Event) (w : World)
      → IsNoLoad e
      → (step js e w).console.insights_days ≡ w.console.insights_days
  no_load-days load_insights w q = absurd q
  no_load-days (change_days d) w q = absurd q
  no_load-days (settle_insights m reply) w q = settled-days m reply w
  no_load-days e w q = (step-IsSameHistory js e w tt).days

  run-days :
      (es : List Event) (w : World)
      → All IsNoLoad es
      → (run js es w).console.insights_days ≡ w.console.insights_days
  unfolding run
  run-days [] w q = refl
  run-days (e ∷ es) w q = run-days es (step js e w) q.1 ∙ no_load-days e w q.0

started-IsLoading :
    (js : Builtins) (days : ℕ) (w : World)
    → IsLoading (suc w.console.history_request) days (step js (change_days days) w)
unfolding step change_insights_days start_insights
started-IsLoading js days w = record { latest = refl; shown = refl; loading = refl; days = refl }

set_days : ℕ → World → World
set_days days w = record w {
  console = record (w.console) { insights_days = days; insights = null };
}

changed :
    (js : Builtins) (days : ℕ) (w : World)
    → step js (change_days days) w ≡ step js load_insights (set_days days w)
unfolding step change_insights_days set_days
changed js days w = refl

-- Take any state of the page, and let the period be changed. As long as the load that this starts is
-- not answered and no other load is started, whatever else happens, answers to older loads included,
-- the view shows a dash for each figure of a traffic history, of the whole site, of each row and of the
-- selected port, no curve and no bar, and says that it loads. What the port itself tells, its quota
-- and its expiry, is not blank.
pub change_days-IsBlank :
    (js : Builtins) (includes : String → String → Bool) (w : World) (days : ℕ) (es : List Event)
    → All (IsQuietFor (suc w.console.history_request)) es
    → IsBlank (traffic_view js includes (run js es (step js (change_days days) w)).console)
unfolding traffic_view
change_days-IsBlank js includes w days es q =
    let h =
      run-IsLoading js (suc w.console.history_request) days es _ q (started-IsLoading js days w) in
    let c = (run js es (step js (change_days days) w)).console in
    subst (λ o. IsBlank (view_with js includes o c)) (sym (traffic_of_null c h.shown))
      (view_with-IsBlank js includes c (traffic_message_loading c h.loading))

same_num : (n : ℕ) → same (num n) (num n) ≡ true
unfolding same
same_num n = ground arith

traffic_of_days :
    (c : Console) (v t : Value) (n : ℕ)
    → c.insights ≡ v
    → c.insights_days ≡ n
    → get v "traffic" ≡ t
    → get t "days" ≡ num n
    → traffic_of c ≡ some t
unfolding traffic_of
traffic_of_days c v t n i d h k =
    let e : same (get (get c.insights "traffic") "days") (num c.insights_days) ≡ true =
      rw (i, d, h, k) (same_num n) in
    if_true none e ∙ ap some (rw i h)

-- The page after a change of the period, the events `before`, the answer `v` to the load that the
-- change started, and the events `after`.
abbrev pub reloaded : Builtins → World → ℕ → List Event → Value → List Event → World
reloaded js w days before v after = run js after (
    step js (settle_insights (suc w.console.history_request) (answered v))
      (run js before (step js (change_days days) w)))

reloaded-days :
    (js : Builtins) (w : World) (days : ℕ) (before after : List Event) (v : Value)
    → All (IsQuietFor (suc w.console.history_request)) before
    → All IsNoLoad after
    → (reloaded js w days before v after).console.insights_days ≡ days
reloaded-days js w days before after v q k =
    let n = suc w.console.history_request in
    run-days js n days after _ k
    ∙ settled-days js n days n (answered v) (run js before (step js (change_days days) w))
    ∙ (run-IsLoading js n days before _ q (started-IsLoading js days w)).days

-- Take any state of the page, and let the period be changed; anything may happen that starts no load
-- and does not end this one; this load is answered with a traffic history of the chosen period; and
-- anything may happen that starts no load. Then the view shows this history, under the label of the
-- chosen period, and nothing is marked as loading.
pub change_days-shown :
    (js : Builtins) (includes : String → String → Bool) (w : World) (days : ℕ)
    (before after : List Event) (v t : Value)
    → All (IsQuietFor (suc w.console.history_request)) before
    → All IsNoLoad after
    → get (or_else (get v "insights") null) "traffic" ≡ t
    → get t "days" ≡ num days
    → (traffic_view js includes (reloaded js w days before v after).console
        ≡ view_with js includes (some t) (reloaded js w days before v after).console)
      × ((traffic_view js includes (reloaded js w days before v after).console).label
          ≡ period_label days)
      × ((reloaded js w days before v after).console.insights_loading ≡ false)
unfolding traffic_view view_with set_days
change_days-shown js includes w days before after v t q k h e =
    let c = (reloaded js w days before v after).console in
    let l =
      subst
        (λ u.
          ((run js after (
              step js (settle_insights (suc w.console.history_request) (answered v))
                (run js before u))).console.insights
            ≡ or_else (get v "insights") null)
          × ((run js after (
                step js (settle_insights (suc w.console.history_request) (answered v))
                  (run js before u))).console.insights_loading
              ≡ false))
        (sym (changed js days w)) (latest_insights js (set_days days w) before after v q k) in
    let d = reloaded-days js w days before after v q k in
    (
      ap (λ o. view_with js includes o c) (traffic_of_days c _ t days l.0 d h e),
      ap period_label d,
      l.1,
    )
