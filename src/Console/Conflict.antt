-- ===== src/Console/Conflict.antt =====
-- `createPort` of frontend/src/admin/state/PanelProvider.jsx, where the listen port is taken.
use ai_routing_panel.Prelude.{
  refl, arith, if_true, ap, eq_iff, ◌≢◌, refl, arith, if_true, ap, refl, arith, if_true, ap, refl,
  arith, if_true, ap, refl, arith, if_true, ap, Option, refl, arith, if_true, ap, none, true, ◌≡◌,
  String, refl, arith, if_true, some,
}
use ai_routing_panel.Console.State.{
  Failure, Sample, modify, throw, M, Console, Clock, Reply, answered, refused, Outcome, done, raise,
}
use ai_routing_panel.Js.{num, str, get, Builtins, or_else}
use ai_routing_panel.Console.Apply.{
  or_flash, apply_reply, show_failure, refresh_settled, type_error, sample_of, apply_panel,
  take_sample, apply_dashboard, show_panel,
}
use ai_routing_panel.Dashboard.Panel.{empty_port_form, normalize_dashboard, Panel}
use ai_routing_panel.Dashboard.Signature.{routing_signature}
use ai_routing_panel.Topology.Facts.{empty}
use ai_routing_panel.Console.Tasks.{
  creating, has_status, is_conflict, info, clear_form, resume, Task, create_conflict,
}

-- The two consoles have the same selection and the same filter.
abbrev IsSelectedAlike : Console → Console → Type 0
IsSelectedAlike c d = (d.selected_port_id ≡ c.selected_port_id) × (d.filters ≡ c.filters)

flashed :
    (text : String) (c : Console) (r : Console × Outcome (Unit {0}))
    → IsSelectedAlike c r.0
    → IsSelectedAlike c
        (elim r.1 as (λ _. Console) [ done a ↦ r.0 | raise e ↦ show_failure text e r.0 ])
unfolding show_failure
flashed text c (d, done a) h = h
flashed text c (d, raise e) h = h

panel_shown :
    (js : Builtins) (clock : Clock) (next : Panel) (sample : Sample) (c : Console)
    (o : Option String)
    → IsSelectedAlike c
        ((elim o as (λ _. M (Unit {0})) [
          | none ↦ throw (type_error js)
          | some sg ↦ modify (show_panel clock next sg)
        ])
          (take_sample sample c)).0
unfolding take_sample show_panel
panel_shown js clock next sample c none = (refl, refl)
panel_shown js clock next sample c (some sg) = (refl, refl)

dashboard_applied :
    (js : Builtins) (clock : Clock) (c : Console) (o : Option Panel)
    → IsSelectedAlike c
        ((elim o as (λ _. M (Unit {0})) [
          | none ↦ throw (type_error js)
          | some next ↦ apply_panel js clock next
        ])
          c).0
unfolding apply_panel
dashboard_applied js clock c none = (refl, refl)
dashboard_applied js clock c (some next) =
    panel_shown js clock next (sample_of js clock next) c (routing_signature js next)

-- A reload of the dashboard touches neither the selection nor the filter.
refresh_settled-selection :
    (js : Builtins) (clock : Clock) (reply : Reply) (c : Console)
    → IsSelectedAlike c (refresh_settled js clock reply c)
unfolding refresh_settled apply_reply or_flash apply_dashboard show_failure
refresh_settled-selection js clock (refused e) c = (refl, refl)
refresh_settled-selection js clock (answered v) c =
    flashed "刷新失败。" c _
      (dashboard_applied js clock c (normalize_dashboard (or_else (get v "dashboard") empty)))

is_conflict_lem :
    (js : Builtins) (clock : Clock) (listen_port : String) (e : Failure)
    → has_status e (num 409) ≡ true
    → listen_port ≢ ""
    → is_conflict js clock listen_port e ≡ true
unfolding is_conflict
is_conflict_lem js clock listen_port e h ne = ground (arith, h, ne, eq_iff listen_port "")

-- The listen port of the form was taken (status 409). Then the callback reloads the dashboard, and whatever the answer to the reload of the dashboard, the
-- filter and the selected id stay as they were, while the notice says that the existing port has
-- been selected; the form is emptied and the callback is over.
pub resume-conflict :
    (js : Builtins) (clock : Clock) (listen_port : String) (e : Failure) (reply : Reply)
    (c : Console)
    → has_status e (num 409) ≡ true
    → listen_port ≢ ""
    → (d : Console) × (resume js clock (creating listen_port) (refused e) c
        ≡ (c, done (some create_conflict)))
      × (resume js clock create_conflict reply c ≡ (d, done none))
      × (d.selected_port_id ≡ c.selected_port_id)
      × (d.filters ≡ c.filters)
      × (d.create_form ≡ empty_port_form)
      × (d.flash.message ≡ str "监听端口已存在，已选中已有端口。")
unfolding resume
resume-conflict js clock listen_port e reply c h ne =
    let k = refresh_settled-selection js clock reply c in
    (
      clear_form (info "监听端口已存在，已选中已有端口。" (refresh_settled js clock reply c)),
      ap (λ (m : M (Option Task)). m c)
          (if_true (throw e) (is_conflict_lem js clock listen_port e h ne)),
      refl,
      k.0,
      k.1,
      refl,
      refl,
    )
