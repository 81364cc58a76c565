-- ===== src/Console/Creating.antt =====
-- The continuation of `createPort` of frontend/src/admin/state/PanelProvider.jsx, where the answer has
-- a dashboard that can be read.
use ai_routing_panel.Prelude.{
  arith, if_true, ap, arith, if_true, ap, arith, if_true, ap, arith, if_true, ap, arith, if_true,
  ap, ◌∙◌, Option, arith, if_true, ap, none, find, true, ◌≡◌, String, arith, if_true, some,
}
use ai_routing_panel.Console.State.{
  return, modify, throw, ◌>>◌, M, Console, Clock, answered, Outcome, done, raise,
}
use ai_routing_panel.Js.{get, truthy, Value, Builtins, or_else}
use ai_routing_panel.Console.Apply.{
  type_error, sample_of, apply_panel, take_sample, apply_dashboard, show_panel, show_message,
  apply_response,
}
use ai_routing_panel.Dashboard.Panel.{normalize_dashboard, Panel}
use ai_routing_panel.Dashboard.Signature.{routing_signature}
use ai_routing_panel.Topology.Facts.{empty}
use ai_routing_panel.Console.Tasks.{
  clear_form, select_created, is_created, port_created, resume, Task, creating,
}

-- The state after the answer to a mutation whose dashboard can be read.
unfoldable pub applied : Builtins → Clock → Value → Panel → String → Console → Console
applied js clock reply p signature c =
    show_message reply (show_panel clock p signature (take_sample (sample_of js clock p) c))

apply_panel-shown :
    (js : Builtins) (clock : Clock) (p : Panel) (signature : String) (c : Console)
    → routing_signature js p ≡ some signature
    → apply_panel js clock p c
      ≡ (show_panel clock p signature (take_sample (sample_of js clock p) c), done tt)
unfolding apply_panel
apply_panel-shown js clock p signature c s =
    ap
      (λ (o : Option String).
        (elim o as (λ _. M (Unit {0})) [
          | none ↦ throw (type_error js)
          | some sg ↦ modify (show_panel clock p sg)
        ])
          (take_sample (sample_of js clock p) c))
      s

pub apply_dashboard-shown :
    (js : Builtins) (clock : Clock) (dashboard : Value) (p : Panel) (signature : String)
    (c : Console)
    → normalize_dashboard dashboard ≡ some p
    → routing_signature js p ≡ some signature
    → apply_dashboard js clock dashboard c
      ≡ (show_panel clock p signature (take_sample (sample_of js clock p) c), done tt)
unfolding apply_dashboard
apply_dashboard-shown js clock dashboard p signature c n s =
    ap
      (λ (o : Option Panel).
        (elim o as (λ _. M (Unit {0})) [
          | none ↦ throw (type_error js)
          | some next ↦ apply_panel js clock next
        ])
          c)
      n
    ∙ apply_panel-shown js clock p signature c s

apply_response-applied :
    (js : Builtins) (clock : Clock) (reply : Value) (p : Panel) (signature : String) (c : Console)
    → truthy (get reply "dashboard") ≡ true
    → normalize_dashboard (get reply "dashboard") ≡ some p
    → routing_signature js p ≡ some signature
    → apply_response js clock reply c ≡ (applied js clock reply p signature c, done tt)
unfolding apply_response applied
apply_response-applied js clock reply p signature c h n s =
    ap (λ (m : M (Unit {0})). (m >> modify (show_message reply)) c) (if_true (return tt) h)
    ∙ ap
        (λ (r : Console × Outcome (Unit {0})).
          let (c', o) = r in
          elim o as (λ _. Console × Outcome (Unit {0})) [
            | done a ↦ (show_message reply c', done tt)
            | raise e ↦ (c', raise e)
          ])
        (apply_dashboard-shown js clock (get reply "dashboard") p signature c n s)

pub applied-panel :
    (js : Builtins) (clock : Clock) (reply : Value) (p : Panel) (signature : String) (c : Console)
    → (applied js clock reply p signature c).panel ≡ p
unfolding applied show_message show_panel take_sample
applied-panel js clock reply p signature c = ground arith

or_else_left : (a b : Value) → truthy a ≡ true → or_else a b ≡ a
unfolding or_else
or_else_left a b h = if_true b h

port_created-selected :
    (js : Builtins) (clock : Clock) (listen_port : String) (reply : Value) (p : Panel)
    (signature : String) (c : Console)
    → truthy (get reply "dashboard") ≡ true
    → normalize_dashboard (get reply "dashboard") ≡ some p
    → routing_signature js p ≡ some signature
    → port_created js clock listen_port reply c ≡ (
      select_created
          (find (is_created reply listen_port) p.ports)
          (clear_form (applied js clock reply p signature c)),
      done tt,
    )
unfolding port_created
port_created-selected js clock listen_port reply p signature c h n s =
    ap
      (λ (r : Console × Outcome (Unit {0})).
        let (c', o) = r in
        elim o as (λ _. Console × Outcome (Unit {0})) [
          | done a ↦
              (modify clear_form
                  >> elim (normalize_dashboard (or_else (get reply "dashboard") empty))
                      as (λ _. M (Unit {0})) [
                        | none ↦ throw (type_error js)
                        | some q ↦
                            modify (select_created (find (is_created reply listen_port) q.ports))
                      ])
                c'
          | raise e ↦ (c', raise e)
        ])
      (apply_response-applied js clock reply p signature c h n s)
    ∙ ap
        (λ (o : Option Panel).
          (elim o as (λ _. M (Unit {0})) [
            | none ↦ throw (type_error js)
            | some q ↦ modify (select_created (find (is_created reply listen_port) q.ports))
          ])
            (clear_form (applied js clock reply p signature c)))
        (ap normalize_dashboard (or_else_left (get reply "dashboard") empty h) ∙ n)

-- The state after the whole continuation of `createPort`.
pub created_state :
    (js : Builtins) (clock : Clock) (listen_port : String) (reply : Value) (p : Panel)
    (signature : String) (c : Console)
    → truthy (get reply "dashboard") ≡ true
    → normalize_dashboard (get reply "dashboard") ≡ some p
    → routing_signature js p ≡ some signature
    → resume js clock (creating listen_port) (answered reply) c ≡ (
      select_created
          (find (is_created reply listen_port) p.ports)
          (clear_form (applied js clock reply p signature c)),
      done none,
    )
unfolding resume
created_state js clock listen_port reply p signature c h n s =
    ap
      (λ (r : Console × Outcome (Unit {0})).
        let (c', o) = r in
        elim o as (λ _. Console × Outcome (Option Task)) [
          | done a ↦ (c', done none)
          | raise e ↦ (c', raise e)
        ])
      (port_created-selected js clock listen_port reply p signature c h n s)
