-- ===== src/Console/Creation.antt =====
-- `createPort` of frontend/src/admin/state/PanelProvider.jsx: the port that is selected after it.
use ai_routing_panel.Prelude.{
  refl, arith, if_true, ap, refl, arith, if_true, ap, inr, inl, Bool-cases, refl, arith, if_true,
  ap, ◌===◌, refl, arith, if_true, ap, false, ◌∙◌, Option, refl, arith, if_true, ap, none, [], find,
  ◌∷◌, filter, true, List, Bool, ◌≡◌, String, refl, arith, if_true, some,
}
use ai_routing_panel.Console.State.{Console, Clock, answered, done, no_filters}
use ai_routing_panel.Console.Ports.{
  is_selected_port, filtered_ports, selected_port, query_of, is_shown,
}
use ai_routing_panel.Js.{same, to_str, is_str, get, truthy, Value, Builtins, or_else}
use ai_routing_panel.Dashboard.Panel.{empty_port_form, normalize_dashboard, Panel}
use ai_routing_panel.Dashboard.Signature.{routing_signature}
use ai_routing_panel.Console.Creating.{created_state, applied-panel, applied}
use ai_routing_panel.Console.Tasks.{clear_form, select_created, is_created, resume, creating}

is_shown_all :
    (js : Builtins) (includes : String → String → Bool) (p : Value)
    → js.to_lower (js.trim "") ≡ ""
    → is_shown js includes no_filters p ≡ true
unfolding is_shown query_of is_str or_else truthy to_str
is_shown_all js includes p e = if_true _ (ap (λ q. q === "") e)

-- With no filter every port is shown.
shown_all :
    (js : Builtins) (includes : String → String → Bool) (ports : List Value)
    → js.to_lower (js.trim "") ≡ ""
    → filter (is_shown js includes no_filters) ports ≡ ports
shown_all js includes [] e = refl
shown_all js includes (p ∷ ps) e =
    ap
      (λ b. elim b as (λ _. List Value) [
        | true ↦ p ∷ filter (is_shown js includes no_filters) ps
        | false ↦ filter (is_shown js includes no_filters) ps
      ])
      (is_shown_all js includes p e)
    ∙ ap (λ qs. p ∷ qs) (shown_all js includes ps e)

-- A list that has an element of one kind, which is also of another, has a first one of the latter.
find_any :
    (f g : Value → Bool) (ports : List Value) (q : Value)
    → find f ports ≡ some q
    → g q ≡ true
    → (r : Value) × (find g ports ≡ some r) × (g r ≡ true)
find_any f g [] q e h = cc
find_any f g (p ∷ ps) q e h = elim (Bool-cases (g p)) [
  | inl k ↦ (p, ground (arith, k), k)
  | inr k ↦ elim (Bool-cases (f p)) [
    | inl l ↦
        let same_port : p ≡ q = ground (arith, l, e) in
        absurd (ground (arith, ap g same_port, h, k))
    | inr l ↦
        let (r, found_r, is_r) = find_any f g ps q (ground (arith, l, e)) h in
        (r, ground (arith, k, found_r), is_r)
  ]
]

-- The state after the answer to `createPort`, with this port selected.
selected_state :
    (js : Builtins) (includes : String → String → Bool) (c : Console) (port : Value)
    (f : Value → Bool)
    → js.to_lower (js.trim "") ≡ ""
    → find f (c.panel.ports) ≡ some port
    → same (get port "id") (get port "id") ≡ true
    → (r : Value) × (selected_port js includes (select_created (some port) c) ≡ some r)
      × (same (get r "id") (get port "id") ≡ true)
unfolding selected_port filtered_ports is_selected_port select_created
selected_state js includes c port f e h s =
    let (r, found_r, is_r) =
      find_any f (λ (p : Value). same (get p "id") (get port "id")) (c.panel.ports) port h s in
    (
      r,
      ap (find (is_selected_port (get port "id"))) (shown_all js includes (c.panel.ports) e)
          ∙ found_r,
      is_r,
    )

-- A port is created, and the answer has a dashboard that can be read and a port that the answer
-- names, by its id or else by the listen port of the form, with an id that can be compared. Where
-- white space and case of the empty text are nothing, then, whatever filter and selection there
-- were, every port of the new dashboard is shown, a port of the id of the created one is selected,
-- the form is empty, and the callback is over.
pub resume-created :
    (js : Builtins) (includes : String → String → Bool) (clock : Clock) (listen_port : String)
    (reply : Value) (p : Panel) (signature : String) (port : Value) (c : Console)
    → js.to_lower (js.trim "") ≡ ""
    → truthy (get reply "dashboard") ≡ true
    → normalize_dashboard (get reply "dashboard") ≡ some p
    → routing_signature js p ≡ some signature
    → find (is_created reply listen_port) p.ports ≡ some port
    → same (get port "id") (get port "id") ≡ true
    → (d : Console) × (r : Value) × (resume js clock (creating listen_port) (answered reply) c
        ≡ (d, done none))
      × (filtered_ports js includes d ≡ p.ports)
      × (selected_port js includes d ≡ some r)
      × (same (get r "id") (get port "id") ≡ true)
      × (d.create_form ≡ empty_port_form)
unfolding filtered_ports select_created
resume-created js includes clock listen_port reply p signature port c e h n s f k =
    let shown = clear_form (applied js clock reply p signature c) in
    let ports : shown.panel.ports ≡ p.ports =
      ap (λ (v : Panel). v.ports) (applied-panel js clock reply p signature c) in
    let (r, is_selected, is_port) =
      selected_state js includes shown port (is_created reply listen_port) e
        (ap (find (is_created reply listen_port)) ports ∙ f) k in
    (
      select_created (some port) shown,
      r,
      created_state js clock listen_port reply p signature c h n s
          ∙ ap (λ (o : Option Value). (select_created o shown, done none)) f,
      shown_all js includes (shown.panel.ports) e ∙ ports,
      is_selected,
      is_port,
      refl,
    )
