-- ===== src/Views/Gates.antt =====
-- The buttons of the hosts (frontend/src/admin/workspaces/HostsWorkspace.jsx) and of the ports
-- (DeliveryWorkspace.jsx) and the mutations which they start.
use ai_routing_panel.Views.Controls.{shown_if, Control, action_of, is_busy}
use ai_routing_panel.Views.Delivery.{
  rotate_subscription, can_toggle, delete_control, toggle_control, reset_control, rotate_control,
  save_control, port_controls, create_control,
}
use ai_routing_panel.Console.State.{Console}
use ai_routing_panel.Js.{is_str, get, truthy, Value, Builtins}
use ai_routing_panel.Prelude.{
  [], inr, eq_iff, inl, ◌===◌, Bool-cases, String, refl, arith, sym, ap, ◌∙◌, All-get_elem?, some,
  get_elem?, ap, false, refl, ◌++◌, true, ℕ, arith, All-append, ◌∷◌, List, ◌≡◌, All, Bool,
}
use ai_routing_panel.Hosts.Inventory.{Host}
use ai_routing_panel.Console.Actions.{key_of}
use ai_routing_panel.Console.World.{has_key, run, Event}
use ai_routing_panel.Console.Busy.{run-busy, keys}
use ai_routing_panel.Console.Guarded.{run_guarded, IsGuarded}
use ai_routing_panel.Console.World.{start}
use mathlib.Core.Path.{subst}
use ai_routing_panel.Views.Hosts.{
  is_data_plane, diagnose_control, restart_action, restart_control, restart_key, host_controls,
}

-- A control is disabled where the key of its mutation is busy.
abbrev pub IsGated : Console → Control → Type 0
IsGated c x = x.disabled ≡ is_busy c (key_of (action_of x.effect))

restart_key-restart_action : (h : Host) → restart_key h ≡ key_of (restart_action h)
unfolding restart_key restart_action key_of
restart_key-restart_action h = ground arith

shown_if-All : (c : Console) (b : Bool) (x : Control) → IsGated c x → All (IsGated c) (shown_if b x)
shown_if-All c true x h = (h, tt)
shown_if-All c false x h = tt

host_controls-All : (c : Console) (h : Host) → All (IsGated c) (host_controls c h)
unfolding host_controls restart_control diagnose_control action_of
host_controls-All c h =
    All-append (IsGated c) (shown_if h.supports_restart (restart_control c h))
      (shown_if (is_data_plane h) (diagnose_control c))
      (shown_if-All c h.supports_restart (restart_control c h)
        (ap (is_busy c) (restart_key-restart_action h)))
      (shown_if-All c (is_data_plane h) (diagnose_control c) (unfold key_of in refl))

port_controls-All : (c : Console) (p : Value) → All (IsGated c) (port_controls c p)
unfolding port_controls save_control rotate_control rotate_subscription reset_control toggle_control
    delete_control action_of key_of
port_controls-All c p = (
  refl,
  All-append (IsGated c) (shown_if (truthy (get p "access")) (rotate_control c p)) _
      (shown_if-All c (truthy (get p "access")) (rotate_control c p) refl)
      (All-append (IsGated c) (shown_if (is_str (get p "status") "throttled") (reset_control c p)) _
        (shown_if-All c (is_str (get p "status") "throttled") (reset_control c p) refl)
        (All-append (IsGated c) (shown_if (can_toggle p) (toggle_control c p)) _
          (shown_if-All c (can_toggle p) (toggle_control c p) refl) (refl, tt))),
)

-- The buttons of a host card, of the selected port and of the form of a new port.
abbrev pub controls : Console → Host → Value → List Control
controls c h p = create_control c ∷ (host_controls c h ++ port_controls c p)

controls-All : (c : Console) (h : Host) (p : Value) → All (IsGated c) (controls c h p)
unfolding create_control action_of key_of
controls-All c h p = (
  refl,
  All-append (IsGated c) (host_controls c h) (port_controls c p) (host_controls-All c h)
      (port_controls-All c p),
)

-- A key that is found stands in the list, so that what holds of each member holds of it.
All-has_key :
    (Q : String → Type 0) (ks : List String) (k : String) → has_key ks k ≡ true → All Q ks → Q k
All-has_key Q [] k h q = cc
All-has_key Q (j ∷ js) k h q = elim (Bool-cases (j === k)) [
  | inl same ↦ subst Q ((eq_iff j k).0 same) q.0
  | inr other ↦ All-has_key Q js k (ground (arith, other, h)) q.1
]

-- After any history, whenever React runs the setState functions of the calls and however often a
-- mutation is called before a render: a button of a host card, of the selected port or of the form of a
-- new port is disabled only while a callback runs that has the key of the mutation which the button
-- starts, at once or after its question.
pub controls-run :
    (js : Builtins) (es : List Event) (h : Host) (p : Value) (i : ℕ) (x : Control)
    → get_elem? (controls (run js es start).console h p) i ≡ some x
    → x.disabled ≡ true
    → has_key (keys (run js es start).running) (key_of (action_of x.effect)) ≡ true
unfolding is_busy
controls-run js es h p i x e disabled =
    let c = (run js es start).console in
    let gated = All-get_elem? (IsGated c) (controls c h p) i (controls-All c h p) e in
    All-has_key (λ k. has_key (keys (run js es start).running) k ≡ true) c.busy
      (key_of (action_of x.effect)) (sym gated ∙ disabled) (run-busy js es).0

-- After any history in which each mutation is called by a control that is enabled, each button of a
-- host card, of the selected port and of the form of a new port is disabled exactly where a callback
-- runs that has the key of the mutation which the button starts, at once or after its question.
pub controls-run_guarded :
    (js : Builtins) (es : List Event) (h : Host) (p : Value) (i : ℕ) (x : Control)
    → IsGuarded js es start
    → get_elem? (controls (run js es start).console h p) i ≡ some x
    → x.disabled ≡ has_key (keys (run js es start).running) (key_of (action_of x.effect))
unfolding is_busy
controls-run_guarded js es h p i x guarded e =
    let c = (run js es start).console in
    All-get_elem? (IsGated c) (controls c h p) i (controls-All c h p) e
    ∙ ap (λ ks. has_key ks (key_of (action_of x.effect))) (run_guarded js es guarded).0
