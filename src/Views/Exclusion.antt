-- ===== src/Views/Exclusion.antt =====
-- The switches of the routing view exclude one another: while a mutation of the mode, of the default
-- scope or of a port that is listed runs, none of them is enabled.
use ai_routing_panel.Views.Switches.{
  route_candidates, is_fixed, concat_map, port_switches, routing_controls, mode_effect,
  scope_control, recovery_control, emergency_control, fix_control, candidate_controls,
  port_scope_control, inherit_control, routing_busy, modes, port_scopes, mode_key, port_switch_key,
  Routes,
}
use ai_routing_panel.Js.{get, truthy, Builtins, to_str, Value}
use ai_routing_panel.Views.Controls.{shown_if, is_busy, action_of, Control}
use ai_routing_panel.Console.World.{has_key}
use ai_routing_panel.Console.Actions.{key_of}
use ai_routing_panel.Views.Routing.{has_index, mode_for_candidate}
use ai_routing_panel.Prelude.{
  refl, arith, sym, if-intro, ap, sym, ap, All-get_elem?, get_elem?, eq_iff, some, inr, ℕ, inl,
  none, Option, All-append, not, Bool-cases, any, if-intro, refl, [], All-map, ◌∙◌, ◌===◌, eq_refl,
  any-append, arith, ◌++◌, ◌∷◌, true, false, ◌≡◌, map, All, String, List,
}
use ai_routing_panel.Console.State.{Console}
use mathlib.Core.Path.{subst}
use ai_routing_panel.Console.Busy.{keys}
use ai_routing_panel.Console.Guarded.{run_guarded, IsGuarded}
use ai_routing_panel.Console.World.{start, run, Event}

-- The keys of the mutations of the routing view, with those of the ports that are listed.
abbrev pub routing_keys : Routes → List String
routing_keys r = map port_switch_key (port_scopes r) ++ map mode_key modes

-- An enabled control means that no routing mutation is busy, and its own mutation is one of these.
abbrev pub IsExclusive : Routes → Control → Type 0
IsExclusive r x =
    (x.disabled ≡ false → routing_busy r ≡ false)
    × (has_key (routing_keys r) (key_of (action_of x.effect)) ≡ true)

abbrev Listed : List String → Value → Type 0
Listed ks p = has_key ks (port_switch_key p) ≡ true

self_Listed : (ps : List Value) → All (Listed (map port_switch_key ps)) ps
self_Listed [] = tt
self_Listed (p ∷ ps) = (
  ground (arith, eq_refl (port_switch_key p)),
  All-map ps (λ q h. ground (arith, h)) (self_Listed ps),
)

has_mode :
    (r : Routes) (k : String)
    → has_key (map mode_key modes) k ≡ true
    → has_key (routing_keys r) k ≡ true
has_mode r k h =
    any-append (λ j. j === k) (map port_switch_key (port_scopes r)) (map mode_key modes)
    ∙ ground (arith, h)

has_port :
    (r : Routes) (p : Value)
    → Listed (map port_switch_key (port_scopes r)) p
    → Listed (routing_keys r) p
has_port r p h =
    any-append (λ j. j === port_switch_key p) (map port_switch_key (port_scopes r))
      (map mode_key modes)
    ∙ ground (arith, h)

module _ (r : Routes) where
  scope_control-IsExclusive : IsExclusive r (scope_control r)
  unfolding scope_control key_of action_of
  scope_control-IsExclusive = (λ h. ground (arith, h), has_mode r "switch-ai-scope" refl)

  port_scope-IsExclusive :
      (p : Value)
      → Listed (map port_switch_key (port_scopes r)) p
      → IsExclusive r (port_scope_control r p)
  unfolding port_scope_control key_of action_of
  port_scope-IsExclusive p h = (λ e. ground (arith, e), has_port r p h)

  inherit-IsExclusive :
      (p : Value)
      → Listed (map port_switch_key (port_scopes r)) p
      → IsExclusive r (inherit_control r p)
  unfolding inherit_control key_of action_of
  inherit-IsExclusive p h = (λ e. ground (arith, e), has_port r p h)

  recovery-IsExclusive : IsExclusive r (recovery_control r)
  unfolding recovery_control mode_effect key_of action_of to_str
  recovery-IsExclusive = (λ h. h, has_mode r (mode_key "auto") refl)

  emergency-IsExclusive : IsExclusive r (emergency_control r)
  unfolding emergency_control mode_effect key_of action_of to_str
  emergency-IsExclusive = (λ h. ground (arith, h), has_mode r (mode_key "forced_fallback") refl)

  fix-IsExclusive :
      (candidate : Value) (mode : String)
      → has_key (map mode_key modes) (mode_key mode) ≡ true
      → IsExclusive r (fix_control r candidate mode)
  unfolding fix_control mode_effect key_of action_of to_str
  fix-IsExclusive candidate mode h = (λ e. ground (arith, e), has_mode r (mode_key mode) h)

  candidate_controls-All :
      (candidate : Value) → All (IsExclusive r) (candidate_controls r candidate)
  unfolding candidate_controls mode_for_candidate
  candidate_controls-All candidate =
      if-intro
        (λ (o : Option String). All (IsExclusive r) (elim o as (λ _. List Control) [
          | none ↦ []
          | some mode ↦ fix_control r candidate mode ∷ []
        ]))
        (has_index 0 candidate) (λ _. (fix-IsExclusive candidate "primary" refl, tt))
        (λ _.
          if-intro
            (λ (o : Option String). All (IsExclusive r) (elim o as (λ _. List Control) [
              | none ↦ []
              | some mode ↦ fix_control r candidate mode ∷ []
            ]))
            (has_index 1 candidate) (λ _. (fix-IsExclusive candidate "backup" refl, tt)) (λ _. tt))

  port_switches-All :
      (p : Value)
      → Listed (map port_switch_key (port_scopes r)) p
      → All (IsExclusive r) (port_switches r p)
  unfolding port_switches
  port_switches-All p h = (
    port_scope-IsExclusive p h,
    if-intro (All (IsExclusive r)) (not (truthy (get p "inherited")))
        (λ _. (inherit-IsExclusive p h, tt)) (λ _. tt),
  )

  concat_map-All :
      (Q : Value → Type 0) (f : Value → List Control) (vs : List Value)
      → ((v : Value) → Q v → All (IsExclusive r) (f v))
      → All Q vs
      → All (IsExclusive r) (concat_map f vs)
  unfolding concat_map
  concat_map-All Q f [] g h = tt
  concat_map-All Q f (v ∷ vs) g h =
      All-append (IsExclusive r) (f v) (concat_map f vs) (g v h.0) (concat_map-All Q f vs g h.1)

  always : (vs : List Value) → All (λ _. Unit {0}) vs
  always [] = tt
  always (v ∷ vs) = (tt, always vs)

  routing_controls-All : All (IsExclusive r) (routing_controls r)
  unfolding routing_controls
  routing_controls-All = (
    scope_control-IsExclusive,
    All-append (IsExclusive r) _ _
        (concat_map-All (Listed (map port_switch_key (port_scopes r))) (port_switches r)
          (port_scopes r) port_switches-All (self_Listed (port_scopes r)))
        (All-append (IsExclusive r) (shown_if (not (is_fixed r "auto")) (recovery_control r)) _
          (if-intro (All (IsExclusive r)) (not (is_fixed r "auto"))
            (λ _. (recovery-IsExclusive, tt)) (λ _. tt))
          (All-append (IsExclusive r) _ _
            (concat_map-All (λ _. Unit {0}) (candidate_controls r) (route_candidates r)
              (λ v _. candidate_controls-All v) (always (route_candidates r)))
            (emergency-IsExclusive, tt))),
  )

-- Where no routing mutation is busy, no key of one is.
busy_keys :
    (c : Console) (k : String) (ps : List Value)
    → any (λ p. is_busy c (port_switch_key p)) ps ≡ false
    → has_key (map port_switch_key ps) k ≡ true
    → is_busy c k ≡ false
busy_keys c k [] e h = cc
busy_keys c k (p ∷ ps) e h = elim (Bool-cases (port_switch_key p === k)) [
  | inl same ↦
      subst (λ j. is_busy c j ≡ false) ((eq_iff (port_switch_key p) k).0 same) (ground (arith, e))
  | inr other ↦ busy_keys c k ps (ground (arith, e)) (ground (arith, other, h))
]

busy_modes :
    (c : Console) (k : String) (ms : List String)
    → any (λ m. is_busy c (mode_key m)) ms ≡ false
    → has_key (map mode_key ms) k ≡ true
    → is_busy c k ≡ false
busy_modes c k [] e h = cc
busy_modes c k (m ∷ ms) e h = elim (Bool-cases (mode_key m === k)) [
  | inl same ↦ subst (λ j. is_busy c j ≡ false) ((eq_iff (mode_key m) k).0 same) (ground (arith, e))
  | inr other ↦ busy_modes c k ms (ground (arith, e)) (ground (arith, other, h))
]

routing_idle :
    (r : Routes) (k : String)
    → routing_busy r ≡ false
    → has_key (routing_keys r) k ≡ true
    → is_busy r.console k ≡ false
unfolding routing_busy
routing_idle r k e h = elim (Bool-cases (has_key (map port_switch_key (port_scopes r)) k)) [
  | inl l ↦ busy_keys r.console k (port_scopes r) (ground (arith, e)) l
  | inr l ↦ busy_modes r.console k modes (ground (arith, e)) (
      ground (
        arith,
        l,
        h,
        any-append (λ j. j === k) (map port_switch_key (port_scopes r)) (map mode_key modes),
      ))
]

-- After any history in which each mutation is called by a control that is enabled, in the routing view:
-- a control that is enabled starts a mutation of the default scope, of a port that is listed now, of
-- the automatic or a fixed mode, or of the emergency mode, and while it is enabled no callback of any
-- of these runs.
pub routing_controls-IsExclusive :
    (js : Builtins) (es : List Event) (r : Routes) (i : ℕ) (x : Control) (k : String)
    → IsGuarded js es start
    → r.console ≡ (run js es start).console
    → get_elem? (routing_controls r) i ≡ some x
    → x.disabled ≡ false
    → has_key (routing_keys r) k ≡ true
    → (has_key (keys (run js es start).running) k ≡ false)
      × (has_key (routing_keys r) (key_of (action_of x.effect)) ≡ true)
unfolding is_busy
routing_controls-IsExclusive js es r i x k guarded s e enabled listed =
    let exclusive =
      All-get_elem? (IsExclusive r) (routing_controls r) i (routing_controls-All r) e in
    (
      ap (λ ks. has_key ks k) (sym (run_guarded js es guarded).0)
          ∙ ap (λ c. has_key c.busy k) (sym s)
          ∙ routing_idle r k (exclusive.0 enabled) listed,
      exclusive.1,
    )
