-- ===== src/Views/Controls.antt =====
-- A button of a view, and the question of frontend/src/admin/components/ConfirmDialog.jsx that it may
-- ask first.
use ai_routing_panel.Prelude.{[], ◌∷◌, if◌then◌else◌, List, String, Bool}
use ai_routing_panel.Console.Actions.{Action}
use ai_routing_panel.Console.World.{has_key}
use ai_routing_panel.Console.State.{Console}

-- The argument of `confirm.ask`.
pub record Question : Type 0 where
  pub title : String
  pub body : String
  pub tone : String
  pub confirm_label : String

-- What a click does: it calls a mutation, or asks before it does.
pub data Effect : Type 0 where
  acts : Action → Effect
  asks : Question → Action → Effect

pub record Control : Type 0 where
  pub text : String
  pub disabled : Bool
  pub effect : Effect

unfoldable pub action_of : Effect → Action
action_of (acts a) = a
action_of (asks q a) = a

-- `isBusy` of frontend/src/admin/state/PanelProvider.jsx
unfoldable pub is_busy : Console → String → Bool
is_busy c key = has_key c.busy key

-- `{condition ? <button … /> : null}`
abbrev pub shown_if : Bool → Control → List Control
shown_if b control = if b then control ∷ [] else []
