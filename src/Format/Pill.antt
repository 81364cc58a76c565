-- ===== src/Format/Pill.antt =====
-- `statusTone` (frontend/src/shared/tokens.js) and the tone that `StatusPill`
-- (frontend/src/admin/components/ui.jsx) shows.
use ai_routing_panel.Js.{or_else, Value, str, to_str, Builtins, truthy}
use ai_routing_panel.Prelude.{◌||◌, ◌===◌, if◌then◌else◌, String}
use ai_routing_panel.Dashboard.Labels.{Tone, success, warning, danger, info, neutral}

-- The names of `TONES`.
unfoldable pub tone_name : Tone → String
tone_name success = "success"
tone_name warning = "warning"
tone_name danger = "danger"
tone_name info = "info"
tone_name neutral = "neutral"

-- `Object.hasOwn(TONES, requested) ? requested : "neutral"`
unfoldable pub own_tone : String → Tone
own_tone s =
    if s === "success"
    then success
    else if s === "warning"
    then warning
    else if s === "danger"
    then danger
    else if s === "info"
    then info
    else neutral

-- A result of `STATUS_TONE[name] || "neutral"`: two lower-case names are those of properties that
-- every object inherits.
pub data Requested : Type 0 where
  tone : Tone → Requested
  inherited : Requested

unfoldable pub status_table : String → Requested
status_table s =
    if s === "active" || s === "ok" || s === "fulfilled" || s === "healthy"
    then tone success
    else if s === "disabled" || s === "bad" || s === "payment_rejected"
    then tone danger
    else if s === "expired" || s === "quota" || s === "warn" || s === "pending_payment"
    then tone warning
    else if s === "payment_submitted"
    then tone info
    else if s === "constructor" || s === "__proto__"
    then inherited
    else tone neutral

unfoldable pub status_tone : Builtins → Value → Requested
status_tone js status = status_table (js.to_lower (to_str (or_else status (str ""))))

-- An inherited property is no name of `TONES`.
unfoldable pub pill_tone : Builtins → Value → Value → Tone
pill_tone js requested status =
    if truthy requested
    then own_tone (to_str requested)
    else elim (status_tone js status) [ tone t ↦ t | inherited ↦ neutral ]
