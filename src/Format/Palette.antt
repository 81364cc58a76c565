-- ===== src/Format/Palette.antt =====
-- The palette of frontend/src/shared/tokens.js: `tokens.color`, the colour pairs of `TONES`, and
-- `naiveThemeOverrides`.
use ai_routing_panel.Prelude.{◌===◌, if◌then◌else◌, [], ◌∷◌, List, String}
use ai_routing_panel.Dashboard.Labels.{Tone, success, warning, danger, info, neutral}

-- `tokens.color`
abbrev pub palette : List (String × String)
palette =
    ("primary", "#1e40af")
    ∷ ("primaryStrong", "#172554")
    ∷ ("primarySoft", "#dbeafe")
    ∷ ("success", "#188038")
    ∷ ("successSoft", "#e6f4ea")
    ∷ ("warning", "#b06000")
    ∷ ("warningSoft", "#fef7e0")
    ∷ ("danger", "#d93025")
    ∷ ("dangerSoft", "#fce8e6")
    ∷ ("info", "#2563eb")
    ∷ ("gray50", "#f8fafc")
    ∷ ("gray100", "#f1f5f9")
    ∷ ("gray200", "#e2e8f0")
    ∷ ("gray300", "#cbd5e1")
    ∷ ("gray400", "#94a3b8")
    ∷ ("gray500", "#64748b")
    ∷ ("gray600", "#475569")
    ∷ ("gray700", "#334155")
    ∷ ("gray800", "#1e293b")
    ∷ ("gray900", "#0f172a")
    ∷ ("bg", "#f8fafc")
    ∷ ("surface", "#ffffff")
    ∷ ("surfaceMuted", "#f1f5f9")
    ∷ ("text", "#172033")
    ∷ ("textMuted", "#526176")
    ∷ ("textSoft", "#7d8ca1")
    ∷ ("line", "#dbe3ee")
    ∷ ("lineStrong", "#bdc9d8")
    ∷ []

unfoldable pub colour_from : String → List (String × String) → String
colour_from k [] = ""
colour_from k ((j, v) ∷ rest) = let other = colour_from k rest in if j === k then v else other

unfoldable pub colour : String → String
colour k = colour_from k palette

-- `TONES`: the colour of a tone, and the soft one behind it
unfoldable pub tone_colours : Tone → String × String
tone_colours success = (colour "success", colour "successSoft")
tone_colours warning = (colour "warning", colour "warningSoft")
tone_colours danger = (colour "danger", colour "dangerSoft")
tone_colours info = (colour "info", colour "primarySoft")
tone_colours neutral = (colour "textMuted", colour "gray100")

abbrev pub font_sans : String
font_sans =
    "\"Inter\", \"Noto Sans SC\", \"PingFang SC\", \"Microsoft YaHei\", system-ui, sans-serif"

-- `naiveThemeOverrides().common`
unfoldable pub naive_theme_overrides : List (String × String)
naive_theme_overrides =
    ("primaryColor", colour "primary")
    ∷ ("primaryColorHover", colour "primaryStrong")
    ∷ ("primaryColorPressed", colour "primaryStrong")
    ∷ ("successColor", colour "success")
    ∷ ("warningColor", colour "warning")
    ∷ ("errorColor", colour "danger")
    ∷ ("infoColor", colour "info")
    ∷ ("textColorBase", colour "text")
    ∷ ("textColor1", colour "text")
    ∷ ("textColor2", colour "textMuted")
    ∷ ("textColor3", colour "textSoft")
    ∷ ("bodyColor", colour "bg")
    ∷ ("cardColor", colour "surface")
    ∷ ("borderColor", colour "line")
    ∷ ("borderRadius", "12px")
    ∷ ("borderRadiusSmall", "8px")
    ∷ ("fontFamily", font_sans)
    ∷ ("boxShadow1", "0 1px 2px rgba(16, 24, 40, 0.06)")
    ∷ ("boxShadow2", "0 6px 20px rgba(16, 24, 40, 0.08)")
    ∷ []
