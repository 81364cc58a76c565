-- ===== src/Hosts/State.antt =====
-- The tone and the label of a host (frontend/src/admin/lib/hosts.js) agree.
use ai_routing_panel.Prelude.{
  refl, true, false, not, true, Bool, ◌||◌, ◌≡◌, ◌===◌, if◌then◌else◌, String,
}
use ai_routing_panel.Hosts.Inventory.{Host, host_state_label, host_tone}
use ai_routing_panel.Js.{is_false, is_true}
use ai_routing_panel.Dashboard.Labels.{Tone, success, warning, danger, neutral}

-- What a label says: running or reachable is good, not running is bad, not probed is open.
abbrev pub tone_of_label : String → Tone
tone_of_label label =
    if label === "未配置"
    then neutral
    else if label === "运行中" || label === "可达"
    then success
    else if label === "未运行"
    then danger
    else warning

same_table :
    (c t f r : Bool)
    → (if not c
        then neutral
        else if t
        then success
        else if f
        then danger
        else if r
        then success
        else warning)
      ≡ tone_of_label (
          if not c
          then "未配置"
          else if t
          then "运行中"
          else if f
          then "未运行"
          else if r
          then "可达"
          else "待探测")
same_table false t f r = refl
same_table true true f r = refl
same_table true false true r = refl
same_table true false false true = refl
same_table true false false false = refl

-- The tone of a host is that of its label.
pub host_tone-host_state_label : (h : Host) → host_tone h ≡ tone_of_label (host_state_label h)
unfolding host_tone host_state_label
host_tone-host_state_label h =
    same_table h.configured (is_true h.running) (is_false h.running) h.reachable
