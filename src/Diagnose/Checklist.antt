-- ===== src/Diagnose/Checklist.antt =====
-- `buildChecklist` of frontend/src/admin/lib/diagnose.js: the items of the checks, sorted by tone.
use ai_routing_panel.Dashboard.Labels.{Tone, success, warning, danger, info, neutral}
use ai_routing_panel.Diagnose.Checks.{
  consistency_items, port_items, dns_target_items, dns_config_items, ai_node_items, manual_items,
  ai_routing_items, failures_of, failure_items, data_plane_items, item, Item,
}
use ai_routing_panel.Js.{str, Value, Builtins}
use ai_routing_panel.Dashboard.Panel.{Panel}
use ai_routing_panel.Prelude.{some, none, ◌++◌, Option, [], ◌==◌, leb, ◌∷◌, if◌then◌else◌, ℕ, List}

-- `order`; no item has the tone `neutral`.
unfoldable pub rank : Tone → ℕ
rank danger = 0
rank warning = 1
rank info = 2
rank success = 3
rank neutral = 4

-- `items.sort((a, b) => order[a.tone] - order[b.tone])`, which is stable
unfoldable pub insert_item : Item → List Item → List Item
insert_item a [] = a ∷ []
insert_item a (b ∷ bs) =
    let rest = insert_item a bs in if leb (rank a.tone) (rank b.tone) then a ∷ b ∷ bs else b ∷ rest

unfoldable pub sort_items : List Item → List Item
sort_items [] = []
sort_items (a ∷ rest) = insert_item a (sort_items rest)

unfoldable pub concat : List (List Item) → List Item
concat [] = []
concat (xs ∷ xss) = xs ++ concat xss

-- What the checks push, in the order of the source.
unfoldable pub parts : Builtins → Panel → List Item → Value → List (List Item)
parts js p failures diagnosis =
    data_plane_items p
    ∷ ai_routing_items p
    ∷ manual_items p
    ∷ ai_node_items p
    ∷ dns_config_items p
    ∷ dns_target_items p
    ∷ failures
    ∷ port_items js p
    ∷ consistency_items diagnosis
    ∷ []

unfoldable pub found : Builtins → Panel → List Item → Value → List Item
found js p failures diagnosis = concat (parts js p failures diagnosis)

abbrev pub all_clear : List Item
all_clear = item success "未发现需要立即处理的异常" (str "继续观察流量与探测记录；出现异常时会在此列出。")

unfoldable pub or_all_clear : List Item → List Item
or_all_clear [] = all_clear
or_all_clear (a ∷ rest) = a ∷ rest

unfoldable pub build_checklist : Builtins → Panel → Value → Value → Option (List Item)
build_checklist js p insights diagnosis = elim (failure_items (failures_of insights)) [
  | none ↦ none
  | some failures ↦ some (sort_items (or_all_clear (found js p failures diagnosis)))
]

unfoldable pub summary_tone : ℕ → ℕ → Tone
summary_tone ok total =
    if total == 0
    then neutral
    else if ok == total
    then success
    else if ok == 0
    then danger
    else warning
