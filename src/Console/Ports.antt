-- ===== src/Console/Ports.antt =====
-- The filter, the selection, the search and the local edits of ports
-- (frontend/src/admin/state/PanelProvider.jsx). A port that is `null` is left out of the model: a
-- prepared port is an object. The test whether a text contains another is a parameter.
use ai_routing_panel.Prelude.{
  true, false, none, ◌&&◌, ◌===◌, [], ◌∷◌, not, filter, find, any, Option, List, map, if◌then◌else◌,
  Bool, String,
}
use ai_routing_panel.Console.State.{Filters, Console}
use ai_routing_panel.Client.Request.{put_all}
use ai_routing_panel.Js.{
  is_str, str, null, or_else, get, coalesce, same, to_str, put, Value, Fields, Builtins,
}

unfoldable pub is_selected_port : Value → Value → Bool
is_selected_port id port = same (get port "id") id

unfoldable pub first_id : List Value → Value
first_id [] = null
first_id (p ∷ ps) = get p "id"

module _ (js : Builtins) (includes : String → String → Bool) where
  -- `String(item || "").toLowerCase()`
  unfoldable pub searched : Value → String
  searched v = js.to_lower (to_str (or_else v (str "")))

  unfoldable pub query_of : Filters → String
  query_of filters = js.to_lower (js.trim (to_str (or_else filters.query (str ""))))

  unfoldable pub is_found : String → Value → Bool
  is_found query port =
      any (λ k. includes (searched (get port k)) query)
        ("listen_port" ∷ "note" ∷ "upstream_host" ∷ "status_label" ∷ [])

  unfoldable pub is_shown : Filters → Value → Bool
  is_shown filters port =
      if not (is_str filters.status "all") && not (same (get port "status") filters.status)
      then false
      else if query_of filters === ""
      then true
      else is_found (query_of filters) port

  unfoldable pub filtered_ports : Console → List Value
  filtered_ports c = filter (is_shown c.filters) (c.panel.ports)

  unfoldable pub selected_port : Console → Option Value
  selected_port c = find (is_selected_port c.selected_port_id) (filtered_ports c)

  -- The effect after a render.
  unfoldable pub keep_selection : Console → Console
  keep_selection c =
      if any (is_selected_port c.selected_port_id) (filtered_ports c)
      then c
      else record c { selected_port_id = first_id (filtered_ports c) }

  unfoldable pub find_port_by_listen_port : Console → Value → Option Value
  find_port_by_listen_port c listen_port =
      let target = js.trim (to_str (coalesce listen_port (str ""))) in
      if target === ""
      then none
      else find (λ p. to_str (get p "listen_port") === target) (c.panel.ports)

-- `form: { ...port.form, ...patch }`
unfoldable pub patch_form : Value → Fields → Value → Value
patch_form id patch port =
    if same (get port "id") id then put "form" (put_all (get port "form") patch) port else port

unfoldable pub update_port_form : Value → Fields → Console → Console
update_port_form id patch c = record c {
  panel = record (c.panel) { ports = map (patch_form id patch) (c.panel.ports) };
}
