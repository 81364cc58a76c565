-- ===== src/Console/Actions.antt =====
-- The table `actions` of frontend/src/admin/state/PanelProvider.jsx: the busy key and the request of
-- each mutation.
use ai_routing_panel.Prelude.{String, ◌⧺◌, ◌===◌, [], ◌∷◌, Option, none, some, if◌then◌else◌}
use ai_routing_panel.Js.{Value, undefined, Builtins, get, truthy, to_str, object}
use ai_routing_panel.Console.State.{Console}

pub data Action : Type 0 where
  create_port : Action
  update_port toggle_port delete_port reset_traffic : Value → Action
  rotate_tenant_token rotate_tenant_credentials rotate_port_subscription : Value → Action
  run_dns_failover_check : Action
  switch_dns_target : Value → Action
  switch_port_ai_routing_scope : Value → Value → Action
  switch_ai_routing_scope switch_ai_routing_mode : Value → Action
  restart_data_plane : Action
  restart_ai_node : String → Action
  diagnose_data_plane : Action

abbrev port_key : String → Value → String
port_key prefix port = prefix ⧺ to_str (get port "id")

unfoldable pub key_of : Action → String
key_of create_port = "create-port"
key_of (update_port p) = port_key "update:" p
key_of (toggle_port p) = port_key "toggle:" p
key_of (delete_port p) = port_key "delete:" p
key_of (reset_traffic p) = port_key "reset:" p
key_of (rotate_tenant_token p) = port_key "rotate-tenant:" p
key_of (rotate_tenant_credentials p) = port_key "rotate-credentials:" p
key_of (rotate_port_subscription p) = port_key "rotate-subscription:" p
key_of run_dns_failover_check = "dns-failover-check"
key_of (switch_dns_target target) = "dns-failover-switch:" ⧺ to_str target
key_of (switch_port_ai_routing_scope id scope) = "switch-ai-port-" ⧺ to_str id
key_of (switch_ai_routing_scope scope) = "switch-ai-scope"
key_of (switch_ai_routing_mode mode) = "switch-ai-" ⧺ to_str mode
key_of restart_data_plane = "restart-data-plane"
key_of (restart_ai_node id) = "restart-ai-node:" ⧺ id
key_of diagnose_data_plane = "diagnose-data-plane"

pub data Method : Type 0 where
  get_method post put delete : Method

pub record Request : Type 0 where
  pub method : Method
  pub url : String
  -- `undefined` where the code passes no body
  pub json : Value

abbrev request : Method → String → Value → Option Request
request m u body = some (record { method = m; url = u; json = body })

abbrev port_url : Value → String → String
port_url port suffix = "/api/ports/" ⧺ to_str (get port "id") ⧺ suffix

abbrev post_to : String → Option Request
post_to u = request post u undefined

-- The request that the action awaits first; `none` where it returns without one.
unfoldable pub request_of : Builtins → Console → Action → Option Request
request_of js c create_port = request post "/api/ports" c.create_form
request_of js c (update_port p) = request put (port_url p "") (get p "form")
request_of js c (toggle_port p) = post_to (port_url p "/toggle")
request_of js c (delete_port p) = request delete (port_url p "") undefined
request_of js c (reset_traffic p) = post_to (port_url p "/reset-traffic")
request_of js c (rotate_tenant_token p) = post_to (port_url p "/rotate-tenant-token")
request_of js c (rotate_tenant_credentials p) = post_to (port_url p "/rotate-tenant-credentials")
request_of js c (rotate_port_subscription p) = post_to (port_url p "/rotate-subscription-token")
request_of js c run_dns_failover_check = post_to "/api/dns-failover/check"
request_of js c (switch_dns_target target) =
    request post "/api/dns-failover/switch" (object (("target", target) ∷ []))
request_of js c (switch_port_ai_routing_scope id scope) =
    request post ("/api/ai-routing/ports/" ⧺ to_str id ⧺ "/scope")
      (object (("traffic_scope", scope) ∷ []))
request_of js c (switch_ai_routing_scope scope) =
    request post "/api/ai-routing/scope" (object (("traffic_scope", scope) ∷ []))
request_of js c (switch_ai_routing_mode mode) =
    request post "/api/ai-routing/switch" (object (("mode", mode) ∷ []))
request_of js c restart_data_plane =
    if truthy (get c.panel.data_plane_status "configured")
    then post_to "/api/data-plane/restart"
    else none
request_of js c (restart_ai_node id) =
    post_to
      (if id === "" then "/api/ai-node/restart" else "/api/ai-nodes/" ⧺ js.encode id ⧺ "/restart")
request_of js c diagnose_data_plane = post_to "/api/data-plane/diagnose"
