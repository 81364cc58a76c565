-- ===== src/Tests/Creation.antt =====
-- Two answers to the creation of a port.
use ai_routing_panel.Prelude.{
  refl, arith, refl, arith, true, eq_iff, none, some, [], ◌===◌, ◌≡◌, ◌∷◌, Bool, String, arith,
  refl,
}
use ai_routing_panel.Console.State.{
  Clock, Console, Failure, answered, done, initial, no_filters, refused,
}
use ai_routing_panel.Js.{
  undefined, truthy, stringify, put_field, put, or_else, lookup_field, is_nullish, is_array,
  fields_of, elements, null, array, object, same, get, num, Value, str,
}
use ai_routing_panel.Dashboard.Signature.{signature_value, target_of, routing_signature}
use ai_routing_panel.Dashboard.Panel.{
  prepare_ports, ports_of, panel_of, array_or, empty_port_form, empty_panel, prepared,
  normalize_dashboard, Panel,
}
use ai_routing_panel.Tests.Samples.{plain}
use ai_routing_panel.Console.Conflict.{resume-conflict}
use ai_routing_panel.Console.Ports.{selected_port, filtered_ports}
use ai_routing_panel.Console.Creation.{resume-created}
use ai_routing_panel.Console.Tasks.{is_created, resume, has_status, creating, create_conflict}

abbrev one_second : Clock
one_second = record { now = 1; date = 1 }

abbrev new_port : Value
new_port = prepared (object (("id", num 7) ∷ ("listen_port", num 8443) ∷ []))

abbrev no_text_in : String → String → Bool
no_text_in text part = text === part

-- The new port, as the answer and the panel made of it have it.
abbrev created_reply : Value
created_reply = object (
    ("created_port_id", num 7)
    ∷ (
      "dashboard",
      object (("ports", array (object (("id", num 7) ∷ ("listen_port", num 8443) ∷ []) ∷ [])) ∷ []),
    )
    ∷ [])

abbrev created_panel : Panel
created_panel = record empty_panel { ports = new_port ∷ [] }

abbrev taken : Failure
taken = record { message = str "taken"; status = num 409 }

resume-conflict_example :
    (d : Console) × (resume plain one_second (creating "8443") (refused taken) initial
      ≡ (initial, done (some create_conflict)))
    × (resume plain one_second create_conflict (refused taken) initial ≡ (d, done none))
    × (d.selected_port_id ≡ null)
    × (d.filters ≡ no_filters)
    × (d.create_form ≡ empty_port_form)
    × (d.flash.message ≡ str "监听端口已存在，已选中已有端口。")
unfolding has_status same
resume-conflict_example =
    resume-conflict plain one_second "8443" taken (refused taken) initial refl
      (ground (arith, eq_iff "8443" ""))

normalized : normalize_dashboard (get created_reply "dashboard") ≡ some created_panel
unfolding normalize_dashboard ports_of truthy get or_else lookup_field fields_of array is_array
    prepare_ports elements is_nullish panel_of array_or
normalized = refl

abbrev signature : String
signature = stringify plain (signature_value created_panel undefined)

signed : routing_signature plain created_panel ≡ some signature
unfolding routing_signature target_of is_nullish get lookup_field
signed = refl

resume-created_example :
    (d : Console) × (r : Value) × (resume plain one_second
        (creating "8443")
        (answered created_reply)
        initial
      ≡ (d, done none))
    × (filtered_ports plain no_text_in d ≡ created_panel.ports)
    × (selected_port plain no_text_in d ≡ some r)
    × (same (get r "id") (get new_port "id") ≡ true)
    × (d.create_form ≡ empty_port_form)
unfolding truthy get lookup_field fields_of is_created is_nullish same prepared put put_field
resume-created_example =
    resume-created plain no_text_in one_second "8443" created_reply created_panel signature new_port
      initial refl refl normalized signed refl refl
