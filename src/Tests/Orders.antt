-- ===== src/Tests/Orders.antt =====
-- A session of the page of an order: a proof is sent and accepted.
use ai_routing_panel.Prelude.{[], ◌∷◌, ◌≡◌, String, List, refl}
use ai_routing_panel.Portal.Order.{
  picks_files, order_replies, presses_submit, OrderEvent, submit_proof, start_order_load,
  show_toast, proof_settled, order_waited, order_step, order_settled, order_run, order_result,
  opened_order, chosen_file, can_submit_proof,
}
use ai_routing_panel.Js.{
  str, object, Value, truthy, or_else, lookup_field, is_str, is_nullish, get, fields_of,
}
use ai_routing_panel.Portal.Paying.{order_run-IsPaying, IsPaying}
use ai_routing_panel.Tests.Samples.{plain}
use ai_routing_panel.Console.State.{Reply, answered}

abbrev order_reply : String → Reply
order_reply status =
    answered (object (("data", object (("order", object (("status", str status) ∷ [])) ∷ [])) ∷ []))

abbrev chosen : Value
chosen = object (("file", str "proof.png") ∷ [])

-- The first click has no file; the second sends one; the third comes while it waits.
abbrev payment : List OrderEvent
payment =
    presses_submit
    ∷ order_replies 0 (order_reply "pending_payment")
    ∷ presses_submit
    ∷ picks_files (chosen ∷ [])
    ∷ presses_submit
    ∷ presses_submit
    ∷ order_replies 0 (answered (object []))
    ∷ order_replies 0 (order_reply "payment_submitted")
    ∷ presses_submit
    ∷ []

payment_sent :
    (order_run plain payment opened_order).sent
    ≡ record { proof_image = str "proof.png"; payer_note = str "" } ∷ []
unfolding order_run order_step opened_order start_order_load order_waited order_settled order_result
    proof_settled show_toast can_submit_proof submit_proof chosen_file truthy get lookup_field
    fields_of is_nullish is_str or_else
payment_sent = refl

order_run-IsPaying_example : IsPaying (order_run plain payment opened_order)
order_run-IsPaying_example = order_run-IsPaying plain payment
