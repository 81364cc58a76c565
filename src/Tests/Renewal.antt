-- ===== src/Tests/Renewal.antt =====
-- A session of the page of a subscription: a renewal whose answer has no order number to read.
use ai_routing_panel.Prelude.{[], ◌∷◌, true, ◌≡◌, List, refl}
use ai_routing_panel.Portal.Renewal.{
  renewal_replies, presses_renew, RenewalEvent, tell, subscription_settled, subscription_result,
  renewal_waited, renewal_step, renewal_settled, renewal_run, renewal_result, renew,
  opened_subscription, open_order, can_renew,
}
use ai_routing_panel.Js.{
  str, bool, object, truthy, or_else, lookup_field, is_nullish, get, fields_of,
}
use ai_routing_panel.Tests.Samples.{plain}
use ai_routing_panel.Portal.Renewing.{renewal_run-IsRenewing, IsRenewing}
use ai_routing_panel.Portal.Order.{success_toast, error_toast}
use ai_routing_panel.Console.State.{Reply, answered}

abbrev renewable : Reply
renewable = answered (
    object
      (("data", object (("subscription", object (("renewal_allowed", bool true) ∷ [])) ∷ [])) ∷ []))

abbrev renewals_made : List RenewalEvent
renewals_made =
    presses_renew
    ∷ renewal_replies 0 renewable
    ∷ presses_renew
    ∷ presses_renew
    ∷ renewal_replies 0 (answered (object []))
    ∷ []

-- A success is told, and then the error.
renewal_toasts :
    (renewal_run plain renewals_made opened_subscription).toasts
    ≡ error_toast (str "TypeError") ∷ success_toast (str "续费订单已创建。") ∷ []
unfolding renewal_run renewal_step opened_subscription renewal_waited subscription_settled
    subscription_result renewal_settled renewal_result open_order tell renew can_renew truthy get
    lookup_field fields_of is_nullish or_else
renewal_toasts = refl

renewal_run-IsRenewing_example : IsRenewing (renewal_run plain renewals_made opened_subscription)
renewal_run-IsRenewing_example = renewal_run-IsRenewing plain renewals_made
