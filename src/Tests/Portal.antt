-- ===== src/Tests/Portal.antt =====
-- A session of the page of a tenant, and the theorem at it.
use ai_routing_panel.Prelude.{[], ◌∷◌, ◌≡◌, List, refl}
use ai_routing_panel.Console.State.{Reply, answered, refused}
use ai_routing_panel.Portal.Tenant.{
  replies, presses_login, submits_form, TenantEvent, subscription_card, tenant_step, tenant_run,
  start_load, settle_waiting, screen_of, opened_page, load_settled, load_result, is_unauthorized,
  do_login,
}
use ai_routing_panel.Js.{num, str, object, truthy, lookup_field, is_nullish, get, fields_of}
use ai_routing_panel.Portal.Waited.{tenant_run-IsWaited, IsWaited}
use ai_routing_panel.Tests.Samples.{plain}

abbrev denied : Reply
denied = refused (record { message = str "no"; status = num 401 })

abbrev accepted : Reply
accepted = answered (object (("data", object (("subscription", num 7) ∷ [])) ∷ []))

-- The load is denied, and the login card is shown. A second click is not taken, but the form is
-- submitted, and a second login waits when the first is over.
abbrev session : List TenantEvent
session =
    presses_login
    ∷ replies 0 denied
    ∷ presses_login
    ∷ presses_login
    ∷ submits_form
    ∷ replies 0 accepted
    ∷ replies 0 accepted
    ∷ []

session_shows : screen_of (tenant_run plain session opened_page) ≡ subscription_card (num 7)
unfolding screen_of tenant_run tenant_step opened_page start_load load_result load_settled do_login
    settle_waiting is_unauthorized is_nullish get lookup_field fields_of truthy
session_shows = refl

tenant_run-IsWaited_example : IsWaited (tenant_run plain session opened_page)
tenant_run-IsWaited_example = tenant_run-IsWaited plain session
