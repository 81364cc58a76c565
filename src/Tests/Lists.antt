-- ===== src/Tests/Lists.antt =====
-- The list of the orders, of an answer without it, and a price.
use ai_routing_panel.Prelude.{◌↔◌, ◌≤◌, length, false, none, ◌≢◌, ◌≡◌, ◌∷◌, [], refl}
use ai_routing_panel.Js.Text.{show, digit}
use ai_routing_panel.Format.Bytes.{to_fixed2, hundredths}
use ai_routing_panel.Js.{num, object, truthy, to_num, or_else, number}
use ai_routing_panel.Portal.Lists.{list_settled, opened_list, list_stage, yuan}
use ai_routing_panel.Tests.Samples.{plain}
use ai_routing_panel.Portal.Listed.{list_settled-raises, IsListless}
use ai_routing_panel.Console.State.{Reply, answered}

abbrev without_orders : Reply
without_orders = answered (object (("data", object []) ∷ []))

orders_missing :
    (list_stage opened_list ≢ none)
    × ((list_settled plain "orders" without_orders opened_list).loading ≡ false)
    × (length (list_settled plain "orders" without_orders opened_list).toasts ≤ 1)
    × ((list_stage (list_settled plain "orders" without_orders opened_list) ≡ none)
        ↔ IsListless "orders" without_orders)
orders_missing = list_settled-raises plain "orders" without_orders

twelve_yuan : yuan plain (num 1205) ≡ "12.05"
unfolding yuan to_fixed2 hundredths number to_num or_else truthy show digit
twelve_yuan = refl
