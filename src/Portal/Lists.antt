-- ===== src/Portal/Lists.antt =====
-- The pages of the portal that load one list: frontend/src/portal/views/PlansView.vue, OrdersView.vue and
-- SubscriptionsView.vue, which differ in the name of the list and in the rows.
use ai_routing_panel.Prelude.{
  ◌∷◌, ◌==◌, ◌⧺◌, length, ◌||◌, none, false, [], String, if◌then◌else◌, List, Bool, true, Option,
  some,
}
use ai_routing_panel.Js.{
  str, nat, nan, get, is_nullish, elements, to_str, number, truthy, Value, array, Builtins,
}
use ai_routing_panel.Portal.Order.{error_toast, Toast}
use ai_routing_panel.Format.Bytes.{to_fixed2, human_bytes}
use ai_routing_panel.Console.State.{Reply, answered, refused}

pub record ListPage : Type 0 where
  pub loading : Bool
  pub list : Value
  pub toasts : List Toast

-- The page as it is mounted, its one request sent.
unfoldable pub opened_list : ListPage
opened_list = record { loading = true; list = array []; toasts = [] }

-- The end of the request, for a list of this name. Reading it of a nullish `data` raises.
unfoldable pub list_result : Builtins → String → Reply → ListPage → ListPage
list_result js k (answered res) p =
    if is_nullish res || is_nullish (get res "data")
    then record p { toasts = error_toast (str js.type_error) ∷ p.toasts }
    else record p { list = get (get res "data") k }
list_result js k (refused e) p = record p { toasts = error_toast e.message ∷ p.toasts }

unfoldable pub list_settled : Builtins → String → Reply → ListPage → ListPage
list_settled js k reply p = record (list_result js k reply p) { loading = false }

-- What the template shows: a remark that there is nothing, or the rows.
pub data ListStage : Type 0 where
  nothing_yet : ListStage
  listed : List Value → ListStage

-- `!loading && !list.length`, where reading the length of a nullish list is a TypeError: `none`.
unfoldable pub list_stage : ListPage → Option ListStage
list_stage p =
    if p.loading
    then some (listed (elements p.list))
    else if is_nullish p.list
    then none
    else if length (elements p.list) == 0
    then some nothing_yet
    else some (listed (elements p.list))

-- `yuan` of PlansView.vue
unfoldable pub yuan : Builtins → Value → String
yuan js fen = elim (number js fen) [
  | nan ↦ "NaN"
  | nat n ↦ to_fixed2 (record { value = n; divisor = 100; unit = "" })
]

unfoldable pub traffic_or_unlimited : Builtins → String → Value → String
traffic_or_unlimited js unlimited bytes = if truthy bytes then human_bytes js bytes else unlimited

-- The text below the price of a plan.
unfoldable pub plan_terms : Builtins → Value → String
plan_terms js plan =
    to_str (get plan "duration_days")
    ⧺ " 天 · "
    ⧺ traffic_or_unlimited js "不限流量" (get plan "traffic_limit_bytes")

-- The use of a subscription, in SubscriptionsView.vue.
unfoldable pub usage_text : Builtins → Value → String
usage_text js s =
    human_bytes js (get s "traffic_usage_bytes")
    ⧺ " / "
    ⧺ traffic_or_unlimited js "不限" (get s "traffic_limit_bytes")
