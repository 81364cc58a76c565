-- ===== src/Portal/Order.antt =====
-- frontend/src/portal/views/OrderDetailView.vue: the load of an order and the upload of a proof of
-- payment. A button of Naive UI that shows `loading` takes no click.
use ai_routing_panel.Prelude.{
  remove_at, none, get_elem?, not, ◌&&◌, ◌||◌, [], take, false, ℕ, ◌∷◌, Bool, if◌then◌else◌, List,
  true, some,
}
use ai_routing_panel.Js.{
  or_else, is_str, get, str, null, truthy, is_nullish, undefined, Value, Builtins,
}
use ai_routing_panel.Dashboard.Panel.{empty}
use ai_routing_panel.Console.State.{Reply, answered, refused}

-- A function that waits: `load` of the mounted page, `submitProof` at its own request, and
-- `submitProof` at its load.
pub data OrderWaiting : Type 0 where
  page_load proof_post proof_load : OrderWaiting

pub data Toast : Type 0 where
  error_toast success_toast : Value → Toast

-- The form of a proof.
pub record Proof : Type 0 where
  pub proof_image : Value
  pub payer_note : Value

pub record OrderPage : Type 0 where
  pub loading : Bool
  pub submitting : Bool
  pub order : Value
  pub settings : Value
  pub file_list : List Value
  pub payer_note : Value
  pub waiting : List OrderWaiting
  -- the toasts and the proofs that were sent, the last one first
  pub toasts : List Toast
  pub sent : List Proof

abbrev pub unloaded_order : OrderPage
unloaded_order = record {
  loading = true;
  submitting = false;
  order = null;
  settings = empty;
  file_list = [];
  payer_note = str "";
  waiting = [];
  toasts = [];
  sent = [];
}

-- `["pending_payment", "payment_rejected"].includes(order.value.status)`, of an order
unfoldable pub can_submit_proof : OrderPage → Bool
can_submit_proof o =
    truthy o.order
    && (is_str (get o.order "status") "pending_payment"
        || is_str (get o.order "status") "payment_rejected")

unfoldable pub start_order_load : OrderWaiting → OrderPage → OrderPage
start_order_load w o = record o { loading = true; waiting = w ∷ o.waiting }

unfoldable pub show_toast : Toast → OrderPage → OrderPage
show_toast t o = record o { toasts = t ∷ o.toasts }

-- `load` after its await, up to its `finally`. Reading `order` of a nullish `data` raises.
unfoldable pub order_result : Builtins → Reply → OrderPage → OrderPage
order_result js (answered res) o =
    if is_nullish res || is_nullish (get res "data")
    then show_toast (error_toast (str js.type_error)) o
    else record o {
      order = get (get res "data") "order";
      settings = or_else (get (get res "data") "commerce_settings") empty;
    }
order_result js (refused e) o = show_toast (error_toast e.message) o

unfoldable pub order_settled : Builtins → Reply → OrderPage → OrderPage
order_settled js reply o = record (order_result js reply o) { loading = false }

-- `fileList.value[0]?.file`
unfoldable pub chosen_file : List Value → Value
chosen_file [] = undefined
chosen_file (f ∷ fs) = get f "file"

-- `submitProof` up to its first await.
unfoldable pub submit_proof : OrderPage → OrderPage
submit_proof o =
    if truthy (chosen_file o.file_list)
    then record o {
      submitting = true;
      sent = record { proof_image = chosen_file o.file_list; payer_note = o.payer_note } ∷ o.sent;
      waiting = proof_post ∷ o.waiting;
    }
    else show_toast (error_toast (str "请先选择支付截图。")) o

-- Its request has ended. Reading `message` of a nullish answer raises.
unfoldable pub proof_settled : Builtins → Reply → OrderPage → OrderPage
proof_settled js (answered res) o =
    if is_nullish res
    then record (show_toast (error_toast (str js.type_error)) o) { submitting = false }
    else start_order_load proof_load
        (record (show_toast (success_toast (or_else (get res "message") (str "支付凭证已提交。"))) o) {
          file_list = [];
        })
proof_settled js (refused e) o = record (show_toast (error_toast e.message) o) {
  submitting = false;
}

unfoldable pub order_waited : Builtins → OrderWaiting → Reply → OrderPage → OrderPage
order_waited js page_load reply o = order_settled js reply o
order_waited js proof_post reply o = proof_settled js reply o
order_waited js proof_load reply o = record (order_settled js reply o) { submitting = false }

pub data OrderEvent : Type 0 where
  -- the upload field, of at most one file, takes another list
  picks_files : List Value → OrderEvent
  presses_submit : OrderEvent
  -- the request of the waiting function at this place ends
  order_replies : ℕ → Reply → OrderEvent

unfoldable pub order_step : Builtins → OrderEvent → OrderPage → OrderPage
order_step js (picks_files fs) o =
    if can_submit_proof o then record o { file_list = take 1 fs } else o
order_step js presses_submit o =
    if can_submit_proof o && not o.submitting then submit_proof o else o
order_step js (order_replies k reply) o = elim (get_elem? o.waiting k) [
  | none ↦ o
  | some w ↦ order_waited js w reply (record o { waiting = remove_at k o.waiting })
]

unfoldable pub order_run : Builtins → List OrderEvent → OrderPage → OrderPage
order_run js [] o = o
order_run js (e ∷ es) o = order_run js es (order_step js e o)

-- The page as it is mounted.
unfoldable pub opened_order : OrderPage
opened_order = start_order_load page_load unloaded_order
