-- ===== src/Portal/Listed.antt =====
-- The lists of frontend/src/portal/views: what is shown when the request of a page has ended, and the
-- prices of PlansView.vue.
use ai_routing_panel.Prelude.{
  ◌||◌, ◌≤◌, length, ◌≢◌, refl, if-intro, ◌↔◌, true, none, false, ◌≡◌, ℕ, String, arith,
}
use ai_routing_panel.Format.Bytes.{hundredths}
use ai_routing_panel.Portal.Lists.{opened_list, ListPage, list_result, list_settled, list_stage}
use ai_routing_panel.Js.{Builtins, get, array, is_nullish}
use ai_routing_panel.Console.State.{Reply, answered, refused}

-- The answer has a readable `data` without the list.
abbrev pub IsListless : String → Reply → Type 0
IsListless k (answered res) =
    (is_nullish res ≡ false)
    × (is_nullish (get res "data") ≡ false)
    × (is_nullish (get (get res "data") k) ≡ true)
IsListless k (refused e) = ⊥

stage_none : (p : ListPage) → p.loading ≡ false → (list_stage p ≡ none) ↔ (is_nullish p.list ≡ true)
unfolding list_stage
stage_none p l = ground (arith, l)

-- After the end of its request the list of the page is nullish exactly where the answer lacks it.
result_nullish :
    (js : Builtins) (k : String) (reply : Reply)
    → (length (list_result js k reply opened_list).toasts ≤ 1)
      × ((is_nullish (list_result js k reply opened_list).list ≡ true) ↔ IsListless k reply)
unfolding list_result opened_list array is_nullish
result_nullish js k (refused e) = (omega arith, (λ h. ground (arith, h), λ h. absurd h))
result_nullish js k (answered res) =
    if-intro
      (λ (p : ListPage).
        (length p.toasts ≤ 1) × ((is_nullish p.list ≡ true) ↔ IsListless k (answered res)))
      (is_nullish res || is_nullish (get res "data"))
      (λ e. (omega arith, (λ h. ground (arith, h), λ h. ground (arith, h.0, h.1, e))))
      (λ e. (omega arith, (λ h. (ground (arith, e), ground (arith, e), h), λ h. h.2)))

drawn_at_first : list_stage opened_list ≢ none
unfolding list_stage opened_list
drawn_at_first = λ e. ground (arith, e)

-- The page can be drawn while it loads. When its request has ended, it no longer loads, at most one
-- error is told, and its drawing raises a TypeError exactly where the answer has a readable `data`
-- in which the list is missing.
pub list_settled-raises :
    (js : Builtins) (k : String) (reply : Reply)
    → (list_stage opened_list ≢ none)
      × ((list_settled js k reply opened_list).loading ≡ false)
      × (length (list_settled js k reply opened_list).toasts ≤ 1)
      × ((list_stage (list_settled js k reply opened_list) ≡ none) ↔ IsListless k reply)
unfolding list_settled
list_settled-raises js k reply =
    let (n, r) = result_nullish js k reply in
    let s = stage_none (list_settled js k reply opened_list) refl in
    (drawn_at_first, refl, n, (λ e. r.0 (s.0 e), λ h. s.1 (r.1 h)))

-- The price of a plan is printed exactly: its cents are not rounded.
yuan_exact : (n : ℕ) → hundredths (record { value = n; divisor = 100; unit = "" }) ≡ n
unfolding hundredths
yuan_exact n = omega arith
