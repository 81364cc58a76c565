-- ===== src/Portal/Paying.antt =====
-- frontend/src/portal/views/OrderDetailView.vue: at most one request of the page of an order waits, no
-- proof is sent without a file, and a success is told of a proof that was sent.
use ai_routing_panel.Prelude.{
  guarded, refl, arith, sym, if-intro, refl, arith, sym, if-intro, zero, not, ◌&&◌, refl, arith,
  sym, if-intro, length, ◌≤◌, ◌+◌, suc, ◌∙◌, ◌||◌, true, false, ◌∷◌, ℕ, [], Bool, All, ◌≡◌, List,
  refl, arith, sym, if-intro,
}
use ai_routing_panel.Portal.Order.{
  presses_submit, picks_files, chosen_file, order_replies, order_run, opened_order, order_step,
  OrderEvent, submit_proof, can_submit_proof, proof_load, page_load, success_toast, proof_post,
  error_toast, start_order_load, Proof, proof_settled, Toast, show_toast, order_settled,
  OrderWaiting, order_result, order_waited, OrderPage,
}
use ai_routing_panel.Js.{null, get, Value, is_nullish, truthy, Builtins}
use mathlib.Core.Path.{subst}
use ai_routing_panel.Console.State.{Reply, answered, refused}

-- What waits, given the flags `loading` and `submitting` and the order.
abbrev pub IsOrderWaiting : List OrderWaiting → Bool → Bool → Value → Type 0
IsOrderWaiting [] l s v = (l ≡ false) × (s ≡ false)
IsOrderWaiting (page_load ∷ []) l s v = (l ≡ true) × (s ≡ false) × (v ≡ null)
IsOrderWaiting (proof_post ∷ []) l s v = (l ≡ false) × (s ≡ true)
IsOrderWaiting (proof_load ∷ []) l s v = (l ≡ true) × (s ≡ true)
IsOrderWaiting _ l s v = ⊥

abbrev pub successes : List Toast → ℕ
successes [] = 0
successes (error_toast m ∷ ts) = successes ts
successes (success_toast m ∷ ts) = suc (successes ts)

-- The proofs that wait for their answer.
abbrev pub posted : List OrderWaiting → ℕ
posted [] = 0
posted (proof_post ∷ ws) = suc (posted ws)
posted (page_load ∷ ws) = posted ws
posted (proof_load ∷ ws) = posted ws

pub record IsPaying (o : OrderPage) : Type 0 where
  -- nothing waits, or one function does: the first load shows `loading`, a proof at its own request
  -- `submitting`, and a proof at its load both
  pub waits : IsOrderWaiting o.waiting o.loading o.submitting o.order
  -- every proof has a file
  pub files : All (λ (p : Proof). truthy p.proof_image ≡ true) o.sent
  -- of the proofs sent, some wait for their answer, and no more than the others have succeeded
  pub told : successes o.toasts + posted o.waiting ≤ length o.sent

-- What a load leaves alone.
order_result-keeps :
    (js : Builtins) (reply : Reply) (o : OrderPage)
    → ((order_result js reply o).waiting ≡ o.waiting)
      × ((order_result js reply o).submitting ≡ o.submitting)
      × ((order_result js reply o).sent ≡ o.sent)
      × (successes (order_result js reply o).toasts ≡ successes o.toasts)
unfolding order_result show_toast
order_result-keeps js (answered res) o =
    if-intro
      (λ (u : OrderPage).
        (u.waiting ≡ o.waiting)
        × (u.submitting ≡ o.submitting)
        × (u.sent ≡ o.sent)
        × (successes u.toasts ≡ successes o.toasts))
      (is_nullish res || is_nullish (get res "data")) (λ e. (refl, refl, refl, refl))
      (λ e. (refl, refl, refl, refl))
order_result-keeps js (refused e) o = (refl, refl, refl, refl)

-- A page where nothing waits any more.
idle-IsPaying :
    (o : OrderPage)
    → o.waiting ≡ []
    → o.loading ≡ false
    → o.submitting ≡ false
    → All (λ (p : Proof). truthy p.proof_image ≡ true) o.sent
    → successes o.toasts ≤ length o.sent
    → IsPaying o
idle-IsPaying o w l s f t = record {
  waits = subst (λ ws. IsOrderWaiting ws o.loading o.submitting o.order) (sym w) (l, s);
  files = f;
  told = rw w (omega (arith, t));
}

told_after : {n m : ℕ} (ps qs : List Proof) → m ≡ n → qs ≡ ps → n + 0 ≤ length ps → m ≤ length qs
told_after ps qs e f h = rw (e, f) (omega (arith, h))

settled-IsPaying :
    (js : Builtins) (w : OrderWaiting) (reply : Reply) (o : OrderPage)
    → IsPaying (record o { waiting = w ∷ [] })
    → IsPaying (order_waited js w reply (record o { waiting = [] }))
unfolding order_waited order_settled proof_settled start_order_load show_toast
settled-IsPaying js page_load reply o h =
    let k = order_result-keeps js reply (record o { waiting = [] }) in
    idle-IsPaying (record (order_result js reply (record o { waiting = [] })) { loading = false })
      k.0 refl (k.1 ∙ h.waits.1) (rw k.2 h.files) (told_after _ _ k.3 k.2 h.told)
settled-IsPaying js proof_post (answered res) o h =
    if-intro IsPaying (is_nullish res)
      (λ e. record { waits = (h.waits.0, refl); files = h.files; told = omega (arith, h.told) })
      (λ e. record { waits = (refl, h.waits.1); files = h.files; told = omega (arith, h.told) })
settled-IsPaying js proof_post (refused e) o h = record {
  waits = (h.waits.0, refl);
  files = h.files;
  told = omega (arith, h.told);
}
settled-IsPaying js proof_load reply o h =
    let k = order_result-keeps js reply (record o { waiting = [] }) in
    idle-IsPaying
      (record (order_result js reply (record o { waiting = [] })) {
        loading = false;
        submitting = false;
      })
      k.0 refl refl (rw k.2 h.files) (told_after _ _ k.3 k.2 h.told)

replied-IsPaying :
    (js : Builtins) (k : ℕ) (reply : Reply) (ws : List OrderWaiting) (o : OrderPage)
    → IsPaying (record o { waiting = ws })
    → IsPaying (order_step js (order_replies k reply) (record o { waiting = ws }))
unfolding order_step
replied-IsPaying js k reply [] o h = h
replied-IsPaying js zero reply (w ∷ []) o h = settled-IsPaying js w reply o h
replied-IsPaying js (suc k) reply (w ∷ []) o h = h
replied-IsPaying js k reply (page_load ∷ v ∷ ws) o h = absurd h.waits
replied-IsPaying js k reply (proof_post ∷ v ∷ ws) o h = absurd h.waits
replied-IsPaying js k reply (proof_load ∷ v ∷ ws) o h = absurd h.waits

-- Before the first answer there is no order, so no proof can be submitted.
no_order : (o : OrderPage) → o.order ≡ null → can_submit_proof o ≡ false
unfolding can_submit_proof truthy
no_order o e = rw e refl

-- A click is taken where the order can be paid and no proof waits, thus where nothing waits.
pressed-IsPaying :
    (ws : List OrderWaiting) (o : OrderPage)
    → can_submit_proof o ≡ true
    → o.submitting ≡ false
    → truthy (chosen_file o.file_list) ≡ true
    → IsPaying (record o { waiting = ws })
    → IsPaying (record o {
      submitting = true;
      sent = record { proof_image = chosen_file o.file_list; payer_note = o.payer_note } ∷ o.sent;
      waiting = proof_post ∷ ws;
    })
pressed-IsPaying [] o c s f h = record {
  waits = (h.waits.0, refl);
  files = (f, h.files);
  told = omega (arith, h.told);
}
pressed-IsPaying (page_load ∷ []) o c s f h = absurd (ground (arith, no_order o h.waits.2, c))
pressed-IsPaying (proof_post ∷ []) o c s f h = absurd (ground (arith, h.waits.1, s))
pressed-IsPaying (proof_load ∷ []) o c s f h = absurd (ground (arith, h.waits.1, s))
pressed-IsPaying (page_load ∷ v ∷ ws) o c s f h = absurd h.waits
pressed-IsPaying (proof_post ∷ v ∷ ws) o c s f h = absurd h.waits
pressed-IsPaying (proof_load ∷ v ∷ ws) o c s f h = absurd h.waits

submit-IsPaying :
    (o : OrderPage)
    → can_submit_proof o ≡ true
    → o.submitting ≡ false
    → IsPaying o
    → IsPaying (submit_proof o)
unfolding submit_proof show_toast
submit-IsPaying o c s h =
    if-intro IsPaying (truthy (chosen_file o.file_list)) (λ f. pressed-IsPaying o.waiting o c s f h)
      (λ f. record { waits = h.waits; files = h.files; told = h.told })

step-IsPaying :
    (js : Builtins) (e : OrderEvent) (o : OrderPage) → IsPaying o → IsPaying (order_step js e o)
step-IsPaying js (picks_files fs) o h =
    unfold order_step in
    if-intro IsPaying (can_submit_proof o)
      (λ e. record { waits = h.waits; files = h.files; told = h.told }) (λ e. h)
step-IsPaying js presses_submit o h =
    unfold order_step in
    if-intro IsPaying (can_submit_proof o && not o.submitting)
      (λ e. let g = guarded (can_submit_proof o) o.submitting e in submit-IsPaying o g.0 g.1 h)
      (λ e. h)
step-IsPaying js (order_replies k reply) o h = replied-IsPaying js k reply o.waiting o h

run-IsPaying :
    (js : Builtins) (es : List OrderEvent) (o : OrderPage)
    → IsPaying o
    → IsPaying (order_run js es o)
unfolding order_run
run-IsPaying js [] o h = h
run-IsPaying js (e ∷ es) o h = run-IsPaying js es (order_step js e o) (step-IsPaying js e o h)

-- In every session of the page of an order at most one request waits, and the two flags say which:
-- the first load, a proof at its own request, or the load after a proof. Every proof that was sent has
-- a file, and there are at most as many toasts of success as proofs that were sent and do not wait.
pub order_run-IsPaying :
    (js : Builtins) (es : List OrderEvent) → IsPaying (order_run js es opened_order)
unfolding opened_order start_order_load
order_run-IsPaying js es =
    run-IsPaying js es opened_order
      (record { waits = (refl, refl, refl); files = tt; told = omega arith })
