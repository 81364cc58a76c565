-- ===== src/Portal/Renewing.antt =====
-- frontend/src/portal/views/SubscriptionDetailView.vue: at most one request waits, and an order is opened
-- only after its renewal has succeeded.
use ai_routing_panel.Prelude.{
  refl, arith, sym, if-intro, guarded, guarded, guarded, guarded, guarded, guarded, guarded,
  guarded, guarded, guarded, guarded, guarded, guarded, guarded, guarded, guarded, refl, arith, sym,
  if-intro, zero, ◌∙◌, ◌||◌, suc, ◌+◌, false, not, true, ◌≤◌, [], ◌∷◌, ◌≡◌, length, ◌&&◌, List,
  Bool, ℕ, refl, arith, sym, if-intro,
}
use ai_routing_panel.Portal.Renewal.{
  subscription_load, renewal_post, presses_renew, renewal_settled, renewal_replies, open_order,
  RenewalEvent, RenewalWaiting, tell, subscription_settled, subscription_result, SubscriptionPage,
  renewal_result, renewal_step, renewal_run, can_renew, renewal_waited, renew, opened_subscription,
}
use ai_routing_panel.Js.{get, is_nullish, null, Value, truthy, Builtins}
use ai_routing_panel.Portal.Paying.{successes}
use mathlib.Core.Path.{subst}
use ai_routing_panel.Console.State.{Reply, answered, refused}

-- What waits, given the flags `loading` and `renewing` and the subscription.
abbrev pub IsRenewalWaiting : List RenewalWaiting → Bool → Bool → Value → Type 0
IsRenewalWaiting [] l r v = (l ≡ false) × (r ≡ false)
IsRenewalWaiting (subscription_load ∷ []) l r v = (l ≡ true) × (r ≡ false) × (v ≡ null)
IsRenewalWaiting (renewal_post ∷ []) l r v = (l ≡ false) × (r ≡ true)
IsRenewalWaiting _ l r v = ⊥

abbrev pub posts : List RenewalWaiting → ℕ
posts [] = 0
posts (renewal_post ∷ ws) = suc (posts ws)
posts (subscription_load ∷ ws) = posts ws

-- The pages opened, the successes told and the renewals sent and ended.
abbrev pub IsCounted : SubscriptionPage → Type 0
IsCounted s =
    (length s.opened ≤ successes s.toasts) × (successes s.toasts + posts s.waiting ≤ s.renewals)

pub record IsRenewing (s : SubscriptionPage) : Type 0 where
  -- nothing waits, or one function does: the load shows `loading`, a renewal `renewing`
  pub waits : IsRenewalWaiting s.waiting s.loading s.renewing s.sub
  pub counted : IsCounted s

-- What the end of the load leaves alone, and what that of a renewal may change.
record IsEndOf (n : ℕ) (s u : SubscriptionPage) : Type 0 where
  waiting : u.waiting ≡ s.waiting
  loading : u.loading ≡ s.loading
  renewing : u.renewing ≡ s.renewing
  renewals : u.renewals ≡ s.renewals
  told : successes u.toasts ≤ successes s.toasts + n
  opened : length u.opened + successes s.toasts ≤ length s.opened + successes u.toasts

subscription_result-IsEndOf :
    (js : Builtins) (reply : Reply) (s : SubscriptionPage)
    → IsEndOf 0 s (subscription_result js reply s)
unfolding subscription_result tell
subscription_result-IsEndOf js (answered res) s =
    if-intro (IsEndOf 0 s) (is_nullish res || is_nullish (get res "data")) (λ e. ground arith)
      (λ e. ground arith)
subscription_result-IsEndOf js (refused e) s = ground arith

renewal_result-IsEndOf :
    (js : Builtins) (reply : Reply) (s : SubscriptionPage) → IsEndOf 1 s (renewal_result js reply s)
unfolding renewal_result tell open_order
renewal_result-IsEndOf js (answered res) s =
    if-intro (IsEndOf 1 s) (is_nullish res) (λ e. ground arith)
      (λ e.
        if-intro (IsEndOf 1 s) (is_nullish (get res "data")) (λ k. ground arith)
          (λ k. ground arith))
renewal_result-IsEndOf js (refused e) s = ground arith

-- A page where nothing waits any more.
rested :
    (s u : SubscriptionPage) (n : ℕ)
    → IsEndOf n s u
    → s.waiting ≡ []
    → length s.opened ≤ successes s.toasts
    → successes s.toasts + n ≤ s.renewals
    → u.loading ≡ false
    → u.renewing ≡ false
    → IsRenewing u
rested s u n e w o c l r = record {
  waits = subst (λ ws. IsRenewalWaiting ws u.loading u.renewing u.sub) (sym (e.waiting ∙ w)) (l, r);
  counted = (omega (arith, e.opened, o), rw (e.waiting ∙ w, e.renewals) (omega (arith, e.told, c)));
}

settled-IsRenewing :
    (js : Builtins) (w : RenewalWaiting) (reply : Reply) (s : SubscriptionPage)
    → IsRenewing (record s { waiting = w ∷ [] })
    → IsRenewing (renewal_waited js w reply (record s { waiting = [] }))
unfolding renewal_waited subscription_settled renewal_settled
settled-IsRenewing js subscription_load reply s h =
    let e = subscription_result-IsEndOf js reply (record s { waiting = [] }) in
    rested (record s { waiting = []; loading = false })
      (record (subscription_result js reply (record s { waiting = [] })) { loading = false }) 0
      (record {
        waiting = e.waiting;
        loading = refl;
        renewing = e.renewing;
        renewals = e.renewals;
        told = e.told;
        opened = e.opened;
      })
      refl h.counted.0 h.counted.1 refl (e.renewing ∙ h.waits.1)
settled-IsRenewing js renewal_post reply s h =
    let e = renewal_result-IsEndOf js reply (record s { waiting = [] }) in
    rested (record s { waiting = []; renewing = false })
      (record (renewal_result js reply (record s { waiting = [] })) { renewing = false }) 1
      (record {
        waiting = e.waiting;
        loading = e.loading;
        renewing = refl;
        renewals = e.renewals;
        told = e.told;
        opened = e.opened;
      })
      refl h.counted.0 h.counted.1 (e.loading ∙ h.waits.0) refl

replied-IsRenewing :
    (js : Builtins) (k : ℕ) (reply : Reply) (ws : List RenewalWaiting) (s : SubscriptionPage)
    → IsRenewing (record s { waiting = ws })
    → IsRenewing (renewal_step js (renewal_replies k reply) (record s { waiting = ws }))
unfolding renewal_step
replied-IsRenewing js k reply [] s h = h
replied-IsRenewing js zero reply (w ∷ []) s h = settled-IsRenewing js w reply s h
replied-IsRenewing js (suc k) reply (w ∷ []) s h = h
replied-IsRenewing js k reply (subscription_load ∷ v ∷ ws) s h = absurd h.waits
replied-IsRenewing js k reply (renewal_post ∷ v ∷ ws) s h = absurd h.waits

no_subscription : (s : SubscriptionPage) → s.sub ≡ null → can_renew s ≡ false
unfolding can_renew truthy
no_subscription s e = rw e refl

-- A click is taken where the subscription is shown and no renewal waits, thus where nothing waits.
renewed-IsRenewing :
    (ws : List RenewalWaiting) (s : SubscriptionPage)
    → can_renew s ≡ true
    → s.renewing ≡ false
    → IsRenewing (record s { waiting = ws })
    → IsRenewing (renew (record s { waiting = ws }))
unfolding renew
renewed-IsRenewing [] s c r h = record {
  waits = (h.waits.0, refl);
  counted = (h.counted.0, omega (arith, h.counted.1));
}
renewed-IsRenewing (subscription_load ∷ []) s c r h =
    absurd (ground (arith, no_subscription s h.waits.2, c))
renewed-IsRenewing (renewal_post ∷ []) s c r h = absurd (ground (arith, h.waits.1, r))
renewed-IsRenewing (subscription_load ∷ v ∷ ws) s c r h = absurd h.waits
renewed-IsRenewing (renewal_post ∷ v ∷ ws) s c r h = absurd h.waits

step-IsRenewing :
    (js : Builtins) (e : RenewalEvent) (s : SubscriptionPage)
    → IsRenewing s
    → IsRenewing (renewal_step js e s)
step-IsRenewing js presses_renew s h =
    unfold renewal_step in
    if-intro IsRenewing (can_renew s && not s.renewing)
      (λ e. let g = guarded (can_renew s) s.renewing e in renewed-IsRenewing s.waiting s g.0 g.1 h)
      (λ e. h)
step-IsRenewing js (renewal_replies k reply) s h = replied-IsRenewing js k reply s.waiting s h

run-IsRenewing :
    (js : Builtins) (es : List RenewalEvent) (s : SubscriptionPage)
    → IsRenewing s
    → IsRenewing (renewal_run js es s)
unfolding renewal_run
run-IsRenewing js [] s h = h
run-IsRenewing js (e ∷ es) s h =
    run-IsRenewing js es (renewal_step js e s) (step-IsRenewing js e s h)

-- In every session of the page of a subscription at most one request waits, the load or a renewal,
-- and the flags say which. No more orders are opened than successes were told, and no more successes
-- were told than renewals were sent and have ended.
pub renewal_run-IsRenewing :
    (js : Builtins) (es : List RenewalEvent) → IsRenewing (renewal_run js es opened_subscription)
unfolding opened_subscription
renewal_run-IsRenewing js es =
    run-IsRenewing js es opened_subscription
      (record { waits = (refl, refl, refl); counted = (omega arith, omega arith) })
