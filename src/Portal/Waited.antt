-- ===== src/Portal/Waited.antt =====
-- The two flags of frontend/src/portal/TokenApp.vue are up only while a function waits that takes them
-- down, also where two logins overlap.
use ai_routing_panel.Prelude.{
  zero, suc, remove_at, some, [], none, ◌∷◌, get_elem?, any, Option, true, ◌≡◌, ℕ, ◌||◌, List, ◌&&◌,
  false, Bool, not, refl, arith, if-intro,
}
use ai_routing_panel.Console.State.{Reply, answered, refused}
use ai_routing_panel.Js.{get, is_nullish, Builtins}
use ai_routing_panel.Portal.Tenant.{
  is_unauthorized, login_load, login_post, presses_login, submits_form, first_load, replies,
  Waiting, TenantEvent, Tenant, tenant_step, start_load, settle_waiting, opened_page, load_settled,
  load_result, do_login, tenant_run,
}

-- The functions at a `load`, and those of a `doLogin`.
abbrev pub is_load : Waiting → Bool
is_load login_post = false
is_load _ = true

abbrev pub is_login : Waiting → Bool
is_login first_load = false
is_login _ = true

-- Where `loading` is up a load waits, and where `submitting` is up a login does.
pub record IsWaited (t : Tenant) : Type 0 where
  pub loads : (not t.loading || any is_load t.waiting) ≡ true
  pub logins : (not t.submitting || any is_login t.waiting) ≡ true

-- To remove an element that fails a test changes nothing for the test.
any-remove_at :
    (f : Waiting → Bool) (ws : List Waiting) (k : ℕ) (w : Waiting)
    → get_elem? ws k ≡ some w
    → f w ≡ false
    → any f (remove_at k ws) ≡ any f ws
any-remove_at f [] k w e h = refl
any-remove_at f (v ∷ ws) zero w e h = ground (arith, e, h)
any-remove_at f (v ∷ ws) (suc k) w e h = ground (arith, any-remove_at f ws k w e h)

-- What the end of a load leaves alone.
load_result-keeps :
    (js : Builtins) (reply : Reply) (t : Tenant)
    → ((load_result js reply t).waiting ≡ t.waiting)
      × ((load_result js reply t).submitting ≡ t.submitting)
unfolding load_result
load_result-keeps js (answered res) t =
    if-intro (λ (u : Tenant). (u.waiting ≡ t.waiting) × (u.submitting ≡ t.submitting))
      (is_nullish res || is_nullish (get res "data")) (λ e. (refl, refl)) (λ e. (refl, refl))
load_result-keeps js (refused e) t =
    if-intro (λ (u : Tenant). (u.waiting ≡ t.waiting) × (u.submitting ≡ t.submitting))
      (is_unauthorized e.status) (λ e. (refl, refl)) (λ e. (refl, refl))

settled-IsWaited :
    (js : Builtins) (k : ℕ) (w : Waiting) (reply : Reply) (t : Tenant)
    → get_elem? t.waiting k ≡ some w
    → IsWaited t
    → IsWaited (settle_waiting js w reply (record t { waiting = remove_at k t.waiting }))
unfolding settle_waiting load_settled start_load
settled-IsWaited js k first_load reply t e h =
    let kept = load_result-keeps js reply (record t { waiting = remove_at k t.waiting }) in
    let left = any-remove_at is_login t.waiting k first_load e refl in
    record { loads = refl; logins = rw (kept.0, kept.1, left) h.logins }
settled-IsWaited js k login_post (answered res) t e h = record {
  loads = refl;
  logins = ground arith;
}
settled-IsWaited js k login_post (refused e) t at_k h = record {
  loads = rw (any-remove_at is_load t.waiting k login_post at_k refl) h.loads;
  logins = refl;
}
settled-IsWaited js k login_load reply t e h = record { loads = refl; logins = refl }

do_login-IsWaited : (t : Tenant) → IsWaited t → IsWaited (do_login t)
unfolding do_login
do_login-IsWaited t h = record { loads = h.loads; logins = refl }

step-IsWaited :
    (js : Builtins) (e : TenantEvent) (t : Tenant) → IsWaited t → IsWaited (tenant_step js e t)
unfolding tenant_step
step-IsWaited js presses_login t h =
    if-intro IsWaited (t.need_login && not t.submitting) (λ _. do_login-IsWaited t h) (λ _. h)
step-IsWaited js submits_form t h =
    if-intro IsWaited t.need_login (λ _. do_login-IsWaited t h) (λ _. h)
step-IsWaited js (replies k reply) t h = go (get_elem? t.waiting k) refl
  where
    go :
        (o : Option Waiting)
        → get_elem? t.waiting k ≡ o
        → IsWaited (elim o as (λ _. Tenant) [
          | none ↦ t
          | some w ↦ settle_waiting js w reply (record t { waiting = remove_at k t.waiting })
        ])
    go none e = h
    go (some w) e = settled-IsWaited js k w reply t e h

run-IsWaited :
    (js : Builtins) (es : List TenantEvent) (t : Tenant)
    → IsWaited t
    → IsWaited (tenant_run js es t)
unfolding tenant_run
run-IsWaited js [] t h = h
run-IsWaited js (e ∷ es) t h = run-IsWaited js es (tenant_step js e t) (step-IsWaited js e t h)

-- In every session of the page, with clicks of the login button, submits of its form and ends of
-- requests in any order, logins that overlap included: where `loading` is up a load waits, and where
-- `submitting` is up a login waits. No spinner stays without a request.
pub tenant_run-IsWaited :
    (js : Builtins) (es : List TenantEvent) → IsWaited (tenant_run js es opened_page)
unfolding opened_page start_load
tenant_run-IsWaited js es = run-IsWaited js es opened_page (record { loads = refl; logins = refl })
