-- ===== src/Views/Consent.antt =====
-- The dialog of frontend/src/admin/components/ConfirmDialog.jsx runs at most one action at a time, and
-- never more actions than questions were asked.
use ai_routing_panel.Prelude.{
  remove_at, remove_at, remove_at, remove_at, remove_at, remove_at, remove_at, remove_at, remove_at,
  remove_at, remove_at, remove_at, remove_at, remove_at, remove_at, remove_at, none, ◌≤◌, ◌∙◌, ◌∙◌,
  inr, if-intro, false, inl, zero, Option-cases, Bool, true, arith, [], ap, suc, ◌≤◌, some, ◌+◌,
  not, ◌≡◌, get_elem?, ◌∷◌, ◌&&◌, Option, if◌then◌else◌, length, List, ℕ, refl,
}
use ai_routing_panel.Console.Actions.{Action}
use mathlib.Core.Path.{subst}
use ai_routing_panel.Views.Confirm.{
  unasked, touch_all, Asked, press_escape, confirm, click_confirm, click_cancel, click_backdrop,
  callback_ends, ask, escapes, confirms, cancels, callback_done, touches_backdrop, asks_for, Touch,
  Confirmation, is_open, close, touch,
}

unfoldable pub asks_of : List Touch → ℕ
asks_of [] = 0
asks_of (asks_for asked ∷ ts) = suc (asks_of ts)
asks_of (cancels ∷ ts) = asks_of ts
asks_of (confirms ∷ ts) = asks_of ts
asks_of (touches_backdrop b ∷ ts) = asks_of ts
asks_of (escapes ∷ ts) = asks_of ts
asks_of (callback_done k ∷ ts) = asks_of ts

-- The question that may still be confirmed.
unfoldable credit : Confirmation → ℕ
credit c = if is_open c && not c.busy then 1 else 0

record IsAsked (n : ℕ) (c : Confirmation) : Type 0 where
  single : length c.running ≡ (if c.busy then 1 else 0)
  asked : credit c + length c.started ≤ n

length-remove_at :
    (k : ℕ) (rest : List Action) (a : Action)
    → get_elem? rest k ≡ some a
    → suc (length (remove_at k rest)) ≡ length rest
length-remove_at k [] a h = ground arith
length-remove_at zero (b ∷ rest) a h = refl
length-remove_at (suc k) (b ∷ rest) a h = ap suc (length-remove_at k rest a h)

below : {l n : ℕ} (k : ℕ) → k + l ≤ n → l ≤ n
below k h = omega (arith, h)

last : {m : ℕ} (b : Bool) → suc m ≡ (if b then 1 else 0) → m ≡ 0
last b e = ground (arith, e)

-- A guard of the dialog: a question is shown and no callback runs.
free : (a b : Bool) → (a && not b) ≡ true → b ≡ false
free a b e = ground (arith, e)

close-IsAsked : (n : ℕ) (c : Confirmation) → IsAsked n c → IsAsked n (close c)
unfolding close credit is_open
close-IsAsked n c h = record { single = h.single; asked = omega (arith, below (credit c) h.asked) }

ask-IsAsked : (n : ℕ) (a : Asked) (c : Confirmation) → IsAsked n c → IsAsked (suc n) (ask a c)
unfolding ask credit is_open
ask-IsAsked n a c h = record {
  single = h.single;
  asked =
      if-intro (λ (k : ℕ). k + length c.started ≤ suc n) (not c.busy)
        (λ e. omega (arith, below (credit c) h.asked))
        (λ e. omega (arith, below (credit c) h.asked));
}

counted : (b : Bool) (l n : ℕ) → b ≡ false → (if not b then 1 else 0) + l ≤ n → 0 + suc l ≤ n
counted b l n e h = ground (arith, e, h)

-- A confirmation of a question that is shown, where no callback runs.
confirmed-IsAsked :
    (r : Option Asked) (n : ℕ) (c : Confirmation)
    → c.busy ≡ false
    → IsAsked n (record c { request = r })
    → IsAsked n (confirm (record c { request = r }))
unfolding confirm credit is_open
confirmed-IsAsked none n c e h = h
confirmed-IsAsked (some a) n c e h = record {
  single = ap suc (h.single ∙ ap (λ b. if b then 1 else 0) e);
  asked = counted (c.busy) (length c.started) n e h.asked;
}

-- A click on the confirmation, with the guards of the dialog.
click-IsAsked : (n : ℕ) (c : Confirmation) → IsAsked n c → IsAsked n (click_confirm c)
unfolding click_confirm
click-IsAsked n c h =
    if-intro (IsAsked n) (is_open c && not c.busy)
      (λ e. confirmed-IsAsked c.request n c (free (is_open c) (c.busy) e) h) (λ e. h)

callback_ends-IsAsked : (k n : ℕ) (c : Confirmation) → IsAsked n c → IsAsked n (callback_ends k c)
unfolding credit is_open callback_ends
callback_ends-IsAsked k n c h = elim (Option-cases (get_elem? c.running k)) [
  | inl e ↦ rw (e, callback_ends) h
  | inr (a, e) ↦
      rw (e, callback_ends)
        (record {
          single = last (c.busy) (length-remove_at k c.running a e ∙ h.single);
          asked = omega (arith, below (credit c) h.asked);
        })
]

close_if-IsAsked :
    (b : Bool) (n : ℕ) (c : Confirmation) → IsAsked n c → IsAsked n (if b then close c else c)
close_if-IsAsked b n c h = if-intro (IsAsked n) b (λ e. close-IsAsked n c h) (λ e. h)

the_sum : (a n : ℕ) → a + suc n ≡ suc a + n
the_sum a n = omega arith

no_more : (n : ℕ) → n ≡ 0 + n
no_more n = omega arith

touch_all-IsAsked :
    (ts : List Touch) (n : ℕ) (c : Confirmation)
    → IsAsked n c
    → IsAsked (asks_of ts + n) (touch_all ts c)
unfolding touch_all touch asks_of click_cancel click_backdrop press_escape
touch_all-IsAsked [] n c h = subst (λ k. IsAsked k c) (no_more n) h
touch_all-IsAsked (asks_for a ∷ ts) n c h =
    subst (λ k. IsAsked k (touch_all ts (ask a c))) (the_sum (asks_of ts) n)
      (touch_all-IsAsked ts (suc n) (ask a c) (ask-IsAsked n a c h))
touch_all-IsAsked (cancels ∷ ts) n c h =
    touch_all-IsAsked ts n (click_cancel c) (close_if-IsAsked (is_open c && not c.busy) n c h)
touch_all-IsAsked (confirms ∷ ts) n c h =
    touch_all-IsAsked ts n (click_confirm c) (click-IsAsked n c h)
touch_all-IsAsked (touches_backdrop b ∷ ts) n c h =
    touch_all-IsAsked ts n (click_backdrop b c)
      (close_if-IsAsked (is_open c && b && not c.busy) n c h)
touch_all-IsAsked (escapes ∷ ts) n c h =
    touch_all-IsAsked ts n (press_escape c) (close_if-IsAsked (is_open c && not c.busy) n c h)
touch_all-IsAsked (callback_done k ∷ ts) n c h =
    touch_all-IsAsked ts n (callback_ends k c) (callback_ends-IsAsked k n c h)

first : credit unasked + 0 ≤ 0
unfolding credit is_open
first = omega arith

-- In every session of the dialog one callback runs while it is busy and none otherwise, and no more
-- callbacks were started than questions were asked.
pub touch_all-running :
    (ts : List Touch)
    → (length (touch_all ts unasked).running ≡ (if (touch_all ts unasked).busy then 1 else 0))
      × (length (touch_all ts unasked).started ≤ asks_of ts)
touch_all-running ts =
    let h : IsAsked (asks_of ts + 0) (touch_all ts unasked) =
      touch_all-IsAsked ts 0 unasked (record { single = refl; asked = first }) in
    (h.single, omega (arith, below (credit (touch_all ts unasked)) h.asked))
