-- ===== src/Views/Copied.antt =====
-- `CopyField` of frontend/src/admin/components/ui.jsx: the button says that the value is copied exactly
-- while its one timer runs.
use ai_routing_panel.Views.Copying.{
  leaves, clicks_copy, fires, copies_ended, CopyEvent, on_copy, new_field, copy_run, ended_copy,
  copy_step, leave_field, start_timer, timer_fires, copy_ends, clear_timer, stop_timer, CopyField,
}
use mathlib.Core.Path.{subst}
use ai_routing_panel.Prelude.{
  refl, arith, sym, if_true, if-intro, zero, suc, ◌==◌, any, refl, arith, sym, if_true, if-intro,
  none, ◌∷◌, false, [], Option, Bool, true, ◌≡◌, ℕ, List, refl, arith, some,
}

-- Given the running timers, the ref, and whether the component is mounted and shows a copy.
abbrev pub IsTimedBy : List ℕ → Option ℕ → Bool → Bool → Type 0
IsTimedBy [] o m c = (m ≡ true → c ≡ false)
IsTimedBy (k ∷ []) none m c = ⊥
IsTimedBy (k ∷ []) (some j) m c = (k ≡ j) × (m ≡ true → c ≡ true)
IsTimedBy (k ∷ j ∷ js) o m c = ⊥

-- No timer runs, or that of the ref does; and while the component is mounted, the button says that
-- the value is copied in the second case only.
abbrev pub IsOneTimer : CopyField → Type 0
IsOneTimer f = IsTimedBy f.running f.timer f.is_mounted f.copied

-- A timer of the list is stopped; the list has at most this one.
stopped : (ks : List ℕ) (j : ℕ) (m c : Bool) → IsTimedBy ks (some j) m c → stop_timer j ks ≡ []
unfolding stop_timer
stopped [] j m c h = refl
stopped (k ∷ []) j m c h = ground (arith, h.0)
stopped (k ∷ i ∷ is) j m c h = absurd h

cleared :
    (ks : List ℕ) (o : Option ℕ) (f : CopyField) (m c : Bool)
    → IsTimedBy ks o m c
    → (clear_timer (record f { running = ks; timer = o })).running ≡ []
unfolding clear_timer
cleared [] none f m c h = refl
cleared (k ∷ []) none f m c h = absurd h
cleared (k ∷ i ∷ is) none f m c h = absurd h
cleared ks (some j) f m c h = stopped ks j m c h

clear_timer-keeps :
    (o : Option ℕ) (f : CopyField)
    → ((clear_timer (record f { timer = o })).copied ≡ f.copied)
      × ((clear_timer (record f { timer = o })).is_mounted ≡ f.is_mounted)
unfolding clear_timer
clear_timer-keeps none f = (refl, refl)
clear_timer-keeps (some k) f = (refl, refl)

restarted : (f : CopyField) → f.running ≡ [] → f.copied ≡ true → IsOneTimer (start_timer f)
unfolding start_timer
restarted f e c =
    subst (λ ks. IsTimedBy (f.next_timer ∷ ks) (some f.next_timer) f.is_mounted f.copied) (sym e)
      (refl, λ m. c)

at_rest : (f : CopyField) → f.running ≡ [] → (f.is_mounted ≡ true → f.copied ≡ false) → IsOneTimer f
at_rest f e c = subst (λ ks. IsTimedBy ks f.timer f.is_mounted f.copied) (sym e) c

-- A copy that has ended.
ended-IsOneTimer : (ok : Bool) (f : CopyField) → IsOneTimer f → IsOneTimer (copy_ends ok f)
unfolding copy_ends
ended-IsOneTimer false f h = h
ended-IsOneTimer true f h =
    restarted (clear_timer (record f { copied = true }))
      (cleared f.running f.timer (record f { copied = true }) f.is_mounted f.copied h)
      (clear_timer-keeps f.timer (record f { copied = true })).0

ended_copy-IsOneTimer :
    (ok : Bool) (n : ℕ) (f : CopyField) → IsOneTimer f → IsOneTimer (ended_copy ok n f)
unfolding ended_copy
ended_copy-IsOneTimer ok zero f h = h
ended_copy-IsOneTimer ok (suc n) f h = ended-IsOneTimer ok (record f { copying = n }) h

fires-IsOneTimer :
    (k : ℕ) (ks : List ℕ) (o : Option ℕ) (f : CopyField)
    → IsOneTimer (record f { running = ks; timer = o })
    → IsOneTimer (timer_fires k (record f { running = ks; timer = o }))
unfolding timer_fires stop_timer
fires-IsOneTimer k [] o f h = h
fires-IsOneTimer k (j ∷ []) none f h = absurd h
fires-IsOneTimer k (j ∷ []) (some i) f h =
    if-intro IsOneTimer (any (λ (l : ℕ). l == k) (j ∷ []))
      (λ e.
        at_rest (record f { copied = false; timer = some i; running = stop_timer k (j ∷ []) })
          (if_true (j ∷ []) (ground (arith, e))) (λ m. refl))
      (λ e. h)
fires-IsOneTimer k (i ∷ j ∷ js) o f h = absurd h

leaves-IsOneTimer : (f : CopyField) → IsOneTimer f → IsOneTimer (leave_field f)
unfolding leave_field
leaves-IsOneTimer f h =
    at_rest (record (clear_timer f) { is_mounted = false })
      (cleared f.running f.timer f f.is_mounted f.copied h) (λ m. cc)

step-IsOneTimer : (e : CopyEvent) (f : CopyField) → IsOneTimer f → IsOneTimer (copy_step e f)
unfolding copy_step on_copy
step-IsOneTimer clicks_copy f h = if-intro IsOneTimer f.is_mounted (λ e. h) (λ e. h)
step-IsOneTimer (copies_ended ok) f h = ended_copy-IsOneTimer ok f.copying f h
step-IsOneTimer (fires k) f h = fires-IsOneTimer k f.running f.timer f h
step-IsOneTimer leaves f h = if-intro IsOneTimer f.is_mounted (λ e. leaves-IsOneTimer f h) (λ e. h)

run-IsOneTimer : (es : List CopyEvent) (f : CopyField) → IsOneTimer f → IsOneTimer (copy_run es f)
unfolding copy_run
run-IsOneTimer [] f h = h
run-IsOneTimer (e ∷ es) f h = run-IsOneTimer es (copy_step e f) (step-IsOneTimer e f h)

-- Whatever clicks, ends of copies and timers there are, in any order, at most one timer of the field
-- runs, and it is that of the ref; and while the field is mounted, the button says that the value is
-- copied exactly while this timer runs.
pub copy_run-IsOneTimer : (es : List CopyEvent) → IsOneTimer (copy_run es new_field)
unfolding new_field
copy_run-IsOneTimer es = run-IsOneTimer es new_field (λ m. refl)
