-- ===== src/Console/Cleanup.antt =====
-- The cleanups of the intervals of frontend/src/admin/state/PanelProvider.jsx, on the timers of three
-- variables.
use ai_routing_panel.Prelude.{
  refl, arith, sym, refl, arith, sym, refl, arith, sym, refl, arith, sym, suc, refl, arith, sym,
  refl, arith, sym, refl, arith, sym, refl, arith, sym, true, false, none, ◌∷◌, ◌++◌, ◌<◌, ◌≢◌, [],
  Bool, Option, ℕ, ◌≡◌, List, refl, some,
}
use ai_routing_panel.Console.Timers.{drop_timer, clear_interval, Timers, Timer, Job}

-- The timer of a variable, where it holds one.
abbrev pub own : Option ℕ → Job → List Timer
own none job = []
own (some id) job = record { id = id; job = job } ∷ []

abbrev pub IsApart : Option ℕ → Option ℕ → Type 0
IsApart (some a) (some b) = a ≢ b
IsApart _ _ = Unit

abbrev pub IsBelow : ℕ → Option ℕ → Type 0
IsBelow n none = Unit
IsBelow n (some a) = a < n

abbrev pub IsHeld : Option ℕ → Bool → Type 0
IsHeld none b = b ≡ false
IsHeld (some a) b = b ≡ true

-- The cleanup of a variable, on the list of timers.
unfoldable pub dropped : Option ℕ → List Timer → List Timer
dropped none xs = xs
dropped (some k) xs = drop_timer k xs

pub clear_interval-active :
    (o : Option ℕ) (t : Timers) → (clear_interval o t).active ≡ dropped o t.active
unfolding clear_interval dropped
clear_interval-active none t = refl
clear_interval-active (some k) t = refl

pub drop_timer-append :
    (k : ℕ) (xs ys : List Timer) → drop_timer k (xs ++ ys) ≡ drop_timer k xs ++ drop_timer k ys
unfolding drop_timer
drop_timer-append k [] ys = refl
drop_timer-append k (x ∷ xs) ys = ground (arith, drop_timer-append k xs ys)

pub dropped-append :
    (o : Option ℕ) (xs ys : List Timer) → dropped o (xs ++ ys) ≡ dropped o xs ++ dropped o ys
unfolding dropped
dropped-append none xs ys = refl
dropped-append (some k) xs ys = drop_timer-append k xs ys

pub dropped-own : (o : Option ℕ) (job : Job) → dropped o (own o job) ≡ []
unfolding dropped drop_timer
dropped-own none job = refl
dropped-own (some k) job = ground arith

pub dropped_apart : (o u : Option ℕ) (job : Job) → IsApart u o → dropped o (own u job) ≡ own u job
unfolding dropped drop_timer
dropped_apart none u job h = refl
dropped_apart (some k) none job h = refl
dropped_apart (some k) (some j) job h = ground arith

pub IsApart-sym : (o u : Option ℕ) → IsApart o u → IsApart u o
IsApart-sym none none h = tt
IsApart-sym none (some a) h = tt
IsApart-sym (some a) none h = tt
IsApart-sym (some a) (some b) h = λ e. h (sym e)

pub dropped_nil : (o : Option ℕ) → dropped o [] ≡ []
unfolding dropped drop_timer
dropped_nil none = refl
dropped_nil (some k) = refl

pub cleared_insights :
    (k j i : Option ℕ) (a b c : Job)
    → IsApart k j
    → IsApart k i
    → dropped k (own k a ++ (own j b ++ own i c)) ≡ own j b ++ own i c
cleared_insights k j i a b c h g =
    rw
      (
        dropped-append,
        dropped-append,
        dropped-own,
        dropped_apart k j b (IsApart-sym k j h),
        dropped_apart k i c (IsApart-sym k i g),
      )
      refl

pub cleared_all :
    (k j i : Option ℕ) (a b c : Job)
    → IsApart k j
    → IsApart k i
    → IsApart j i
    → dropped k (dropped j (dropped i (own k a ++ (own j b ++ own i c)))) ≡ []
cleared_all k j i a b c kj ki ji =
    rw
      (
        dropped-append i,
        dropped-append i,
        dropped-own i,
        dropped_apart i k a ki,
        dropped_apart i j b ji,
        dropped-append j,
        dropped-append j,
        dropped-own j,
        dropped_apart j k a kj,
      )
      (rw (dropped_nil j, dropped-append k, dropped-own k, dropped_nil k) refl)

-- What a cleanup leaves alone.
pub record IsSameTimers (t u : Timers) : Type 0 where
  pub next_id : u.next_id ≡ t.next_id
  pub insights_timer : u.insights_timer ≡ t.insights_timer
  pub poll_timer : u.poll_timer ≡ t.poll_timer
  pub incidents_timer : u.incidents_timer ≡ t.incidents_timer
  pub phase : u.phase ≡ t.phase

pub clear_interval-IsSame : (o : Option ℕ) (t : Timers) → IsSameTimers t (clear_interval o t)
unfolding clear_interval
clear_interval-IsSame none t = ground arith
clear_interval-IsSame (some k) t = ground arith

pub IsHeld-none : (o : Option ℕ) (b : Bool) → IsHeld o b → b ≡ false → o ≡ none
IsHeld-none none b h e = refl
IsHeld-none (some a) b h e = absurd (ground (arith, h, e))

pub below-IsApart : (n : ℕ) (o : Option ℕ) → IsBelow n o → IsApart (some n) o
below-IsApart n none h = tt
below-IsApart n (some a) h = omega (arith, h)

pub suc-IsBelow : (n : ℕ) (o : Option ℕ) → IsBelow n o → IsBelow (suc n) o
suc-IsBelow n none h = tt
suc-IsBelow n (some a) h = omega (arith, h)
