-- ===== src/Landing/Visible.antt =====
-- What frontend/src/landing/composables/useReveal.js hides can still be revealed, as long as no element is
-- replaced; and the price stage of frontend/src/landing/sections/PricingSection.vue, which is.
use mathlib.Core.Option
use ai_routing_panel.Prelude.{
  ◌∙◌, if_false, ◌==◌, ap, if◌then◌else◌, zero, not, [], suc, if-intro, map, some, length,
  get_elem?, ◌<◌, false, ◌∷◌, ◌||◌, true, All, ◌≡◌, Bool, ℕ, List, refl, arith,
}
use ai_routing_panel.Landing.Reveal.{
  disconnects, LandingPage, fresh, intersects, swaps, Element, Sight, swap_at, sight, show_element,
  reveal_at, on_entries, observe_element, init_reveal, disconnect, sights,
}
use ai_routing_panel.Console.State.{Reply, answered, refused}
use ai_routing_panel.Js.{is_nullish, Value}
use ai_routing_panel.Landing.Pricing.{
  Pricing, loaded, unpriced, stage_with, stage_of, priced, branch_of, arrives,
}

-- Where the document hides what is not shown, the element is shown or still observed.
abbrev pub IsReachable : LandingPage → Type 0
IsReachable p = p.is_enabled ≡ true → All (λ e. (e.is_in || e.is_observed) ≡ true) p.elements

-- No element is replaced.
abbrev pub IsKept : Sight → Type 0
IsKept (swaps k) = ⊥
IsKept _ = Unit

observed-All :
    (els : List Element) → All (λ e. (e.is_in || e.is_observed) ≡ true) (map observe_element els)
unfolding observe_element
observed-All [] = tt
observed-All (e ∷ es) = (ground arith, observed-All es)

shown-All :
    (els : List Element) → All (λ e. (e.is_in || e.is_observed) ≡ true) (map show_element els)
unfolding show_element
shown-All [] = tt
shown-All (e ∷ es) = (refl, shown-All es)

reveal_at-All :
    (k : ℕ) (els : List Element)
    → All (λ e. (e.is_in || e.is_observed) ≡ true) els
    → All (λ e. (e.is_in || e.is_observed) ≡ true) (reveal_at k els)
unfolding reveal_at
reveal_at-All k [] h = tt
reveal_at-All zero (e ∷ es) h = (ground (arith, h.0), h.1)
reveal_at-All (suc k) (e ∷ es) h = (h.0, reveal_at-All k es h.1)

on_entries-All :
    (entries : List (ℕ × Bool)) (els : List Element)
    → All (λ e. (e.is_in || e.is_observed) ≡ true) els
    → All (λ e. (e.is_in || e.is_observed) ≡ true) (on_entries entries els)
unfolding on_entries
on_entries-All [] els h = h
on_entries-All (entry ∷ entries) els h = on_entries-All entries _ (
    if-intro (All (λ e. (e.is_in || e.is_observed) ≡ true)) entry.1
      (λ e. reveal_at-All entry.0 els h) (λ e. h))

sights-IsReachable :
    (es : List Sight) (p : LandingPage) → All IsKept es → IsReachable p → IsReachable (sights es p)
unfolding sights sight disconnect
sights-IsReachable [] p k h = h
sights-IsReachable (intersects entries ∷ es) p k h =
    sights-IsReachable es (sight (intersects entries) p) k.1
      (λ e. on_entries-All entries p.elements (h e))
sights-IsReachable (disconnects ∷ es) p k h =
    sights-IsReachable es (disconnect p) k.1 (λ e. absurd (ground (arith, e)))
sights-IsReachable (swaps j ∷ es) p k h = absurd k.0

-- After `initReveal` on a page that hid nothing, and while no element is replaced, every element of
-- the page is shown, or still observed, or nothing is hidden at all.
pub reveal-IsReachable :
    (reduced has_observer : Bool) (p : LandingPage) (es : List Sight)
    → p.is_enabled ≡ false
    → All IsKept es
    → IsReachable (sights es (init_reveal reduced has_observer p))
unfolding init_reveal
reveal-IsReachable reduced has_observer p es h k =
    sights-IsReachable es (init_reveal reduced has_observer p) k (
      if-intro IsReachable (reduced || not has_observer) (λ e g. shown-All p.elements)
        (λ e g. observed-All p.elements))

unlit :
    (e : Element)
    → some e ≡ some fresh
    → some (if e.is_observed then record { is_in = true; is_observed = false } else e) ≡ some fresh
unlit e h =
    let g : e.is_observed ≡ false =
      ap (λ (d : Element). d.is_observed) (Option.some-injective e fresh h) in
    ap some (if_false (record { is_in = true; is_observed = false }) g) ∙ h

reveal_at-fresh :
    (j k : ℕ) (els : List Element)
    → get_elem? els k ≡ some fresh
    → get_elem? (reveal_at j els) k ≡ some fresh
unfolding reveal_at
reveal_at-fresh j k [] h = h
reveal_at-fresh zero zero (e ∷ es) h = unlit e h
reveal_at-fresh zero (suc k) (e ∷ es) h = h
reveal_at-fresh (suc j) zero (e ∷ es) h = h
reveal_at-fresh (suc j) (suc k) (e ∷ es) h = reveal_at-fresh j k es h

on_entries-fresh :
    (k : ℕ) (entries : List (ℕ × Bool)) (els : List Element)
    → get_elem? els k ≡ some fresh
    → get_elem? (on_entries entries els) k ≡ some fresh
unfolding on_entries
on_entries-fresh k [] els h = h
on_entries-fresh k (entry ∷ entries) els h = on_entries-fresh k entries _ (
    if-intro (λ (es : List Element). get_elem? es k ≡ some fresh) entry.1
      (λ e. reveal_at-fresh entry.0 k els h) (λ e. h))

swap_at-fresh :
    (k : ℕ) (els : List Element) → k < length els → get_elem? (swap_at k els) k ≡ some fresh
unfolding swap_at
swap_at-fresh k [] h = absurd (omega (arith, h))
swap_at-fresh zero (e ∷ es) h = refl
swap_at-fresh (suc k) (e ∷ es) h = swap_at-fresh k es (omega (arith, h))

-- Sights without an end of the observation and without another replacement.
abbrev pub IsShowing : Sight → Type 0
IsShowing (intersects entries) = Unit
IsShowing _ = ⊥

sights-fresh :
    (k : ℕ) (es : List Sight) (p : LandingPage)
    → All IsShowing es
    → get_elem? p.elements k ≡ some fresh
    → get_elem? (sights es p).elements k ≡ some fresh
unfolding sights sight
sights-fresh k [] p s h = h
sights-fresh k (intersects entries ∷ es) p s h =
    sights-fresh k es (sight (intersects entries) p) s.1 (on_entries-fresh k entries p.elements h)
sights-fresh k (disconnects ∷ es) p s h = absurd s.0
sights-fresh k (swaps j ∷ es) p s h = absurd s.0

sights-is_enabled :
    (es : List Sight) (p : LandingPage) → All IsShowing es → (sights es p).is_enabled ≡ p.is_enabled
unfolding sights sight
sights-is_enabled [] p s = refl
sights-is_enabled (intersects entries ∷ es) p s =
    sights-is_enabled es (sight (intersects entries) p) s.1
sights-is_enabled (disconnects ∷ es) p s = absurd s.0
sights-is_enabled (swaps j ∷ es) p s = absurd s.0

loaded_branch : (ps : List Value) → (1 == branch_of (stage_with loaded ps)) ≡ false
unfolding branch_of stage_with
loaded_branch [] = refl
loaded_branch (p ∷ ps) = refl

-- The answer to the request of the plans, whatever it is, replaces the price stage.
priced-swaps :
    (reply : Reply) → (branch_of (stage_of unpriced) == branch_of (stage_of (priced reply))) ≡ false
unfolding branch_of stage_of stage_with priced
priced-swaps (answered res) =
    if-intro (λ (q : Pricing). (1 == branch_of (stage_of q)) ≡ false) (is_nullish res) (λ e. refl)
      (λ e. loaded_branch _)
priced-swaps (refused e) = refl

-- Whatever the answer to the request of the plans, the price stage that follows it, at place `k`, is
-- neither shown nor observed, and stays so whatever is seen afterwards; so a document that hides such
-- elements goes on to hide it.
pub price_stage-hidden :
    (k : ℕ) (before after : List Sight) (reply : Reply) (p : LandingPage)
    → k < length (sights before p).elements
    → All IsShowing after
    → (get_elem? (sights after (arrives k unpriced (priced reply) (sights before p))).elements k
        ≡ some fresh)
      × ((sights after (arrives k unpriced (priced reply) (sights before p))).is_enabled
          ≡ (sights before p).is_enabled)
unfolding arrives sight
price_stage-hidden k before after reply p h s = rw (priced-swaps reply) (
  sights-fresh k after (sight (swaps k) (sights before p)) s
      (swap_at-fresh k (sights before p).elements h),
  sights-is_enabled after (sight (swaps k) (sights before p)) s,
)
