-- ===== src/Landing/Pricing.antt =====
-- The plans of frontend/src/landing/App.vue, and the branch of
-- frontend/src/landing/sections/PricingSection.vue that shows them.
use ai_routing_panel.Js.{is_nullish, object, or_else, get, elements, Value}
use ai_routing_panel.Console.State.{Reply, answered, refused}
use ai_routing_panel.Landing.Reveal.{LandingPage, swaps, sight}
use ai_routing_panel.Prelude.{◌∷◌, ◌==◌, if◌then◌else◌, [], ℕ, List}

pub data PricingState : Type 0 where
  loading loaded error : PricingState

pub record Pricing : Type 0 where
  pub state : PricingState
  pub plans : List Value

abbrev pub unpriced : Pricing
unpriced = record { state = loading; plans = [] }

-- `onMounted` after its await.
unfoldable pub priced : Reply → Pricing
priced (answered res) = if is_nullish res then record { state = error; plans = [] } else record {
  state = loaded;
  plans = elements (get (or_else (get res "data") (or_else res (object []))) "plans");
}
priced (refused e) = record { state = error; plans = [] }

-- The three branches of the template: each has an element of its own.
pub data Stage : Type 0 where
  featured : Value → List Value → Stage
  skeleton : Stage
  fallback : Stage

unfoldable pub stage_with : PricingState → List Value → Stage
stage_with loaded [] = fallback
stage_with loaded (p ∷ ps) = featured p ps
stage_with loading ps = skeleton
stage_with error ps = fallback

unfoldable pub stage_of : Pricing → Stage
stage_of pricing = stage_with pricing.state pricing.plans

unfoldable pub branch_of : Stage → ℕ
branch_of (featured p ps) = 0
branch_of skeleton = 1
branch_of fallback = 2

-- What the update of the template does to the elements, where the stage is at place `k`: another
-- branch is another element.
unfoldable pub arrives : ℕ → Pricing → Pricing → LandingPage → LandingPage
arrives k old new p =
    if branch_of (stage_of old) == branch_of (stage_of new) then p else sight (swaps k) p
