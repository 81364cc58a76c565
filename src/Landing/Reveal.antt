-- ===== src/Landing/Reveal.antt =====
-- `initReveal` of frontend/src/landing/composables/useReveal.js. The style of the page hides an element
-- of the class `reveal` that is not `is-in` only where the document has `reveal-enabled`.
use ai_routing_panel.Prelude.{
  zero, not, [], suc, ◌∷◌, ◌||◌, map, Bool, List, ℕ, if◌then◌else◌, false, true,
}

pub record Element : Type 0 where
  pub is_in : Bool
  pub is_observed : Bool

-- `is_enabled` is the class of the document, and `elements` are those of the class `reveal`.
pub record LandingPage : Type 0 where
  pub is_enabled : Bool
  pub elements : List Element

unfoldable pub show_element : Element → Element
show_element e = record e { is_in = true }

-- The elements of `.reveal:not(.is-in)` are observed.
unfoldable pub observe_element : Element → Element
observe_element e = if e.is_in then e else record e { is_observed = true }

unfoldable pub init_reveal : Bool → Bool → LandingPage → LandingPage
init_reveal reduced has_observer p =
    if reduced || not has_observer
    then record p { elements = map show_element p.elements }
    else record { is_enabled = true; elements = map observe_element p.elements }

-- One entry of the callback: the element at this place.
unfoldable pub reveal_at : ℕ → List Element → List Element
reveal_at k [] = []
reveal_at zero (e ∷ es) =
    (if e.is_observed then record { is_in = true; is_observed = false } else e) ∷ es
reveal_at (suc k) (e ∷ es) = e ∷ reveal_at k es

unfoldable pub on_entries : List (ℕ × Bool) → List Element → List Element
on_entries [] els = els
on_entries (entry ∷ entries) els =
    on_entries entries (if entry.1 then reveal_at entry.0 els else els)

unfoldable pub unobserve : Element → Element
unobserve e = record e { is_observed = false }

unfoldable pub disconnect : LandingPage → LandingPage
disconnect p = record { is_enabled = false; elements = map unobserve p.elements }

-- Vue puts a new element of the class in the place of another one.
abbrev pub fresh : Element
fresh = record { is_in = false; is_observed = false }

unfoldable pub swap_at : ℕ → List Element → List Element
swap_at k [] = []
swap_at zero (e ∷ es) = fresh ∷ es
swap_at (suc k) (e ∷ es) = e ∷ swap_at k es

pub data Sight : Type 0 where
  intersects : List (ℕ × Bool) → Sight
  disconnects : Sight
  swaps : ℕ → Sight

unfoldable pub sight : Sight → LandingPage → LandingPage
sight (intersects entries) p = record p { elements = on_entries entries p.elements }
sight disconnects p = disconnect p
sight (swaps k) p = record p { elements = swap_at k p.elements }

unfoldable pub sights : List Sight → LandingPage → LandingPage
sights [] p = p
sights (e ∷ es) p = sights es (sight e p)
