-- ===== src/Js/Text.antt =====
-- Decimal printing of a natural number, as a template literal does it for an integer below 10^21.
use ai_routing_panel.Prelude.{
  ℕ, zero, suc, ◌/◌, ◌%◌, String, ◌⧺◌, List, [], ◌∷◌, ltb, if◌then◌else◌,
}

digit_of : List String → ℕ → String
digit_of [] n = ""
digit_of (d ∷ ds) zero = d
digit_of (d ∷ ds) (suc n) = digit_of ds n

abbrev digit_names : List String
digit_names = "0" ∷ "1" ∷ "2" ∷ "3" ∷ "4" ∷ "5" ∷ "6" ∷ "7" ∷ "8" ∷ "9" ∷ []

unfoldable pub digit : ℕ → String
unfolding digit_of
digit n = digit_of digit_names n

-- The digits of `n` in front of `tail`; a number has fewer digits than its successor has units.
show_from : ℕ → ℕ → String → String
show_from zero n tail = tail
show_from (suc fuel) n tail =
    let rest = show_from fuel (n / 10) (digit (n % 10) ⧺ tail) in
    if ltb n 10 then digit n ⧺ tail else rest

unfoldable pub show : ℕ → String
unfolding show_from digit
show n = show_from (suc n) n ""
