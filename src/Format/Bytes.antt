-- ===== src/Format/Bytes.antt =====
-- frontend/src/shared/formatters.js. Dividing by 1024 is exact on doubles, so the running `size` is
-- the fraction of the value over a power of 1024.
use ai_routing_panel.Prelude.{
  ℕ, ◌+◌, ◌*◌, ◌/◌, ◌%◌, String, ◌⧺◌, ◌===◌, ◌||◌, List, [], ◌∷◌, ltb, leb, if◌then◌else◌,
}
use ai_routing_panel.Js.{Value, Num, nan, nat, Builtins, number}
use ai_routing_panel.Js.Text.{show, digit}

abbrev pub units : List String
units = "B" ∷ "KB" ∷ "MB" ∷ "GB" ∷ "TB" ∷ "PB" ∷ []

-- `size` is `value / divisor`, shown in `unit`.
pub record Scaled : Type 0 where
  pub value : ℕ
  pub divisor : ℕ
  pub unit : String

-- The loop of `humanBytes`; past the last unit it returns "0 B".
unfoldable pub scale_from : ℕ → ℕ → List String → Scaled
scale_from n d [] = record { value = 0; divisor = 1; unit = "B" }
scale_from n d (u ∷ us) =
    let rest = scale_from n (d * 1024) us in
    if ltb n (d * 1024) || u === "PB" then record { value = n; divisor = d; unit = u } else rest

-- The hundredths that `toFixed(2)` prints: the nearest integer, the larger one of two.
unfoldable pub hundredths : Scaled → ℕ
hundredths s = (200 * s.value + s.divisor) / (2 * s.divisor)

unfoldable pub to_fixed2 : Scaled → String
to_fixed2 s = let c = hundredths s in show (c / 100) ⧺ "." ⧺ digit (c / 10 % 10) ⧺ digit (c % 10)

unfoldable pub print_scaled : Scaled → String
print_scaled s =
    if s.unit === "B" then show (s.value / s.divisor) ⧺ " B" else to_fixed2 s ⧺ " " ⧺ s.unit

-- NaN is below nothing, so the loop runs to the last unit.
unfoldable pub human_bytes : Builtins → Value → String
human_bytes js value = elim (number js value) [
  | nan ↦ "NaN PB"
  | nat n ↦ print_scaled (scale_from n 1 units)
]

-- A quotient of two numbers, where a NaN stays one.
pub data Ratio : Type 0 where
  not_a_number : Ratio
  ratio : ℕ → ℕ → Ratio

-- `Math.max(0, Math.min(1, used / limit))`
unfoldable pub clamped : Num → Num → Ratio
clamped (nat used) (nat limit) = if leb limit used then ratio 1 1 else ratio used limit
clamped _ _ = not_a_number

unfoldable pub usage_fraction : Builtins → Value → Value → Ratio
usage_fraction js used limit = elim (number js limit) [
  | nan ↦ not_a_number
  | nat l ↦ if leb l 0 then ratio 0 1 else clamped (number js used) (nat l)
]
