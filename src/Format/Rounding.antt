-- ===== src/Format/Rounding.antt =====
-- What `humanBytes` and `usageFraction` (frontend/src/shared/formatters.js) show.
use ai_routing_panel.Prelude.{
  leb, if◌then◌else◌, true, false, ◌||◌, ltb, if-intro, ℕ, ◌+◌, ◌*◌, ◌≤◌, ◌<◌, ◌≡◌, refl, ◌⊎◌, inl,
  inr, arith,
}
use ai_routing_panel.Js.{nan, Num, nat, number, Value, Builtins}
use ai_routing_panel.Format.Bytes.{
  not_a_number, Ratio, print_scaled, ratio, clamped, human_bytes, usage_fraction, units, Scaled,
  scale_from, hundredths,
}

-- The number of bytes of a unit.
abbrev pub HasUnit : Scaled → Type 0
HasUnit s =
    ((s.unit ≡ "B") × (s.divisor ≡ 1))
    ⊎ ((s.unit ≡ "KB") × (s.divisor ≡ 1024))
    ⊎ ((s.unit ≡ "MB") × (s.divisor ≡ 1048576))
    ⊎ ((s.unit ≡ "GB") × (s.divisor ≡ 1073741824))
    ⊎ ((s.unit ≡ "TB") × (s.divisor ≡ 1099511627776))
    ⊎ ((s.unit ≡ "PB") × (s.divisor ≡ 1125899906842624))

-- The unit is the largest one that the value reaches.
pub record IsScaled (n : ℕ) (s : Scaled) : Type 0 where
  pub value : s.value ≡ n
  pub unit : HasUnit s
  pub reached : (s.divisor ≡ 1) ⊎ (s.divisor ≤ n)
  pub largest : (n < s.divisor * 1024) ⊎ (s.unit ≡ "PB")

scale-IsScaled : (n : ℕ) → IsScaled n (scale_from n 1 units)
unfolding scale_from
scale-IsScaled n =
    if-intro (IsScaled n) (ltb n 1024 || false)
      (λ e. record {
        value = refl;
        unit = inl (refl, refl);
        reached = inl refl;
        largest = inl (ground arith);
      })
      (λ e1.
        if-intro (IsScaled n) (ltb n 1048576 || false)
          (λ e. record {
            value = refl;
            unit = inr (inl (refl, refl));
            reached = inr (ground arith);
            largest = inl (ground arith);
          })
          (λ e2.
            if-intro (IsScaled n) (ltb n 1073741824 || false)
              (λ e. record {
                value = refl;
                unit = inr (inr (inl (refl, refl)));
                reached = inr (ground arith);
                largest = inl (ground arith);
              })
              (λ e3.
                if-intro (IsScaled n) (ltb n 1099511627776 || false)
                  (λ e. record {
                    value = refl;
                    unit = inr (inr (inr (inl (refl, refl))));
                    reached = inr (ground arith);
                    largest = inl (ground arith);
                  })
                  (λ e4.
                    if-intro (IsScaled n) (ltb n 1125899906842624 || false)
                      (λ e. record {
                        value = refl;
                        unit = inr (inr (inr (inr (inl (refl, refl)))));
                        reached = inr (ground arith);
                        largest = inl (ground arith);
                      })
                      (λ e5.
                        if-intro (IsScaled n) (ltb n 1152921504606846976 || true)
                          (λ e. record {
                            value = refl;
                            unit = inr (inr (inr (inr (inr (refl, refl)))));
                            reached = inr (ground arith);
                            largest = inr refl;
                          })
                          (λ e6. absurd (ground arith)))))))

-- The printed hundredths are the nearest ones: they differ from the exact value by at most half.
pub hundredths_nearest :
    (s : Scaled)
    → 0 < s.divisor
    → (2 * (hundredths s * s.divisor) ≤ 200 * s.value + s.divisor)
      × (200 * s.value < 2 * (hundredths s * s.divisor) + s.divisor)
unfolding hundredths
hundredths_nearest s h = grind arith

-- A finite value is printed in the largest unit that it reaches: a decomposition of the value that
-- fits the unit exists, and the text is the one that it prints.
pub human_bytes-print :
    (js : Builtins) (v : Value) (n : ℕ)
    → number js v ≡ nat n
    → (s : Scaled) × (human_bytes js v ≡ print_scaled s) × IsScaled n s
unfolding human_bytes
human_bytes-print js v n h = (scale_from n 1 units, rw (h, human_bytes), scale-IsScaled n)

-- The unit is chosen before the value is rounded: just below 1 MB the text is "1024.00 KB".
pub human_bytes_rolls :
    (n : ℕ) → 1048571 ≤ n → n < 1048576 → hundredths (scale_from n 1 units) ≡ 102400
unfolding hundredths scale_from
human_bytes_rolls n h k = grind arith

clamped-le : (used : Num) (l a b : ℕ) → 0 < l → clamped used (nat l) ≡ ratio a b → (a ≤ b) × (0 < b)
unfolding clamped
clamped-le nan l a b p h = cc
clamped-le (nat u) l a b p h = ground arith

-- The fraction of a quota is at most one, with a divisor that is not zero.
pub usage_fraction-le :
    (js : Builtins) (used limit : Value) (a b : ℕ)
    → usage_fraction js used limit ≡ ratio a b
    → (a ≤ b) × (0 < b)
unfolding usage_fraction
usage_fraction-le js used limit a b h = go (number js limit) h
  where
    go :
        (l : Num)
        → elim l as (λ _. Ratio) [
          | nan ↦ not_a_number
          | nat l ↦ if leb l 0 then ratio 0 1 else clamped (number js used) (nat l)
        ]
          ≡ ratio a b
        → (a ≤ b) × (0 < b)
    go nan e = ground arith
    go (nat l) e =
        if-intro (λ r. r ≡ ratio a b → (a ≤ b) × (0 < b)) (leb l 0) (λ z q. ground arith)
          (λ z q. clamped-le (number js used) l a b (ground arith) q) e
