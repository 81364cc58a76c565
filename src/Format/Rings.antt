-- ===== src/Format/Rings.antt =====
-- The ring of the portal (frontend/src/shared/ui/TrafficRing.vue) and the gauge of the console
-- (frontend/src/admin/components/charts/index.jsx) agree.
use ai_routing_panel.Prelude.{
  inr, inl, if◌then◌else◌, eq_iff, Bool-cases, arith, if_true, if_false, Bool, ◌∙◌, leb, false,
  true, ◌≡◌, ℕ, refl, sym, ap,
}
use ai_routing_panel.Format.Charts.{gauge_percent, tone_for, gauge_fraction, gauge_tone, amount}
use ai_routing_panel.Format.Bytes.{not_a_number, Ratio, ratio, clamped, usage_fraction}
use ai_routing_panel.Format.Ring.{
  fraction_tone, ring_percent, gauge_text, ring_text, ring_tone, is_unlimited,
}
use ai_routing_panel.Js.{
  to_num, truthy, or_else, nan, nat, Num, undefined, null, bool, num, str, obj, arr, number,
  Builtins, Value,
}

amount_nat : (js : Builtins) (v : Value) (n : ℕ) → to_num js v ≡ nat n → amount js v ≡ n
unfolding amount
amount_nat js v n e = ap (λ (o : Num). elim o as (λ _. ℕ) [ nan ↦ 0 | nat m ↦ m ]) e

amount_falsy :
    (js : Builtins) (v : Value) → js.parse_number "" ≡ nat 0 → truthy v ≡ false → amount js v ≡ 0
unfolding truthy amount to_num
amount_falsy js undefined z e = refl
amount_falsy js null z e = refl
amount_falsy js (bool true) z e = cc
amount_falsy js (bool false) z e = refl
amount_falsy js (num k) z e = ground (arith, e)
amount_falsy js (str s) z e =
    amount_nat js (str s) 0 (ap js.parse_number ((eq_iff s "").0 (ground (arith, e))) ∙ z)
amount_falsy js (obj fs) z e = cc
amount_falsy js (arr vs) z e = cc

-- `Number(v || 0)` and `Number(v) || 0` agree where the former is not NaN.
number-amount :
    (js : Builtins) (v : Value) (n : ℕ)
    → js.parse_number "" ≡ nat 0
    → number js v ≡ nat n
    → amount js v ≡ n
unfolding number or_else
number-amount js v n z e = elim (Bool-cases (truthy v)) [
  | inl h ↦ amount_nat js v n (sym (ap (to_num js) (if_true (num 0) h)) ∙ e)
  | inr h ↦ amount_falsy js v z h ∙ zero_of (sym (ap (to_num js) (if_false v h)) ∙ e)
]
  where
    zero_of : to_num js (num 0) ≡ nat n → 0 ≡ n
    zero_of q = unfold to_num in cc

ratio_lem :
    (u l : ℕ)
    → (if leb l 0 then ratio 0 1 else if leb l u then ratio 1 1 else ratio u l)
      ≡ ratio (gauge_fraction u l).0 (gauge_fraction u l).1
unfolding gauge_fraction
ratio_lem u l = elim (Bool-cases (leb l 0)) [
  | inl h ↦ rw h refl
  | inr h ↦ elim (Bool-cases (leb l u)) [ inl k ↦ rw (h, k) refl | inr k ↦ rw (h, k) refl ]
]

module _ (js : Builtins) (used limit : Value) (u l : ℕ) (ue : number js used ≡ nat u)
    (le : number js limit ≡ nat l) where
  unlimited_lem : is_unlimited js limit ≡ leb l 0
  unfolding is_unlimited
  unlimited_lem = ap (λ (o : Num). elim o as (λ _. Bool) [ nan ↦ false | nat k ↦ leb k 0 ]) le

  fraction_lem : usage_fraction js used limit ≡ ratio (gauge_fraction u l).0 (gauge_fraction u l).1
  unfolding usage_fraction clamped
  fraction_lem =
      ap
        (λ (o : Num). elim o as (λ _. Ratio) [
          | nan ↦ not_a_number
          | nat k ↦ if leb k 0 then ratio 0 1 else clamped (number js used) (nat k)
        ])
        le
      ∙ ap (λ (o : Num). if leb l 0 then ratio 0 1 else clamped o (nat l)) ue
      ∙ ratio_lem u l

  tone_lem : ring_tone js used limit ≡ gauge_tone u l
  unfolding ring_tone gauge_tone tone_for fraction_tone
  tone_lem = rw (unlimited_lem, fraction_lem) refl

  text_lem : ring_text js used limit ≡ gauge_text u l
  unfolding ring_text gauge_text ring_percent gauge_percent
  text_lem = rw (unlimited_lem, fraction_lem) refl

-- Where the numbers of the use and of the limit can be read, and the number of the empty text is 0,
-- the ring of the portal and the gauge of the console show the same text in the same colour.
pub ring-gauge :
    (js : Builtins) (used limit : Value) (u l : ℕ)
    → js.parse_number "" ≡ nat 0
    → number js used ≡ nat u
    → number js limit ≡ nat l
    → (ring_text js used limit ≡ gauge_text (amount js used) (amount js limit))
      × (ring_tone js used limit ≡ gauge_tone (amount js used) (amount js limit))
ring-gauge js used limit u l z ue le =
    let a = number-amount js used u z ue in
    let b = number-amount js limit l z le in
    (
      text_lem js used limit u l ue le ∙ sym (rw (a, b) refl),
      tone_lem js used limit u l ue le ∙ sym (rw (a, b) refl),
    )
