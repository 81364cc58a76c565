-- ===== src/Console/Rate.antt =====
-- The traffic rate of frontend/src/admin/state/PanelProvider.jsx over two refreshes of the dashboard.
use mathlib.Core.Option
use ai_routing_panel.Prelude.{
  inr, refl, arith, sym, if_true, if_false, ap, ◌∙◌, String, eq_iff, inl, ◌-◌, Bool-cases, ◌≤◌,
  none, true, ◌≡◌, ℕ, refl, arith, sym, if_true, if_false, ap, some,
}
use ai_routing_panel.Console.Apply.{
  show_failure, sample_of, sub_num, or_flash, apply_reply, take_sample, show_panel, is_comparable,
  refresh_settled, activity_of,
}
use ai_routing_panel.Js.{get, or_else, nan, Value, Builtins, nat, Num, le_num}
use ai_routing_panel.Dashboard.Panel.{normalize_dashboard, Panel}
use mathlib.Core.Path.{subst}
use ai_routing_panel.Topology.Facts.{empty}
use ai_routing_panel.Dashboard.Signature.{routing_signature}
use ai_routing_panel.Console.Creating.{apply_dashboard-shown}
use ai_routing_panel.Console.State.{
  Console, Clock, answered, Outcome, done, raise, Activity, Sample,
}

-- The state after a refresh whose dashboard can be read.
refresh_settled-shown :
    (js : Builtins) (clock : Clock) (v : Value) (p : Panel) (signature : String) (c : Console)
    → normalize_dashboard (or_else (get v "dashboard") empty) ≡ some p
    → routing_signature js p ≡ some signature
    → refresh_settled js clock (answered v) c
      ≡ show_panel clock p signature (take_sample (sample_of js clock p) c)
unfolding refresh_settled apply_reply or_flash
refresh_settled-shown js clock v p signature c n s =
    ap
      (λ (r : Console × Outcome (Unit {0})).
        let (c', o) = r in
        elim o as (λ _. Console) [ done a ↦ c' | raise e ↦ show_failure "刷新失败。" e c' ])
      (apply_dashboard-shown js clock (or_else (get v "dashboard") empty) p signature c n s)

-- The difference of two samples that are compared.
pub record IsRateOf (previous next : Sample) (a : Activity) : Type 0 where
  pub first : ℕ
  pub second : ℕ
  pub first_bytes : previous.bytes ≡ nat first
  pub second_bytes : next.bytes ≡ nat second
  pub grows : first ≤ second
  pub difference : a.bytes ≡ nat (second - first)
  pub span : a.elapsed ≡ next.at - previous.at
  pub at_least : 1000000 ≤ a.elapsed
  pub same_ports : previous.port_ids ≡ next.port_ids

le_num-cases :
    (a b : Num) → le_num a b ≡ true → (n : ℕ) × (m : ℕ) × (a ≡ nat n) × (b ≡ nat m) × (n ≤ m)
unfolding le_num
le_num-cases (nat n) (nat m) e = (n, m, refl, refl, ground (arith, e))
le_num-cases nan b e = cc
le_num-cases (nat n) nan e = cc

sub_num_nat : (a b : Num) (n m : ℕ) → a ≡ nat n → b ≡ nat m → sub_num b a ≡ nat (m - n)
unfolding sub_num
sub_num_nat a b n m p q = rw (p, q) refl

compared-IsRateOf :
    (previous next : Sample)
    → is_comparable previous next ≡ true
    → IsRateOf previous next
        (record { bytes = sub_num next.bytes previous.bytes; elapsed = next.at - previous.at })
unfolding is_comparable
compared-IsRateOf previous next e =
    let (n, m, p, q, l) = le_num-cases previous.bytes next.bytes (ground (arith, e)) in
    record {
      first = n;
      second = m;
      first_bytes = p;
      second_bytes = q;
      grows = l;
      difference = sub_num_nat previous.bytes next.bytes n m p q;
      span = refl;
      at_least = ground (arith, e);
      same_ports = (eq_iff previous.port_ids next.port_ids).0 (ground (arith, e));
    }

activity_of-IsRateOf :
    (previous next : Sample) (a : Activity)
    → activity_of (some previous) next ≡ some a
    → IsRateOf previous next a
unfolding activity_of
activity_of-IsRateOf previous next a e = elim (Bool-cases (is_comparable previous next)) [
  | inl h ↦
      subst (IsRateOf previous next) (Option.some-injective _ _ (sym (if_true none h) ∙ e))
        (compared-IsRateOf previous next h)
  | inr h ↦ absurd (
      no_rate (
        sym (
          if_false
            (some (record {
              bytes = sub_num next.bytes previous.bytes;
              elapsed = next.at - previous.at;
            }))
            h)
        ∙ e))
]
  where
    no_rate : none ≡ some a → ⊥
    no_rate q = cc

-- Two refreshes of the dashboard follow each other, and both can be read. A rate that is shown then is
-- the growth of the total traffic between the two, which is not negative, over the time between
-- them, which is at least a second; and the ids of the ports of the two
-- dashboards have the same text.
pub refresh_settled-IsRateOf :
    (js : Builtins) (before now : Clock) (v w : Value) (p q : Panel) (s t : String) (c : Console)
    (a : Activity)
    → normalize_dashboard (or_else (get v "dashboard") empty) ≡ some p
    → routing_signature js p ≡ some s
    → normalize_dashboard (or_else (get w "dashboard") empty) ≡ some q
    → routing_signature js q ≡ some t
    → (refresh_settled js now
        (answered w)
        (refresh_settled js before (answered v) c)).traffic_activity
      ≡ some a
    → IsRateOf (sample_of js before p) (sample_of js now q) a
unfolding show_panel take_sample
refresh_settled-IsRateOf js before now v w p q s t c a n ns m ms e =
    let first = refresh_settled-shown js before v p s c n ns in
    let second =
      refresh_settled-shown js now w q t (refresh_settled js before (answered v) c) m ms in
    activity_of-IsRateOf (sample_of js before p) (sample_of js now q) a (
      sym (ap (λ (d : Console). activity_of d.traffic_sample (sample_of js now q)) first)
      ∙ sym (ap (λ (d : Console). d.traffic_activity) second)
      ∙ e)
