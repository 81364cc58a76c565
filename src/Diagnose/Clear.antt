-- ===== src/Diagnose/Clear.antt =====
-- What the all-clear item of the checklist says of the snapshot.
use ai_routing_panel.Diagnose.Checklist.{
  or_all_clear, parts, concat, build_checklist, rank, found, insert_item, sort_items,
}
use mathlib.Core.Option
use ai_routing_panel.Prelude.{
  sym, inr, none, inl, any-append, Option-cases, All, ◌||◌, refl, ap, true, [], some, ◌∙◌, false,
  arith, ◌≡◌, ◌==◌, ◌∷◌, if◌then◌else◌, ◌++◌, any, Bool, List,
}
use ai_routing_panel.Js.{is_str, is_false, get, truthy, Value, Builtins}
use ai_routing_panel.Dashboard.Panel.{Panel}
use ai_routing_panel.Diagnose.Checks.{
  is_inconsistent, is_port_limited, is_dns_incomplete, is_ai_node_lost, failures_of,
  consistency_items, is_ai_bad, port_items, dns_target_items, dns_config_items, ai_node_items,
  manual_items, ai_routing_items, Item, failure_items, data_plane_items,
}

-- Nothing of the snapshot asks for a check.
pub record IsClear (js : Builtins) (p : Panel) (insights diagnosis : Value) : Type 0 where
  pub configured : truthy (get p.data_plane_status "configured") ≡ true
  pub running : is_false (get p.data_plane_status "xray_running") ≡ false
  pub ai : is_ai_bad p ≡ false
  pub automatic : is_str (get p.ai_routing_status "manual_mode") "forced_fallback" ≡ false
  pub node : is_ai_node_lost p ≡ false
  pub dns : is_dns_incomplete p ≡ false
  pub primary : is_str (get p.dns_failover_status "current_target") "backup" ≡ false
  pub probes : failures_of insights ≡ []
  pub limits : is_port_limited js p ≡ false
  pub consistent : is_inconsistent diagnosis ≡ false

abbrev pub is_success : Item → Bool
is_success a = rank a.tone == 3

append_nil : (xs ys : List Item) → xs ++ ys ≡ [] → (xs ≡ []) × (ys ≡ [])
append_nil [] ys h = (refl, h)
append_nil (x ∷ xs) ys h = cc

if_nil : (b : Bool) (a : Item) (bs : List Item) → (if b then a ∷ bs else []) ≡ [] → b ≡ false
if_nil b a bs h = ground arith

concat_nil : (xss : List (List Item)) → concat xss ≡ [] → All (λ xs. xs ≡ []) xss
unfolding concat
concat_nil [] h = tt
concat_nil (xs ∷ xss) h = let both = append_nil xs (concat xss) h in (both.0, concat_nil xss both.1)

data_plane_items_nil :
    (p : Panel)
    → data_plane_items p ≡ []
    → (truthy (get p.data_plane_status "configured") ≡ true)
      × (is_false (get p.data_plane_status "xray_running") ≡ false)
unfolding data_plane_items
data_plane_items_nil p h = ground arith

failure_items_nil : (vs : List Value) → failure_items vs ≡ some [] → vs ≡ []
unfolding failure_items
failure_items_nil [] h = refl
failure_items_nil (v ∷ vs) h = ground arith

found_nil :
    (js : Builtins) (p : Panel) (failures : List Item) (insights diagnosis : Value)
    → failure_items (failures_of insights) ≡ some failures
    → All (λ xs. xs ≡ []) (parts js p failures diagnosis)
    → IsClear js p insights diagnosis
unfolding parts ai_routing_items manual_items ai_node_items dns_config_items dns_target_items
    port_items consistency_items
found_nil js p failures insights diagnosis h
      (e1, (e2, (e3, (e4, (e5, (e6, (e7, (e8, (e9, _))))))))) =
    record {
      configured = (data_plane_items_nil p e1).0;
      running = (data_plane_items_nil p e1).1;
      ai = if_nil _ _ _ e2;
      automatic = if_nil _ _ _ e3;
      node = if_nil _ _ _ e4;
      dns = if_nil _ _ _ e5;
      primary = if_nil _ _ _ e6;
      probes = failure_items_nil (failures_of insights) (h ∙ ap some e7);
      limits = if_nil _ _ _ e8;
      consistent = if_nil _ _ _ e9;
    }

any-insert_item :
    (a : Item) (bs : List Item) → any is_success (insert_item a bs) ≡ any is_success (a ∷ bs)
unfolding insert_item
any-insert_item a [] = refl
any-insert_item a (b ∷ bs) = ground (arith, any-insert_item a bs)

any-sort_items : (items : List Item) → any is_success (sort_items items) ≡ any is_success items
unfolding sort_items
any-sort_items [] = refl
any-sort_items (a ∷ rest) =
    any-insert_item a (sort_items rest) ∙ ap (λ b. is_success a || b) (any-sort_items rest)

data_plane_items-any : (p : Panel) → any is_success (data_plane_items p) ≡ false
unfolding data_plane_items rank
data_plane_items-any p = ground arith

failure_items-any :
    (vs : List Value) (failures : List Item)
    → failure_items vs ≡ some failures
    → any is_success failures ≡ false
unfolding failure_items rank
failure_items-any [] failures h = ground arith
failure_items-any (v ∷ vs) failures h = ground arith

any-concat :
    (xss : List (List Item))
    → All (λ xs. any is_success xs ≡ false) xss
    → any is_success (concat xss) ≡ false
unfolding concat
any-concat [] h = refl
any-concat (xs ∷ xss) h =
    any-append is_success xs (concat xss) ∙ ground (arith, h.0, any-concat xss h.1)

-- No check pushes an all-clear item.
found-any :
    (js : Builtins) (p : Panel) (failures : List Item) (diagnosis : Value)
    → any is_success failures ≡ false
    → any is_success (found js p failures diagnosis) ≡ false
unfolding found parts ai_routing_items manual_items ai_node_items dns_config_items dns_target_items
    port_items consistency_items rank
found-any js p failures diagnosis h = any-concat (parts js p failures diagnosis) (
  data_plane_items-any p,
  (
    ground arith,
    (
      ground arith,
      (ground arith, (ground arith, (ground arith, (h, (ground arith, (ground arith, tt)))))),
    ),
  ),
)

or_all_clear-any :
    (items : List Item)
    → any is_success items ≡ false
    → any is_success (or_all_clear items) ≡ true
    → items ≡ []
unfolding or_all_clear
or_all_clear-any [] h k = refl
or_all_clear-any (a ∷ rest) h k = cc

-- A checklist that has an item of the tone success was built of a snapshot in which nothing asks
-- for a check: the data plane is configured and not reported down, the AI routing is not bad and
-- not forced, the AI node is not lost, the DNS switch is complete and off the backup, no probe
-- failed recently, no port is expired or limited, and the subscription is consistent.
pub build_checklist-IsClear :
    (js : Builtins) (p : Panel) (insights diagnosis : Value) (items : List Item)
    → build_checklist js p insights diagnosis ≡ some items
    → any is_success items ≡ true
    → IsClear js p insights diagnosis
unfolding build_checklist found
build_checklist-IsClear js p insights diagnosis items h k =
    elim (Option-cases (failure_items (failures_of insights))) [
      | inl e ↦
          let failed : build_checklist js p insights diagnosis ≡ none = rw (e, build_checklist) in
          cc
      | inr (failures, e) ↦
          let all = or_all_clear (found js p failures diagnosis) in
          let sorted : sort_items all ≡ items =
            Option.some-injective _ _ (sym (rw (e, build_checklist)) ∙ h) in
          found_nil js p failures insights diagnosis e (
            concat_nil (parts js p failures diagnosis) (
              or_all_clear-any (found js p failures diagnosis)
                (found-any js p failures diagnosis
                  (failure_items-any (failures_of insights) failures e))
                (sym (any-sort_items all) ∙ ap (any is_success) sorted ∙ k)))
    ]
