-- ===== src/Hosts/Rows.antt =====
-- The rows of the host inventory: their keys, and what a row allows.
use ai_routing_panel.Hosts.Inventory.{
  null_before, has_null, is_backup_node, node_id_of, ai_key, data_plane_host, backup_host,
  single_ai_host, Host, ai_hosts, backup_hosts, ai_host, build_host_inventory,
}
use ai_routing_panel.Prelude.{
  ◌∙◌, sym, ◌||◌, if-intro, find, none, ap, refl, some, ◌≡◌, [], ◌∷◌, ◌++◌, map, String, List,
  Option,
}
use ai_routing_panel.Js.{get, elements, Value}
use ai_routing_panel.Dashboard.Panel.{Panel}
use mathlib.Core.Path.{ap₂}
use mathlib.Core.Option

-- The keys of the AI nodes, as the snapshot numbers them.
abbrev pub ai_keys : List Value → List String
ai_keys [] = "ai_node" ∷ []
ai_keys (n ∷ ns) = map (λ m. ai_key (node_id_of m)) (n ∷ ns)

abbrev pub backup_keys : Option Value → List String
backup_keys none = []
backup_keys (some b) = "control_plane_backup" ∷ []

map_append :
    (xs ys : List Host) → map (λ h. h.key) (xs ++ ys) ≡ map (λ h. h.key) xs ++ map (λ h. h.key) ys
map_append [] ys = refl
map_append (x ∷ xs) ys = ap (λ ks. x.key ∷ ks) (map_append xs ys)

ai_host_keys :
    (details nodes : List Value)
    → map (λ h. h.key) (map (ai_host details) nodes) ≡ map (λ m. ai_key (node_id_of m)) nodes
unfolding ai_host
ai_host_keys details [] = refl
ai_host_keys details (n ∷ ns) = ap (λ ks. ai_key (node_id_of n) ∷ ks) (ai_host_keys details ns)

ai_hosts_keys :
    (p : Panel) (details nodes : List Value)
    → map (λ h. h.key) (ai_hosts p details nodes) ≡ ai_keys nodes
unfolding ai_hosts single_ai_host
ai_hosts_keys p details [] = refl
ai_hosts_keys p details (n ∷ ns) = ai_host_keys details (n ∷ ns)

backup_hosts_keys : (b : Option Value) → map (λ h. h.key) (backup_hosts b) ≡ backup_keys b
unfolding backup_hosts backup_host
backup_hosts_keys none = refl
backup_hosts_keys (some b) = refl

-- An inventory lists the data plane first, then the AI nodes in the order of the snapshot, or the one
-- AI node where the snapshot has no list, and last the backup entry where there is one.
pub build_host_inventory_keys :
    (p : Panel) (insights : Value) (hosts : List Host)
    → build_host_inventory p insights ≡ some hosts
    → map (λ h. h.key) hosts
      ≡ "data_plane"
        ∷ (ai_keys (elements p.ai_nodes) ++ backup_keys (find is_backup_node (elements p.nodes)))
unfolding build_host_inventory data_plane_host
build_host_inventory_keys p insights hosts e =
    let details = elements (get insights "hosts") in
    let b = find is_backup_node (elements p.nodes) in
    if-intro
      (λ (o : Option (List Host)).
        o ≡ some hosts
        → map (λ h. h.key) hosts ≡ "data_plane" ∷ (ai_keys (elements p.ai_nodes) ++ backup_keys b))
      (has_null details || has_null (elements p.ai_nodes) || null_before (elements p.nodes))
      (λ _ q. cc)
      (λ _ q.
        ap (map (λ h. h.key)) (sym (Option.some-injective _ _ q))
        ∙ ap (λ ks. "data_plane" ∷ ks)
            (map_append (ai_hosts p details (elements p.ai_nodes)) (backup_hosts b)
              ∙ ap₂ (λ xs ys. xs ++ ys) (ai_hosts_keys p details (elements p.ai_nodes))
                  (backup_hosts_keys b)))
      e
