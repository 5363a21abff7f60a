-- ===== src/HashMap/Tests.antt =====
-- A map of src/data_structures/hashmap.cpp in the middle of a rehash, with a node in the older table
-- and one in the newer, and the theorems applied to it.
use native.Mathlib.Nat.{ℕ_set}
use mathlib.Core.List.{head?}
use custom_redis.Base.{
  bytes_eq, ℕ, zero, suc, ◌≡◌, refl, inr, List, [], ◌∷◌, flatten, map, Perm, none, some, arith,
  get_elem?, replicate, All, Returns, bit_and, if◌then◌else◌, ◌⊎◌, filter_map,
}
use custom_redis.HashMap.{
  c_str, Node, Buckets, HTab, HMap, Slot, hm_insert, hm_lookup, hm_delete, hm_rehash_help, matches,
}
use custom_redis.HashMap.Tab.{IsTab}
use custom_redis.HashMap.Valid.{hm_nodes, tab_nodes, IsBusy, IsSettled, IsMap}
use custom_redis.HashMap.Insert.{IsLive, hm_insert-adds}
use custom_redis.HashMap.Rehash.{hm_rehash_help-IsBusy}
use custom_redis.HashMap.Hits.{hits}
use custom_redis.HashMap.Probes.{IsUnique, found, same_probe}
use custom_redis.HashMap.Lookup.{search_order, hm_lookup_lem}
use custom_redis.HashMap.Refine.{hm_lookup-insert, hm_lookup-delete}

-- "a", "b" and "c".
abbrev node_a : Node ℕ
node_a = record { key = 97 ∷ []; hcode = 5; val = 1 }

abbrev node_b : Node ℕ
node_b = record { key = 98 ∷ []; hcode = 9; val = 2 }

abbrev node_c : Node ℕ
node_c = record { key = 99 ∷ []; hcode = 5; val = 3 }

abbrev old_buckets : Buckets ℕ
old_buckets = [] ∷ (node_a ∷ []) ∷ [] ∷ [] ∷ []

abbrev new_buckets : Buckets ℕ
new_buckets = [] ∷ (node_b ∷ []) ∷ [] ∷ [] ∷ [] ∷ [] ∷ [] ∷ [] ∷ []

abbrev older_tab : HTab ℕ
older_tab = record { tab = some old_buckets; mask = 3; size = 1 }

abbrev newer_tab : HTab ℕ
newer_tab = record { tab = some new_buckets; mask = 7; size = 1 }

abbrev busy_map : HMap ℕ
busy_map = record { older = older_tab; newer = newer_tab; migrate_pos = 0 }

one_bucket-placed :
    (n : Node ℕ) (mask k : ℕ)
    → bit_and n.hcode mask ≡ 1
    → (i : ℕ) (c : List (Node ℕ)) → get_elem? ([] ∷ (n ∷ []) ∷ replicate k []) i ≡ some c
    → All (λ (m : Node ℕ). bit_and m.hcode mask ≡ i) c
one_bucket-placed n mask k e zero [] h = tt
one_bucket-placed n mask k e zero (x ∷ c) h = cc
one_bucket-placed n mask k e (suc zero) [] h = tt
one_bucket-placed n mask k e (suc zero) (x ∷ []) h = let same : n ≡ x = cc in (rw (← same) e, tt)
one_bucket-placed n mask k e (suc zero) (x ∷ y ∷ c) h = cc
one_bucket-placed n mask k e (suc (suc i)) c h = rw (nil_of_replicate k i c h) tt
  where
    nil_of_replicate :
        (k i : ℕ) (c : List (Node ℕ)) → get_elem? (replicate k []) i ≡ some c → c ≡ []
    nil_of_replicate zero i c h = cc
    nil_of_replicate (suc k) zero c h = cc
    nil_of_replicate (suc k) (suc i) c h = nil_of_replicate k i c h

older_tab-IsTab : IsTab older_tab old_buckets
unfolding flatten
older_tab-IsTab = record {
  held = refl;
  width = refl;
  power = (2, refl);
  counted = refl;
  placed = one_bucket-placed node_a 3 2 refl;
}

newer_tab-IsTab : IsTab newer_tab new_buckets
unfolding flatten
newer_tab-IsTab = record {
  held = refl;
  width = refl;
  power = (3, refl);
  counted = refl;
  placed = one_bucket-placed node_b 7 6 refl;
}

busy_map-IsBusy : IsBusy busy_map
busy_map-IsBusy = record {
  new_buckets = new_buckets;
  old_buckets = old_buckets;
  new_valid = newer_tab-IsTab;
  old_valid = older_tab-IsTab;
  migrated = λ i lt. absurd (omega arith);
}

busy_map-IsMap : IsMap busy_map
busy_map-IsMap = inr (inr busy_map-IsBusy)

-- The value is the observation, which unlinking keeps.
abbrev keep : ℕ → ℕ
keep v = v

abbrev val_of : Node ℕ → ℕ
val_of n = n.val

no_hits_c : hits node_c.key node_c.hcode (hm_nodes busy_map) ≡ []
unfolding hits hm_nodes tab_nodes flatten filter_map matches c_str bytes_eq
no_hits_c = refl

one_hit_a : IsUnique node_a.key node_a.hcode busy_map
unfolding hits hm_nodes tab_nodes flatten filter_map matches c_str bytes_eq
one_hit_a = omega arith

hm_lookup-insert_example : Returns (hm_insert keep busy_map node_c) λ m'.
    IsMap m'
    × (hm_lookup m' node_a.key node_a.hcode ≡ (
        if matches node_a.key node_a.hcode node_c
        then some (some node_c)
        else hm_lookup busy_map node_a.key node_a.hcode))
hm_lookup-insert_example =
    hm_lookup-insert ℕ_set keep busy_map node_c node_a.key node_a.hcode (λ v. refl) busy_map-IsMap
      no_hits_c one_hit_a

hm_lookup-delete_example : Returns (hm_delete keep busy_map node_b.key node_b.hcode) λ r.
    IsMap r.1
    × (r.0 ≡ found (head? (hits node_b.key node_b.hcode (search_order busy_map))))
    × (hm_lookup r.1 node_a.key node_a.hcode ≡ (
        if same_probe node_b.key node_b.hcode node_a.key node_a.hcode
        then some none
        else hm_lookup busy_map node_a.key node_a.hcode))
hm_lookup-delete_example =
    hm_lookup-delete ℕ_set keep busy_map node_b.key node_b.hcode node_a.key node_a.hcode
      busy_map-IsMap one_hit_a

hm_insert-adds_example : Returns (hm_insert keep busy_map node_c) λ m'.
    IsLive m' × Perm (map val_of (hm_nodes m')) (val_of node_c ∷ map val_of (hm_nodes busy_map))
hm_insert-adds_example = hm_insert-adds keep val_of (λ n. refl) busy_map node_c busy_map-IsMap

hm_lookup_lem_example :
    hm_lookup busy_map node_b.key node_b.hcode
    ≡ some (head? (hits node_b.key node_b.hcode (search_order busy_map)))
hm_lookup_lem_example = hm_lookup_lem node_b.key node_b.hcode busy_map busy_map-IsMap

hm_rehash_help-IsBusy_example : Returns (hm_rehash_help keep busy_map) λ m'.
    (IsSettled m' ⊎ IsBusy m') × Perm (map val_of (hm_nodes m')) (map val_of (hm_nodes busy_map))
hm_rehash_help-IsBusy_example =
    hm_rehash_help-IsBusy keep val_of (λ n. refl) busy_map busy_map-IsBusy

abbrev slot_a : Slot
slot_a = record { pos = 1; depth = 0 }
