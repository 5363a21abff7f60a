-- ===== src/HashMap/Keys.antt =====
-- `hm_size` and `hm_keys` of src/data_structures/hashmap.cpp.
use mathlib.Core.List.{map-append}
use custom_redis.Base.{
  ℕ, suc, ◌+◌, ◌≡◌, refl, sym, ap, ◌∙◌, inl, inr, List, [], ◌∷◌, map, flatten, some, arith, length,
  length-append, get_elem?,
}
use custom_redis.HashMap.{Node, Buckets, HTab, HMap, h_foreach_from, h_foreach, hm_keys, hm_size}
use custom_redis.HashMap.Valid.{hm_nodes, tab_nodes, tab_nodes-held, tab_nodes-empty, IsMap}
use custom_redis.HashMap.Lookup.{IsTable, tables}

module _ {ℓ} {V : Type ℓ} where
  size-table : (t : HTab V) → IsTable t → t.size ≡ length (tab_nodes t)
  size-table t (inl e) = rw (tab_nodes-empty t e) (ap (λ (u : HTab V). u.size) e)
  size-table t (inr (bs, v)) = rw (tab_nodes-held t bs v.held) v.counted

  -- `hm_size` of a valid map is the number of nodes in both tables.
  pub hm_size_lem : (m : HMap V) → IsMap m → hm_size m ≡ length (hm_nodes m)
  unfolding hm_size hm_nodes
  hm_size_lem m v = omega (
    arith,
    size-table m.older (tables m v).0,
    size-table m.newer (tables m v).1,
    length-append (tab_nodes m.newer) (tab_nodes m.older),
  )

  -- The key of a node.
  abbrev pub key_of : Node V → List ℕ
  key_of n = n.key

  -- From the `i`-th bucket on, with as many rounds as there are buckets left.
  foreach_rest :
      (bs rest : Buckets V) (i : ℕ)
      → ((j : ℕ) → get_elem? bs (i + j) ≡ get_elem? rest j)
      → h_foreach_from (length rest) i bs ≡ some (map key_of (flatten rest))
  unfolding h_foreach_from flatten
  foreach_rest bs [] i h = refl
  foreach_rest bs (c ∷ rest) i h =
      let here : get_elem? bs i ≡ some c = let z : i + 0 ≡ i = omega arith in rw z at (h 0) in
      let ih =
        foreach_rest bs rest (suc i)
          (λ j. let z : i + suc j ≡ suc i + j = omega arith in rw z at (h (suc j))) in
      rw (here, ih, map-append)

  foreach_some :
      (t : HTab V) (bs : Buckets V)
      → t.tab ≡ some bs
      → h_foreach t ≡ h_foreach_from (t.mask + 1) 0 bs
  unfolding h_foreach
  foreach_some t bs held = rw held

  foreach-table : (t : HTab V) → IsTable t → h_foreach t ≡ some (map key_of (tab_nodes t))
  unfolding h_foreach
  foreach-table t (inl e) = rw (tab_nodes-empty t e) (ap h_foreach e)
  foreach-table t (inr (bs, v)) =
      let rest = foreach_rest bs bs 0 (λ j. let z : 0 + j ≡ j = omega arith in rw z) in
      let nodes = ap (map key_of) (tab_nodes-held t bs v.held) in
      foreach_some t bs v.held
      ∙ ap (λ n. h_foreach_from n 0 bs) (sym v.width)
      ∙ rest
      ∙ ap some (sym nodes)

  -- `hm_keys` on a valid map does not fault and returns the key of every node of the newer table
  -- and then of the older one, once per node.
  pub hm_keys_lem : (m : HMap V) → IsMap m → hm_keys m ≡ some (map key_of (hm_nodes m))
  unfolding hm_keys hm_nodes
  hm_keys_lem m v =
      rw (foreach-table m.newer (tables m v).1, foreach-table m.older (tables m v).0, map-append)
