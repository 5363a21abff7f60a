-- ===== src/ZSet/Valid.antt =====
-- The invariant of a sorted set: its tree and its hash map hold the same nodes,
-- src/data_structures/zset.h.
use mathlib.Core.List.{head?, map-append, perm_middle}
use mathlib.Core.List.Perm
use custom_redis.Base.{
  ℕ, ◌≤◌, ◌≡◌, sym, ap, ◌∙◌, false, List, ◌∷◌, ◌++◌, All, map, Perm, none, some, length, arith,
}
use custom_redis.Wire.{Bytes}
use custom_redis.Hash.{str_hash}
use custom_redis.HashMap.{Node, HMap}
use custom_redis.HashMap.Valid.{IsMap, hm_nodes}
use custom_redis.HashMap.Hits.{hits}
use custom_redis.HashMap.Lookup.{search_order}
use custom_redis.HashMap.Probes.{hits-perm, head?-perm, Node-set, search_order-perm}
use custom_redis.Avl.Shape.{items, IsAvl}
use custom_redis.ZSet.{ZNode, ZSet, h_node, is_nan}
use custom_redis.ZSet.Order.{IsSorted}
use custom_redis.ZSet.Distinct.{IsDistinct, Absent, Present}

-- The hash of a node is that of its key, and its score is a number.
abbrev pub IsNode : ZNode → Type 0
IsNode z = (z.hcode ≡ str_hash z.key) × (is_nan z.score ≡ false)

pub record IsZSet (zset : ZSet) : Type 0 where
  pub avl : IsAvl zset.avl_root
  pub sorted : IsSorted (items zset.avl_root)
  pub distinct : IsDistinct (items zset.avl_root)
  pub nodes : All IsNode (items zset.avl_root)
  pub table : IsMap zset.hmap
  pub same_nodes : Perm (hm_nodes zset.hmap) (map h_node (items zset.avl_root))

ZNode-set : IsSet ZNode
ZNode-set = hlevel

-- What the hash map finds first, from what the tree holds.
pub first_hit :
    (key : Bytes) (hcode : ℕ) (hmap : HMap ZNode) (ns : List (Node ZNode))
    → Perm (hm_nodes hmap) ns
    → length (hits key hcode ns) ≤ 1
    → head? (hits key hcode (search_order hmap)) ≡ head? (hits key hcode ns)
first_hit key hcode hmap ns p one =
    let p' = hits-perm key hcode (Perm.trans (search_order-perm hmap) p) in
    sym (head?-perm (Node-set ZNode-set) _ _ (Perm.symm p') one)

pub first-Absent :
    (key : Bytes) (hcode : ℕ) (hmap : HMap ZNode) (xs : List ZNode)
    → Perm (hm_nodes hmap) (map h_node xs)
    → Absent key hcode xs
    → head? (hits key hcode (search_order hmap)) ≡ none
unfolding head?
first-Absent key hcode hmap xs p w =
    first_hit key hcode hmap (map h_node xs) p (omega (arith, ap length w.none_hit))
    ∙ ap head? w.none_hit

pub first-Present :
    (key : Bytes) (hcode : ℕ) (hmap : HMap ZNode) (xs : List ZNode)
    → Perm (hm_nodes hmap) (map h_node xs)
    → (w : Present key hcode xs)
    → head? (hits key hcode (search_order hmap)) ≡ some (h_node w.znode)
unfolding head?
first-Present key hcode hmap xs p w =
    first_hit key hcode hmap (map h_node xs) p (omega (arith, ap length w.one_hit))
    ∙ ap head? w.one_hit

-- A node among the others is at the front, as a bag.
pub h_nodes-middle :
    (xs ys : List ZNode) (z : ZNode)
    → Perm (map h_node (xs ++ (z ∷ ys))) (h_node z ∷ map h_node (xs ++ ys))
h_nodes-middle xs ys z = rw (map-append, map-append) (perm_middle (map h_node xs) (map h_node ys))
