-- ===== src/ZSet/Tests.antt =====
-- Sorted sets on which the theorems about src/data_structures/zset.cpp are applied.
use mathlib.Core.List.Perm
use mathlib.Core.Path.{subst}
use custom_redis.Base.{
  ℕ, zero, suc, ◌≡◌, refl, ◌⊎◌, inl, inr, false, List, [], ◌∷◌, All, none, some, flatten, get_elem?,
  bit_and, bytes_eq, Returns, length, arith,
}
use custom_redis.Wire.{Bytes}
use custom_redis.Hash.{
  mul64, fold_high, mix_word, mix_words, xor_tail, mix_tail, murmur_hash64_a, str_hash,
}
use custom_redis.HashMap.{Node, empty_tab, c_str, matches}
use custom_redis.HashMap.Tab.{IsTab}
use custom_redis.HashMap.Valid.{hm_nodes, tab_nodes}
use custom_redis.Avl.{Tree, leaf, node, Place}
use custom_redis.Avl.Shape.{items, count}
use custom_redis.ZSet.{
  ZNode, ZSet, is_nan, dbl_place, dbl_lt, dbl_ne, zless, new_znode, h_node, same_node, zset_insert,
  zset_delete, zset_lookup, zset_lower_bound, zset_offset,
}
use custom_redis.ZSet.Order.{IsSorted, lows, highs}
use custom_redis.ZSet.Distinct.{IsDistinct}
use custom_redis.ZSet.Valid.{IsNode, IsZSet}
use custom_redis.ZSet.Rank.{IsRank}
use custom_redis.ZSet.Walk.{Offsets, zset_offset_lem}
use custom_redis.ZSet.LowerBound.{zset_lower_bound_lem}
use custom_redis.ZSet.Delete.{zset_delete-IsZSet}
use custom_redis.ZSet.Update.{Inserts}
use custom_redis.ZSet.Readback.{zset_lookup-insert}

-- The doubles 1, 2 and 3, and the keys "a", "b" and "c".
abbrev pub one : ℕ
one = 4607182418800017408

abbrev two : ℕ
two = 4611686018427387904

abbrev three : ℕ
three = 4613937818241073152

abbrev pub key_a : Bytes
key_a = 97 ∷ []

abbrev key_b : Bytes
key_b = 98 ∷ []

abbrev key_c : Bytes
key_c = 99 ∷ []

abbrev node_a : ZNode
node_a = record { addr = 10; hcode = str_hash key_a; score = one; key = key_a }

abbrev node_b : ZNode
node_b = record { addr = 20; hcode = str_hash key_b; score = two; key = key_b }

abbrev node_c : ZNode
node_c = record { addr = 30; hcode = str_hash key_c; score = three; key = key_c }

abbrev two_nodes : Tree ZNode
two_nodes = node node_a 2 2 leaf (node node_b 1 1 leaf leaf)

abbrev hash_nodes : List (Node ZNode)
hash_nodes =
    record { key = key_a; hcode = str_hash key_a; val = node_a }
    ∷ record { key = key_b; hcode = str_hash key_b; val = node_b }
    ∷ []

abbrev pub two_set : ZSet
two_set = record {
  avl_root = two_nodes;
  hmap = record {
    older = empty_tab;
    newer = record { tab = some (hash_nodes ∷ []); mask = 0; size = 2 };
    migrate_pos = 0;
  };
}

two-IsSorted : IsSorted (node_a ∷ node_b ∷ [])
unfolding zless dbl_ne dbl_lt is_nan dbl_place
two-IsSorted = ((refl, tt), (tt, tt))

two-IsDistinct : IsDistinct (node_a ∷ node_b ∷ [])
unfolding same_node matches h_node c_str bytes_eq str_hash murmur_hash64_a mul64 fold_high mix_word
    mix_words xor_tail mix_tail
two-IsDistinct = (((refl, refl), tt), (tt, tt))

two_IsNode : All IsNode (node_a ∷ node_b ∷ [])
unfolding is_nan
two_IsNode = ((refl, refl), ((refl, refl), tt))

hashes-IsTab : IsTab two_set.hmap.newer (hash_nodes ∷ [])
unfolding flatten str_hash murmur_hash64_a mul64 fold_high mix_word mix_words xor_tail mix_tail
hashes-IsTab = record {
  held = refl;
  width = refl;
  power = (0, refl);
  counted = refl;
  placed = placed;
}
  where
    placed :
        (i : ℕ) (c : List (Node ZNode))
        → get_elem? (hash_nodes ∷ []) i ≡ some c
        → All (λ (n : Node ZNode). bit_and n.hcode 0 ≡ i) c
    placed zero c e =
        let same : hash_nodes ≡ c = cc in
        subst (All (λ (n : Node ZNode). bit_and n.hcode 0 ≡ 0)) same (refl, (refl, tt))
    placed (suc i) c e = cc

pub two_set-IsZSet : IsZSet two_set
unfolding hm_nodes tab_nodes flatten h_node
two_set-IsZSet = record {
  avl = omega arith;
  sorted = two-IsSorted;
  distinct = two-IsDistinct;
  nodes = two_IsNode;
  table =
      inr
        (inl (record { new_buckets = hash_nodes ∷ []; new_valid = hashes-IsTab; no_older = refl }));
  same_nodes = Perm.refl _;
}

zset_delete-IsZSet_example :
    Returns (zset_delete two_set node_a) λ zset'.
      IsZSet zset' × (items zset'.avl_root ≡ node_b ∷ []) × (suc (count zset'.avl_root) ≡ 2)
zset_delete-IsZSet_example =
    zset_delete-IsZSet two_set [] (node_b ∷ []) node_a two_set-IsZSet (omega arith) refl

three_number : is_nan three ≡ false
unfolding is_nan
three_number = refl

-- The key is there with another score.
zset_lookup-insert_example : Returns (zset_insert two_set 30 three key_a) λ r.
    Inserts two_set 30 three key_a r
    × (zset_lookup r.1 key_a ≡ some (some (new_znode 30 three key_a)))
zset_lookup-insert_example =
    zset_lookup-insert two_set 30 three key_a two_set-IsZSet three_number (refl, (refl, tt))
      (omega arith)

zset_lower_bound_lem_example :
    ((highs two key_a (items two_nodes) ≡ []) × (zset_lower_bound two_set two key_a ≡ none))
    ⊎ ((p : Place ZNode) × (rest : List ZNode) × (zset_lower_bound two_set two key_a ≡ some p)
        × (highs two key_a (items two_nodes) ≡ p.item ∷ rest)
        × IsRank two_nodes (length (lows two key_a (items two_nodes))) p)
zset_lower_bound_lem_example = zset_lower_bound_lem two key_a two_set two-IsSorted

-- From the left to the right end of a tree.
abbrev place_a : Place ZNode
place_a = record {
  item = node_a;
  height = 2;
  size = 2;
  left = leaf;
  right = node node_b 1 1 leaf leaf;
  path = [];
}

zset_offset_lem_example : Offsets two_nodes 0 2147483649 (zset_offset place_a 2147483649)
zset_offset_lem_example =
    zset_offset_lem two_nodes place_a 0 2147483649 (omega arith) (omega arith)
      (record { whole = refl; rank = refl })
