-- ===== src/ZSet.antt =====
-- The sorted set: src/data_structures/zset.h and src/data_structures/zset.cpp.
-- A `ZNode` is one object in two containers, the AVL tree and the hash map, so the model's `ZNode`
-- has its address, `addr`, by which a pointer to it is told from a pointer to another; its hash is
-- the one of `h_node`. The address of a new node is what `malloc` returns, an argument here. Keys
-- are the bytes of their strings, since every copy that is made of one has the same bytes. A score
-- is the 64 bits of its double, and a double is compared as IEEE 754 does.
-- `none` is a read through NULL, or out of bounds.
pub mod Keys
pub mod Order
pub mod Insert
pub mod Rank
pub mod Offset
pub mod Walk
pub mod LowerBound
pub mod Distinct
pub mod Valid
pub mod Delete
pub mod Update
pub mod Readback
pub mod Tests
use Prim.Native.Nat.{Ordering, compare}
use custom_redis.Base.{
  ℕ, zero, suc, ◌+◌, ◌-◌, ◌*◌, ◌^◌, ◌%◌, min, max, Bool, true, false, not, ◌&&◌, List, [], ◌∷◌,
  ◌++◌, Option, none, some, ltb, leb, ◌==◌, if◌then◌else◌, length, ◌>>=◌,
}
use custom_redis.Wire.{Bytes}
use custom_redis.Hash.{str_hash}
use custom_redis.HashMap.{Node, HMap, empty_map, hm_lookup, hm_insert, hm_delete, hm_clear}
use custom_redis.Avl.Shape.{depth}
use custom_redis.Avl.{
  Tree, leaf, node, Crumb, went_left, went_right, Place, uint32, avl_size, avl_init, avl_fix,
  avl_del,
}

-- A double that is no number: all bits of the exponent are set, and one of the fraction.
unfoldable pub is_nan : ℕ → Bool
is_nan d = ltb (2047 * 2 ^ 52) (d % 2 ^ 63)

-- The place of a double in their order; +0 and -0 have the same.
unfoldable pub dbl_place : ℕ → ℕ
dbl_place d = if ltb d (2 ^ 63) then 2 ^ 63 + d else 2 ^ 64 - d

-- `a < b` and `a != b`
unfoldable pub dbl_lt : ℕ → ℕ → Bool
dbl_lt a b = not (is_nan a) && (not (is_nan b) && ltb (dbl_place a) (dbl_place b))

unfoldable pub dbl_ne : ℕ → ℕ → Bool
dbl_ne a b = not (not (is_nan a) && (not (is_nan b) && dbl_place a == dbl_place b))

-- `memcmp` of two strings that have `n` bytes: whether it is below 0, 0, or above.
unfoldable pub memcmp : ℕ → Bytes → Bytes → Ordering
memcmp zero s t = Ordering.eq
memcmp (suc n) [] t = Ordering.eq
memcmp (suc n) (a ∷ s) [] = Ordering.eq
memcmp (suc n) (a ∷ s) (b ∷ t) = elim (compare a b) [
  | Ordering.lt ↦ Ordering.lt
  | Ordering.gt ↦ Ordering.gt
  | Ordering.eq ↦ memcmp n s t
]

pub record ZNode : Type 0 where
  pub addr : ℕ
  pub hcode : ℕ
  pub score : ℕ
  pub key : Bytes

pub record ZSet : Type 0 where
  pub avl_root : Tree ZNode
  pub hmap : HMap ZNode

unfoldable pub new_znode : ℕ → ℕ → Bytes → ZNode
new_znode addr score key = record { addr = addr; hcode = str_hash key; score = score; key = key }

-- The hash map's node for a `ZNode`, its `h_node`.
unfoldable pub h_node : ZNode → Node ZNode
h_node z = record { key = z.key; hcode = z.hcode; val = z }

unfoldable pub zless : ZNode → ℕ → Bytes → Bool
zless z score key =
    if dbl_ne score z.score
    then dbl_lt z.score score
    else elim (memcmp (min (length key) (length z.key)) z.key key) [
      | Ordering.lt ↦ true
      | Ordering.gt ↦ false
      | Ordering.eq ↦ ltb (length z.key) (length key)
    ]

-- `&x == &y`
unfoldable pub same_node : ZNode → ZNode → Bool
same_node z x = x.addr == z.addr

-- `hn_unlink_sync` has nothing to do for a node of a set.
unfoldable pub unlink_znode : ZNode → ZNode
unlink_znode z = z

unfoldable pub lookup_under : Tree ZNode → HMap ZNode → Bytes → Option (Option ZNode)
lookup_under leaf hmap key = some none
lookup_under (node _ _ _ _ _) hmap key = do
  hnode ← hm_lookup hmap key (str_hash key)
  some (hnode >>= λ n. some n.val)

-- The inner `none` is NULL.
unfoldable pub zset_lookup : ZSet → Bytes → Option (Option ZNode)
zset_lookup zset key = lookup_under zset.avl_root zset.hmap key

unfoldable pub zset_delete : ZSet → ZNode → Option ZSet
zset_delete zset znode = do
  root ← avl_del (same_node znode) zset.avl_root
  (deleted, hmap) ← hm_delete unlink_znode zset.hmap znode.key znode.hcode
  some (record { avl_root = root; hmap = hmap })

-- The way down to the link that `zset_insert` sets.
unfoldable pub insert_path : ℕ → Bytes → Tree ZNode → List (Crumb ZNode) → List (Crumb ZNode)
insert_path score key leaf path = path
insert_path score key (node a h s left right) path = elim (zless a score key) [
  | true ↦ insert_path score key right (went_right a h s left ∷ path)
  | false ↦ insert_path score key left (went_left a h s right ∷ path)
]

-- The deletion of the node that has the key already: whether there was none.
unfoldable pub drop_old : ZSet → Option ZNode → Option (Bool × ZSet)
drop_old zset none = some (true, zset)
drop_old zset (some old) = zset_delete zset old >>= λ zset. some (false, zset)

unfoldable pub add_new : ZSet → ℕ → ℕ → Bytes → Option ZSet
add_new zset addr score key = do
  let znode = new_znode addr score key
  hmap ← hm_insert unlink_znode zset.hmap (h_node znode)
  root ← avl_fix (avl_init znode) (insert_path score key zset.avl_root [])
  some (record { avl_root = root; hmap = hmap })

-- Whether it is an insert, and the set; `addr` is the new node's address.
unfoldable pub zset_insert : ZSet → ℕ → ℕ → Bytes → Option (Bool × ZSet)
zset_insert zset addr score key = do
  old ← zset_lookup zset key
  (is_insert, zset) ← drop_old zset old
  zset ← add_new zset addr score key
  some (is_insert, zset)

-- The nodes that `del_avl_tree` frees, in its order.
unfoldable pub del_avl_tree : Tree ZNode → List ZNode
del_avl_tree leaf = []
del_avl_tree (node z _ _ left right) = del_avl_tree left ++ (del_avl_tree right ++ (z ∷ []))

-- The set, and the nodes that are freed.
unfoldable pub zset_clear : ZSet → ZSet × List ZNode
zset_clear zset =
    (record { avl_root = leaf; hmap = hm_clear zset.hmap }, del_avl_tree zset.avl_root)

-- The loop of `zset_lower_bound`, with the best node so far.
unfoldable pub lower_bound_from :
    ℕ → Bytes → Tree ZNode → Option (Place ZNode) → List (Crumb ZNode) → Option (Place ZNode)
lower_bound_from score key leaf lb path = lb
lower_bound_from score key (node a h s left right) lb path = elim (zless a score key) [
  | true ↦ lower_bound_from score key right lb (went_right a h s left ∷ path)
  | false ↦
      lower_bound_from score key left
        (some (record { item = a; height = h; size = s; left = left; right = right; path = path }))
        (went_left a h s right ∷ path)
]

-- `none` is NULL; a node comes with its place, which its links give.
unfoldable pub zset_lower_bound : ZSet → ℕ → Bytes → Option (Place ZNode)
zset_lower_bound zset score key = lower_bound_from score key zset.avl_root none []

-- `a + b` and `a - b` on `int32_t`, whose values are held here with 2 ^ 31 added.
unfoldable pub add32 : ℕ → ℕ → ℕ
add32 a b = (a + b) % 2 ^ 32

unfoldable pub sub32 : ℕ → ℕ → ℕ
sub32 a b = (a + (2 ^ 32 - b % 2 ^ 32)) % 2 ^ 32

-- What a round of `zset_offset` does: return a node or NULL, or go on from another node.
pub data Round : Type 0 where
  at_node : Place ZNode → Round
  at_null : Round
  go_on : (rank : ℕ) (t : Tree ZNode) (path : List (Crumb ZNode)) → Round

-- The moves to the left child, to the right child and to the parent.
unfoldable pub to_left :
    ℕ → ZNode → ℕ → ℕ → Tree ZNode → Tree ZNode → List (Crumb ZNode) → Option Round
to_left rank a h s leaf right path = none
to_left rank a h s (node b g n l r) right path =
    some (go_on (sub32 rank (1 + avl_size r)) (node b g n l r) (went_left a h s right ∷ path))

unfoldable pub to_right :
    ℕ → ZNode → ℕ → ℕ → Tree ZNode → Tree ZNode → List (Crumb ZNode) → Option Round
to_right rank a h s left leaf path = none
to_right rank a h s left (node b g n l r) path =
    some (go_on (add32 rank (1 + avl_size l)) (node b g n l r) (went_right a h s left ∷ path))

unfoldable pub to_parent : ℕ → ZNode → ℕ → ℕ → Tree ZNode → Tree ZNode → List (Crumb ZNode) → Round
to_parent rank a h s left right [] = at_null
to_parent rank a h s left right (went_left b g n r ∷ path) =
    go_on (add32 rank (1 + avl_size right)) (node b g n (node a h s left right) r) path
to_parent rank a h s left right (went_right b g n l ∷ path) =
    go_on (sub32 rank (1 + avl_size left)) (node b g n l (node a h s left right)) path

unfoldable pub offset_round : ℕ → ℕ → Tree ZNode → List (Crumb ZNode) → Option Round
offset_round offset rank leaf path = if rank == offset then some at_null else none
offset_round offset rank (node a h s left right) path =
    if rank == offset
    then some (
        at_node
          (record { item = a; height = h; size = s; left = left; right = right; path = path }))
    else if ltb offset rank && leb (sub32 rank (avl_size left)) offset
    then to_left rank a h s left right path
    else if ltb rank offset && leb offset (add32 rank (avl_size right))
    then to_right rank a h s left right path
    else some (to_parent rank a h s left right path)

-- The first argument bounds the rounds.
unfoldable pub offset_loop :
    ℕ → ℕ → ℕ → Tree ZNode → List (Crumb ZNode) → Option (Option (Place ZNode))
offset_loop zero offset rank t path = none
offset_loop (suc fuel) offset rank t path = offset_round offset rank t path >>= λ next. elim next [
  | at_node p ↦ some (some p)
  | at_null ↦ some none
  | go_on rank t path ↦ offset_loop fuel offset rank t path
]

-- The way from a node to any other: up its path, and down at most as far as the tree is deep.
unfoldable pub longest_way : ℕ → List (Crumb ZNode) → ℕ
longest_way d [] = d
longest_way d (went_left _ _ _ t ∷ path) = suc (longest_way (suc (max d (depth t))) path)
longest_way d (went_right _ _ _ t ∷ path) = suc (longest_way (suc (max (depth t) d)) path)

-- The inner `none` is NULL; `offset` is an `int32_t`, with 2 ^ 31 added.
unfoldable pub zset_offset : Place ZNode → ℕ → Option (Option (Place ZNode))
zset_offset z offset =
    let t = node z.item z.height z.size z.left z.right in
    offset_loop (suc (longest_way (depth t) z.path)) offset (2 ^ 31) t z.path
