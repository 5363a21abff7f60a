-- ===== src/ZSet/Rank.antt =====
-- The walk of `zset_offset` by ranks: src/data_structures/zset.cpp.
use custom_redis.Base.{
  ℕ, suc, ◌+◌, ◌-◌, ◌≤◌, ◌<◌, ◌≡◌, refl, ap, ◌⊎◌, inl, inr, true, false, List, [], ◌∷◌, some, ltb,
  leb, ◌==◌, arith,
}
use custom_redis.Avl.{Tree, node, Crumb, went_left, went_right, Place}
use custom_redis.Avl.Shape.{count, IsSized, avl_size-count}
use custom_redis.ZSet.{
  ZNode, add32, sub32, at_node, go_on, to_left, to_right, to_parent, offset_round,
}

-- The whole tree.
abbrev pub rebuild : Tree ZNode → List (Crumb ZNode) → Tree ZNode
rebuild t [] = t
rebuild t (went_left a h s r ∷ path) = rebuild (node a h s t r) path
rebuild t (went_right a h s l ∷ path) = rebuild (node a h s l t) path

-- The number of nodes before the subtree.
abbrev pub before_count : List (Crumb ZNode) → ℕ
before_count [] = 0
before_count (went_left _ _ _ _ ∷ path) = before_count path
before_count (went_right _ _ _ l ∷ path) = suc (count l + before_count path)

-- The place is that of the node with `i` nodes before it.
pub record IsRank (root : Tree ZNode) (i : ℕ) (p : Place ZNode) : Type 0 where
  pub whole : rebuild (node p.item p.height p.size p.left p.right) p.path ≡ root
  pub rank : before_count p.path + count p.left ≡ i

pub IsSized-part :
    (t : Tree ZNode) (path : List (Crumb ZNode)) → IsSized (rebuild t path) → IsSized t
IsSized-part t [] i = i
IsSized-part t (went_left a h s r ∷ path) i = (IsSized-part (node a h s t r) path i).2
IsSized-part t (went_right a h s l ∷ path) i = (IsSized-part (node a h s l t) path i).3

pub count_part :
    (t : Tree ZNode) (path : List (Crumb ZNode))
    → before_count path + count t ≤ count (rebuild t path)
count_part t [] = omega arith
count_part t (went_left a h s r ∷ path) = omega (arith, count_part (node a h s t r) path)
count_part t (went_right a h s l ∷ path) = omega (arith, count_part (node a h s l t) path)

pub add32-sum : (a b : ℕ) → a + b < 4294967296 → add32 a b ≡ a + b
unfolding add32
add32-sum a b h = omega arith

pub sub32-difference : (a b : ℕ) → b ≤ a → a < 4294967296 → sub32 a b ≡ a - b
unfolding sub32
sub32-difference a b h k = omega arith

pub round-here :
    (offset rank : ℕ) (a : ZNode) (h s : ℕ) (l r : Tree ZNode) (path : List (Crumb ZNode))
    → rank ≡ offset
    → offset_round offset rank (node a h s l r) path
      ≡ some (at_node (record { item = a; height = h; size = s; left = l; right = r; path = path }))
unfolding offset_round
round-here offset rank a h s l r path e = ground arith

pub round-left :
    (offset rank : ℕ) (a b : ZNode) (h s g n : ℕ) (l m r : Tree ZNode) (path : List (Crumb ZNode))
    → IsSized (node b g n l m)
    → IsSized r
    → rank < 4294967296
    → suc (count l + count m) ≤ rank
    → offset < rank
    → rank ≤ offset + suc (count l + count m)
    → offset_round offset rank (node a h s (node b g n l m) r) path
      ≡ some (go_on (rank - suc (count m)) (node b g n l m) (went_left a h s r ∷ path))
unfolding offset_round to_left
round-left offset rank a b h s g n l m r path il ir small big lt near =
    let e : (rank == offset) ≡ false = ground arith in
    let f : ltb offset rank ≡ true = ground arith in
    let k : leb (rank - suc (count l + count m)) offset ≡ true = ground arith in
    rw
      (
        e,
        f,
        avl_size-count (node b g n l m) il,
        sub32-difference rank (suc (count l + count m)) big (omega arith),
        k,
        avl_size-count m il.3,
        sub32-difference rank (1 + count m) (omega arith) (omega arith),
      )
      (ap (λ x. some (go_on x (node b g n l m) (went_left a h s r ∷ path))) (omega arith))

pub round-right :
    (offset rank : ℕ) (a b : ZNode) (h s g n : ℕ) (l m r : Tree ZNode) (path : List (Crumb ZNode))
    → IsSized l
    → IsSized (node b g n m r)
    → rank + suc (count m + count r) < 4294967296
    → rank < offset
    → offset ≤ rank + suc (count m + count r)
    → offset_round offset rank (node a h s l (node b g n m r)) path
      ≡ some (go_on (rank + suc (count m)) (node b g n m r) (went_right a h s l ∷ path))
unfolding offset_round to_right
round-right offset rank a b h s g n l m r path il ir small lt near =
    let e : (rank == offset) ≡ false = ground arith in
    let f : ltb offset rank ≡ false = ground arith in
    let f' : ltb rank offset ≡ true = ground arith in
    let k : leb offset (rank + suc (count m + count r)) ≡ true = ground arith in
    rw
      (
        e,
        f,
        f',
        avl_size-count (node b g n m r) ir,
        add32-sum rank (suc (count m + count r)) small,
        k,
        avl_size-count m ir.2,
        add32-sum rank (1 + count m) (omega arith),
      )
      (ap (λ x. some (go_on x (node b g n m r) (went_right a h s l ∷ path))) (omega arith))

pub round-up :
    (offset rank : ℕ) (a : ZNode) (h s : ℕ) (l r : Tree ZNode) (path : List (Crumb ZNode))
    → IsSized l
    → IsSized r
    → rank + count r < 4294967296
    → count l ≤ rank
    → (offset + count l < rank) ⊎ (rank + count r < offset)
    → offset_round offset rank (node a h s l r) path ≡ some (to_parent rank a h s l r path)
unfolding offset_round
round-up offset rank a h s l r path il ir small big (inl far) =
    let e : (rank == offset) ≡ false = ground arith in
    let f : ltb offset rank ≡ true = ground arith in
    let f' : ltb rank offset ≡ false = ground arith in
    let k : leb (rank - count l) offset ≡ false = ground arith in
    rw (e, f, f', avl_size-count l il, sub32-difference rank (count l) big (omega arith), k) refl
round-up offset rank a h s l r path il ir small big (inr far) =
    let e : (rank == offset) ≡ false = ground arith in
    let f : ltb offset rank ≡ false = ground arith in
    let f' : ltb rank offset ≡ true = ground arith in
    let k : leb offset (rank + count r) ≡ false = ground arith in
    rw (e, f, f', avl_size-count r ir, add32-sum rank (count r) small, k) refl
