-- ===== src/ZSet/Offset.antt =====
-- The walk of `zset_offset` from node to node: src/data_structures/zset.cpp.
use native.Mathlib.Decide.{ℕ_discrete, dec_lt}
use custom_redis.Base.{ℕ, zero, suc, ◌+◌, ◌-◌, ◌≤◌, ◌<◌, ◌≡◌, refl, List, ◌∷◌, Option, some, arith}
use custom_redis.Avl.{Tree, leaf, node, Crumb, went_left, went_right, Place}
use custom_redis.Avl.Shape.{bound, depth, count, IsSized}
use custom_redis.ZSet.{ZNode, go_on, offset_round, offset_loop}
use custom_redis.ZSet.Rank.{rebuild, before_count, IsRank, round-here, round-left, round-right}

-- The number of nodes before the root of a subtree, within it.
abbrev pub left_count : Tree ZNode → ℕ
left_count leaf = 0
left_count (node _ _ _ l _) = count l

-- A walk from the node of rank `i` stands at the root of the subtree `t`.
pub record Stands (root : Tree ZNode) (i rank : ℕ) (t : Tree ZNode) (path : List (Crumb ZNode))
    : Type 0 where
  pub whole : rebuild t path ≡ root
  pub sized : IsSized t
  pub small : before_count path + count t < bound
  pub start : i < bound
  pub steps : rank + i ≡ bound + (before_count path + left_count t)

stand_left :
    (root : Tree ZNode) (i rank offset g : ℕ) (a : ZNode) (h s : ℕ) (l r : Tree ZNode)
    (path : List (Crumb ZNode))
    → Stands root i rank (node a h s l r) path
    → offset + i ≡ bound + g
    → before_count path ≤ g
    → g < before_count path + count l
    → (rank' : ℕ) × (offset_round offset rank (node a h s l r) path
        ≡ some (go_on rank' l (went_left a h s r ∷ path)))
      × Stands root i rank' l (went_left a h s r ∷ path)
stand_left root i rank offset g a h s leaf r path w goal lo lt = absurd (omega arith)
stand_left root i rank offset g a h s (node b k n l m) r path w goal lo lt = (
  rank - suc (count m),
  round-left offset rank a b h s k n l m r path w.sized.2 w.sized.3
      (omega (arith, w.small, w.steps, w.start)) (omega (arith, w.small, w.steps, w.start))
      (omega (arith, w.small, w.steps, w.start)) (omega (arith, w.small, w.steps, w.start)),
  record {
    whole = w.whole;
    sized = w.sized.2;
    small = omega (arith, w.small);
    start = w.start;
    steps = omega (arith, w.steps, w.start, w.small);
  },
)

stand_right :
    (root : Tree ZNode) (i rank offset g : ℕ) (a : ZNode) (h s : ℕ) (l r : Tree ZNode)
    (path : List (Crumb ZNode))
    → Stands root i rank (node a h s l r) path
    → offset + i ≡ bound + g
    → before_count path + count l < g
    → g < before_count path + suc (count l + count r)
    → (rank' : ℕ) × (offset_round offset rank (node a h s l r) path
        ≡ some (go_on rank' r (went_right a h s l ∷ path)))
      × Stands root i rank' r (went_right a h s l ∷ path)
stand_right root i rank offset g a h s l leaf path w goal lo lt = absurd (omega arith)
stand_right root i rank offset g a h s l (node b k n m r) path w goal lo lt = (
  rank + suc (count m),
  round-right offset rank a b h s k n l m r path w.sized.2 w.sized.3
      (omega (arith, w.small, w.steps, w.start)) (omega (arith, w.small, w.steps, w.start))
      (omega (arith, w.small, w.steps, w.start)),
  record {
    whole = w.whole;
    sized = w.sized.3;
    small = omega (arith, w.small);
    start = w.start;
    steps = omega (arith, w.steps, w.start, w.small);
  },
)

-- The walk ends at the node with `g` nodes before it.
abbrev pub Reaches : Tree ZNode → ℕ → Option (Option (Place ZNode)) → Type 0
Reaches root g o = (p : Place ZNode) × (o ≡ some (some p)) × IsRank root g p

arrive :
    (fuel i g offset rank : ℕ) (root : Tree ZNode) (a : ZNode) (h s : ℕ) (l r : Tree ZNode)
    (path : List (Crumb ZNode))
    → Stands root i rank (node a h s l r) path
    → offset + i ≡ bound + g
    → before_count path + count l ≡ g
    → Reaches root g (offset_loop (suc fuel) offset rank (node a h s l r) path)
unfolding offset_loop
arrive fuel i g offset rank root a h s l r path w goal here = (
  record { item = a; height = h; size = s; left = l; right = r; path = path },
  rw (round-here offset rank a h s l r path (omega (arith, w.steps))) refl,
  record { whole = w.whole; rank = here },
)

-- One round that goes on.
pub loop-go_on :
    (fuel offset rank rank' : ℕ) (t t' : Tree ZNode) (path path' : List (Crumb ZNode))
    → offset_round offset rank t path ≡ some (go_on rank' t' path')
    → offset_loop (suc fuel) offset rank t path ≡ offset_loop fuel offset rank' t' path'
unfolding offset_loop
loop-go_on fuel offset rank rank' t t' path path' e = rw e refl

-- A walk that stands over the target goes down to it.
pub down :
    (fuel i g offset rank : ℕ) (root t : Tree ZNode) (path : List (Crumb ZNode))
    → Stands root i rank t path
    → offset + i ≡ bound + g
    → before_count path ≤ g
    → g < before_count path + count t
    → depth t ≤ fuel
    → Reaches root g (offset_loop fuel offset rank t path)
down fuel i g offset rank root leaf path w goal lo hi deep = absurd (omega arith)
down zero i g offset rank root (node a h s l r) path w goal lo hi deep = absurd (omega arith)
down (suc fuel) i g offset rank root (node a h s l r) path w goal lo hi deep =
    elim (ℕ_discrete (before_count path + count l) g) [
      | yes here ↦ arrive fuel i g offset rank root a h s l r path w goal here
      | no ne ↦ elim (dec_lt g (before_count path + count l)) [
        | yes lt ↦
            let (rank', e, w') = stand_left root i rank offset g a h s l r path w goal lo lt in
            rw (loop-go_on fuel offset rank rank' _ l path _ e) (
              down fuel i g offset rank' root l (went_left a h s r ∷ path) w' goal lo lt
                (omega arith))
        | no ge ↦
            let (rank', e, w') =
              stand_right root i rank offset g a h s l r path w goal (omega arith) hi in
            rw (loop-go_on fuel offset rank rank' _ r path _ e) (
              down fuel i g offset rank' root r (went_right a h s l ∷ path) w' goal (omega arith)
                (omega arith) (omega arith))
      ]
    ]
