-- ===== src/ZSet/Walk.antt =====
-- The whole walk of `zset_offset`: src/data_structures/zset.cpp.
use native.Mathlib.Decide.{dec_le, dec_lt}
use mathlib.Core.Path.{subst}
use custom_redis.Base.{
  ℕ, zero, suc, ◌+◌, ◌-◌, ◌^◌, ◌≤◌, ◌<◌, max, ◌≡◌, refl, sym, ap, ◌∙◌, ◌⊎◌, inl, inr, List, [], ◌∷◌,
  Option, none, some, arith,
}
use custom_redis.Avl.{Tree, node, Crumb, went_left, went_right, Place}
use custom_redis.Avl.Shape.{bound, depth, count, IsSized, avl_size-count}
use custom_redis.ZSet.{
  ZNode, at_null, go_on, to_parent, offset_round, offset_loop, longest_way, zset_offset,
}
use custom_redis.ZSet.Rank.{
  rebuild, before_count, IsRank, IsSized-part, count_part, add32-sum, sub32-difference, round-up,
}
use custom_redis.ZSet.Offset.{left_count, Stands, Reaches, loop-go_on, down}

-- What a walk from the node of rank `i` returns.
abbrev pub Offsets : Tree ZNode → ℕ → ℕ → Option (Option (Place ZNode)) → Type 0
Offsets root i offset o =
    ((g : ℕ) × (offset + i ≡ bound + g) × (g < count root) × Reaches root g o)
    ⊎ ((o ≡ some none) × ((offset + i < bound) ⊎ (bound + count root ≤ offset + i)))

longest_way-least : (path : List (Crumb ZNode)) (d : ℕ) → d ≤ longest_way d path
unfolding longest_way
longest_way-least [] d = omega arith
longest_way-least (went_left a h s t ∷ path) d =
    omega (arith, longest_way-least path (suc (max d (depth t))))
longest_way-least (went_right a h s t ∷ path) d =
    omega (arith, longest_way-least path (suc (max (depth t) d)))

-- The target is under the node where the walk stands, or elsewhere.
under :
    (fuel i offset rank : ℕ) (root t : Tree ZNode) (path : List (Crumb ZNode))
    → Stands root i rank t path
    → IsSized root
    → count root < bound
    → bound + before_count path ≤ offset + i
    → offset + i < bound + (before_count path + count t)
    → depth t ≤ fuel
    → Offsets root i offset (offset_loop fuel offset rank t path)
under fuel i offset rank root t path w sized small lo hi deep =
    let goal : offset + i ≡ bound + ((offset + i) - bound) = omega arith in
    inl (
      (offset + i) - bound,
      goal,
      omega (arith, count_part t path, ap count w.whole),
      down fuel i ((offset + i) - bound) offset rank root t path w goal (omega arith) (omega arith)
          deep,
    )

stand_up :
    (root t : Tree ZNode) (path : List (Crumb ZNode)) (i rank : ℕ)
    → rebuild t path ≡ root
    → IsSized root
    → count root < bound
    → i < bound
    → rank + i ≡ bound + (before_count path + left_count t)
    → Stands root i rank t path
stand_up root t path i rank e sized small si steps = record {
  whole = e;
  sized = IsSized-part t path (subst IsSized (sym e) sized);
  small = omega (arith, count_part t path, ap count e);
  start = si;
  steps = steps;
}

-- The target is not under the node.
abbrev IsFar : ℕ → ℕ → List (Crumb ZNode) → ℕ → Type 0
IsFar offset i path c =
    (offset + i < bound + before_count path) ⊎ (bound + (before_count path + c) ≤ offset + i)

round-far :
    (root : Tree ZNode) (offset i rank : ℕ) (a : ZNode) (h s : ℕ) (l r : Tree ZNode)
    (path : List (Crumb ZNode))
    → Stands root i rank (node a h s l r) path
    → IsFar offset i path (suc (count l + count r))
    → offset_round offset rank (node a h s l r) path ≡ some (to_parent rank a h s l r path)
round-far root offset i rank a h s l r path w (inl far) =
    round-up offset rank a h s l r path w.sized.2 w.sized.3 (omega (arith, w.small, w.steps))
      (omega (arith, w.start, w.steps)) (inl (omega (arith, w.steps)))
round-far root offset i rank a h s l r path w (inr far) =
    round-up offset rank a h s l r path w.sized.2 w.sized.3 (omega (arith, w.small, w.steps))
      (omega (arith, w.start, w.steps)) (inr (omega (arith, w.steps)))

at_root :
    (offset rank fuel : ℕ) (t : Tree ZNode) (path : List (Crumb ZNode))
    → offset_round offset rank t path ≡ some at_null
    → offset_loop (suc fuel) offset rank t path ≡ some none
unfolding offset_loop
at_root offset rank fuel t path e = rw e refl

parent-left :
    (rank : ℕ) (a b : ZNode) (h s g n : ℕ) (l r q : Tree ZNode) (path : List (Crumb ZNode))
    → IsSized r
    → rank + suc (count r) < 4294967296
    → to_parent rank a h s l r (went_left b g n q ∷ path)
      ≡ go_on (rank + suc (count r)) (node b g n (node a h s l r) q) path
unfolding to_parent
parent-left rank a b h s g n l r q path ir small =
    rw (avl_size-count r ir, add32-sum rank (1 + count r) (omega arith))
      (ap (λ x. go_on x (node b g n (node a h s l r) q) path) (omega arith))

parent-right :
    (rank : ℕ) (a b : ZNode) (h s g n : ℕ) (l r q : Tree ZNode) (path : List (Crumb ZNode))
    → IsSized l
    → suc (count l) ≤ rank
    → rank < 4294967296
    → to_parent rank a h s l r (went_right b g n q ∷ path)
      ≡ go_on (rank - suc (count l)) (node b g n q (node a h s l r)) path
unfolding to_parent
parent-right rank a b h s g n l r q path il big small =
    rw (avl_size-count l il, sub32-difference rank (1 + count l) (omega arith) small)
      (ap (λ x. go_on x (node b g n q (node a h s l r)) path) (omega arith))

walk_on :
    (path : List (Crumb ZNode)) (i offset rank : ℕ) (root : Tree ZNode) (fuel : ℕ) (a : ZNode)
    (h s : ℕ) (l r : Tree ZNode)
    → Stands root i rank (node a h s l r) path
    → IsSized root
    → count root < bound
    → longest_way (depth (node a h s l r)) path ≤ fuel
    → (IsFar offset i path (suc (count l + count r))
        → Offsets root i offset (offset_loop (suc fuel) offset rank (node a h s l r) path))
    → Offsets root i offset (offset_loop (suc fuel) offset rank (node a h s l r) path)
walk_on path i offset rank root fuel a h s l r w sized small long far =
    elim (dec_le (bound + before_count path) (offset + i)) [
      | no lo ↦ far (inl (omega arith))
      | yes lo ↦
          elim (dec_lt (offset + i) (bound + (before_count path + suc (count l + count r)))) [
            | no hi ↦ far (inr (omega arith))
            | yes hi ↦
                under (suc fuel) i offset rank root (node a h s l r) path w sized small lo hi
                  (omega (arith, longest_way-least path (depth (node a h s l r))))
          ]
    ]

out_of_range :
    (root : Tree ZNode) (i rank offset : ℕ) (a : ZNode) (h s : ℕ) (l r : Tree ZNode)
    → Stands root i rank (node a h s l r) []
    → IsFar offset i [] (suc (count l + count r))
    → (offset + i < bound) ⊎ (bound + count root ≤ offset + i)
out_of_range root i rank offset a h s l r w (inl far) = inl (omega arith)
out_of_range root i rank offset a h s l r w (inr far) = inr (omega (arith, ap count w.whole))

walk :
    (path : List (Crumb ZNode)) (fuel i offset rank : ℕ) (root : Tree ZNode) (a : ZNode) (h s : ℕ)
    (l r : Tree ZNode)
    → Stands root i rank (node a h s l r) path
    → IsSized root
    → count root < bound
    → longest_way (depth (node a h s l r)) path ≤ fuel
    → Offsets root i offset (offset_loop (suc fuel) offset rank (node a h s l r) path)
unfolding longest_way to_parent
walk [] fuel i offset rank root a h s l r w sized small long =
    walk_on [] i offset rank root fuel a h s l r w sized small long λ far. inr (
      at_root offset rank fuel _ [] (round-far root offset i rank a h s l r [] w far),
      out_of_range root i rank offset a h s l r w far,
    )
walk (went_left b g n q ∷ path) zero i offset rank root a h s l r w sized small long =
    absurd (omega arith)
walk (went_left b g n q ∷ path) (suc fuel) i offset rank root a h s l r w sized small long =
    walk_on (went_left b g n q ∷ path) i offset rank root (suc fuel) a h s l r w sized small long
      λ far.
        let e =
          round-far root offset i rank a h s l r (went_left b g n q ∷ path) w far
          ∙ ap some (
              parent-left rank a b h s g n l r q path w.sized.3
                (omega (arith, w.small, w.steps))) in
        rw
          (loop-go_on (suc fuel) offset rank _ _ (node b g n (node a h s l r) q)
            (went_left b g n q ∷ path) path e)
          (walk path fuel i offset (rank + suc (count r)) root b g n (node a h s l r) q
            (stand_up root (node b g n (node a h s l r) q) path i (rank + suc (count r)) w.whole
              sized small w.start (omega (arith, w.steps)))
            sized small (omega arith))
walk (went_right b g n q ∷ path) zero i offset rank root a h s l r w sized small long =
    absurd (omega arith)
walk (went_right b g n q ∷ path) (suc fuel) i offset rank root a h s l r w sized small long =
    walk_on (went_right b g n q ∷ path) i offset rank root (suc fuel) a h s l r w sized small long
      λ far.
        let e =
          round-far root offset i rank a h s l r (went_right b g n q ∷ path) w far
          ∙ ap some (
              parent-right rank a b h s g n l r q path w.sized.2
                (omega (arith, w.small, w.steps, w.start)) (omega (arith, w.small, w.steps))) in
        rw
          (loop-go_on (suc fuel) offset rank _ _ (node b g n q (node a h s l r))
            (went_right b g n q ∷ path) path e)
          (walk path fuel i offset (rank - suc (count l)) root b g n q (node a h s l r)
            (stand_up root (node b g n q (node a h s l r)) path i (rank - suc (count l)) w.whole
              sized small w.start (omega (arith, w.steps, w.small, w.start)))
            sized small (omega arith))

-- In a tree with right sizes and fewer than 2 ^ 31 nodes, from the node of rank i, the loop of
-- `zset_offset` ends within its fuel without a fault and returns the node whose rank is i moved
-- by the offset, or NULL just when there is no such rank, for every signed offset.
pub zset_offset_lem :
    (root : Tree ZNode) (z : Place ZNode) (i offset : ℕ)
    → IsSized root
    → count root < bound
    → IsRank root i z
    → Offsets root i offset (zset_offset z offset)
unfolding zset_offset
zset_offset_lem root z i offset sized small at =
    let c = count_part (node z.item z.height z.size z.left z.right) z.path in
    walk z.path (longest_way (suc (max (depth z.left) (depth z.right))) z.path) i offset (2 ^ 31)
      root z.item z.height z.size z.left z.right
      (stand_up root (node z.item z.height z.size z.left z.right) z.path i (2 ^ 31) at.whole sized
        small (omega (arith, c, ap count at.whole, at.rank)) (omega (arith, at.rank)))
      sized small (omega arith)
