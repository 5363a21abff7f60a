-- ===== src/Avl/Turns.antt =====
-- The rotations: src/data_structures/avl_tree.cpp.
use custom_redis.Base.{ℕ, suc, ◌+◌, ◌≤◌, ◌<◌, max, ◌≡◌, refl, List, ◌∷◌, ◌++◌, Option, some, arith}
use custom_redis.Avl.{Tree, node, rotate_left, rotate_right}
use custom_redis.Avl.Shape.{bound, items, depth, count, IsSized, IsAvl, branch, update_node-branch}

module _ {ℓ} {A : Type ℓ} where
  pub rotate_left-branch :
      (a b : A) (h s g n : ℕ) (l m r : Tree A)
      → IsSized l
      → IsSized m
      → IsSized r
      → suc (count l + count m) + count r < bound
      → rotate_left (node a h s l (node b g n m r)) ≡ some (branch b (branch a l m) r)
  unfolding rotate_left
  rotate_left-branch a b h s g n l m r il im ir small =
      rw (update_node-branch a h s l m il im (omega arith))
        (update_node-branch b g n (branch a l m) r (refl, refl, il, im) ir small)

  pub rotate_right-branch :
      (a b : A) (h s g n : ℕ) (l m r : Tree A)
      → IsSized l
      → IsSized m
      → IsSized r
      → count l + suc (count m + count r) < bound
      → rotate_right (node a h s (node b g n l m) r) ≡ some (branch b l (branch a m r))
  unfolding rotate_right
  rotate_right-branch a b h s g n l m r il im ir small =
      rw (update_node-branch a h s m r im ir (omega arith))
        (update_node-branch b g n l (branch a m r) il (refl, refl, im, ir) small)

  -- What one round makes of a node with the item `a` and the subtrees `l` and `r`.
  pub record Fixed (a : A) (l r t : Tree A) : Type ℓ where
    pub avl : IsAvl t
    pub sequence : items t ≡ items l ++ (a ∷ items r)
    pub total : count t ≡ suc (count l + count r)
    pub least : max (depth l) (depth r) ≤ depth t
    pub most : depth t ≤ suc (max (depth l) (depth r))
    pub level :
        depth l ≤ suc (depth r) → depth r ≤ suc (depth l) → depth t ≡ suc (max (depth l) (depth r))

  -- The tall subtree before the rotation: its outer subtree is the tall one.
  pub record Leans (lean : Option (Tree A)) (xs : List A) (c : ℕ) : Type ℓ where
    pub item : A
    pub left : Tree A
    pub right : Tree A
    pub leans : lean ≡ some (branch item left right)
    pub avl_left : IsAvl left
    pub avl_right : IsAvl right
    pub sequence : items left ++ (item ∷ items right) ≡ xs
    pub total : suc (count left + count right) ≡ c
