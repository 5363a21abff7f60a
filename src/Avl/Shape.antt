-- ===== src/Avl/Shape.antt =====
-- The measures of a tree of src/data_structures/avl_tree.cpp, and its invariant.
use custom_redis.Base.{ℕ, suc, ◌+◌, ◌≤◌, ◌<◌, max, ◌≡◌, refl, ◌∙◌, List, [], ◌∷◌, ◌++◌, some, arith}
use custom_redis.Avl.{Tree, leaf, node, uint32, avl_size, avl_height, update_node}

-- A height or a size below this bound is kept by `uint32_t`, two added to it also.
abbrev pub bound : ℕ
bound = 2147483648

pub uint32-small : (n : ℕ) → n < bound + 2 → uint32 n ≡ n
unfolding uint32
uint32-small n h = omega arith

module _ {ℓ} {A : Type ℓ} where
  -- The items from left to right.
  abbrev pub items : Tree A → List A
  items leaf = []
  items (node a _ _ l r) = items l ++ (a ∷ items r)

  abbrev pub depth : Tree A → ℕ
  depth leaf = 0
  depth (node _ _ _ l r) = suc (max (depth l) (depth r))

  abbrev pub count : Tree A → ℕ
  count leaf = 0
  count (node _ _ _ l r) = suc (count l + count r)

  -- Each node holds the height and the size of its subtree.
  abbrev pub IsSized : Tree A → Type 0
  IsSized leaf = Unit
  IsSized (node _ h s l r) =
      (h ≡ suc (max (depth l) (depth r))) × (s ≡ suc (count l + count r)) × IsSized l × IsSized r

  abbrev pub IsBalanced : Tree A → Type 0
  IsBalanced leaf = Unit
  IsBalanced (node _ _ _ l r) =
      (depth l ≤ suc (depth r)) × (depth r ≤ suc (depth l)) × IsBalanced l × IsBalanced r

  abbrev pub IsAvl : Tree A → Type 0
  IsAvl t = IsSized t × IsBalanced t

  -- A node with the height and the size that it should hold.
  abbrev pub branch : A → Tree A → Tree A → Tree A
  branch a l r = node a (suc (max (depth l) (depth r))) (suc (count l + count r)) l r

  pub depth-count : (t : Tree A) → depth t ≤ count t
  depth-count leaf = omega arith
  depth-count (node a h s l r) = omega (arith, depth-count l, depth-count r)

  pub avl_height-depth : (t : Tree A) → count t < bound → avl_height t ≡ depth t
  unfolding avl_height
  avl_height-depth leaf small = refl
  avl_height-depth (node a h s l r) small =
      let e : 1 + max (depth l) (depth r) ≡ suc (max (depth l) (depth r)) = omega arith in
      rw (avl_height-depth l (omega arith), avl_height-depth r (omega arith))
        (uint32-small _ (omega (arith, depth-count l, depth-count r)) ∙ e)

  pub avl_size-count : (t : Tree A) → IsSized t → avl_size t ≡ count t
  unfolding avl_size
  avl_size-count leaf i = refl
  avl_size-count (node a h s l r) i = i.1

  pub update_node-branch :
      (a : A) (h s : ℕ) (l r : Tree A)
      → IsSized l
      → IsSized r
      → count l + count r < bound
      → update_node (node a h s l r) ≡ some (branch a l r)
  unfolding update_node
  update_node-branch a h s l r il ir small =
      rw
        (
          avl_height-depth l (omega arith),
          avl_height-depth r (omega arith),
          avl_size-count l il,
          avl_size-count r ir,
          uint32-small (1 + max (depth l) (depth r)) (omega (arith, depth-count l, depth-count r)),
          uint32-small (1 + count l + count r) (omega arith),
        )
        (let e : 1 + max (depth l) (depth r) ≡ suc (max (depth l) (depth r)) = omega arith in
          let f : 1 + count l + count r ≡ suc (count l + count r) = omega arith in rw (e, f) refl)
