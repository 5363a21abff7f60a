-- ===== src/Avl/Climb.antt =====
-- The loop of `avl_fix` up to the root, src/data_structures/avl_tree.cpp, on the path of a node.
use custom_redis.Base.{
  ℕ, suc, ◌+◌, ◌≤◌, ◌<◌, max, ◌≡◌, refl, ap, ◌∙◌, List, [], ◌∷◌, ◌++◌, some, Returns, arith,
}
use custom_redis.Avl.{Tree, Crumb, went_left, went_right, fix_node, plug, climb}
use custom_redis.Avl.Shape.{bound, items, depth, count, IsAvl}
use custom_redis.Avl.Fix.{fix_node-Fixed}

-- How far the depth of a node's parent can fall.
level_left :
    (d e o u : ℕ)
    → d ≤ suc e
    → d ≤ suc o
    → o ≤ suc d
    → max e o ≤ u
    → (e ≤ suc o → o ≤ suc e → u ≡ suc (max e o))
    → suc (max d o) ≤ suc u
level_left d e o u = grind arith

level_right :
    (d e o u : ℕ)
    → d ≤ suc e
    → o ≤ suc d
    → d ≤ suc o
    → max o e ≤ u
    → (o ≤ suc e → e ≤ suc o → u ≡ suc (max o e))
    → suc (max o d) ≤ suc u
level_right d e o u = grind arith

module _ {ℓ} {A : Type ℓ} where
  -- The items of the whole tree, where those of the subtree are `xs`.
  abbrev pub around : List (Crumb A) → List A → List A
  around [] xs = xs
  around (went_left a _ _ r ∷ path) xs = around path (xs ++ (a ∷ items r))
  around (went_right a _ _ l ∷ path) xs = around path (items l ++ (a ∷ xs))

  -- The number of nodes outside the subtree.
  abbrev pub path_count : List (Crumb A) → ℕ
  path_count [] = 0
  path_count (went_left _ _ _ r ∷ path) = suc (count r + path_count path)
  path_count (went_right _ _ _ l ∷ path) = suc (count l + path_count path)

  -- A subtree of depth `d` completes an AVL tree.
  abbrev pub Fits : List (Crumb A) → ℕ → Type 0
  Fits [] d = Unit
  Fits (went_left _ _ _ r ∷ path) d =
      IsAvl r × (d ≤ suc (depth r)) × (depth r ≤ suc d) × Fits path (suc (max d (depth r)))
  Fits (went_right _ _ _ l ∷ path) d =
      IsAvl l × (depth l ≤ suc d) × (d ≤ suc (depth l)) × Fits path (suc (max (depth l) d))

  -- The whole tree that comes of a path and a subtree with the items `xs`, `n` of them.
  pub record Whole (path : List (Crumb A)) (xs : List A) (n : ℕ) (t : Tree A) : Type ℓ where
    pub avl : IsAvl t
    pub sequence : items t ≡ around path xs
    pub total : count t ≡ n + path_count path

  climb-step :
      (path : List (Crumb A)) (c : Crumb A) (u t : Tree A) (xs : List A) (n : ℕ)
      → fix_node (plug c t) ≡ some u
      → items u ≡ around (c ∷ []) xs
      → count u + path_count path ≡ n + path_count (c ∷ path)
      → Returns (climb u path) (Whole path (items u) (count u))
      → Returns (climb t (c ∷ path)) (Whole (c ∷ path) xs n)
  unfolding climb plug
  climb-step path (went_left a h s r) u t xs n e seq tot (v, ev, w) = (
    v,
    rw e ev,
    record { avl = w.avl; sequence = w.sequence ∙ ap (around path) seq; total = w.total ∙ tot },
  )
  climb-step path (went_right a h s l) u t xs n e seq tot (v, ev, w) = (
    v,
    rw e ev,
    record { avl = w.avl; sequence = w.sequence ∙ ap (around path) seq; total = w.total ∙ tot },
  )

  -- The way up restores a tree whose subtree grew or shrank by one level.
  pub climb-Whole :
      (path : List (Crumb A)) (t : Tree A) (d : ℕ)
      → IsAvl t
      → depth t ≤ suc d
      → d ≤ suc (depth t)
      → Fits path d
      → count t + path_count path < bound
      → Returns (climb t path) (Whole path (items t) (count t))
  unfolding climb plug
  climb-Whole [] t d i p q f small =
      (t, refl, record { avl = i; sequence = refl; total = omega arith })
  climb-Whole (went_left a h s r ∷ path) t d i p q f small =
      let (u, e, fixed) =
        fix_node-Fixed a h s t r i f.0 (omega arith) (omega arith) (omega arith) in
      climb-step path (went_left a h s r) u t (items t) (count t) e fixed.sequence
        (omega (arith, fixed.total))
        (climb-Whole path u (suc (max d (depth r))) fixed.avl (omega (arith, fixed.most))
          (level_left d (depth t) _ (depth u) q f.1 f.2 fixed.least fixed.level) f.3
          (omega (arith, fixed.total)))
  climb-Whole (went_right a h s l ∷ path) t d i p q f small =
      let (u, e, fixed) =
        fix_node-Fixed a h s l t f.0 i (omega arith) (omega arith) (omega arith) in
      climb-step path (went_right a h s l) u t (items t) (count t) e fixed.sequence
        (omega (arith, fixed.total))
        (climb-Whole path u (suc (max (depth l) d)) fixed.avl (omega (arith, fixed.most))
          (level_right d (depth t) _ (depth u) q f.1 f.2 fixed.least fixed.level) f.3
          (omega (arith, fixed.total)))
