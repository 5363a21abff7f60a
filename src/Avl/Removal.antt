-- ===== src/Avl/Removal.antt =====
-- The two ways in which a node leaves the tree, `del_simple` and the swap of `avl_del`:
-- src/data_structures/avl_tree.cpp.
use mathlib.Core.List.{map-append}
use custom_redis.Base.{
  ℕ, suc, ◌+◌, ◌≤◌, ◌<◌, ◌≡◌, refl, ap, ◌∙◌, Bool, true, List, [], ◌∷◌, ◌++◌, map, some, Returns,
  arith,
}
use custom_redis.Avl.{Tree, leaf, node, Place, climb, avl_fix, only_child, del_simple, replace}
use custom_redis.Avl.Shape.{bound, items, depth, count, IsAvl}
use custom_redis.Avl.Fix.{fix_node-Fixed}
use custom_redis.Avl.Climb.{around, path_count, Fits, climb-Whole}
use custom_redis.Avl.Paths.{Misses}
use custom_redis.Avl.Replace.{put, count-replace, replace-IsAvl, items-replace, map-put_missed}

module _ {ℓ} {A : Type ℓ} where
  -- The tree without the node.
  pub record Removed (xs : List A) (n : ℕ) (t : Tree A) : Type ℓ where
    pub avl : IsAvl t
    pub sequence : items t ≡ xs
    pub total : suc (count t) ≡ n

  -- A node with at most one child: the child takes its place.
  pub promote :
      (p : Place A) (child : Tree A) (n : ℕ)
      → only_child p.left p.right ≡ some child
      → IsAvl child
      → Fits p.path (suc (depth child))
      → suc (count child) + path_count p.path ≡ n
      → n ≤ bound
      → Returns (del_simple p) (Removed (around p.path (items child)) n)
  unfolding del_simple
  promote p child n e i f tot small =
      let (t, et, w) =
        climb-Whole p.path child (suc (depth child)) i (omega arith) (omega arith) f
          (omega arith) in
      (t, rw e et, record { avl = w.avl; sequence = w.sequence; total = omega (arith, w.total) })

  -- The last round, at the root alone.
  pub fix_alone :
      (t : Tree A)
      → IsAvl t
      → count t < bound
      → 0 < count t
      → Returns (avl_fix t []) (Removed (items t) (suc (count t)))
  unfolding avl_fix climb
  fix_alone leaf i small some_nodes = absurd (omega arith)
  fix_alone (node a h s l r) i small some_nodes =
      let (u, e, w) =
        fix_node-Fixed a h s l r (i.0.2, i.1.2) (i.0.3, i.1.3) (omega arith) (omega arith)
          (omega arith) in
      (u, rw e refl, record { avl = w.avl; sequence = w.sequence; total = omega (arith, w.total) })

  pub some_nodes : (t : Tree A) (xs ys : List A) (a : A) → items t ≡ xs ++ (a ∷ ys) → 0 < count t
  some_nodes (node a h s l r) xs ys b e = omega arith
  some_nodes leaf [] ys b e = cc
  some_nodes leaf (x ∷ xs) ys b e = cc

  pub map-put_hit :
      (same : A → Bool) (b a : A) (xs ys : List A)
      → same a ≡ true
      → Misses same xs
      → Misses same ys
      → map (put same b) (xs ++ (a ∷ ys)) ≡ xs ++ (b ∷ ys)
  unfolding put
  map-put_hit same b a xs ys hit mx my =
      rw (map-append, map-put_missed same b xs mx, hit, map-put_missed same b ys my) refl

  -- The victim moved to the place of the node that goes.
  pub swap_in :
      (same : A → Bool) (t : Tree A) (a b : A) (xs ys : List A)
      → IsAvl t
      → count t < bound
      → items t ≡ xs ++ (a ∷ ys)
      → same a ≡ true
      → Misses same xs
      → Misses same ys
      → Returns (avl_fix (replace same b t) []) (Removed (xs ++ (b ∷ ys)) (suc (count t)))
  swap_in same t a b xs ys i small e hit mx my =
      let (u, eu, w) =
        fix_alone (replace same b t) (replace-IsAvl same b t i)
          (omega (arith, count-replace same b t))
          (omega (arith, count-replace same b t, some_nodes t xs ys a e)) in
      (
        u,
        eu,
        record {
          avl = w.avl;
          sequence =
              w.sequence
              ∙ items-replace same b t
              ∙ ap (map (put same b)) e
              ∙ map-put_hit same b a xs ys hit mx my;
          total = omega (arith, w.total, count-replace same b t);
        },
      )
