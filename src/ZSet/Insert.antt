-- ===== src/ZSet/Insert.antt =====
-- The tree of a sorted set when a node is added, `zset_insert` of src/data_structures/zset.cpp.
use mathlib.Core.List.{append_assoc, append-nil}
use mathlib.Core.Path.{ap₂}
use custom_redis.Base.{
  ℕ, suc, ◌+◌, ◌<◌, ◌≡◌, sym, ap, ◌∙◌, inl, inr, true, false, Bool-cases, List, [], ◌∷◌, ◌++◌, some,
  Returns, arith,
}
use custom_redis.Wire.{Bytes}
use custom_redis.Avl.{Tree, leaf, node, Crumb, went_left, went_right, avl_init, fix_node, avl_fix}
use custom_redis.Avl.Shape.{bound, items, depth, count, IsAvl}
use custom_redis.Avl.Turns.{Fixed}
use custom_redis.Avl.Fix.{fix_node-Fixed}
use custom_redis.Avl.Climb.{around, path_count, Fits, climb-Whole}
use custom_redis.ZSet.{ZNode, zless, insert_path}
use custom_redis.ZSet.Order.{
  IsSorted, lows, highs, cut_low, cut_high, IsLess-before, IsSorted-left, IsSorted-right,
}

module _ (score : ℕ) (key : Bytes) where
  -- The path ends between the lesser nodes and the others, and fits a new leaf.
  record Lands (t : Tree ZNode) (path down : List (Crumb ZNode)) : Type 0 where
    fits : Fits down 0
    total : path_count down ≡ count t + path_count path
    sequence :
        (xs : List ZNode)
        → around down xs
          ≡ around path (lows score key (items t) ++ (xs ++ highs score key (items t)))

  Lands-right :
      (a : ZNode) (h k : ℕ) (l r : Tree ZNode) (path down : List (Crumb ZNode))
      → IsSorted (items l ++ (a ∷ items r))
      → zless a score key ≡ true
      → Lands r (went_right a h k l ∷ path) down
      → Lands (node a h k l r) path down
  Lands-right a h k l r path down s e w =
      let (lo, hi) =
        cut_low score key (items l) (items r) a (IsLess-before score key (items l) (items r) a s e)
          e in
      record {
        fits = w.fits;
        total = omega (arith, w.total);
        sequence = λ xs.
            w.sequence xs
            ∙ ap (around path) (
                sym (
                  append_assoc (items l) (a ∷ lows score key (items r))
                    (xs ++ highs score key (items r)))
                ∙ sym (ap₂ (λ us vs. us ++ (xs ++ vs)) lo hi));
      }

  Lands-left :
      (a : ZNode) (h k : ℕ) (l r : Tree ZNode) (path down : List (Crumb ZNode))
      → zless a score key ≡ false
      → Lands l (went_left a h k r ∷ path) down
      → Lands (node a h k l r) path down
  Lands-left a h k l r path down e w =
      let (lo, hi) = cut_high score key (items l) (items r) a e in
      record {
        fits = w.fits;
        total = omega (arith, w.total);
        sequence = λ xs.
            w.sequence xs
            ∙ ap (around path) (
                append_assoc (lows score key (items l)) (xs ++ highs score key (items l))
                  (a ∷ items r)
                ∙ ap (λ vs. lows score key (items l) ++ vs)
                    (append_assoc xs (highs score key (items l)) (a ∷ items r))
                ∙ sym (ap₂ (λ us vs. us ++ (xs ++ vs)) lo hi));
      }

  insert_path-Lands :
      (t : Tree ZNode) (path : List (Crumb ZNode))
      → IsAvl t
      → IsSorted (items t)
      → Fits path (depth t)
      → Lands t path (insert_path score key t path)
  unfolding insert_path lows highs
  insert_path-Lands leaf path i s f = record {
    fits = f;
    total = omega arith;
    sequence = λ xs. ap (around path) (sym (append-nil xs));
  }
  insert_path-Lands (node a h k l r) path i s f = elim (Bool-cases (zless a score key)) [
    | inl e ↦
        let w =
          insert_path-Lands r (went_right a h k l ∷ path) (i.0.3, i.1.3)
            (IsSorted-right (items l) (a ∷ items r) s).1 ((i.0.2, i.1.2), i.1.0, i.1.1, f) in
        rw (insert_path, e)
          (Lands-right a h k l r path (insert_path score key r (went_right a h k l ∷ path)) s e w)
    | inr e ↦
        let w =
          insert_path-Lands l (went_left a h k r ∷ path) (i.0.2, i.1.2)
            (IsSorted-left (items l) (a ∷ items r) s) ((i.0.3, i.1.3), i.1.0, i.1.1, f) in
        rw (insert_path, e)
          (Lands-left a h k l r path (insert_path score key l (went_left a h k r ∷ path)) e w)
  ]

-- A new leaf, fixed by itself, is an AVL tree of depth 1.
new_leaf : {A : Type 0} (z : A) → Returns (fix_node (avl_init z)) (Fixed z leaf leaf)
unfolding avl_init
new_leaf z =
    fix_node-Fixed z 1 1 leaf leaf (tt, tt) (tt, tt) (omega arith) (omega arith) (omega arith)

-- The tree with one node more.
pub record Added (z : ZNode) (t u : Tree ZNode) : Type 0 where
  pub avl : IsAvl u
  pub sequence : items u ≡ lows z.score z.key (items t) ++ (z ∷ highs z.score z.key (items t))
  pub total : count u ≡ suc (count t)

attach :
    (z : ZNode) (t u : Tree ZNode) (down : List (Crumb ZNode))
    → Lands z.score z.key t [] down
    → suc (count t) < bound
    → fix_node (avl_init z) ≡ some u
    → Fixed z leaf leaf u
    → Returns (avl_fix (avl_init z) down) (Added z t)
unfolding avl_fix
attach z t u down w small e f =
    let level = f.level (omega arith) (omega arith) in
    let (v, ev, wv) =
      climb-Whole down u 0 f.avl (omega (arith, level)) (omega arith) w.fits
        (omega (arith, f.total, w.total)) in
    (
      v,
      rw e ev,
      record {
        avl = wv.avl;
        sequence = wv.sequence ∙ ap (around down) f.sequence ∙ w.sequence (z ∷ []);
        total = omega (arith, wv.total, f.total, w.total);
      },
    )

-- On a balanced and sorted tree with fewer than 2 ^ 31 nodes after the insert, `avl_fix` of a new
-- node at the place that the search of `zset_insert` comes to does not fault and returns a
-- balanced tree, of one node more, with the node's place in the order among the items.
pub insert-Added :
    (z : ZNode) (t : Tree ZNode)
    → IsAvl t
    → IsSorted (items t)
    → suc (count t) < bound
    → Returns (avl_fix (avl_init z) (insert_path z.score z.key t [])) (Added z t)
insert-Added z t i s small =
    let (u, e, f) = new_leaf z in
    attach z t u _ (insert_path-Lands z.score z.key t [] i s tt) small e f
