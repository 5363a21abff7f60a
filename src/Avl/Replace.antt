-- ===== src/Avl/Replace.antt =====
-- The item of a node that is replaced, and sequences with one such item: `avl_del` of
-- src/data_structures/avl_tree.cpp.
use mathlib.Core.List.{map-append}
use mathlib.Core.Path.{subst}
use custom_redis.Base.{
  ◌≡◌, refl, sym, ap, ◌∙◌, Bool, true, false, List, [], ◌∷◌, ◌++◌, map, if◌then◌else◌, arith,
}
use custom_redis.Avl.{Tree, leaf, node, replace}
use custom_redis.Avl.Shape.{items, depth, count, IsAvl}
use custom_redis.Avl.Paths.{Misses}

module _ {ℓ} {A : Type ℓ} where
  unfoldable pub put : (A → Bool) → A → A → A
  put same b x = if same x then b else x

  pub depth-replace : (same : A → Bool) (b : A) (t : Tree A) → depth (replace same b t) ≡ depth t
  unfolding replace
  depth-replace same b leaf = refl
  depth-replace same b (node a h s l r) =
      omega (arith, depth-replace same b l, depth-replace same b r)

  pub count-replace : (same : A → Bool) (b : A) (t : Tree A) → count (replace same b t) ≡ count t
  unfolding replace
  count-replace same b leaf = refl
  count-replace same b (node a h s l r) =
      omega (arith, count-replace same b l, count-replace same b r)

  pub replace-IsAvl : (same : A → Bool) (b : A) (t : Tree A) → IsAvl t → IsAvl (replace same b t)
  unfolding replace
  replace-IsAvl same b leaf i = i
  replace-IsAvl same b (node a h s l r) i =
      let (sl, bl) = replace-IsAvl same b l (i.0.2, i.1.2) in
      let (sr, br) = replace-IsAvl same b r (i.0.3, i.1.3) in
      (
        (
          omega (arith, i.0.0, depth-replace same b l, depth-replace same b r),
          omega (arith, i.0.1, count-replace same b l, count-replace same b r),
          sl,
          sr,
        ),
        (
          omega (arith, i.1.0, depth-replace same b l, depth-replace same b r),
          omega (arith, i.1.1, depth-replace same b l, depth-replace same b r),
          bl,
          br,
        ),
      )

  pub items-replace :
      (same : A → Bool) (b : A) (t : Tree A) → items (replace same b t) ≡ map (put same b) (items t)
  unfolding replace put
  items-replace same b leaf = refl
  items-replace same b (node a h s l r) =
      simp (map-append, items-replace same b l, items-replace same b r) refl

  pub map-put_missed :
      (same : A → Bool) (b : A) (xs : List A) → Misses same xs → map (put same b) xs ≡ xs
  unfolding put
  map-put_missed same b [] m = refl
  map-put_missed same b (x ∷ xs) m = rw (m.0, map-put_missed same b xs m.1) refl

  pub missed :
      (same : A → Bool) (xs ys : List A) (a : A) → Misses same (xs ++ (a ∷ ys)) → same a ≡ false
  missed same [] ys a m = m.0
  missed same (x ∷ xs) ys a m = missed same xs ys a m.1

  -- The one item that `same` holds at splits a list in one way.
  pub split_unique :
      (same : A → Bool) (xs ys before after : List A) (a b : A)
      → xs ++ (a ∷ ys) ≡ before ++ (b ∷ after)
      → same a ≡ true
      → Misses same before
      → Misses same after
      → (xs ≡ before) × (ys ≡ after)
  split_unique same [] ys [] after a b e hit mb ma = (refl, cc)
  split_unique same [] ys (c ∷ before) after a b e hit mb ma =
      let q : a ≡ c = cc in let clash : true ≡ false = sym hit ∙ ap same q ∙ mb.0 in cc
  split_unique same (x ∷ xs) ys [] after a b e hit mb ma =
      let q : xs ++ (a ∷ ys) ≡ after = cc in
      let clash : true ≡ false = sym hit ∙ missed same xs ys a (subst (Misses same) (sym q) ma) in
      cc
  split_unique same (x ∷ xs) ys (c ∷ before) after a b e hit mb ma =
      let q : xs ++ (a ∷ ys) ≡ before ++ (b ∷ after) = cc in
      let p : x ≡ c = cc in
      let (u, v) = split_unique same xs ys before after a b q hit mb.1 ma in (cc, v)
