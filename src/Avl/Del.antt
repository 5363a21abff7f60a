-- ===== src/Avl/Del.antt =====
-- The deletion of a node, `avl_del`: src/data_structures/avl_tree.cpp.
use mathlib.Core.List.{append_assoc, append-nil}
use mathlib.Core.Path.{subst}
use custom_redis.Base.{
  ℕ, suc, ◌+◌, ◌<◌, max, ◌≡◌, refl, sym, ap, ◌∙◌, inl, inr, Bool, true, false, List, [], ◌∷◌, ◌++◌,
  some, ◌>>=◌, Returns, arith,
}
use custom_redis.Avl.{
  Tree, leaf, node, Crumb, went_right, Place, find_place, leftmost, avl_fix, only_child, del_simple,
  replace, del_inner, del_place, avl_del,
}
use custom_redis.Avl.Shape.{bound, items, depth, count, IsAvl}
use custom_redis.Avl.Climb.{around, Fits}
use custom_redis.Avl.Paths.{
  fore, aft, around-sides, IsPlace, Misses, Found, find_place-Found, IsVictim, leftmost-IsVictim,
}
use custom_redis.Avl.Replace.{missed, split_unique}
use custom_redis.Avl.Removal.{Removed, promote, swap_in}

module _ {ℓ} {A : Type ℓ} where
  abbrev place_of : A → ℕ → ℕ → Tree A → Tree A → List (Crumb A) → Place A
  place_of a h s l r path = record {
    item = a;
    height = h;
    size = s;
    left = l;
    right = r;
    path = path;
  }

  -- What stands on either side of the node that goes.
  place_sides :
      (same : A → Bool) (p : Place A) (before after : List A) (n : ℕ) (a : A)
      → IsPlace same (before ++ (a ∷ after)) n p
      → Misses same before
      → Misses same after
      → (fore p.path ++ items p.left ≡ before) × (items p.right ++ aft p.path ≡ after)
  place_sides same p before after n a w mb ma =
      let e : (fore p.path ++ items p.left) ++ (p.item ∷ (items p.right ++ aft p.path))
          ≡ before ++ (a ∷ after) =
        append_assoc (fore p.path) (items p.left) (p.item ∷ (items p.right ++ aft p.path))
        ∙ ap (λ ys. fore p.path ++ ys)
            (sym (append_assoc (items p.left) (p.item ∷ items p.right) (aft p.path)))
        ∙ sym (around-sides p.path (items p.left ++ (p.item ∷ items p.right)))
        ∙ w.sequence in
      split_unique same (fore p.path ++ items p.left) (items p.right ++ aft p.path) before after
        p.item a e w.hit mb ma

  -- The tree without the victim: its item is still in the place of the node that goes.
  victim_sequence :
      (p v : Place A) (right : Tree A) (before after : List A) (n : ℕ)
      → right ≡ p.right
      → (iv : IsVictim
          (items right)
          (count right)
          (went_right p.item p.height p.size p.left ∷ p.path)
          v)
      → fore p.path ++ items p.left ≡ before
      → items p.right ++ aft p.path ≡ after
      → (around v.path (items v.right) ≡ before ++ (p.item ∷ (iv.rest ++ aft p.path)))
        × (v.item ∷ (iv.rest ++ aft p.path) ≡ after)
  victim_sequence p v right before after n er iv el ea =
      let lhs : (fore p.path ++ items p.left) ++ (p.item ∷ (iv.rest ++ aft p.path))
          ≡ around v.path (items v.right) =
        append_assoc (fore p.path) (items p.left) (p.item ∷ (iv.rest ++ aft p.path))
        ∙ ap (λ ys. fore p.path ++ ys)
            (sym (append_assoc (items p.left) (p.item ∷ iv.rest) (aft p.path)))
        ∙ sym (around-sides p.path (items p.left ++ (p.item ∷ iv.rest)))
        ∙ sym iv.sequence in
      (
        sym lhs ∙ ap (λ xs. xs ++ (p.item ∷ (iv.rest ++ aft p.path))) el,
        ap (λ xs. xs ++ aft p.path) (sym iv.items_split ∙ ap items er) ∙ ea,
      )

  moved :
      (same : A → Bool) (p v : Place A) (before after : List A) (n : ℕ) (a : A)
      → IsPlace same (before ++ (a ∷ after)) n p
      → n < bound
      → Returns (del_simple v) (Removed (around v.path (items v.right)) n)
      → (rest : List A) × (around v.path (items v.right) ≡ before ++ (p.item ∷ rest))
        × (v.item ∷ rest ≡ after)
      → Misses same before
      → Misses same after
      → Returns
          (del_simple v >>= λ root. avl_fix (replace same v.item root) [])
          (Removed (before ++ after) n)
  moved same p v before after n a w small (u, eu, wu) (rest, seq, split) mb ma =
      let mr = subst (Misses same) (sym split) ma in
      let (t, et, wt) =
        swap_in same u p.item v.item before rest wu.avl (omega (arith, wu.total))
          (wu.sequence ∙ seq) w.hit mb mr.1 in
      (
        t,
        rw eu et,
        record {
          avl = wt.avl;
          sequence = wt.sequence ∙ ap (λ ys. before ++ ys) split;
          total = omega (arith, wt.total, wu.total);
        },
      )

  -- A node with two children: the first of the right subtree is taken out and moved.
  inner_Removed :
      (same : A → Bool) (p : Place A) (right : Tree A) (before after : List A) (n : ℕ) (a : A)
      → IsPlace same (before ++ (a ∷ after)) n p
      → n < bound
      → right ≡ p.right
      → 0 < count right
      → Misses same before
      → Misses same after
      → Returns (del_inner same p right) (Removed (before ++ after) n)
  unfolding del_inner only_child
  inner_Removed same p leaf before after n a w small er pos mb ma = absurd (omega arith)
  inner_Removed same p (node b g k m r) before after n a w small er pos mb ma =
      let (el, ea) = place_sides same p before after n a w mb ma in
      let right : Tree A = node b g k m r in
      let path : List (Crumb A) = went_right p.item p.height p.size p.left ∷ p.path in
      let avl : IsAvl right = subst IsAvl (sym er) (w.avl.0.3, w.avl.1.3) in
      let f : Fits path (depth right) =
        subst (λ t. Fits path (depth t)) (sym er)
          ((w.avl.0.2, w.avl.1.2), w.avl.1.0, w.avl.1.1, w.fits) in
      let v : Place A = leftmost b g k m r path in
      let iv = leftmost-IsVictim b g k m r path avl f in
      let simple =
        promote v v.right n (rw iv.first refl) iv.avl iv.fits
          (omega (arith, iv.total, w.total, ap count er)) (omega arith) in
      let (seq, split) = victim_sequence p v right before after n er iv el ea in
      moved same p v before after n a w small simple (iv.rest ++ aft p.path, seq, split) mb ma

  only_child_lem :
      (l r child : Tree A)
      → only_child l r ≡ some child
      → IsAvl l
      → IsAvl r
      → IsAvl child
        × (depth child ≡ max (depth l) (depth r))
        × (count child ≡ count l + count r)
        × (items child ≡ items l ++ items r)
  unfolding only_child
  only_child_lem leaf r child e il ir =
      let q : r ≡ child = cc in
      (subst IsAvl q ir, omega (arith, ap depth q), omega (arith, ap count q), ap items (sym q))
  only_child_lem (node a h s l m) leaf child e il ir =
      let q : node a h s l m ≡ child = cc in
      (
        subst IsAvl q il,
        omega (arith, ap depth q),
        omega (arith, ap count q),
        ap items (sym q) ∙ sym (append-nil (items (node a h s l m))),
      )
  only_child_lem (node a h s l m) (node b g k n r) child e il ir = cc

  outer_Removed :
      (same : A → Bool) (p : Place A) (child : Tree A) (before after : List A) (n : ℕ) (a : A)
      → IsPlace same (before ++ (a ∷ after)) n p
      → n < bound
      → only_child p.left p.right ≡ some child
      → Misses same before
      → Misses same after
      → Returns (del_simple p) (Removed (before ++ after) n)
  outer_Removed same p child before after n a w small e mb ma =
      let (el, ea) = place_sides same p before after n a w mb ma in
      let (i, d, c, seq) =
        only_child_lem p.left p.right child e (w.avl.0.2, w.avl.1.2) (w.avl.0.3, w.avl.1.3) in
      let (t, et, wt) =
        promote p child n e i (subst (λ k. Fits p.path (suc k)) (sym d) w.fits)
          (omega (arith, w.total)) (omega arith) in
      (
        t,
        et,
        record {
          avl = wt.avl;
          sequence =
              wt.sequence
              ∙ around-sides p.path (items child)
              ∙ ap (λ xs. fore p.path ++ (xs ++ aft p.path)) seq
              ∙ ap (λ xs. fore p.path ++ xs)
                  (append_assoc (items p.left) (items p.right) (aft p.path))
              ∙ sym (append_assoc (fore p.path) (items p.left) (items p.right ++ aft p.path))
              ∙ ap (λ xs. xs ++ (items p.right ++ aft p.path)) el
              ∙ ap (λ xs. before ++ xs) ea;
          total = wt.total;
        },
      )

  place_Removed :
      (same : A → Bool) (b : A) (h s : ℕ) (l r : Tree A) (path : List (Crumb A))
      (before after : List A) (n : ℕ) (a : A)
      → IsPlace same (before ++ (a ∷ after)) n (place_of b h s l r path)
      → n < bound
      → Misses same before
      → Misses same after
      → Returns (del_place same (place_of b h s l r path) l r) (Removed (before ++ after) n)
  unfolding del_place only_child
  place_Removed same b h s leaf r path before after n a w small mb ma =
      outer_Removed same (place_of b h s leaf r path) r before after n a w small refl mb ma
  place_Removed same b h s (node c g k m q) leaf path before after n a w small mb ma =
      outer_Removed same (place_of b h s (node c g k m q) leaf path) (node c g k m q) before after n
        a w small refl mb ma
  place_Removed same b h s (node c g k m q) (node d j o u v) path before after n a w small mb ma =
      inner_Removed same (place_of b h s (node c g k m q) (node d j o u v) path) (node d j o u v)
        before after n a w small refl (omega arith) mb ma

  Found-Removed :
      (same : A → Bool) (t : Tree A) (before after : List A) (a : A)
      → count t < bound
      → items t ≡ before ++ (a ∷ after)
      → same a ≡ true
      → Misses same before
      → Misses same after
      → Found same t [] (find_place same t [])
      → Returns (avl_del same t) (Removed (before ++ after) (count t))
  unfolding avl_del
  Found-Removed same t before after a small e hit mb ma (inl (_, m)) =
      let clash : true ≡ false = sym hit ∙ missed same before after a (subst (Misses same) e m) in
      cc
  Found-Removed same t before after a small e hit mb ma (inr (p, ep, w)) = rw ep (
      place_Removed same p.item p.height p.size p.left p.right p.path before after (count t) a
        (record {
          hit = w.hit;
          avl = w.avl;
          fits = w.fits;
          sequence = w.sequence ∙ e;
          total = omega (arith, w.total);
        })
        small mb ma)

  -- On a balanced tree with right heights and sizes and fewer than 2 ^ 31 nodes, in which exactly
  -- one item is the wanted one, `avl_del` does not fault and returns a balanced tree with right
  -- heights and sizes and the items in order without that one, whether the node has no child, one
  -- or two.
  pub avl_del-Removed :
      (same : A → Bool) (t : Tree A) (before after : List A) (a : A)
      → IsAvl t
      → count t < bound
      → items t ≡ before ++ (a ∷ after)
      → same a ≡ true
      → Misses same before
      → Misses same after
      → Returns (avl_del same t) (Removed (before ++ after) (count t))
  avl_del-Removed same t before after a i small e hit mb ma =
      Found-Removed same t before after a small e hit mb ma (find_place-Found same t [] i tt)
