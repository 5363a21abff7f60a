-- ===== src/Avl/LeftTall.antt =====
-- The branch of `avl_fix` for a left subtree that is too tall: src/data_structures/avl_tree.cpp.
use mathlib.Core.List.{append_assoc}
use native.Mathlib.Decide.{dec_le}
use custom_redis.Base.{
  ℕ, suc, ◌+◌, ◌≤◌, ◌<◌, max, true, false, ◌≡◌, refl, sym, ap, ◌∙◌, ◌∷◌, ◌++◌, some, ltb, Returns,
  arith,
}
use custom_redis.Avl.{Tree, leaf, node, lean_left, straighten_left}
use custom_redis.Avl.Shape.{bound, items, depth, count, IsSized, IsAvl, branch, avl_height-depth}
use custom_redis.Avl.Turns.{rotate_left-branch, rotate_right-branch, Fixed, Leans}

module _ {ℓ} {A : Type ℓ} where
  record LeansLeft (l : Tree A) (d : ℕ) : Type ℓ where
    made : Leans (lean_left l) (items l) (count l)
    outer : depth made.left ≡ suc d
    inner_least : d ≤ suc (depth made.right)
    inner_most : depth made.right ≤ suc d

  lean_left-stays :
      (b : A) (h s : ℕ) (m n : Tree A)
      → IsSized (node b h s m n)
      → count m + count n < bound
      → depth n ≤ depth m
      → lean_left (node b h s m n) ≡ some (branch b m n)
  unfolding lean_left
  lean_left-stays b h s m n i small low =
      let e : ltb (depth m) (depth n) ≡ false = ground arith in
      rw (avl_height-depth m (omega arith), avl_height-depth n (omega arith), e, i.0, i.1) refl

  lean_left-turns :
      (b c : A) (h s g k : ℕ) (m p q : Tree A)
      → IsSized m
      → IsSized p
      → IsSized q
      → suc (count m + count p) + count q < bound
      → depth m < depth (node c g k p q)
      → lean_left (node b h s m (node c g k p q)) ≡ some (branch c (branch b m p) q)
  unfolding lean_left
  lean_left-turns b c h s g k m p q im ip iq small low =
      let e : ltb (depth m) (depth (node c g k p q)) ≡ true = ground arith in
      rw (avl_height-depth m (omega arith), avl_height-depth (node c g k p q) (omega arith), e)
        (rotate_left-branch b c h s g k m p q im ip iq small)

  lean_left_high :
      (b : A) (h s : ℕ) (m n : Tree A) (d : ℕ)
      → IsAvl (node b h s m n)
      → suc (count m + count n) < bound
      → depth (node b h s m n) ≡ suc (suc d)
      → depth m < depth n
      → LeansLeft (node b h s m n) d
  lean_left_high b h s m leaf d i small tall low = absurd (omega arith)
  lean_left_high b h s m (node c g k p q) d i small tall low = record {
    made = record {
      item = c;
      left = branch b m p;
      right = q;
      leans = lean_left-turns b c h s g k m p q i.0.2 i.0.3.2 i.0.3.3 (omega arith) low;
      avl_left = ((refl, refl, i.0.2, i.0.3.2), (omega arith, omega arith, i.1.2, i.1.3.2));
      avl_right = (i.0.3.3, i.1.3.3);
      sequence = append_assoc (items m) (b ∷ items p) (c ∷ items q);
      total = omega arith;
    };
    outer = omega arith;
    inner_least = omega arith;
    inner_most = omega arith;
  }

  lean_left_lem :
      (b : A) (h s : ℕ) (m n : Tree A) (d : ℕ)
      → IsAvl (node b h s m n)
      → suc (count m + count n) < bound
      → depth (node b h s m n) ≡ suc (suc d)
      → LeansLeft (node b h s m n) d
  lean_left_lem b h s m n d i small tall = elim (dec_le (depth n) (depth m)) [
    | yes low ↦ record {
      made = record {
        item = b;
        left = m;
        right = n;
        leans = lean_left-stays b h s m n i.0 (omega arith) low;
        avl_left = (i.0.2, i.1.2);
        avl_right = (i.0.3, i.1.3);
        sequence = refl;
        total = refl;
      };
      outer = omega arith;
      inner_least = omega arith;
      inner_most = omega arith;
    }
    | no high ↦ lean_left_high b h s m n d i small tall (omega arith)
  ]

  straighten_left_leans :
      (a : A) (l r : Tree A)
      → IsAvl r
      → count l + count r < bound
      → depth l ≡ depth r + 2
      → LeansLeft l (depth r)
      → Returns (straighten_left (branch a l r)) (Fixed a l r)
  unfolding straighten_left
  straighten_left_leans a l r ir small tall k =
      let w = k.made in
      let e =
        rotate_right-branch a w.item (suc (max (depth l) (depth r))) (suc (count l + count r)) _ _
          w.left w.right r w.avl_left.0 w.avl_right.0 ir.0 (omega (arith, w.total)) in
      (
        branch w.item w.left (branch a w.right r),
        rw w.leans e,
        record {
          avl = (
            (refl, refl, w.avl_left.0, (refl, refl, w.avl_right.0, ir.0)),
            (
              omega (arith, k.outer, k.inner_least, k.inner_most),
              omega (arith, k.outer, k.inner_least, k.inner_most),
              w.avl_left.1,
              (
                omega (arith, k.outer, k.inner_least, k.inner_most),
                omega (arith, k.outer, k.inner_least, k.inner_most),
                w.avl_right.1,
                ir.1,
              ),
            ),
          );
          sequence =
              sym (append_assoc (items w.left) (w.item ∷ items w.right) (a ∷ items r))
              ∙ ap (λ xs. xs ++ (a ∷ items r)) w.sequence;
          total = omega (arith, w.total);
          least = omega (arith, k.outer, k.inner_least, k.inner_most);
          most = omega (arith, k.outer, k.inner_least, k.inner_most);
          level = λ p q. absurd (omega arith);
        },
      )

  pub straighten_left_lem :
      (a : A) (l r : Tree A)
      → IsAvl l
      → IsAvl r
      → count l + count r < bound
      → depth l ≡ depth r + 2
      → Returns (straighten_left (branch a l r)) (Fixed a l r)
  unfolding straighten_left
  straighten_left_lem a leaf r il ir small tall = absurd (omega arith)
  straighten_left_lem a (node b h s m n) r il ir small tall =
      straighten_left_leans a (node b h s m n) r ir small tall
        (lean_left_lem b h s m n (depth r) il (omega arith) (omega arith))
