-- ===== src/Avl/RightTall.antt =====
-- The branch of `avl_fix` for a right subtree that is too tall: src/data_structures/avl_tree.cpp.
use mathlib.Core.List.{append_assoc}
use native.Mathlib.Decide.{dec_le}
use custom_redis.Base.{
  ℕ, suc, ◌+◌, ◌≤◌, ◌<◌, max, true, false, ◌≡◌, refl, sym, ap, ◌∙◌, ◌∷◌, ◌++◌, some, ltb, Returns,
  arith,
}
use custom_redis.Avl.{Tree, leaf, node, lean_right, straighten_right}
use custom_redis.Avl.Shape.{bound, items, depth, count, IsSized, IsAvl, branch, avl_height-depth}
use custom_redis.Avl.Turns.{rotate_left-branch, rotate_right-branch, Fixed, Leans}

module _ {ℓ} {A : Type ℓ} where
  record LeansRight (r : Tree A) (d : ℕ) : Type ℓ where
    made : Leans (lean_right r) (items r) (count r)
    outer : depth made.right ≡ suc d
    inner_least : d ≤ suc (depth made.left)
    inner_most : depth made.left ≤ suc d

  lean_right-stays :
      (b : A) (h s : ℕ) (m n : Tree A)
      → IsSized (node b h s m n)
      → count m + count n < bound
      → depth m ≤ depth n
      → lean_right (node b h s m n) ≡ some (branch b m n)
  unfolding lean_right
  lean_right-stays b h s m n i small low =
      let e : ltb (depth n) (depth m) ≡ false = ground arith in
      rw (avl_height-depth m (omega arith), avl_height-depth n (omega arith), e, i.0, i.1) refl

  lean_right-turns :
      (b c : A) (h s g k : ℕ) (p q n : Tree A)
      → IsSized p
      → IsSized q
      → IsSized n
      → count p + suc (count q + count n) < bound
      → depth n < depth (node c g k p q)
      → lean_right (node b h s (node c g k p q) n) ≡ some (branch c p (branch b q n))
  unfolding lean_right
  lean_right-turns b c h s g k p q n ip iq im small low =
      let e : ltb (depth n) (depth (node c g k p q)) ≡ true = ground arith in
      rw (avl_height-depth n (omega arith), avl_height-depth (node c g k p q) (omega arith), e)
        (rotate_right-branch b c h s g k p q n ip iq im small)

  lean_right_high :
      (b : A) (h s : ℕ) (m n : Tree A) (d : ℕ)
      → IsAvl (node b h s m n)
      → suc (count m + count n) < bound
      → depth (node b h s m n) ≡ suc (suc d)
      → depth n < depth m
      → LeansRight (node b h s m n) d
  lean_right_high b h s leaf n d i small tall low = absurd (omega arith)
  lean_right_high b h s (node c g k p q) n d i small tall low = record {
    made = record {
      item = c;
      left = p;
      right = branch b q n;
      leans = lean_right-turns b c h s g k p q n i.0.2.2 i.0.2.3 i.0.3 (omega arith) low;
      avl_left = (i.0.2.2, i.1.2.2);
      avl_right = ((refl, refl, i.0.2.3, i.0.3), (omega arith, omega arith, i.1.2.3, i.1.3));
      sequence = sym (append_assoc (items p) (c ∷ items q) (b ∷ items n));
      total = omega arith;
    };
    outer = omega arith;
    inner_least = omega arith;
    inner_most = omega arith;
  }

  lean_right_lem :
      (b : A) (h s : ℕ) (m n : Tree A) (d : ℕ)
      → IsAvl (node b h s m n)
      → suc (count m + count n) < bound
      → depth (node b h s m n) ≡ suc (suc d)
      → LeansRight (node b h s m n) d
  lean_right_lem b h s m n d i small tall = elim (dec_le (depth m) (depth n)) [
    | yes low ↦ record {
      made = record {
        item = b;
        left = m;
        right = n;
        leans = lean_right-stays b h s m n i.0 (omega arith) low;
        avl_left = (i.0.2, i.1.2);
        avl_right = (i.0.3, i.1.3);
        sequence = refl;
        total = refl;
      };
      outer = omega arith;
      inner_least = omega arith;
      inner_most = omega arith;
    }
    | no high ↦ lean_right_high b h s m n d i small tall (omega arith)
  ]

  straighten_right_leans :
      (a : A) (l r : Tree A)
      → IsAvl l
      → count l + count r < bound
      → depth r ≡ depth l + 2
      → LeansRight r (depth l)
      → Returns (straighten_right (branch a l r)) (Fixed a l r)
  unfolding straighten_right
  straighten_right_leans a l r il small tall k =
      let w = k.made in
      let e =
        rotate_left-branch a w.item (suc (max (depth l) (depth r))) (suc (count l + count r)) _ _ l
          w.left w.right il.0 w.avl_left.0 w.avl_right.0 (omega (arith, w.total)) in
      (
        branch w.item (branch a l w.left) w.right,
        rw w.leans e,
        record {
          avl = (
            (refl, refl, (refl, refl, il.0, w.avl_left.0), w.avl_right.0),
            (
              omega (arith, k.outer, k.inner_least, k.inner_most),
              omega (arith, k.outer, k.inner_least, k.inner_most),
              (
                omega (arith, k.outer, k.inner_least, k.inner_most),
                omega (arith, k.outer, k.inner_least, k.inner_most),
                il.1,
                w.avl_left.1,
              ),
              w.avl_right.1,
            ),
          );
          sequence =
              append_assoc (items l) (a ∷ items w.left) (w.item ∷ items w.right)
              ∙ ap (λ xs. items l ++ (a ∷ xs)) w.sequence;
          total = omega (arith, w.total);
          least = omega (arith, k.outer, k.inner_least, k.inner_most);
          most = omega (arith, k.outer, k.inner_least, k.inner_most);
          level = λ p q. absurd (omega arith);
        },
      )

  pub straighten_right_lem :
      (a : A) (l r : Tree A)
      → IsAvl l
      → IsAvl r
      → count l + count r < bound
      → depth r ≡ depth l + 2
      → Returns (straighten_right (branch a l r)) (Fixed a l r)
  unfolding straighten_right
  straighten_right_lem a l leaf il ir small tall = absurd (omega arith)
  straighten_right_lem a l (node b h s m n) il ir small tall =
      straighten_right_leans a l (node b h s m n) il small tall
        (lean_right_lem b h s m n (depth l) ir (omega arith) (omega arith))
