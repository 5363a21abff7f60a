-- ===== src/Avl/Fix.antt =====
-- One round of `avl_fix`: src/data_structures/avl_tree.cpp.
use native.Mathlib.Decide.{ℕ_discrete}
use custom_redis.Base.{ℕ, suc, ◌+◌, ◌≤◌, ◌<◌, true, false, ◌≡◌, refl, some, ◌==◌, Returns, arith}
use custom_redis.Avl.{Tree, node, straighten_left, straighten_right, turn, fix_node}
use custom_redis.Avl.Shape.{
  bound, uint32-small, depth, count, IsAvl, branch, depth-count, avl_height-depth,
  update_node-branch,
}
use custom_redis.Avl.Turns.{Fixed}
use custom_redis.Avl.LeftTall.{straighten_left_lem}
use custom_redis.Avl.RightTall.{straighten_right_lem}

module _ {ℓ} {A : Type ℓ} where
  turn-left : (d e : ℕ) (t : Tree A) → e < bound → d ≡ e + 2 → turn d e t ≡ straighten_left t
  unfolding turn
  turn-left d e t small tall =
      let b : (d == (e + 2)) ≡ true = ground arith in
      rw (uint32-small (e + 2) (omega arith), b) refl

  turn-right :
      (d e : ℕ) (t : Tree A) → d < bound → e < bound → e ≡ d + 2 → turn d e t ≡ straighten_right t
  unfolding turn
  turn-right d e t small small' tall =
      let b : (d == (e + 2)) ≡ false = ground arith in
      let c : (e == (d + 2)) ≡ true = ground arith in
      rw (uint32-small (e + 2) (omega arith), uint32-small (d + 2) (omega arith), b, c) refl

  turn-stays :
      (d e : ℕ) (t : Tree A) → d < bound → e < bound → d ≤ suc e → e ≤ suc d → turn d e t ≡ some t
  unfolding turn
  turn-stays d e t small small' p q =
      let b : (d == (e + 2)) ≡ false = ground arith in
      let c : (e == (d + 2)) ≡ false = ground arith in
      rw (uint32-small (e + 2) (omega arith), uint32-small (d + 2) (omega arith), b, c) refl

  fix_node-turn :
      (a : A) (h s : ℕ) (l r : Tree A)
      → IsAvl l
      → IsAvl r
      → count l + count r < bound
      → fix_node (node a h s l r) ≡ turn (depth l) (depth r) (branch a l r)
  unfolding fix_node
  fix_node-turn a h s l r il ir small =
      rw
        (
          update_node-branch a h s l r il.0 ir.0 small,
          avl_height-depth l (omega arith),
          avl_height-depth r (omega arith),
        )
        refl

  turn-Fixed :
      (a : A) (l r : Tree A)
      → IsAvl l
      → IsAvl r
      → count l + count r < bound
      → depth l ≤ depth r + 2
      → depth r ≤ depth l + 2
      → Returns (turn (depth l) (depth r) (branch a l r)) (Fixed a l r)
  turn-Fixed a l r il ir small p q = elim (ℕ_discrete (depth l) (depth r + 2)) [
    | yes e ↦
        rw (turn-left (depth l) (depth r) (branch a l r) (omega (arith, depth-count r)) e)
          (straighten_left_lem a l r il ir small e)
    | no ne ↦ elim (ℕ_discrete (depth r) (depth l + 2)) [
      | yes e ↦
          rw
            (turn-right (depth l) (depth r) (branch a l r) (omega (arith, depth-count l))
              (omega (arith, depth-count r)) e)
            (straighten_right_lem a l r il ir small e)
      | no nf ↦ (
        branch a l r,
        turn-stays (depth l) (depth r) (branch a l r) (omega (arith, depth-count l))
            (omega (arith, depth-count r)) (omega arith) (omega arith),
        record {
          avl = ((refl, refl, il.0, ir.0), (omega arith, omega arith, il.1, ir.1));
          sequence = refl;
          total = refl;
          least = omega arith;
          most = omega arith;
          level = λ p q. refl;
        },
      )
    ]
  ]

  pub fix_node-Fixed :
      (a : A) (h s : ℕ) (l r : Tree A)
      → IsAvl l
      → IsAvl r
      → count l + count r < bound
      → depth l ≤ depth r + 2
      → depth r ≤ depth l + 2
      → Returns (fix_node (node a h s l r)) (Fixed a l r)
  fix_node-Fixed a h s l r il ir small p q =
      rw (fix_node-turn a h s l r il ir small) (turn-Fixed a l r il ir small p q)
