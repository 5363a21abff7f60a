-- ===== src/Base/Bits.antt =====
-- Bounds on masked and joined numbers, and the test for a power of two.
use Prim.Native.Nat.{
  ℕ, zero, suc, ◌+◌, ◌-◌, ◌/◌, ◌%◌, ◌^◌, ◌≤◌, ◌<◌, min, max, ◌*◌, bit_and, bit_or, bit_xor, differ,
  bit_xor-bitwise, digits, bit_and-bitwise, bit_or-bitwise,
}
use mathlib.Core.Path.{◌≡◌, refl}
use native.Mathlib.Omega.{arith}
use native.Mathlib.Nat.{one-le-pow, two-pow-succ, mul-add}
use mathlib.Core.Bool.{Bool, true, ◌&&◌}
use mathlib.Core.Logic.{inl, inr}
use custom_redis.Base.Compare.{◌==◌, Bool-cases}

pub pow-pos : (k : ℕ) → 0 < 2 ^ k
pow-pos k = one-le-pow k 2 (omega arith)

-- The digits that both numbers have, at most `rounds` of them.
abbrev shared : ℕ → ℕ → ℕ → ℕ
shared rounds x y = digits (λ rest. zero) min rounds x y

shared_le : (rounds x mask : ℕ) → shared rounds x mask ≤ mask
shared_le zero x mask = omega arith
shared_le (suc rounds) zero mask = omega arith
shared_le (suc rounds) (suc x) mask = omega (arith, shared_le rounds (suc x / 2) (mask / 2))

-- A mask bounds what it lets through.
pub bit_and-le : (x mask : ℕ) → bit_and x mask ≤ mask
bit_and-le x mask = omega (arith, bit_and-bitwise x mask, shared_le x x mask)

-- A power of two and its predecessor have no digit in common.
shared-pow_pred : (rounds k x y : ℕ) → x + 1 ≡ 2 ^ k → y ≡ 2 ^ k → shared rounds x y ≡ 0
shared-pow_pred zero k x y e e' = refl
shared-pow_pred (suc rounds) k zero y e e' = refl
shared-pow_pred (suc rounds) zero (suc x) y e e' = absurd (omega arith)
shared-pow_pred (suc rounds) (suc k) (suc x) y e e' =
    let ih =
      shared-pow_pred rounds k (suc x / 2) (y / 2) (omega (arith, two-pow-succ k))
        (omega (arith, two-pow-succ k)) in
    omega (arith, ih, two-pow-succ k)

-- The test for a power of two, `((n-1) & n) == 0`, passes on one.
pub bit_and-pow_pred : (k : ℕ) → bit_and (2 ^ k - 1) (2 ^ k) ≡ 0
bit_and-pow_pred k = omega (
  arith,
  bit_and-bitwise (2 ^ k - 1) (2 ^ k),
  shared-pow_pred (2 ^ k - 1) k (2 ^ k - 1) (2 ^ k) (omega (arith, pow-pos k)) refl,
)

-- The digits that one of the numbers has.
abbrev joined : ℕ → ℕ → ℕ → ℕ
joined rounds x y = digits (λ rest. rest) max rounds x y

joined-shifted :
    (rounds k x y z : ℕ) → x ≤ rounds → x < 2 ^ k → z ≡ y * 2 ^ k → joined rounds x z ≡ x + z
joined-shifted zero k zero y z e lt s = omega arith
joined-shifted zero k (suc x) y z e lt s = absurd (omega arith)
joined-shifted (suc rounds) k zero y z e lt s = omega arith
joined-shifted (suc rounds) zero (suc x) y z e lt s = absurd (omega arith)
joined-shifted (suc rounds) (suc k) (suc x) y z e lt s =
    let power = two-pow-succ k in
    let twice : z ≡ y * 2 ^ k + y * 2 ^ k = rw (s, power) (mul-add y (2 ^ k) (2 ^ k)) in
    let half : z / 2 ≡ y * 2 ^ k = omega (arith, twice) in
    let ih =
      joined-shifted rounds k (suc x / 2) y (z / 2) (omega arith) (omega (arith, power)) half in
    omega (arith, ih, twice)

-- Numbers without a digit in common are joined by adding them.
pub bit_or-shifted : (x y k : ℕ) → x < 2 ^ k → bit_or x (y * 2 ^ k) ≡ x + y * 2 ^ k
bit_or-shifted x y k lt =
    omega (
      arith,
      bit_or-bitwise x (y * 2 ^ k),
      joined-shifted x k x y (y * 2 ^ k) (omega arith) lt refl,
    )

shifted-joined :
    (rounds k x y z : ℕ) → z ≤ rounds → x < 2 ^ k → z ≡ y * 2 ^ k → joined rounds z x ≡ z + x
shifted-joined zero k x y zero e lt s = omega arith
shifted-joined zero k x y (suc z) e lt s = absurd (omega arith)
shifted-joined (suc rounds) k x y zero e lt s = omega arith
shifted-joined (suc rounds) zero x y (suc z) e lt s =
    let ih =
      shifted-joined rounds zero (x / 2) (suc z / 2) (suc z / 2) (omega arith) (omega arith)
        (omega arith) in
    omega (arith, ih)
shifted-joined (suc rounds) (suc k) x y (suc z) e lt s =
    let power = two-pow-succ k in
    let twice : suc z ≡ y * 2 ^ k + y * 2 ^ k = rw (s, power) (mul-add y (2 ^ k) (2 ^ k)) in
    let half : suc z / 2 ≡ y * 2 ^ k = omega (arith, twice) in
    let ih =
      shifted-joined rounds k (x / 2) y (suc z / 2) (omega arith) (omega (arith, power)) half in
    omega (arith, ih, twice)

pub shifted-bit_or : (x y k : ℕ) → x < 2 ^ k → bit_or (y * 2 ^ k) x ≡ y * 2 ^ k + x
shifted-bit_or x y k lt =
    let z = y * 2 ^ k in
    omega (arith, bit_or-bitwise z x, shifted-joined z k x y z (omega arith) lt refl)

differ_le : (x y : ℕ) → x < 2 → y < 2 → differ x y ≤ 1
differ_le zero y lt lt' = omega arith
differ_le (suc zero) zero lt lt' = omega arith
differ_le (suc zero) (suc zero) lt lt' = omega arith
differ_le (suc zero) (suc (suc y)) lt lt' = absurd (omega arith)
differ_le (suc (suc x)) y lt lt' = absurd (omega arith)

-- The digits that exactly one of the numbers has.
abbrev unshared : ℕ → ℕ → ℕ → ℕ
unshared rounds x y = digits (λ rest. rest) differ rounds x y

unshared-lt : (rounds k x y : ℕ) → x < 2 ^ k → y < 2 ^ k → unshared rounds x y < 2 ^ k
unshared-lt zero k x y lt lt' = lt'
unshared-lt (suc rounds) k zero y lt lt' = lt'
unshared-lt (suc rounds) zero (suc x) y lt lt' = absurd (omega arith)
unshared-lt (suc rounds) (suc k) (suc x) y lt lt' =
    let power = two-pow-succ k in
    let ih =
      unshared-lt rounds k (suc x / 2) (y / 2) (omega (arith, power)) (omega (arith, power)) in
    omega (arith, power, ih, differ_le (suc x % 2) (y % 2) (omega arith) (omega arith))

-- Exclusive or needs no digit more.
pub bit_xor-lt : (k x y : ℕ) → x < 2 ^ k → y < 2 ^ k → bit_xor x y < 2 ^ k
bit_xor-lt k x y lt lt' = omega (arith, bit_xor-bitwise x y, unshared-lt x k x y lt lt')

-- A test that every number below a bound passes.
unfoldable pub holds_below : (ℕ → Bool) → ℕ → Bool
holds_below test zero = true
holds_below test (suc bound) = holds_below test bound && test bound

pub below-holds :
    (test : ℕ → Bool) (bound x : ℕ) → holds_below test bound ≡ true → x < bound → test x ≡ true
unfolding holds_below
below-holds test zero x h lt = absurd (omega arith)
below-holds test (suc bound) x h lt = elim (Bool-cases (x == bound)) [
  | inl last ↦ let e : x ≡ bound = ground arith in rw e (ground arith)
  | inr other ↦ below-holds test bound x (ground arith) (ground arith)
]
