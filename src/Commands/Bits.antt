-- ===== src/Commands/Bits.antt =====
-- Bits of a bitmap that are set and read, `do_setbit`, `do_getbit` and `do_bitcount` of
-- src/redis_functions.cpp.
use mathlib.Core.Path.{subst}
use native.Mathlib.Decide.{ℕ_discrete}
use custom_redis.Base.{
  ℕ, zero, suc, ◌-◌, ◌/◌, ◌%◌, ◌<◌, ◌≡◌, refl, Bool, true, false, ◌&&◌, List, [], ◌∷◌, All, some,
  ◌==◌, ==_iff, if◌then◌else◌, length, get_elem?, set, get_elem?-set, get_elem?-some, length-set,
  Returns, arith,
}
use custom_redis.Wire.{Bytes}
use custom_redis.Commands.Bitmaps.{bit_at, with_bit, put_bit, get_bit}

-- A test of all numbers below a bound.
below : ℕ → (ℕ → Bool) → Bool
below zero p = true
below (suc n) p = p n && below n p

below-holds : (n : ℕ) (p : ℕ → Bool) (i : ℕ) → below n p ≡ true → i < n → p i ≡ true
unfolding below
below-holds zero p i b lt = absurd (omega arith)
below-holds (suc n) p i b lt = elim (ℕ_discrete i n) [
  | yes e ↦ rw e (ground arith)
  | no ne ↦ below-holds n p i (ground arith) (omega arith)
]

-- The law of one byte, as a test.
bit_law : Bool → ℕ → ℕ → ℕ → Bool
bit_law one byte k l =
    bit_at (with_bit byte k one) l == (if k == l then (if one then 1 else 0) else bit_at byte l)

laws :
    below 256 (λ byte. below 8 λ k. below 8 λ l. bit_law true byte k l && bit_law false byte k l)
    ≡ true
unfolding below bit_law bit_at with_bit
laws = refl

one_law :
    (one : Bool) (byte k l : ℕ)
    → (bit_law true byte k l && bit_law false byte k l) ≡ true
    → bit_law one byte k l ≡ true
one_law true byte k l e = ground arith
one_law false byte k l e = ground arith

same_cell :
    (i j : ℕ)
    → i / 8 ≡ j / 8
    → (one : Bool) (byte : ℕ)
    → some (if (7 - i % 8) == (7 - j % 8) then (if one then 1 else 0) else bit_at byte (7 - j % 8))
      ≡ (if i == j then some (if one then 1 else 0) else some (bit_at byte (7 - j % 8)))
same_cell i j near one byte = elim (ℕ_discrete i j) [
  | yes e ↦
      let test : ((7 - i % 8) == (7 - j % 8)) ≡ true = rw e (ground arith) in
      let test' : (i == j) ≡ true = ground arith in rw (test, test') refl
  | no ne ↦
      let diff : ¬ (7 - i % 8 ≡ 7 - j % 8) = omega arith in
      let test : ((7 - i % 8) == (7 - j % 8)) ≡ false = ground arith in
      let test' : (i == j) ≡ false = ground arith in rw (test, test') refl
]

bit-with_bit :
    (one : Bool) (byte k l : ℕ)
    → byte < 256
    → k < 8
    → l < 8
    → bit_at (with_bit byte k one) l ≡ (if k == l then (if one then 1 else 0) else bit_at byte l)
unfolding bit_law
bit-with_bit one byte k l hb hk hl =
    let a = below-holds 256 _ byte laws hb in
    let b = below-holds 8 _ k a hk in
    let c = below-holds 8 (λ l. bit_law true byte k l && bit_law false byte k l) l b hl in
    (==_iff _ _).0 (one_law one byte k l c)

pub All-get {ℓ} :
    {A : Type ℓ} (P : A → Type 0) (xs : List A) (i : ℕ) (x : A)
    → All P xs
    → get_elem? xs i ≡ some x
    → P x
All-get P [] i x a e = cc
All-get P (y ∷ xs) zero x a e = subst P (cc) a.0
All-get P (y ∷ xs) (suc i) x a e = All-get P xs i x a.1 e

abbrev pub IsBytes : Bytes → Type 0
IsBytes s = All (λ b. b < 256) s

-- A bit that is put is read back, and the other bits are read as before.
pub get_bit-put_bit :
    (bitmap : Bytes) (i j : ℕ) (one : Bool)
    → IsBytes bitmap
    → i / 8 < length bitmap
    → Returns (put_bit bitmap i one) λ r.
      (get_bit bitmap i ≡ some r.0)
      × (length r.1 ≡ length bitmap)
      × (get_bit r.1 j ≡ (if i == j then some (if one then 1 else 0) else get_bit bitmap j))
unfolding put_bit get_bit
get_bit-put_bit bitmap i j one bytes lt =
    let (byte, at) = get_elem?-some bitmap (i / 8) lt in
    let small = All-get (λ b. b < 256) bitmap (i / 8) byte bytes at in
    let new : ℕ = with_bit byte (7 - i % 8) one in
    let cell = get_elem?-set bitmap (i / 8) (j / 8) new lt in
    (
      (bit_at byte (7 - i % 8), set bitmap (i / 8) new),
      rw at refl,
      (
        rw at refl,
        length-set bitmap (i / 8) new,
        elim (ℕ_discrete (i / 8) (j / 8)) [
          | no far ↦
              let test : (i / 8 == j / 8) ≡ false = ground arith in
              let test' : (i == j) ≡ false = ground arith in rw (cell, test, test') refl
          | yes near ↦
              let test : (i / 8 == j / 8) ≡ true = ground arith in
              let law =
                bit-with_bit one byte (7 - i % 8) (7 - j % 8) small (omega arith) (omega arith) in
              let at' : get_elem? bitmap (j / 8) ≡ some byte = rw near at at in
              rw (cell, test, law, at') (same_cell i j near one byte)
        ],
      ),
    )
