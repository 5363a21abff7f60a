-- ===== src/Commands/BitCounts.antt =====
-- The two ways in which `do_bitcount` of src/redis_functions.cpp counts.
use native.Mathlib.Decide.{dec_lt}
use custom_redis.Base.{
  ℕ, zero, suc, ◌+◌, ◌-◌, ◌*◌, ◌/◌, ◌%◌, ◌^◌, ◌≤◌, ◌<◌, min, ◌≡◌, refl, sym, ap, ◌∙◌, inl, inr,
  true, false, Option-cases, Option, none, some, ltb, if◌then◌else◌, length, get_elem?, ◌>>=◌,
  arith,
}
use custom_redis.Wire.{Bytes}
use custom_redis.Commands.Bitmaps.{
  bit_at, get_bit, count_byte, count_bytes, count_bits, span, from_end, bitcount_of,
}

-- The lower `r` bits of a byte, added up.
low_bits : ℕ → ℕ → ℕ
low_bits zero byte = 0
low_bits (suc r) byte = bit_at byte r + low_bits r byte

low_bits-count_byte : (byte : ℕ) → low_bits 8 byte ≡ count_byte 8 byte
unfolding low_bits bit_at count_byte
low_bits-count_byte byte = omega arith

get_bit-byte :
    (bitmap : Bytes) (i r byte : ℕ)
    → get_elem? bitmap i ≡ some byte
    → r < 8
    → get_bit bitmap (8 * i + (7 - r)) ≡ some (bit_at byte r)
unfolding get_bit
get_bit-byte bitmap i r byte at lt =
    let e : (8 * i + (7 - r)) / 8 ≡ i = omega arith in
    let f : 7 - (8 * i + (7 - r)) % 8 ≡ r = omega arith in rw (e, at, f) refl

bind_zero : (o : Option ℕ) → o ≡ (o >>= λ rest. some (0 + rest))
bind_zero none = refl
bind_zero (some n) = ap some (omega arith)

bind_sum :
    (o : Option ℕ) (a b : ℕ)
    → ((o >>= λ rest. some (a + rest)) >>= λ rest. some (b + rest))
      ≡ (o >>= λ rest. some ((b + a) + rest))
bind_sum none a b = refl
bind_sum (some n) a b = ap some (omega arith)

count_step :
    (bitmap : Bytes) (n i b : ℕ)
    → get_bit bitmap i ≡ some b
    → count_bits (suc n) i bitmap ≡ (count_bits n (i + 1) bitmap >>= λ rest. some (b + rest))
unfolding count_bits
count_step bitmap n i b e = rw e refl

bits_run :
    (bitmap : Bytes) (i byte m r : ℕ)
    → get_elem? bitmap i ≡ some byte
    → r ≤ 8
    → count_bits (r + m) (8 * i + (8 - r)) bitmap
      ≡ (count_bits m (8 * i + 8) bitmap >>= λ rest. some (low_bits r byte + rest))
unfolding low_bits
bits_run bitmap i byte m zero at le =
    let e : 0 + m ≡ m = omega arith in rw e (bind_zero (count_bits m (8 * i + 8) bitmap))
bits_run bitmap i byte m (suc r) at le =
    let e : suc r + m ≡ suc (r + m) = omega arith in
    let f : 8 * i + (8 - suc r) ≡ 8 * i + (7 - r) = omega arith in
    let g : 8 * i + (7 - r) + 1 ≡ 8 * i + (8 - r) = omega arith in
    let bit = get_bit-byte bitmap i r byte at (omega arith) in
    rw
      (
        e,
        f,
        count_step bitmap (r + m) (8 * i + (7 - r)) (bit_at byte r) bit,
        g,
        bits_run bitmap i byte m r at (omega arith),
      )
      (bind_sum (count_bits m (8 * i + 8) bitmap) (low_bits r byte) (bit_at byte r))

count_bits-outside :
    (bitmap : Bytes) (i m : ℕ)
    → get_elem? bitmap i ≡ none
    → count_bits (8 + m) (8 * i) bitmap ≡ none
unfolding count_bits get_bit
count_bits-outside bitmap i m out =
    let e : 8 + m ≡ suc (7 + m) = omega arith in
    let f : 8 * i / 8 ≡ i = omega arith in rw (e, f, out) refl

counted :
    (bitmap : Bytes) (n i byte : ℕ)
    → get_elem? bitmap i ≡ some byte
    → count_bytes (suc n) i bitmap
      ≡ (count_bytes n (i + 1) bitmap >>= λ rest. some (count_byte 8 byte + rest))
unfolding count_bytes
counted bitmap n i byte at = rw at refl

-- Bytes counted one by one, and bit by bit.
count_bits-bytes :
    (bitmap : Bytes) (n i : ℕ) → count_bits (8 * n) (8 * i) bitmap ≡ count_bytes n i bitmap
unfolding count_bytes count_bits
count_bits-bytes bitmap zero i = let e : 8 * 0 ≡ 0 = omega arith in rw e refl
count_bits-bytes bitmap (suc n) i =
    let e : 8 * suc n ≡ 8 + 8 * n = omega arith in
    elim (Option-cases (get_elem? bitmap i)) [
      | inl out ↦ rw (e, count_bits-outside bitmap i (8 * n) out, out) refl
      | inr (byte, at) ↦
          let f : 8 * i ≡ 8 * i + (8 - 8) = omega arith in
          let g : 8 * i + 8 ≡ 8 * (i + 1) = omega arith in
          rw e (
            ap (λ k. count_bits (8 + 8 * n) k bitmap) f
            ∙ bits_run bitmap i byte (8 * n) 8 at (omega arith)
            ∙ ap (λ k. count_bits (8 * n) k bitmap >>= λ rest. some (low_bits 8 byte + rest)) g
            ∙ ap (λ o. o >>= λ rest. some (low_bits 8 byte + rest))
                (count_bits-bytes bitmap n (i + 1))
            ∙ ap (λ b. count_bytes n (i + 1) bitmap >>= λ rest. some (b + rest))
                (low_bits-count_byte byte)
            ∙ sym (counted bitmap n i byte at))
    ]

-- A span of positions that are not below 0.
span_from :
    (count : ℕ → ℕ → Option ℕ) (a b total : ℕ)
    → span count (9223372036854775808 + a) (9223372036854775808 + b) total ≡ (
        if ltb
          (min (9223372036854775808 + b) (9223372036854775808 + total - 1))
          (9223372036854775808 + a)
        then some 0
        else count
            (min (9223372036854775808 + b) (9223372036854775808 + total - 1)
              + 1
              - (9223372036854775808 + a))
            a)
unfolding span from_end
span_from count a b total =
    let s : ltb (9223372036854775808 + a) (2 ^ 63) ≡ false = ground arith in
    let t : ltb (9223372036854775808 + b) (2 ^ 63) ≡ false = ground arith in
    let d : 9223372036854775808 + a - 2 ^ 63 ≡ a = omega arith in rw (s, t, s, d) refl

same_span :
    (bitmap : Bytes) (a b n : ℕ)
    → (if ltb
          (min (9223372036854775808 + b) (9223372036854775808 + n - 1))
          (9223372036854775808 + a)
        then some 0
        else count_bytes
            (min (9223372036854775808 + b) (9223372036854775808 + n - 1)
              + 1
              - (9223372036854775808 + a))
            a
            bitmap)
      ≡ (if ltb
            (min (9223372036854775808 + (8 * b + 7)) (9223372036854775808 + n * 8 - 1))
            (9223372036854775808 + 8 * a)
          then some 0
          else count_bits
              (min (9223372036854775808 + (8 * b + 7)) (9223372036854775808 + n * 8 - 1)
                + 1
                - (9223372036854775808 + 8 * a))
              (8 * a)
              bitmap)
same_span bitmap a b n =
    let last : ℕ = min (9223372036854775808 + b) (9223372036854775808 + n - 1) in
    let last' : ℕ = min (9223372036854775808 + (8 * b + 7)) (9223372036854775808 + n * 8 - 1) in
    elim (dec_lt last (9223372036854775808 + a)) [
      | yes lt ↦
          let s : ltb last (9223372036854775808 + a) ≡ true = ground arith in
          let t : ltb last' (9223372036854775808 + 8 * a) ≡ true = ground arith in rw (s, t) refl
      | no ge ↦
          let s : ltb last (9223372036854775808 + a) ≡ false = ground arith in
          let t : ltb last' (9223372036854775808 + 8 * a) ≡ false = ground arith in
          let e : last' + 1 - (9223372036854775808 + 8 * a)
              ≡ 8 * (last + 1 - (9223372036854775808 + a)) =
            omega arith in
          rw (s, t, e) (sym (count_bits-bytes bitmap (last + 1 - (9223372036854775808 + a)) a))
    ]

-- BITCOUNT in BYTE mode from byte a to byte b, neither negative, is BITCOUNT in BIT mode from bit
-- 8a to bit 8b + 7, for positions inside the bitmap or behind its end and also when b is less
-- than a.
pub bitcount-modes :
    (bitmap : Bytes) (a b : ℕ)
    → bitcount_of true (9223372036854775808 + a) (9223372036854775808 + b) bitmap
      ≡ bitcount_of false (9223372036854775808 + 8 * a) (9223372036854775808 + (8 * b + 7)) bitmap
unfolding bitcount_of
bitcount-modes bitmap a b =
    let n = length bitmap in
    span_from (λ n i. count_bytes n i bitmap) a b n
    ∙ same_span bitmap a b n
    ∙ sym (span_from (λ n i. count_bits n i bitmap) (8 * a) (8 * b + 7) (n * 8))
