-- ===== src/Hll/Flags.antt =====
-- The flags of the sparse encoding of src/data_structures/hyperloglog.cpp: what a byte can say.
use custom_redis.Base.{
  ℕ, ◌+◌, ◌-◌, ◌⊎◌, ◌*◌, ◌≤◌, ◌<◌, ◌≡◌, refl, bit_and, Bool, true, false, ◌&&◌, ◌||◌, not, arith,
  ltb, leb, ◌==◌, Bool-cases, inl, inr,
}
use custom_redis.Base.Bits.{holds_below, below-holds, shifted-bit_or}
use custom_redis.Hll.{is_val, is_zero, val_value, val_cnt, zero_cnt, xzero_cnt}

-- A VAL flag stands for at most 4 registers of a value from 1 to 32.
val_test : ℕ → Bool
val_test flag =
    not (is_val flag)
    || (leb 1 (val_cnt flag)
        && leb (val_cnt flag) 4
        && leb 1 (val_value flag)
        && leb (val_value flag) 32
        && flag == 128 + (val_value flag - 1) * 4 + (val_cnt flag - 1))

-- A ZERO flag stands for at most 64 registers.
zero_test : ℕ → Bool
zero_test flag =
    not (is_zero flag) || (not (is_val flag) && zero_cnt flag == flag + 1 && leb (zero_cnt flag) 64)

-- The high byte of an XZERO flag.
xzero_test : ℕ → Bool
xzero_test flag =
    is_val flag || is_zero flag || (bit_and flag 191 == flag - 64 && leb 64 flag && ltb flag 128)

val_table : (flag : ℕ) → flag < 256 → val_test flag ≡ true
unfolding val_test holds_below is_val val_cnt val_value
val_table flag byte = below-holds val_test 256 flag refl byte

zero_table : (flag : ℕ) → flag < 256 → zero_test flag ≡ true
unfolding zero_test holds_below is_val is_zero zero_cnt
zero_table flag byte = below-holds zero_test 256 flag refl byte

xzero_table : (flag : ℕ) → flag < 256 → xzero_test flag ≡ true
unfolding xzero_test holds_below is_val is_zero
xzero_table flag byte = below-holds xzero_test 256 flag refl byte

-- The low byte of a count joins the high one.
xzero_cnt_lem :
    (msb lsb : ℕ)
    → lsb < 256
    → bit_and msb 191 ≡ msb - 64
    → xzero_cnt msb lsb ≡ (msb - 64) * 256 + lsb + 1
unfolding xzero_cnt
xzero_cnt_lem msb lsb byte e = omega (arith, e, shifted-bit_or lsb (bit_and msb 191) 8 byte)

abbrev pub IsVal : ℕ → Type 0
IsVal flag =
    (is_val flag ≡ true)
    × (1 ≤ val_cnt flag)
    × (val_cnt flag ≤ 4)
    × (1 ≤ val_value flag)
    × (val_value flag ≤ 32)
    × (flag ≡ 128 + (val_value flag - 1) * 4 + (val_cnt flag - 1))

abbrev pub IsZero : ℕ → Type 0
IsZero flag =
    (is_val flag ≡ false)
    × (is_zero flag ≡ true)
    × (zero_cnt flag ≤ 64)
    × (flag ≡ zero_cnt flag - 1)

abbrev pub IsXzero : ℕ → ℕ → Type 0
IsXzero msb lsb =
    (is_val msb ≡ false)
    × (is_zero msb ≡ false)
    × (xzero_cnt msb lsb ≤ 16384)
    × (msb * 256 + lsb ≡ 16384 + (xzero_cnt msb lsb - 1))

-- Every byte is a VAL flag with 1 to 4 registers of a value from 1 to 32, or a ZERO flag with at
-- most 64 registers, or the first byte of an XZERO flag that stands, with any second byte, for at
-- most 16384 registers; the counts and the value determine the bytes.
pub flag_kinds :
    (flag lsb : ℕ) → flag < 256 → lsb < 256 → IsVal flag ⊎ IsZero flag ⊎ IsXzero flag lsb
unfolding val_test zero_test xzero_test
flag_kinds flag lsb byte byte' =
    let v = val_table flag byte in
    let z = zero_table flag byte in
    let x = xzero_table flag byte in
    elim (Bool-cases (is_val flag)) [
      | inl val ↦ inl (ground (arith, v, val))
      | inr other ↦ elim (Bool-cases (is_zero flag)) [
        | inl zero ↦ inr (inl (ground (arith, z, zero, other)))
        | inr long ↦
            let mask : bit_and flag 191 ≡ flag - 64 = ground (arith, x, long, other) in
            let cnt = xzero_cnt_lem flag lsb byte' mask in
            inr (inr (ground (arith, x, long, other, cnt)))
      ]
    ]
