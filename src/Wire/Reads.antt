-- ===== src/Wire/Reads.antt =====
-- What a read of a buffer of src/buffer_funcs.cpp finds where a write stands.
use native.Mathlib.Nat.{pow-succ'}
use custom_redis.Base.{
  ℕ, zero, suc, ◌+◌, ◌-◌, ◌/◌, ◌^◌, ◌<◌, ◌≡◌, refl, ap, ◌∷◌, ◌++◌, some, arith, length,
  length-append, take-length_append, drop-length_append,
}
use custom_redis.Wire.{
  Bytes, le_bytes, le_value, buf_consume, buf_rem_last_res_code, read_bytes, read_number,
}

pub length-le_bytes : (n x : ℕ) → length (le_bytes n x) ≡ n
unfolding le_bytes
length-le_bytes zero x = refl
length-le_bytes (suc n) x = ap suc (length-le_bytes n (x / 256))

-- Reading what was written gives the number back, when it fits the bytes.
pub le_value-le_bytes : (n x : ℕ) → x < 256 ^ n → le_value (le_bytes n x) ≡ x
unfolding le_bytes le_value
le_value-le_bytes zero x h = omega arith
le_value-le_bytes (suc n) x h =
    omega (arith, le_value-le_bytes n (x / 256) (omega (arith, pow-succ' 256 n)))

-- `memcpy` of a whole block at the front of a buffer.
pub read_bytes-append : (xs rest : Bytes) → read_bytes (length xs) (xs ++ rest) ≡ some (xs, rest)
unfolding read_bytes
read_bytes-append xs rest =
    rw (take-length_append, drop-length_append) (ground (arith, length-append xs rest))

-- A number below 256 ^ n, written as n bytes at the front of a buffer, is read back as it was,
-- and the read goes on behind it.
pub read_number-le_bytes :
    (n x : ℕ) (rest : Bytes) → x < 256 ^ n → read_number n (le_bytes n x ++ rest) ≡ some (x, rest)
unfolding read_number
read_number-le_bytes n x rest h =
    let front = read_bytes-append (le_bytes n x) rest in
    let front' : read_bytes n (le_bytes n x ++ rest) ≡ some (le_bytes n x, rest) =
      rw (length-le_bytes n x) at front in
    rw (front', le_value-le_bytes n x h)

pub buf_consume-append : (xs rest : Bytes) → buf_consume (xs ++ rest) (length xs) ≡ some rest
unfolding buf_consume
buf_consume-append xs rest = rw drop-length_append (ground (arith, length-append xs rest))

pub rem_last-append :
    (buf code : Bytes) → length code ≡ 4 → buf_rem_last_res_code (buf ++ code) ≡ some buf
unfolding buf_rem_last_res_code
rem_last-append buf code h =
    let len : length (buf ++ code) ≡ length buf + 4 = omega (arith, length-append buf code) in
    let cut : length (buf ++ code) - 4 ≡ length buf = omega (arith, len) in
    rw (cut, take-length_append) (ground (arith, len))

-- One byte.
pub read_number-byte : (b : ℕ) (rest : Bytes) → read_number 1 (b ∷ rest) ≡ some (b, rest)
unfolding read_number read_bytes le_value
read_number-byte b rest = ground arith
