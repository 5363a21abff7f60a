-- ===== src/Hash/Bounds.antt =====
-- The range of the hashes of src/utils/common.h.
use custom_redis.Base.{ℕ, ◌/◌, ◌^◌, ◌<◌, arith}
use custom_redis.Base.Bits.{bit_xor-lt}
use custom_redis.Wire.{Bytes}
use custom_redis.Hash.{mul64, fold_high, murmur_hash64_a, str_hash}

abbrev word : ℕ
word = 2 ^ 64

mul64-lt : (h : ℕ) → mul64 h < word
unfolding mul64
mul64-lt h = omega arith

fold_high-lt : (h : ℕ) → h < word → fold_high h < word
unfolding fold_high
fold_high-lt h lt = bit_xor-lt 64 h (h / 2 ^ 47) lt (omega arith)

-- The hash of every key is below 2 ^ 64, so that it fits the `hcode` of a node.
pub str_hash-lt : (key : Bytes) → str_hash key < 2 ^ 64
unfolding str_hash murmur_hash64_a
str_hash-lt key = fold_high-lt _ (mul64-lt _)
