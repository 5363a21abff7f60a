-- ===== src/Hash.antt =====
-- The hash of keys: `murmurHash64A` and `str_hash` of src/utils/common.h.
-- A `uint64_t` wraps at 2 ^ 64, and eight bytes that are read as one are little-endian.
pub mod Bounds
use custom_redis.Base.{
  ℕ, zero, suc, ◌+◌, ◌*◌, ◌/◌, ◌%◌, ◌^◌, bit_xor, List, [], ◌∷◌, ◌==◌, if◌then◌else◌, length, take,
  drop,
}
use custom_redis.Wire.{Bytes, le_value}

-- `m`
abbrev pub mix_factor : ℕ
mix_factor = 0xc6a4a7935bd1e995

-- `h *= m`
unfoldable pub mul64 : ℕ → ℕ
mul64 h = h * mix_factor % 2 ^ 64

-- `h ^= h >> r`
unfoldable pub fold_high : ℕ → ℕ
fold_high h = bit_xor h (h / 2 ^ 47)

-- One round of the loop over the words.
unfoldable pub mix_word : ℕ → ℕ → ℕ
unfolding mul64 fold_high
mix_word h k = mul64 (bit_xor h (mul64 (fold_high (mul64 k))))

-- The loop, with the number of words that are left.
unfoldable pub mix_words : ℕ → Bytes → ℕ → ℕ
unfolding mix_word
mix_words zero key h = h
mix_words (suc n) key h = mix_words n (drop 8 key) (mix_word h (le_value (take 8 key)))

-- The cases of the `switch` fall through, from the last byte to the first; the first has place `i`.
unfoldable pub xor_tail : ℕ → Bytes → ℕ → ℕ
xor_tail i [] h = h
xor_tail i (b ∷ bytes) h = bit_xor (xor_tail (i + 1) bytes h) (b * 2 ^ (8 * i))

unfoldable pub mix_tail : Bytes → ℕ → ℕ
unfolding xor_tail mul64
mix_tail [] h = h
mix_tail (b ∷ bytes) h = mul64 (xor_tail 0 (b ∷ bytes) h)

unfoldable pub murmur_hash64_a : Bytes → ℕ → ℕ
unfolding mix_words mix_tail fold_high mul64
murmur_hash64_a key seed =
    let len = length key in
    let h₀ = bit_xor seed (len * mix_factor % 2 ^ 64) in
    let h₁ = mix_words (len / 8) key h₀ in
    let h₂ = mix_tail (drop (len / 8 * 8) key) h₁ in fold_high (mul64 (fold_high h₂))

unfoldable pub str_hash : Bytes → ℕ
unfolding murmur_hash64_a
str_hash key = murmur_hash64_a key 0xadc83b19
