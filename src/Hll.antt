-- ===== src/Hll.antt =====
-- The HyperLogLog of src/data_structures/hyperloglog.cpp: its header with the encoding and the cached
-- count, and the flags of the sparse encoding.
-- The buffer is the list of its bytes; a `char` that is read into a wider number is extended by its
-- sign, which is written out where it matters.
pub mod Cache
pub mod Flags
mod Tests
use custom_redis.Base.{
  ℕ, zero, suc, ◌+◌, ◌-◌, ◌*◌, ◌/◌, ◌%◌, ◌^◌, bit_and, bit_or, Bool, ◌&&◌, not, List, Option, none,
  some, ltb, leb, ◌==◌, if◌then◌else◌, length, get_elem?, set, ◌>>=◌,
}
use custom_redis.Wire.{Bytes}

abbrev pub hll_header_size_bytes : ℕ
hll_header_size_bytes = 16

abbrev pub register_cnt : ℕ
register_cnt = 16384

abbrev pub hll_dense : ℕ
hll_dense = 0

-- `buf[i] = v`
unfoldable pub write_byte : Bytes → ℕ → ℕ → Option Bytes
write_byte buf i v = if ltb i (length buf) then some (set buf i v) else none

unfoldable pub get_enc : Bytes → Option ℕ
get_enc hll = get_elem? hll 4

unfoldable pub set_enc : Bytes → ℕ → Option Bytes
unfolding write_byte
set_enc hll enc = write_byte hll 4 (enc % 256)

unfoldable pub cache_valid : Bytes → Option Bool
cache_valid hll = do b ← get_elem? hll 15; some (bit_and b 128 == 0)

unfoldable pub invalidate_cache : Bytes → Option Bytes
unfolding write_byte
invalidate_cache hll = do b ← get_elem? hll 15; write_byte hll 15 (bit_or b 128)

unfoldable pub is_val : ℕ → Bool
is_val flag = not (bit_and flag 128 == 0)

unfoldable pub is_zero : ℕ → Bool
is_zero flag = bit_and flag 128 == 0 && bit_and flag 64 == 0

unfoldable pub val_value : ℕ → ℕ
val_value flag = (bit_and flag 127 / 4 + 1) % 256

unfoldable pub val_cnt : ℕ → ℕ
val_cnt flag = (bit_and (bit_and flag 127) 3 + 1) % 256

unfoldable pub zero_cnt : ℕ → ℕ
zero_cnt flag = (flag + 1) % 256

unfoldable pub xzero_cnt : ℕ → ℕ → ℕ
xzero_cnt msb lsb = bit_or (bit_and msb 191 * 2 ^ 8) lsb + 1

-- The `for` of `set_cache`, with the rounds that are left.
unfoldable pub store_cache : ℕ → ℕ → ℕ → Bytes → Option Bytes
unfolding write_byte
store_cache zero i value hll = some hll
store_cache (suc rounds) i value hll = do
  hll' ← write_byte hll i (value % 256)
  store_cache rounds (i + 1) (value / 256) hll'

unfoldable pub set_cache : Bytes → ℕ → Option Bytes
set_cache hll value =
    let stored = store_cache 8 8 value hll in if ltb value (2 ^ 63) then stored else none

-- The `for` of `get_cache`.
unfoldable pub load_cache : ℕ → ℕ → ℕ → Bytes → Option ℕ
load_cache zero i cache hll = some cache
load_cache (suc rounds) i cache hll = do
  b ← get_elem? hll (8 + i)
  load_cache rounds (i + 1) (bit_or cache (b * 2 ^ (8 * i))) hll

unfoldable pub get_cache : Bytes → Option ℕ
get_cache hll = do valid ← cache_valid hll; if valid then load_cache 8 0 0 hll else none
