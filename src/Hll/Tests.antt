-- ===== src/Hll/Tests.antt =====
-- The header and the flags of src/data_structures/hyperloglog.cpp at concrete bytes.
use custom_redis.Base.{ℕ, ◌≤◌, ◌<◌, ◌≡◌, ◌⊎◌, some, arith, length, get_elem?, replicate, Returns}
use custom_redis.Wire.{Bytes}
use custom_redis.Hll.{set_cache, get_cache}
use custom_redis.Hll.Cache.{get_cache-set_cache}
use custom_redis.Hll.Flags.{IsVal, IsZero, IsXzero, flag_kinds}

abbrev header : Bytes
header = replicate 16 200

get_cache-set_cache_example : Returns (set_cache header 1000000) λ hll'.
    (get_cache hll' ≡ some 1000000)
    × (length hll' ≡ length header)
    × ((j : ℕ) → (j < 8) ⊎ (16 ≤ j) → get_elem? hll' j ≡ get_elem? header j)
get_cache-set_cache_example = get_cache-set_cache header 1000000 (omega arith) (omega arith)

flag_kinds_example : IsVal 134 ⊎ IsZero 134 ⊎ IsXzero 134 9
flag_kinds_example = flag_kinds 134 9 (omega arith) (omega arith)
