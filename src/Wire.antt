-- ===== src/Wire.antt =====
-- The byte buffers of src/buffer_funcs.cpp and the numbers in them.
-- A `std::vector<uint8_t>` is the list of its bytes. A `memcpy` between a number and a buffer is
-- little-endian, as on the machines that the server is built for; a `double` is its 64 bits. A read
-- takes the bytes from the front of what is left of a buffer, and is a fault, `none`, past its end.
pub mod Reads
use custom_redis.Base.{
  ℕ, zero, suc, ◌+◌, ◌-◌, ◌*◌, ◌/◌, ◌%◌, ◌^◌, List, [], ◌∷◌, ◌++◌, Option, none, some, leb,
  if◌then◌else◌, length, take, drop, ◌>>=◌,
}

abbrev pub Bytes : Type 0
Bytes = List ℕ

-- The `n` bytes of a number in memory, the lowest first.
unfoldable pub le_bytes : ℕ → ℕ → Bytes
le_bytes zero x = []
le_bytes (suc n) x = x % 256 ∷ le_bytes n (x / 256)

-- The number that the bytes stand for.
unfoldable pub le_value : Bytes → ℕ
le_value [] = 0
le_value (b ∷ bs) = b + 256 * le_value bs

unfoldable pub buf_append : Bytes → Bytes → Bytes
buf_append buf bytes = buf ++ bytes

unfoldable pub buf_consume : Bytes → ℕ → Option Bytes
buf_consume buf len = if leb len (length buf) then some (drop len buf) else none

unfoldable pub buf_append_u8 : Bytes → ℕ → Bytes
buf_append_u8 buf bytes = buf ++ bytes % 256 ∷ []

unfoldable pub buf_append_u32 : Bytes → ℕ → Bytes
unfolding buf_append le_bytes
buf_append_u32 buf bytes = buf_append buf (le_bytes 4 bytes)

unfoldable pub buf_append_double : Bytes → ℕ → Bytes
unfolding buf_append le_bytes
buf_append_double buf bytes = buf_append buf (le_bytes 8 bytes)

-- On less than four bytes `resize` gets a length that no vector has.
unfoldable pub buf_rem_last_res_code : Bytes → Option Bytes
buf_rem_last_res_code buf = if leb 4 (length buf) then some (take (length buf - 4) buf) else none

-- `memcpy(p, buf, n); buf += n`
unfoldable pub read_bytes : ℕ → Bytes → Option (Bytes × Bytes)
read_bytes n buf = if leb n (length buf) then some (take n buf, drop n buf) else none

-- `memcpy(&x, buf, n); buf += n` into a number of `n` bytes.
unfoldable pub read_number : ℕ → Bytes → Option (ℕ × Bytes)
unfolding read_bytes
read_number n buf = do (bytes, rest) ← read_bytes n buf; some (le_value bytes, rest)
