-- ===== src/Commands/Bitmaps.antt =====
-- The commands on bitmaps, `do_setbit`, `do_getbit` and `do_bitcount` of
-- src/redis_functions.cpp. `strtol` is a parameter; its `long` is held with 2 ^ 63 added.
use custom_redis.Base.{
  ℕ, zero, suc, ◌+◌, ◌-◌, ◌*◌, ◌/◌, ◌%◌, ◌^◌, bit_and, bit_or, min, Bool, true, false, not, ◌&&◌,
  ◌||◌, List, [], ◌∷◌, ◌++◌, Option, none, some, ltb, leb, ◌==◌, bytes_eq, if◌then◌else◌, length,
  get_elem?, set, replicate, ◌>>=◌,
}
use custom_redis.Str.{max_str_size}
use custom_redis.Wire.{Bytes}
use custom_redis.Hash.{str_hash}
use custom_redis.HashMap.{c_str}
use custom_redis.Avl.Shape.{count}
use custom_redis.Reply.{Conn, out_int, out_err}
use custom_redis.Commands.Messages
use custom_redis.Commands.{
  Value, t_bitmap, Db, success, incorrect_type, out_of_range, internal_err, Handler, arg,
  empty_bytes, hm_store, find_val, find_or_add, validate_hmnode,
}

-- `(byte >> bit_idx) & 1`
unfoldable pub bit_at : ℕ → ℕ → ℕ
bit_at byte bit_idx = (byte / 2 ^ bit_idx) % 2

-- `byte |= 1u << bit_idx` and `byte &= ~(1u << bit_idx)`, by the value of the bit.
unfoldable pub with_bit : ℕ → ℕ → Bool → ℕ
with_bit byte bit_idx one =
    if one then bit_or byte (2 ^ bit_idx) else bit_and byte (255 - 2 ^ bit_idx)

-- `strcmp(s, "0")` and `strcmp(s, "1")`, whether it gives 0.
abbrev pub is_zero : Bytes → Bool
is_zero s = bytes_eq (c_str s) (48 ∷ [])

abbrev pub is_one : Bytes → Bool
is_one s = bytes_eq (c_str s) (49 ∷ [])

-- `dstr_resize` to more bytes, padded with zeros; `none` is the error for a size above the limit.
unfoldable pub extended : Bytes → ℕ → Option Bytes
extended bitmap byte_idx =
    if leb (length bitmap) byte_idx
    then if ltb max_str_size (byte_idx + 1)
      then none
      else some (bitmap ++ replicate (byte_idx + 1 - length bitmap) 0)
    else some bitmap

-- The previous bit, and the bitmap with the new one.
unfoldable pub put_bit : Bytes → ℕ → Bool → Option (ℕ × Bytes)
put_bit bitmap idx one = do
  byte ← get_elem? bitmap (idx / 8)
  let bit_idx = 7 - idx % 8
  some (bit_at byte bit_idx, set bitmap (idx / 8) (with_bit byte bit_idx one))

unfoldable pub get_bit : Bytes → ℕ → Option ℕ
get_bit bitmap idx = do byte ← get_elem? bitmap (idx / 8); some (bit_at byte (7 - idx % 8))

unfoldable pub setbit_extended : Conn → Db → Bytes → ℕ → Bool → Option Bytes → Handler
setbit_extended conn db key idx one none =
    out_err conn Messages.resize_mes >>= λ conn. some (internal_err, conn, db)
setbit_extended conn db key idx one (some bitmap) = put_bit bitmap idx one >>= λ (prev, bitmap).
    hm_store db key (str_hash key) (t_bitmap bitmap) >>= λ db. some (success, out_int conn prev, db)

-- `bit_idx` is a `long` with 2 ^ 63 added.
unfoldable pub setbit_in : Conn → Db → Bytes → ℕ → Bytes → Value → Handler
setbit_in conn db key bit_idx bit_value (t_bitmap bitmap) =
    if ltb bit_idx (2 ^ 63) || ltb (2 ^ 63 + (2 ^ 32 - 1)) bit_idx
    then (out_err conn Messages.index_mes >>= λ conn. some (out_of_range, conn, db))
    else if not (is_zero bit_value) && not (is_one bit_value)
    then (out_err conn Messages.bit_value_mes >>= λ conn. some (incorrect_type, conn, db))
    else setbit_extended conn db key (bit_idx - 2 ^ 63) (is_one bit_value)
        (extended bitmap ((bit_idx - 2 ^ 63) / 8))
setbit_in conn db key bit_idx bit_value _ =
    out_err conn Messages.not_bitmap_mes >>= λ conn. some (incorrect_type, conn, db)

abbrev pub is_bitmap : Value → Bool
is_bitmap (t_bitmap _) = true
is_bitmap _ = false

-- What stands behind the check of a node's type, with the bitmap that was found.
unfoldable pub with_bitmap : Conn → Db → Option Value → (Bytes → Handler) → Handler
with_bitmap conn db (some (t_bitmap bitmap)) step = step bitmap
with_bitmap conn db found step =
    validate_hmnode conn found is_bitmap >>= λ (invalid, conn). some (invalid, conn, db)

unfoldable pub getbit_of : Conn → Db → ℕ → Bytes → Handler
getbit_of conn db bit_idx bitmap =
    if ltb bit_idx (2 ^ 63) || leb (length bitmap) ((bit_idx - 2 ^ 63) / 8)
    then (out_err conn Messages.bit_range_mes >>= λ conn. some (out_of_range, conn, db))
    else (get_bit bitmap (bit_idx - 2 ^ 63) >>= λ bit. some (success, out_int conn bit, db))

-- `while (byte) { ret += byte & 1; byte >>= 1; }`, eight rounds for a byte.
unfoldable pub count_byte : ℕ → ℕ → ℕ
count_byte zero byte = 0
count_byte (suc rounds) byte = byte % 2 + count_byte rounds (byte / 2)

-- The `for` loops of `do_bitcount`: `n` positions from `i` on.
unfoldable pub count_bytes : ℕ → ℕ → Bytes → Option ℕ
count_bytes zero i bitmap = some 0
count_bytes (suc n) i bitmap = get_elem? bitmap i >>= λ byte.
    count_bytes n (i + 1) bitmap >>= λ rest. some (count_byte 8 byte + rest)

unfoldable pub count_bits : ℕ → ℕ → Bytes → Option ℕ
count_bits zero i bitmap = some 0
count_bits (suc n) i bitmap =
    get_bit bitmap i >>= λ bit. count_bits n (i + 1) bitmap >>= λ rest. some (bit + rest)

-- An index, a `long` with 2 ^ 63 added, that counts from the end when it is negative.
unfoldable pub from_end : ℕ → ℕ → ℕ
from_end i total = if ltb i (2 ^ 63) then i + total else i

-- The positions from `start` to `end`, below `total`. What the code reads at positions that are
-- still below 0, before the first bit, is not modelled: `none`.
unfoldable pub span : (ℕ → ℕ → Option ℕ) → ℕ → ℕ → ℕ → Option ℕ
span count start stop total =
    let first = from_end start total in
    let last = min (from_end stop total) (2 ^ 63 + total - 1) in
    if ltb last first
    then some 0
    else if ltb first (2 ^ 63)
    then none
    else count (last + 1 - first) (first - 2 ^ 63)

unfoldable pub bitcount_of : Bool → ℕ → ℕ → Bytes → Option ℕ
bitcount_of is_byte_mode start stop bitmap =
    if is_byte_mode
    then span (λ n i. count_bytes n i bitmap) start stop (length bitmap)
    else span (λ n i. count_bits n i bitmap) start stop (length bitmap * 8)

unfoldable pub mode_is_byte : Option Bytes → Bool
mode_is_byte none = false
mode_is_byte (some s) = bytes_eq (c_str s) (66 ∷ 89 ∷ 84 ∷ 69 ∷ [])

-- `cmd.size() == 5 && !strcmp(cmd[4]->buf, "BYTE")`
unfoldable pub byte_mode : List Bytes → Bool
byte_mode cmd = length cmd == 5 && mode_is_byte (arg cmd 4)

module _ (strtol : Bytes → ℕ) where
  unfoldable pub do_setbit : Conn → List Bytes → Db → Handler
  do_setbit conn cmd db = do
    key ← arg cmd 1
    bit_pos ← arg cmd 2
    bit_value ← arg cmd 3
    (v, db) ← find_or_add db key (t_bitmap empty_bytes)
    setbit_in conn db key (strtol bit_pos) bit_value v

  unfoldable pub do_getbit : Conn → List Bytes → Db → Handler
  do_getbit conn cmd db = do
    key ← arg cmd 1
    bit_pos ← arg cmd 2
    found ← find_val db key
    with_bitmap conn db found (getbit_of conn db (strtol bit_pos))

  unfoldable pub arg_or : Option Bytes → ℕ → ℕ
  arg_or none other = other
  arg_or (some s) other = strtol s

  unfoldable pub do_bitcount : Conn → List Bytes → Db → Handler
  do_bitcount conn cmd db = do
    key ← arg cmd 1
    found ← find_val db key
    with_bitmap conn db found λ bitmap.
        bitcount_of (byte_mode cmd) (arg_or (arg cmd 2) (2 ^ 63)) (arg_or (arg cmd 3) (2 ^ 63 - 1))
          bitmap
        >>= λ ret. some (success, out_int conn ret, db)
