-- ===== src/Commands/BitReads.antt =====
-- The bit that `do_getbit` reads after `do_setbit`, src/redis_functions.cpp.
use custom_redis.Base.{
  ℕ, zero, suc, ◌+◌, ◌-◌, ◌/◌, ◌%◌, ◌^◌, ◌≤◌, ◌<◌, max, ◌≡◌, refl, sym, ap, ◌∙◌, Bool, true, false,
  not, ◌&&◌, ◌||◌, [], ◌∷◌, ◌++◌, Option, none, some, ltb, leb, ◌==◌, if◌then◌else◌, length,
  length-append, length-replicate, get_elem?, get_elem?-some, replicate, Returns, arith,
}
use native.Mathlib.Nat.{zero-div}
use native.Mathlib.Decide.{dec_lt}
use custom_redis.Str.{max_str_size}
use custom_redis.Wire.{Bytes}
use custom_redis.Reply.{Conn, out_int}
use custom_redis.Commands.{t_bitmap, Db, success, find_val, find_or_add}
use custom_redis.Commands.Bitmaps.{
  is_zero, is_one, extended, bit_at, get_bit, setbit_extended, setbit_in, do_setbit, with_bitmap,
  getbit_of, do_getbit,
}
use custom_redis.Commands.Bits.{IsBytes, get_bit-put_bit}
use custom_redis.ZSet.Order.{All-append}
use custom_redis.Commands.Lookups.{same_key_refl, find_val-store}

-- The bit at a position; a position behind the bitmap has 0.
abbrev pub or_zero : Option ℕ → ℕ
or_zero none = 0
or_zero (some b) = b

abbrev pub bit_or_zero : Bytes → ℕ → ℕ
bit_or_zero bitmap i = or_zero (get_bit bitmap i)

length-zeros : (n : ℕ) → length {A = ℕ} (replicate n 0) ≡ n
length-zeros n = length-replicate {A = ℕ} n 0

get_padded :
    (s : Bytes) (n i : ℕ)
    → i < length s + n
    → get_elem? (s ++ replicate n 0) i ≡ (if ltb i (length s) then get_elem? s i else some 0)
get_padded [] zero i lt = absurd (omega arith)
get_padded [] (suc n) zero lt = ground arith
get_padded [] (suc n) (suc i) lt = get_padded [] n i (omega arith) ∙ ground arith
get_padded (x ∷ s) n zero lt = ground arith
get_padded (x ∷ s) n (suc i) lt = ground (arith, get_padded s n i (omega arith))

get_outside : (s : Bytes) (i : ℕ) → length s ≤ i → get_elem? s i ≡ none
get_outside [] i h = refl
get_outside (x ∷ s) zero h = absurd (omega arith)
get_outside (x ∷ s) (suc i) h = get_outside s i (omega arith)

-- The bitmap of `do_setbit` before the bit is put: its old bits, and zeros.
record Extends (bitmap : Bytes) (idx : ℕ) (wide : Bytes) : Type 0 where
  bytes : IsBytes wide
  room : idx / 8 < length wide
  longer : length bitmap ≤ length wide
  bits : (j : ℕ) → j / 8 < length wide → get_bit wide j ≡ some (bit_or_zero bitmap j)

bits_inside :
    (bitmap : Bytes) (j : ℕ)
    → j / 8 < length bitmap
    → get_bit bitmap j ≡ some (bit_or_zero bitmap j)
unfolding get_bit
bits_inside bitmap j lt =
    let (byte, at) = get_elem?-some bitmap (j / 8) lt in
    let e : get_bit bitmap j ≡ some (bit_at byte (7 - j % 8)) = rw at refl in
    e ∙ sym (ap (λ o. some (or_zero o)) e)

zero_bits : (k : ℕ) → bit_at 0 k ≡ 0
unfolding bit_at
zero_bits k = rw (zero-div (2 ^ k)) refl

wide_bit :
    (bitmap : Bytes) (pad j : ℕ)
    → j / 8 < length bitmap + pad
    → get_bit (bitmap ++ replicate pad 0) j ≡ some (bit_or_zero bitmap j)
unfolding get_bit
wide_bit bitmap pad j lt = elim (dec_lt (j / 8) (length bitmap)) [
  | yes inside ↦
      let test : ltb (j / 8) (length bitmap) ≡ true = ground arith in
      let e : get_bit (bitmap ++ replicate pad 0) j ≡ get_bit bitmap j =
        rw (get_padded bitmap pad (j / 8) lt, test) refl in
      e ∙ bits_inside bitmap j inside
  | no outside ↦
      let test : ltb (j / 8) (length bitmap) ≡ false = ground arith in
      let e : get_bit (bitmap ++ replicate pad 0) j ≡ some (bit_at 0 (7 - j % 8)) =
        rw (get_padded bitmap pad (j / 8) lt, test) refl in
      let old : get_bit bitmap j ≡ none = rw (get_outside bitmap (j / 8) (omega arith)) refl in
      e ∙ ap some (zero_bits (7 - j % 8) ∙ sym (ap or_zero old))
]

All-zeros : (n : ℕ) → IsBytes (replicate n 0)
All-zeros zero = tt
All-zeros (suc n) = (omega arith, All-zeros n)

extended_lem :
    (bitmap : Bytes) (idx : ℕ)
    → IsBytes bitmap
    → idx < 4294967296
    → Returns (extended bitmap (idx / 8)) (Extends bitmap idx)
unfolding extended
extended_lem bitmap idx bytes small = elim (dec_lt (idx / 8) (length bitmap)) [
  | yes lt ↦
      let test : leb (length bitmap) (idx / 8) ≡ false = ground arith in
      (
        bitmap,
        rw test refl,
        record { bytes = bytes; room = lt; longer = omega arith; bits = bits_inside bitmap },
      )
  | no ge ↦
      let test : leb (length bitmap) (idx / 8) ≡ true = ground arith in
      let fits : ltb max_str_size (idx / 8 + 1) ≡ false = ground arith in
      let pad : ℕ = (idx / 8 + 1) - length bitmap in
      (
        bitmap ++ replicate pad 0,
        rw (test, fits) refl,
        record {
          bytes = All-append (λ b. b < 256) bitmap (replicate pad 0) bytes (All-zeros pad);
          room = omega (arith, length-append bitmap (replicate pad 0), length-zeros pad);
          longer = omega (arith, length-append bitmap (replicate pad 0));
          bits = λ j lt.
              wide_bit bitmap pad j
                (omega (arith, lt, length-append bitmap (replicate pad 0), length-zeros pad));
        },
      )
]

some_if : (b : Bool) (x y : ℕ) → (if b then some x else some y) ≡ some (if b then x else y)
some_if true x y = refl
some_if false x y = refl

some_inj : {x y : ℕ} → some x ≡ some y → x ≡ y
some_inj e = cc

-- `do_setbit` on a bitmap: the arguments are in order.
record IsSetting (bit_value : Bytes) (position idx : ℕ) : Type 0 where
  value : (is_zero bit_value || is_one bit_value) ≡ true
  at : position ≡ 9223372036854775808 + idx
  small : idx < 4294967296

setbit-extended :
    (conn : Conn) (db : Db) (key bitmap bit_value : Bytes) (position idx : ℕ)
    → IsSetting bit_value position idx
    → setbit_in conn db key position bit_value (t_bitmap bitmap)
      ≡ setbit_extended conn db key idx (is_one bit_value) (extended bitmap (idx / 8))
unfolding setbit_in
setbit-extended conn db key bitmap bit_value position idx w =
    let low : ltb position (2 ^ 63) ≡ false = ground (arith, w.at) in
    let high : ltb (2 ^ 63 + (2 ^ 32 - 1)) position ≡ false = ground (arith, w.at, w.small) in
    let test : (not (is_zero bit_value) && not (is_one bit_value)) ≡ false =
      ground (arith, w.value) in
    let e : position - 2 ^ 63 ≡ idx = omega (arith, w.at) in rw (low, high, test, e) refl

getbit-inside :
    (conn : Conn) (db : Db) (bitmap : Bytes) (position idx b : ℕ)
    → position ≡ 9223372036854775808 + idx
    → idx / 8 < length bitmap
    → get_bit bitmap idx ≡ some b
    → getbit_of conn db position bitmap ≡ some (success, out_int conn b, db)
unfolding getbit_of
getbit-inside conn db bitmap position idx b at lt bit =
    let low : ltb position (2 ^ 63) ≡ false = ground (arith, at) in
    let e : position - 2 ^ 63 ≡ idx = omega (arith, at) in
    let high : leb (length bitmap) (idx / 8) ≡ false = ground arith in rw (low, e, high, bit) refl

module _ (strtol : Bytes → ℕ) where
  -- On a key that holds a bitmap, its elements bytes, SETBIT of position i, below 2 ^ 32, to 0 or
  -- 1 returns success and replies with the old bit, 0 behind the end, and a GETBIT of a position
  -- j in the bitmap that it leaves replies with the new bit when j is i and else with the old bit
  -- at j, 0 where the bitmap was grown.
  pub do_getbit-setbit :
      (conn conn' : Conn) (c c' key pos pos' bit_value bitmap : Bytes) (db : Db) (i j : ℕ)
      → find_val db key ≡ some (some (t_bitmap bitmap))
      → IsBytes bitmap
      → (is_zero bit_value || is_one bit_value) ≡ true
      → strtol pos ≡ 9223372036854775808 + i
      → i < 4294967296
      → strtol pos' ≡ 9223372036854775808 + j
      → j / 8 < max (suc (i / 8)) (length bitmap)
      → Returns (do_setbit strtol conn (c ∷ key ∷ pos ∷ bit_value ∷ []) db) λ r.
        (r.0 ≡ success)
        × (r.1 ≡ out_int conn (bit_or_zero bitmap i))
        × (do_getbit strtol conn' (c' ∷ key ∷ pos' ∷ []) r.2
            ≡ some (
              success,
              out_int conn'
                  (if i == j then (if is_one bit_value then 1 else 0) else bit_or_zero bitmap j),
              r.2,
            ))
  unfolding do_setbit do_getbit find_or_add setbit_extended with_bitmap
  do_getbit-setbit conn conn' c c' key pos pos' bit_value bitmap db i j there bytes value at small
        at' near =
      let set_args : IsSetting bit_value (strtol pos) i = record {
        value = value;
        at = at;
        small = small;
      } in
      let (wide, run, w) = extended_lem bitmap i bytes small in
      let ((prev, bitmap'), put, (old, len, new)) =
        get_bit-put_bit wide i j (is_one bit_value) w.bytes w.room in
      let (db', store, reads) = find_val-store db key (t_bitmap bitmap) (t_bitmap bitmap') there in
      let again : find_val db' key ≡ some (some (t_bitmap bitmap')) =
        reads key ∙ rw (same_key_refl key) refl in
      let same_prev : prev ≡ bit_or_zero bitmap i = some_inj (sym old ∙ w.bits i w.room) in
      let e = setbit-extended conn db key bitmap bit_value (strtol pos) i set_args in
      let bit : get_bit bitmap' j
          ≡ some (if i == j then (if is_one bit_value then 1 else 0) else bit_or_zero bitmap j) =
        new ∙ rw (w.bits j (omega (arith, w.room, w.longer))) (some_if (i == j) _ _) in
      (
        (success, out_int conn prev, db'),
        rw (there, e, run, put, store) refl,
        (
          refl,
          ap (out_int conn) same_prev,
          rw again (
              getbit-inside conn' db' bitmap' (strtol pos') j _ at'
                (omega (arith, w.room, w.longer, len)) bit),
        ),
      )
