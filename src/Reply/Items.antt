-- ===== src/Reply/Items.antt =====
-- A reply as a list of items, and what the functions of src/out_helpers.cpp and the two halves of a
-- reply in src/server.cpp leave in the buffer.
use mathlib.Core.List.{append_assoc}
use custom_redis.Base.{
  ℕ, ◌+◌, ◌-◌, ◌%◌, ◌^◌, ◌≤◌, ◌<◌, ◌≡◌, refl, ap, [], ◌∷◌, ◌++◌, some, arith, length, length-append,
  drop, take-length_append, drop-length_append,
}
use custom_redis.HashMap.{c_str}
use custom_redis.Reply.Tags
use custom_redis.Wire.{
  Bytes, le_bytes, buf_append, buf_append_u8, buf_append_u32, buf_append_double,
}
use custom_redis.Wire.Reads.{length-le_bytes, read_bytes-append, rem_last-append}
use custom_redis.Reply.{
  Conn, res_ok, res_err, res_nx, max_message_len, out_arr, out_int, out_double, out_str,
  out_not_found, out_err, out_null, before_res_build, overwrite_u32, after_res_build,
}

-- What a reply is made of after its status code.
pub data Item : Type 0 where
  int arr double : ℕ → Item
  str error : Bytes → Item
  null : Item

unfoldable pub item_bytes : Item → Bytes
item_bytes (int n) = Tags.int ∷ le_bytes 4 n
item_bytes (arr n) = Tags.arr ∷ le_bytes 4 n
item_bytes (double x) = Tags.double ∷ le_bytes 8 x
item_bytes (str s) = Tags.str ∷ (le_bytes 4 (length s) ++ s)
item_bytes (error s) = Tags.error ∷ (le_bytes 4 (length s) ++ s)
item_bytes null = Tags.null ∷ []

-- What stands before the status code, and then the code.
unfoldable pub preamble : ℕ → Bytes
preamble code = Tags.arr ∷ (le_bytes 4 2 ++ (Tags.int ∷ le_bytes 4 code))

-- The whole message: its length, the array of two, the status code and the items.
unfoldable pub message : ℕ → Bytes → Bytes
message code payload = le_bytes 4 (10 + length payload) ++ (preamble code ++ payload)

pub out_int-item :
    (conn : Conn) (n : ℕ) → (out_int conn n).outgoing ≡ conn.outgoing ++ item_bytes (int n)
unfolding out_int item_bytes buf_append_u32 buf_append_u8 buf_append
out_int-item conn n = append_assoc conn.outgoing (Tags.int ∷ []) (le_bytes 4 n)

pub out_arr-item :
    (conn : Conn) (n : ℕ) → (out_arr conn n).outgoing ≡ conn.outgoing ++ item_bytes (arr n)
unfolding out_arr item_bytes buf_append_u32 buf_append_u8 buf_append
out_arr-item conn n = append_assoc conn.outgoing (Tags.arr ∷ []) (le_bytes 4 n)

pub out_double-item :
    (conn : Conn) (x : ℕ) → (out_double conn x).outgoing ≡ conn.outgoing ++ item_bytes (double x)
unfolding out_double item_bytes buf_append_double buf_append_u8 buf_append
out_double-item conn x = append_assoc conn.outgoing (Tags.double ∷ []) (le_bytes 8 x)

pub out_null-item : (conn : Conn) → (out_null conn).outgoing ≡ conn.outgoing ++ item_bytes null
unfolding out_null item_bytes buf_append_u8
out_null-item conn = refl

-- A tag, a length and the bytes.
tagged :
    (out s : Bytes) (tag n : ℕ)
    → ((out ++ (tag ∷ [])) ++ le_bytes 4 n) ++ s ≡ out ++ (tag ∷ (le_bytes 4 n ++ s))
tagged out s tag n = simp append_assoc

pub out_str-item :
    (conn : Conn) (s rest : Bytes)
    → out_str conn (s ++ rest) (length s)
      ≡ some (record conn { outgoing = conn.outgoing ++ item_bytes (str s) })
unfolding out_str item_bytes buf_append_u32 buf_append_u8 buf_append
out_str-item conn s rest = rw (read_bytes-append s rest, tagged)

pub length-preamble : (code : ℕ) → length (preamble code) ≡ 10
unfolding preamble
length-preamble code = omega (
  arith,
  length-append (le_bytes 4 2) (Tags.int ∷ le_bytes 4 code),
  length-le_bytes 4 2,
  length-le_bytes 4 code,
)

pub length-message :
    (code : ℕ) (payload : Bytes) → length (message code payload) ≡ 14 + length payload
unfolding message
length-message code payload = omega (
  arith,
  length-append (le_bytes 4 (10 + length payload)) (preamble code ++ payload),
  length-append (preamble code) payload,
  length-le_bytes 4 (10 + length payload),
  length-preamble code,
)

pub before_eq :
    (out : Bytes)
    → before_res_build out ≡ (out ++ (le_bytes 4 0 ++ preamble res_ok), length out % 2 ^ 32)
unfolding before_res_build preamble buf_append_u32 buf_append_u8 buf_append
before_eq out = ap (λ b. (b, length out % 2 ^ 32)) (simp append_assoc)

-- When the status code stands last in the buffer, `out_err` replaces it with that of an error and
-- appends the message's characters up to the first zero byte as an error item, and changes
-- nothing before the code.
pub out_err-item :
    (conn : Conn) (out mes : Bytes) (code : ℕ)
    → conn.outgoing ≡ out ++ le_bytes 4 code
    → out_err conn mes
      ≡ some
          (record conn { outgoing = (out ++ le_bytes 4 res_err) ++ item_bytes (error (c_str mes)) })
unfolding out_err item_bytes buf_append_u32 buf_append_u8 buf_append
out_err-item conn out mes code e =
    rw (e, rem_last-append out (le_bytes 4 code) (length-le_bytes 4 code), tagged)

-- When the status code stands last in the buffer, `out_not_found` replaces it with that of a
-- missing key and appends a null item, and changes nothing before the code.
pub out_not_found-item :
    (conn : Conn) (out : Bytes) (code : ℕ)
    → conn.outgoing ≡ out ++ le_bytes 4 code
    → out_not_found conn
      ≡ some (record conn { outgoing = (out ++ le_bytes 4 res_nx) ++ item_bytes null })
unfolding out_not_found item_bytes buf_append_u32 buf_append_u8 buf_append
out_not_found-item conn out code e =
    rw (e, rem_last-append out (le_bytes 4 code) (length-le_bytes 4 code))

overwrite-append :
    (out old rest : Bytes) (x : ℕ)
    → length old ≡ 4
    → overwrite_u32 (out ++ (old ++ rest)) (length out) x ≡ some (out ++ (le_bytes 4 x ++ rest))
unfolding overwrite_u32
overwrite-append out old rest x h =
    let len = length-append out (old ++ rest) in
    let len' = length-append old rest in
    let assoc : (out ++ old) ++ rest ≡ out ++ (old ++ rest) = append_assoc out old rest in
    let tail : drop (length out + 4) (out ++ (old ++ rest)) ≡ rest =
      rw (← h, ← length-append, ← assoc) (drop-length_append (out ++ old) rest) in
    rw (take-length_append, tail) (ground (arith, len, len'))

-- With less than 2 ^ 32 bytes to send before, and a reply within the limit, `after_res_build` at
-- the position that `before_res_build` gave writes the length into its place: the buffer is what
-- was to be sent before, followed by the message of the code and the payload.
pub reply-message :
    (out payload : Bytes) (code : ℕ)
    → length out < 2 ^ 32
    → 10 + length payload ≤ max_message_len
    → after_res_build (out ++ (le_bytes 4 0 ++ (preamble code ++ payload))) (before_res_build out).1
      ≡ some (out ++ message code payload)
unfolding after_res_build message
reply-message out payload code h fits =
    let body = preamble code ++ payload in
    let len = length-append out (le_bytes 4 0 ++ body) in
    let len' = length-append (le_bytes 4 0) body in
    let len'' = length-append (preamble code) payload in
    let zeros = length-le_bytes 4 0 in
    let header : (before_res_build out).1 ≡ length out = rw (before_eq out) (omega arith) in
    let mes_len : (length (out ++ (le_bytes 4 0 ++ body)) + 2 ^ 64 - length out - 4) % 2 ^ 64
        ≡ 10 + length payload =
      omega (arith, len, len', len'', zeros, length-preamble code) in
    rw (header, mes_len, overwrite-append out (le_bytes 4 0) body (10 + length payload) zeros)
      (ground arith)
