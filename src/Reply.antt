-- ===== src/Reply.antt =====
-- The state of a connection, src/server.h, and the replies that are built in it:
-- src/out_helpers.h, src/out_helpers.cpp, and `before_res_build` and `after_res_build` of
-- src/server.cpp.
-- Of a `Conn` the model has the buffers, the flags and the times; the links of its timers are not in
-- it. An integer that is passed as `uint32_t` is cut when its four bytes are written.
pub mod Tags
pub mod Items
use custom_redis.Base.{
  ℕ, ◌+◌, ◌-◌, ◌*◌, ◌%◌, ◌^◌, Bool, List, [], ◌∷◌, ◌++◌, Option, none, some, ltb, leb,
  if◌then◌else◌, length, take, drop, ◌>>=◌,
}
use custom_redis.HashMap.{c_str}
use custom_redis.Reply.Tags
use custom_redis.Wire.{
  Bytes, le_bytes, buf_append, buf_append_u8, buf_append_u32, buf_append_double,
  buf_rem_last_res_code, read_bytes,
}

pub record Conn : Type 0 where
  pub fd : ℕ
  pub want_read : Bool
  pub want_write : Bool
  pub want_close : Bool
  pub incoming : Bytes
  pub outgoing : Bytes
  pub last_active_ms : ℕ
  pub last_read_ms : ℕ
  pub last_write_ms : ℕ

abbrev pub res_ok : ℕ
res_ok = 0

abbrev pub res_err : ℕ
res_err = 1

abbrev pub res_nx : ℕ
res_nx = 2

-- `MAX_MESSAGE_LEN` of the server.
abbrev pub max_message_len : ℕ
max_message_len = 32 * 2 ^ 20

unfoldable pub out_arr : Conn → ℕ → Conn
out_arr conn len = record conn {
  outgoing = buf_append_u32 (buf_append_u8 conn.outgoing Tags.arr) len;
}

unfoldable pub out_int : Conn → ℕ → Conn
out_int conn nr = record conn {
  outgoing = buf_append_u32 (buf_append_u8 conn.outgoing Tags.int) nr;
}

unfoldable pub out_double : Conn → ℕ → Conn
out_double conn dbl = record conn {
  outgoing = buf_append_double (buf_append_u8 conn.outgoing Tags.double) dbl;
}

-- The first `size` bytes at `str` are read.
unfoldable pub out_str : Conn → Bytes → ℕ → Option Conn
out_str conn str size = do
  (chars, rest) ← read_bytes size str
  some (record conn {
    outgoing = buf_append (buf_append_u32 (buf_append_u8 conn.outgoing Tags.str) size) chars;
  })

unfoldable pub out_not_found : Conn → Option Conn
out_not_found conn = do
  out ← buf_rem_last_res_code conn.outgoing
  some (record conn { outgoing = buf_append_u8 (buf_append_u32 out res_nx) Tags.null })

unfoldable pub out_err : Conn → Bytes → Option Conn
out_err conn err_mes = do
  let mes = c_str err_mes
  out ← buf_rem_last_res_code conn.outgoing
  let tagged = buf_append_u8 (buf_append_u32 out res_err) Tags.error
  some (record conn { outgoing = buf_append (buf_append_u32 tagged (length mes)) mes })

unfoldable pub out_null : Conn → Conn
out_null conn = record conn { outgoing = buf_append_u8 conn.outgoing Tags.null }

-- The position is that of the length, to be updated.
unfoldable pub out_unknown_arr : Conn → ℕ × Conn
unfolding out_arr
out_unknown_arr conn = let conn' = out_arr conn 0 in (length conn'.outgoing - 4, conn')

-- The second result is `header`.
unfoldable pub before_res_build : Bytes → Bytes × ℕ
before_res_build out =
    let sized = buf_append_u32 out 0 in
    let arr = buf_append_u32 (buf_append_u8 sized Tags.arr) 2 in
    (buf_append_u32 (buf_append_u8 arr Tags.int) res_ok, length out % 2 ^ 32)

-- `memcpy(&out[pos], &x, 4)`
unfoldable pub overwrite_u32 : Bytes → ℕ → ℕ → Option Bytes
overwrite_u32 out pos x =
    if leb (pos + 4) (length out)
    then some (take pos out ++ (le_bytes 4 x ++ drop (pos + 4) out))
    else none

unfoldable pub after_res_build : Bytes → ℕ → Option Bytes
after_res_build out header =
    let mes_len = (length out + 2 ^ 64 - header - 4) % 2 ^ 64 in
    if ltb max_message_len mes_len then some out else overwrite_u32 out header mes_len
