-- ===== src/Server.antt =====
-- Requests on the server's side: `parse_cmd`, `try_one_req` and the loop of `handle_read` over what
-- has come in, of src/server.cpp.
-- `out_buffer`, which runs a command on the global data `G` and appends its reply, is a parameter here;
-- Server/Stored has the one of the program.
pub mod Parse
pub mod Pipeline
pub mod Exchange
pub mod Stored
mod Tests
use custom_redis.Base.{
  ℕ, zero, suc, ◌+◌, ◌-◌, ◌*◌, ◌%◌, ◌^◌, Bool, true, false, List, [], ◌∷◌, ◌++◌, Option, none, some,
  ltb, leb, if◌then◌else◌, length, take, drop, ◌>>=◌,
}
use custom_redis.Str.{Dstr, Malloc, dstr_init, dstr_append}
use custom_redis.Wire.{Bytes, le_value, read_bytes, read_number, buf_append, buf_consume}
use custom_redis.Reply.{Conn, before_res_build, after_res_build}

-- One token: its tag, which is not looked at, its length and its bytes.
unfoldable pub parse_token : Malloc → Bytes → Option (Dstr × Bytes)
parse_token malloc buf = do
  (tag, buf₁) ← read_number 1 buf
  (t_len, buf₂) ← read_number 4 buf₁
  token ← (dstr_init malloc t_len).0
  (chars, buf₃) ← read_bytes t_len buf₂
  (err, filled) ← dstr_append malloc token chars
  some (filled, buf₃)

-- `while (cmd.size() < nstr)`, with the number of tokens that are missing.
unfoldable pub parse_tokens : ℕ → Malloc → Bytes → Option (List Dstr)
parse_tokens zero malloc buf = some []
parse_tokens (suc missing) malloc buf = do
  (token, rest) ← parse_token malloc buf
  cmd ← parse_tokens missing malloc rest
  some (token ∷ cmd)

-- The number of tokens and the tokens. Nothing bounds the reads but the vector itself.
unfoldable pub parse_cmd : Malloc → Bytes → Option (ℕ × List Dstr)
parse_cmd malloc buf = do
  (first_tag, buf₁) ← read_number 1 buf
  (nstr, buf₂) ← read_number 4 buf₁
  cmd ← parse_tokens nstr malloc buf₂
  some (nstr, cmd)

-- A request takes at least its header.
abbrev pub reqs_fuel : Conn → ℕ
reqs_fuel conn = length conn.incoming + 1

module _ {ℓ} {G : Type ℓ} (malloc : Malloc)
    (out_buffer : G → Conn → List Dstr → Option (G × Conn)) where
  -- The request is there in full: from `parse_cmd` to the end.
  unfoldable pub serve_req : G → Conn → ℕ → Option (G × Conn)
  serve_req g conn total_len = do
    (nstr, cmd) ← parse_cmd malloc (drop 4 conn.incoming)
    let (out, header) = before_res_build conn.outgoing
    (g', conn') ← out_buffer g (record conn { outgoing = out }) cmd
    done ← after_res_build conn'.outgoing header
    rest ← buf_consume conn'.incoming (4 + total_len)
    some (g', record conn' { outgoing = done; incoming = rest })

  -- `false` is a request that is not there in full.
  unfoldable pub try_one_req : G → Conn → Option (Bool × G × Conn)
  try_one_req g conn =
      let total_len = le_value (take 4 conn.incoming) in
      let served = serve_req g conn total_len >>= λ (g', conn'). some (true, g', conn') in
      if ltb (length conn.incoming) 4
      then some (false, g, conn)
      else if ltb (length conn.incoming) (total_len + 4)
      then some (false, g, conn)
      else served

  -- `while (try_one_req(conn)) {}`; the first argument bounds the rounds.
  unfoldable pub try_all_reqs : ℕ → G → Conn → Option (G × Conn)
  try_all_reqs zero g conn = none
  try_all_reqs (suc fuel) g conn = try_one_req g conn >>= λ (again, g', conn'). elim again [
    | true ↦ try_all_reqs fuel g' conn'
    | false ↦ some (g', conn')
  ]
