-- ===== src/Server/Parse.antt =====
-- What `handle_write` of src/client.cpp sends, and `parse_cmd` of src/server.cpp on it.
use mathlib.Core.List.{append_assoc, append-nil}
use custom_redis.Base.{
  ℕ, ◌+◌, ◌*◌, ◌%◌, ◌^◌, ◌≤◌, ◌<◌, ◌≡◌, refl, ◌∙◌, List, [], ◌∷◌, ◌++◌, map, none, some, arith, ltb,
  if◌then◌else◌, length, length-append,
}
use custom_redis.Str.{Dstr, Malloc, size, max_str_size, str_ok, write_end, dstr_append}
use custom_redis.Str.Contents.{Serves, dstr_init-empty}
use custom_redis.Wire.{Bytes, le_bytes, buf_append, buf_append_u8, buf_append_u32}
use custom_redis.Wire.Reads.{
  length-le_bytes, read_bytes-append, read_number-le_bytes, read_number-byte,
}
use custom_redis.Reply.Tags
use custom_redis.Client.{max_request_len, add_sizes, add_tokens, handle_write}
use custom_redis.Server.{parse_token, parse_tokens, parse_cmd}

abbrev pub token_bytes : Dstr → Bytes
token_bytes token = Tags.str ∷ (le_bytes 4 (size token) ++ token.chars)

unfoldable pub query_bytes : List Dstr → Bytes
query_bytes [] = []
query_bytes (token ∷ query) = token_bytes token ++ query_bytes query

abbrev pub request_body : List Dstr → Bytes
request_body query = Tags.arr ∷ (le_bytes 4 (length query) ++ query_bytes query)

-- A whole request: its length and its body.
abbrev pub request : List Dstr → Bytes
request query = le_bytes 4 (length (request_body query)) ++ request_body query

-- The string that `parse_cmd` makes for a token.
abbrev pub parsed : Dstr → Dstr
parsed token = record { chars = token.chars; free = 0; room = size token + 1 }

length-token : (token : Dstr) → length (token_bytes token) ≡ 5 + size token
length-token token =
    omega
      (arith, length-append (le_bytes 4 (size token)) token.chars, length-le_bytes 4 (size token))

pub length-body : (query : List Dstr) → length (request_body query) ≡ 5 + length (query_bytes query)
length-body query = omega (
  arith,
  length-append (le_bytes 4 (length query)) (query_bytes query),
  length-le_bytes 4 (length query),
)

length_le_bytes : (query : List Dstr) → length query ≤ length (query_bytes query)
unfolding query_bytes
length_le_bytes [] = omega arith
length_le_bytes (token ∷ query) =
    omega (arith, length_le_bytes query, length-append (token_bytes token) (query_bytes query))

add_sizes_lem :
    (total_size : ℕ) (query : List Dstr)
    → total_size + length (query_bytes query) < 2 ^ 32
    → add_sizes total_size query ≡ total_size + length (query_bytes query)
unfolding add_sizes query_bytes
add_sizes_lem total_size [] h = omega arith
add_sizes_lem total_size (token ∷ query) h =
    let len = length-append (token_bytes token) (query_bytes query) in
    let first : (total_size + (5 + size token)) % 2 ^ 32 ≡ total_size + (5 + size token) =
      omega (arith, len, length-token token) in
    rw first (
      omega (
        arith,
        len,
        length-token token,
        add_sizes_lem (total_size + (5 + size token)) query
            (omega (arith, len, length-token token)),
      ))

add_tokens_lem : (buf : Bytes) (query : List Dstr) → add_tokens buf query ≡ buf ++ query_bytes query
unfolding add_tokens query_bytes buf_append_u32 buf_append_u8 buf_append
add_tokens_lem buf [] = simp append-nil
add_tokens_lem buf (token ∷ query) =
    add_tokens_lem (((buf ++ (Tags.str ∷ [])) ++ le_bytes 4 (size token)) ++ token.chars) query
    ∙ simp append_assoc

-- For a query whose request is below 2 ^ 32 bytes, the client's `handle_write` sends the length
-- and the body of the request when the body is at most 4096 bytes, and refuses it otherwise.
pub handle_write-request :
    (query : List Dstr)
    → length (request_body query) < 2 ^ 32
    → handle_write query
      ≡ (if ltb max_request_len (length (request_body query)) then none else some (request query))
unfolding handle_write buf_append_u32 buf_append_u8 buf_append
handle_write-request query h =
    let total : add_sizes 5 query ≡ length (request_body query) =
      omega (arith, length-body query, add_sizes_lem 5 query (omega (arith, length-body query))) in
    let n = length (request_body query) in
    let bytes : add_tokens ((le_bytes 4 n ++ (Tags.arr ∷ [])) ++ le_bytes 4 (length query)) query
        ≡ request query =
      add_tokens_lem ((le_bytes 4 n ++ (Tags.arr ∷ [])) ++ le_bytes 4 (length query)) query
      ∙ simp append_assoc in
    rw (total, bytes)

module _ (malloc : Malloc) (serves : Serves malloc) where
  -- The bytes go into a string that was made for them.
  append_fresh :
      (s : Bytes)
      → 2 * length s ≤ max_str_size
      → dstr_append malloc (record { chars = []; free = length s; room = length s + 1 }) s
        ≡ some (str_ok, record { chars = s; free = 0; room = length s + 1 })
  unfolding dstr_append write_end
  append_fresh s h = ground arith

  parse_token-bytes :
      (token : Dstr) (rest : Bytes)
      → 2 * size token ≤ max_str_size
      → parse_token malloc (token_bytes token ++ rest) ≡ some (parsed token, rest)
  unfolding parse_token
  parse_token-bytes token rest h =
      let sized = le_bytes 4 (size token) in
      let tag = read_number-byte Tags.str ((sized ++ token.chars) ++ rest) in
      rw (
        tag,
        append_assoc sized token.chars rest,
        read_number-le_bytes 4 (size token) (token.chars ++ rest) (omega arith),
        dstr_init-empty malloc (size token) serves (omega arith),
        read_bytes-append token.chars rest,
        append_fresh token.chars h,
      )

  parse_tokens-bytes :
      (query : List Dstr) (rest : Bytes)
      → 2 * length (query_bytes query) ≤ max_str_size
      → parse_tokens (length query) malloc (query_bytes query ++ rest) ≡ some (map parsed query)
  unfolding parse_tokens query_bytes
  parse_tokens-bytes [] rest h = refl
  parse_tokens-bytes (token ∷ query) rest h =
      let len = length-append (token_bytes token) (query_bytes query) in
      rw (
        append_assoc (token_bytes token) (query_bytes query) rest,
        parse_token-bytes token (query_bytes query ++ rest)
            (omega (arith, len, length-token token)),
        parse_tokens-bytes query rest (omega (arith, len)),
      )

  -- When the allocator serves every request and the request's body is at most half the limit on
  -- strings, `parse_cmd` on the body of a request, whatever stands behind it, returns the number
  -- of tokens and strings with the characters of the tokens, in order.
  pub parse_cmd-request :
      (query : List Dstr) (rest : Bytes)
      → 2 * length (request_body query) ≤ max_str_size
      → parse_cmd malloc (request_body query ++ rest) ≡ some (length query, map parsed query)
  unfolding parse_cmd
  parse_cmd-request query rest h =
      let count = le_bytes 4 (length query) in
      rw (
        read_number-byte Tags.arr ((count ++ query_bytes query) ++ rest),
        append_assoc count (query_bytes query) rest,
        read_number-le_bytes 4 (length query) (query_bytes query ++ rest)
            (omega (arith, length-body query, length_le_bytes query)),
        parse_tokens-bytes query rest (omega (arith, length-body query)),
      )
