-- ===== src/Client.antt =====
-- The client's side of the protocol: `handle_write`, `handle_read` and `print_res` of
-- src/client.cpp. The socket is a stream of bytes; what `printf` shows is a list of `Item`s, and the
-- terminal is not modelled. `behind` says what stands in memory behind a string that was copied.
pub mod Shows
use custom_redis.Base.{
  ℕ, zero, suc, ◌+◌, ◌-◌, ◌*◌, ◌%◌, ◌^◌, List, [], ◌∷◌, ◌++◌, map, Option, none, some, ltb, leb,
  ◌==◌, ◌||◌, if◌then◌else◌, length, take, drop, ◌>>=◌,
}
use custom_redis.Str.{Dstr, Malloc, size, dstr_init}
use custom_redis.Wire.{
  Bytes, buf_append, buf_append_u8, buf_append_u32, read_bytes, read_number, le_value,
}
use custom_redis.Reply.Tags
use custom_redis.Reply.Items.{Item, int, arr, double, str, error, null}

-- `MAX_MESSAGE_LEN` of the client.
abbrev pub max_request_len : ℕ
max_request_len = 4096

-- The `for` that adds up `total_size`, a `uint32_t`.
unfoldable pub add_sizes : ℕ → List Dstr → ℕ
add_sizes total_size [] = total_size
add_sizes total_size (token ∷ query) = add_sizes ((total_size + (5 + size token)) % 2 ^ 32) query

unfoldable pub add_tokens : Bytes → List Dstr → Bytes
add_tokens buf [] = buf
add_tokens buf (token ∷ query) =
    add_tokens (buf_append (buf_append_u32 (buf_append_u8 buf Tags.str) (size token)) token.chars)
      query

-- The bytes that go to `write_all`, or `none` for a message that is too large.
unfoldable pub handle_write : List Dstr → Option Bytes
handle_write query =
    let total_size = add_sizes 5 query in
    let buf =
      buf_append_u32 (buf_append_u8 (buf_append_u32 [] total_size) Tags.arr) (length query) in
    if ltb max_request_len total_size then none else some (add_tokens buf query)

-- What `%s` prints: the bytes to the first zero byte. Without one it reads on, which is a fault.
unfoldable pub until_zero : Bytes → Option Bytes
until_zero [] = none
until_zero (c ∷ s) =
    let rest = until_zero s >>= λ t. some (c ∷ t) in if c == 0 then some [] else rest

-- The text of a string or an error, and the rest of the buffer. `dstr_init` may refuse the size, and
-- the copy has no zero byte of its own: `behind` is what stands in memory behind it, where `rest` is
-- what is left of the buffer.
unfoldable pub read_str : Malloc → (Bytes → Bytes) → Bytes → Option (Bytes × Bytes)
unfolding until_zero
read_str malloc behind buf = do
  (str_size, sized) ← read_number 4 buf
  dest ← (dstr_init malloc str_size).0
  (chars, rest) ← read_bytes str_size sized
  text ← until_zero (chars ++ behind rest)
  some (text, rest)

-- One round of `print_res`, after the tag: what is printed, and the rest of the buffer.
unfoldable pub print_one : Malloc → (Bytes → Bytes) → ℕ → Bytes → Option (List Item × Bytes)
print_one malloc behind tag buf =
    if tag == Tags.arr
    then (read_number 4 buf >>= λ (n, rest). some (arr n ∷ [], rest))
    else if tag == Tags.str || tag == Tags.error
    then (read_str malloc behind buf >>= λ (s, rest).
        some ((if tag == Tags.str then str s else error s) ∷ [], rest))
    else if tag == Tags.double
    then (read_number 8 buf >>= λ (x, rest). some (double x ∷ [], rest))
    else if tag == Tags.int
    then (read_number 4 buf >>= λ (n, rest). some (int n ∷ [], rest))
    else if tag == Tags.null
    then some (null ∷ [], buf)
    else some ([], buf)

-- `buf` is what stands from `curr` on. Since the whole buffer is `4 + total_len` bytes, the function
-- returns when nothing is left. The first argument bounds the calls.
unfoldable pub print_res : ℕ → Malloc → (Bytes → Bytes) → Bytes → Option (List Item)
print_res zero malloc behind buf = none
print_res (suc fuel) malloc behind [] = some []
print_res (suc fuel) malloc behind (tag ∷ buf) =
    print_one malloc behind tag buf >>= λ (shown, rest).
    print_res fuel malloc behind rest >>= λ others. some (shown ++ others)

-- `read_all`: the inner `none` is the end of the stream before all bytes have come.
unfoldable pub read_all : Bytes → ℕ → Option (Bytes × Bytes)
read_all stream n = if leb n (length stream) then some (take n stream, drop n stream) else none

-- The response code and what is printed.
unfoldable pub show_reply : Malloc → (Bytes → Bytes) → Bytes → Option (ℕ × List Item)
show_reply malloc behind buf = do
  (head, rest) ← read_bytes (4 + 1 + 4 + 1) buf
  (res_code, items) ← read_number 4 rest
  shown ← print_res (length items + 1) malloc behind items
  some (res_code, shown)

-- After the second `read_all`.
unfoldable pub show_read :
    Malloc → (Bytes → Bytes) → Bytes → Option (Bytes × Bytes) → Option (Option (ℕ × List Item))
show_read malloc behind header none = some none
show_read malloc behind header (some (message, after)) = do
  reply ← show_reply malloc behind (header ++ message)
  some (some reply)

-- After the first `read_all`. A vector of `4 + total_len` bytes, a `uint32_t`, is too short for the
-- message when the sum wraps.
unfoldable pub read_sized :
    Malloc → (Bytes → Bytes) → Option (Bytes × Bytes) → Option (Option (ℕ × List Item))
read_sized malloc behind none = some none
read_sized malloc behind (some (header, more)) =
    let total_len = le_value header in
    if leb (2 ^ 32) (4 + total_len)
    then none
    else show_read malloc behind header (read_all more total_len)

-- The outer `none` is a fault; the inner one is the error -1.
unfoldable pub handle_read : Malloc → (Bytes → Bytes) → Bytes → Option (Option (ℕ × List Item))
handle_read malloc behind stream = read_sized malloc behind (read_all stream 4)
