-- ===== src/Server/Exchange.antt =====
-- A whole exchange: the client of src/client.cpp sends a command, the server of src/server.cpp
-- answers it, and the client reads the reply.
use mathlib.Core.List.{append-nil}
use custom_redis.Base.{
  ◌+◌, ◌*◌, ◌^◌, ◌≤◌, ◌<◌, ◌≡◌, refl, sym, ◌∙◌, inl, inr, Bool-cases, List, [], ◌∷◌, ◌++◌, map,
  Option, some, arith, ltb, length, All, Returns,
}
use custom_redis.Str.{Dstr, Malloc, max_str_size}
use custom_redis.Str.Contents.{Serves}
use custom_redis.Wire.{Bytes}
use custom_redis.Reply.{Conn, max_message_len}
use custom_redis.Reply.Items.{message, length-message}
use custom_redis.Client.{max_request_len, handle_write, handle_read}
use custom_redis.Client.Shows.{BeginsZero, Fits, items_bytes, handle_read-message}
use custom_redis.Server.{try_all_reqs, reqs_fuel}
use custom_redis.Server.Parse.{request, request_body, parsed, handle_write-request}
use custom_redis.Server.Pipeline.{
  Run, Answers, AnswersAll, requests, run_all, AreShort, try_all_reqs-requests,
}

-- What is sent is the request, and it is within the client's limit.
sent :
    (query : List Dstr) (bytes : Bytes)
    → length (request_body query) < 2 ^ 32
    → handle_write query ≡ some bytes
    → (bytes ≡ request query) × (length (request_body query) ≤ max_request_len)
sent query bytes h e =
    let e' = sym (handle_write-request query h) ∙ e in
    elim (Bool-cases (ltb max_request_len (length (request_body query)))) [
      | inl large ↦ absurd (ground (arith, e', large))
      | inr fits ↦ (ground (arith, e', fits), ground arith)
    ]

module _ {ℓ} {G : Type ℓ} (malloc : Malloc) (serves : Serves malloc)
    (out_buffer : G → Conn → List Dstr → Option (G × Conn)) (run : Run G) (behind : Bytes → Bytes)
    (zeroed : BeginsZero behind) where
  -- When the allocator serves every request and fresh memory begins with a zero byte,
  -- `out_buffer` answers the parsed query on the data as `run` says, the client's `handle_write`
  -- makes of the query just the bytes that have come in on a connection with nothing to send, the
  -- status code and the items of the reply fit their fields, texts without zero bytes, and the
  -- reply is within the server's limit, then the server's loop returns with the data that `run`
  -- gives and with nothing left to read, and the client's `handle_read` of what the server has to
  -- send returns exactly the status code and the items of `run` on the parsed tokens.
  pub exchange :
      (g : G) (conn : Conn) (query : List Dstr)
      → Answers out_buffer run g (map parsed query)
      → length (request_body query) < 2 ^ 32
      → handle_write query ≡ some conn.incoming
      → conn.outgoing ≡ []
      → (run g (map parsed query)).1 < 2 ^ 32
      → All Fits (run g (map parsed query)).2
      → 10 + length (items_bytes (run g (map parsed query)).2) ≤ max_message_len
      → Returns (try_all_reqs malloc out_buffer (reqs_fuel conn) g conn) λ r.
        (r.0 ≡ (run g (map parsed query)).0)
        × (r.1.incoming ≡ [])
        × (handle_read malloc behind r.1.outgoing
            ≡ some (some ((run g (map parsed query)).1, (run g (map parsed query)).2)))
  unfolding requests run_all AreShort AnswersAll
  exchange g conn query answers small e empty code fits short =
      let (g', status, items) = run g (map parsed query) in
      let (same, limit) = sent query conn.incoming small e in
      let short_request : 2 * length (request_body query) ≤ max_str_size = omega arith in
      let all_in : conn.incoming ≡ (request query ++ []) ++ [] = rw (append-nil, append-nil) same in
      let replies : length (conn.outgoing ++ (message status (items_bytes items) ++ [])) < 2 ^ 32 =
        rw (empty, append-nil) (omega (arith, length-message status (items_bytes items))) in
      let ran =
        try_all_reqs-requests malloc serves out_buffer run g conn (query ∷ []) [] all_in
          (inl (omega arith)) replies (short_request, short, tt) (answers, tt) in
      let got : handle_read malloc behind (message status (items_bytes items))
          ≡ some (some (status, items)) =
        rw append-nil at
          (handle_read-message malloc serves behind zeroed status items [] code fits short) in
      let read : handle_read malloc behind
            (conn.outgoing ++ (message status (items_bytes items) ++ []))
          ≡ some (some (status, items)) =
        rw (empty, append-nil) got in
      (_, ran, (refl, refl, read))
