-- ===== src/Server/Pipeline.antt =====
-- The loop over what has come in on a connection, `while (try_one_req(conn)) {}` of src/server.cpp:
-- requests that stand one behind the other, and the replies.
use mathlib.Core.List.{append_assoc, append-nil}
use custom_redis.Base.{
  ℕ, zero, suc, ◌+◌, ◌*◌, ◌^◌, ◌≤◌, ◌<◌, ◌≡◌, refl, ap, ◌∙◌, ◌⊎◌, inl, inr, true, false, List, [],
  ◌∷◌, ◌++◌, map, Option, some, arith, ltb, length, length-append, take, drop, take-length_append,
  drop-length_append,
}
use custom_redis.Str.{Dstr, Malloc, max_str_size}
use custom_redis.Str.Contents.{Serves}
use custom_redis.Wire.{Bytes, le_bytes, le_value, buf_consume}
use custom_redis.Wire.Reads.{length-le_bytes, le_value-le_bytes, buf_consume-append}
use custom_redis.Reply.Tags
use custom_redis.Reply.{Conn, res_ok, max_message_len, before_res_build, after_res_build}
use custom_redis.Reply.Items.{Item, preamble, message, before_eq, reply-message}
use custom_redis.Client.Shows.{items_bytes}
use custom_redis.Server.{serve_req, try_one_req, try_all_reqs, reqs_fuel}
use custom_redis.Server.Parse.{request, request_body, parsed, parse_cmd-request}

-- What a command does to the data, and its status code and items.
abbrev pub Run {ℓ} : Type ℓ → Type ℓ
Run G = G → List Dstr → G × ℕ × List Item

-- `out_buffer` carries out `run` on the command `cmd` and the data `g`: after a status code of success
-- it appends the items, with the code replaced by that of the command.
abbrev pub Answers {ℓ} :
    {G : Type ℓ} → (G → Conn → List Dstr → Option (G × Conn)) → Run G → G → List Dstr → Type ℓ
Answers {G = G} out_buffer run g cmd =
    (conn : Conn) (out : Bytes)
    → conn.outgoing ≡ out ++ le_bytes 4 res_ok
    → out_buffer g conn cmd
      ≡ some (
        (run g cmd).0,
        record conn { outgoing = (out ++ le_bytes 4 (run g cmd).1) ++ items_bytes (run g cmd).2 },
      )

-- So for each of the queries, on the data that those before it leave.
unfoldable pub AnswersAll {ℓ} :
    {G : Type ℓ}
    → (G → Conn → List Dstr → Option (G × Conn))
    → Run G
    → G
    → List (List Dstr)
    → Type ℓ
AnswersAll out_buffer run g [] = Unit
AnswersAll out_buffer run g (query ∷ queries) =
    Answers out_buffer run g (map parsed query)
    × AnswersAll out_buffer run (run g (map parsed query)).0 queries

-- The data and the replies after the requests.
unfoldable pub run_all {ℓ} : {G : Type ℓ} → Run G → G → List (List Dstr) → G × Bytes
run_all run g [] = (g, [])
run_all run g (query ∷ queries) =
    let (g', code, items) = run g (map parsed query) in
    let (g'', replies) = run_all run g' queries in
    (g'', message code (items_bytes items) ++ replies)

-- Requests that the allocator can take and whose replies are within the limit.
unfoldable pub AreShort {ℓ} : {G : Type ℓ} → Run G → G → List (List Dstr) → Type 0
AreShort run g [] = Unit
AreShort run g (query ∷ queries) =
    (2 * length (request_body query) ≤ max_str_size)
    × (10 + length (items_bytes (run g (map parsed query)).2) ≤ max_message_len)
    × AreShort run (run g (map parsed query)).0 queries

unfoldable pub requests : List (List Dstr) → Bytes
requests [] = []
requests (query ∷ queries) = request query ++ requests queries

-- Less than a whole request.
abbrev pub IsPartial : Bytes → Type 0
IsPartial buf = (length buf < 4) ⊎ (length buf < le_value (take 4 buf) + 4)

-- What `before_res_build` appends before the status code.
stub : Bytes
stub = le_bytes 4 0 ++ (Tags.arr ∷ (le_bytes 4 2 ++ (Tags.int ∷ [])))

stub_code :
    (out payload : Bytes) (code : ℕ)
    → ((out ++ stub) ++ le_bytes 4 code) ++ payload
      ≡ out ++ (le_bytes 4 0 ++ (preamble code ++ payload))
unfolding stub preamble
stub_code out payload code = simp append_assoc

stub_ok : (out : Bytes) → (before_res_build out).0 ≡ (out ++ stub) ++ le_bytes 4 res_ok
unfolding stub preamble
stub_ok out = rw (before_eq out) (simp append_assoc)

take_header : (n : ℕ) (body rest : Bytes) → take 4 ((le_bytes 4 n ++ body) ++ rest) ≡ le_bytes 4 n
take_header n body rest =
    rw (append_assoc (le_bytes 4 n) body rest)
      (rw (length-le_bytes 4 n) at (take-length_append (le_bytes 4 n) (body ++ rest)))

module _ {ℓ} {G : Type ℓ} (malloc : Malloc) (serves : Serves malloc)
    (out_buffer : G → Conn → List Dstr → Option (G × Conn)) (run : Run G) where
  -- The connection after one request.
  abbrev answered : G → Conn → List Dstr → Bytes → Conn
  answered g conn query rest =
      let (g', code, items) = run g (map parsed query) in
      record conn { incoming = rest; outgoing = conn.outgoing ++ message code (items_bytes items) }

  serve_req-request :
      (g : G) (conn : Conn) (query : List Dstr) (rest : Bytes)
      → Answers out_buffer run g (map parsed query)
      → conn.incoming ≡ request query ++ rest
      → length conn.outgoing < 2 ^ 32
      → 2 * length (request_body query) ≤ max_str_size
      → 10 + length (items_bytes (run g (map parsed query)).2) ≤ max_message_len
      → serve_req malloc out_buffer g conn (length (request_body query))
        ≡ some ((run g (map parsed query)).0, answered g conn query rest)
  unfolding serve_req
  serve_req-request g conn query rest answers e small fits short =
      let body = request_body query in
      let header = le_bytes 4 (length body) in
      let out = (before_res_build conn.outgoing).0 in
      let cmd = map parsed query in
      let split : (header ++ body) ++ rest ≡ header ++ (body ++ rest) =
        append_assoc header body rest in
      let behind : drop 4 conn.incoming ≡ body ++ rest =
        rw (e, split)
          (rw (length-le_bytes 4 (length body)) at (drop-length_append header (body ++ rest))) in
      let whole : length (request query) ≡ 4 + length body =
        omega (arith, length-append header body, length-le_bytes 4 (length body)) in
      let left : buf_consume conn.incoming (4 + length body) ≡ some rest =
        rw (e, ← whole) (buf_consume-append (request query) rest) in
      let ran =
        answers (record conn { outgoing = out }) (conn.outgoing ++ stub) (stub_ok conn.outgoing) in
      let done =
        reply-message conn.outgoing (items_bytes (run g cmd).2) (run g cmd).1 small short in
      let built =
        ap (λ b. after_res_build b (before_res_build conn.outgoing).1)
          (stub_code conn.outgoing (items_bytes (run g cmd).2) (run g cmd).1)
        ∙ done in
      rw (behind, parse_cmd-request malloc serves query rest fits, ran, built, left)

  try_one_req-request :
      (g : G) (conn : Conn) (query : List Dstr) (rest : Bytes)
      → Answers out_buffer run g (map parsed query)
      → conn.incoming ≡ request query ++ rest
      → length conn.outgoing < 2 ^ 32
      → 2 * length (request_body query) ≤ max_str_size
      → 10 + length (items_bytes (run g (map parsed query)).2) ≤ max_message_len
      → try_one_req malloc out_buffer g conn
        ≡ some (true, (run g (map parsed query)).0, answered g conn query rest)
  unfolding try_one_req
  try_one_req-request g conn query rest answers e small fits short =
      let body = request_body query in
      let total : le_value (take 4 conn.incoming) ≡ length body =
        rw (e, take_header (length body) body rest)
          (le_value-le_bytes 4 (length body) (omega arith)) in
      let len : length conn.incoming ≡ 4 + length body + length rest = rw e (
        omega (
          arith,
          length-append (request query) rest,
          length-append (le_bytes 4 (length body)) body,
          length-le_bytes 4 (length body),
        )) in
      let sized : ltb (length conn.incoming) 4 ≡ false = ground (arith, len) in
      let full : ltb (length conn.incoming) (length body + 4) ≡ false = ground (arith, len) in
      rw (total, sized, full, serve_req-request g conn query rest answers e small fits short)

  try_one_req-partial :
      (g : G) (conn : Conn)
      → IsPartial conn.incoming
      → try_one_req malloc out_buffer g conn ≡ some (false, g, conn)
  unfolding try_one_req
  try_one_req-partial g conn (inl h) = ground arith
  try_one_req-partial g conn (inr h) = ground arith

  -- The connection after all requests.
  abbrev all_answered : G → Conn → List (List Dstr) → Bytes → Conn
  all_answered g conn queries rest = record conn {
    incoming = rest;
    outgoing = conn.outgoing ++ (run_all run g queries).1;
  }

  try_all_reqs_lem :
      (fuel : ℕ) (g : G) (conn : Conn) (queries : List (List Dstr)) (rest : Bytes)
      → conn.incoming ≡ requests queries ++ rest
      → IsPartial rest
      → length (conn.outgoing ++ (run_all run g queries).1) < 2 ^ 32
      → AreShort run g queries
      → AnswersAll out_buffer run g queries
      → length queries < fuel
      → try_all_reqs malloc out_buffer fuel g conn
        ≡ some ((run_all run g queries).0, all_answered g conn queries rest)
  unfolding try_all_reqs run_all requests AreShort AnswersAll
  try_all_reqs_lem zero g conn queries rest e partial small short answers h = absurd (omega arith)
  try_all_reqs_lem (suc fuel) g conn [] rest e partial small short answers h =
      rw (try_one_req-partial g conn (rw e partial), append-nil, ← e)
  try_all_reqs_lem (suc fuel) g conn (query ∷ queries) rest e partial small (fits, short, others)
        (answers, more) h =
      let (g', code, items) = run g (map parsed query) in
      let mes = message code (items_bytes items) in
      let replies = (run_all run g' queries).1 in
      let split : (request query ++ requests queries) ++ rest
          ≡ request query ++ (requests queries ++ rest) =
        append_assoc (request query) (requests queries) rest in
      let assoc : (conn.outgoing ++ mes) ++ replies ≡ conn.outgoing ++ (mes ++ replies) =
        append_assoc conn.outgoing mes replies in
      let one =
        try_one_req-request g conn query (requests queries ++ rest) answers (e ∙ split)
          (omega (arith, length-append conn.outgoing (mes ++ replies))) fits short in
      let ih =
        try_all_reqs_lem fuel g' (answered g conn query (requests queries ++ rest)) queries rest
          refl partial (rw assoc small) others more (omega arith) in
      rw (one, ih, assoc)

  -- A request is not empty.
  length-requests : (queries : List (List Dstr)) → length queries ≤ length (requests queries)
  unfolding requests
  length-requests [] = omega arith
  length-requests (query ∷ queries) = omega (
    arith,
    length-requests queries,
    length-append (request query) (requests queries),
    length-append (le_bytes 4 (length (request_body query))) (request_body query),
    length-le_bytes 4 (length (request_body query)),
  )

  -- When the allocator serves every request, what has come in on a connection is a sequence of
  -- requests followed by less than a whole one, `out_buffer` answers each of them, on the data
  -- that those before it leave, as `run` says, and commands and replies are within the limits,
  -- the loop `while (try_one_req(conn)) {}` ends within its fuel, has carried out every command
  -- once and in order, keeps exactly the incomplete rest, and has appended exactly the replies,
  -- in the same order.
  pub try_all_reqs-requests :
      (g : G) (conn : Conn) (queries : List (List Dstr)) (rest : Bytes)
      → conn.incoming ≡ requests queries ++ rest
      → IsPartial rest
      → length (conn.outgoing ++ (run_all run g queries).1) < 2 ^ 32
      → AreShort run g queries
      → AnswersAll out_buffer run g queries
      → try_all_reqs malloc out_buffer (reqs_fuel conn) g conn
        ≡ some (
          (run_all run g queries).0,
          record conn { incoming = rest; outgoing = conn.outgoing ++ (run_all run g queries).1 },
        )
  try_all_reqs-requests g conn queries rest e partial small short answers =
      let len : length conn.incoming ≡ length (requests queries) + length rest =
        rw e (length-append (requests queries) rest) in
      try_all_reqs_lem (reqs_fuel conn) g conn queries rest e partial small short answers
        (omega (arith, len, length-requests queries))
