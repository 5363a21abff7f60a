-- ===== src/Server/Stored.antt =====
-- SET and then GET from the bytes of the requests to the bytes of the replies: the loop over requests
-- of src/server.cpp with its `out_buffer` and the handlers of src/redis_functions.cpp.
use mathlib.Core.List.{append-nil}
use custom_redis.Base.{
  ℕ, ◌+◌, ◌*◌, ◌^◌, ◌≤◌, ◌<◌, ◌≡◌, refl, sym, ap, ◌∙◌, inl, List, [], ◌∷◌, ◌++◌, map, Option, some,
  arith, length-append, if◌then◌else◌, ◌==◌, length, Returns,
}
use custom_redis.Str.{Dstr, Malloc, size, max_str_size}
use custom_redis.Str.Contents.{Serves}
use custom_redis.Wire.{Bytes, buf_append_u8, le_bytes}
use custom_redis.Wire.Reads.{length-le_bytes}
use custom_redis.HashMap.Valid.{IsMap}
use custom_redis.Heap.{Heap}
use custom_redis.Reply.{Conn, res_ok, max_message_len, out_str}
use custom_redis.Reply.Items.{Item, str, null, item_bytes, message, length-message, out_str-item}
use custom_redis.Client.Shows.{items_bytes}
use custom_redis.Commands.{Value, find_val, Db, Handler}
use custom_redis.Commands.Names.{name_get, name_set}
use custom_redis.Commands.Strings.{assign_val, do_set, tag_null}
use custom_redis.Commands.Lookups.{IsSingle, same_key_refl}
use custom_redis.Commands.Keyspace.{Sets, set_any, do_get-read, read_str}
use custom_redis.Commands.Dispatch.{lower_name, on_db, out_buffer}
use custom_redis.Commands.Served.{served-set, served-get}
use custom_redis.Server.{try_all_reqs, reqs_fuel}
use custom_redis.Server.Parse.{request_body, parsed}
use custom_redis.Server.Pipeline.{
  Run, Answers, AnswersAll, requests, run_all, AreShort, try_all_reqs-requests,
}

one_item : (x : Item) → items_bytes (x ∷ []) ≡ item_bytes x
unfolding items_bytes
one_item x = append-nil (item_bytes x)

one_null : length (items_bytes (null ∷ [])) ≡ 1
unfolding items_bytes item_bytes
one_null = refl

one_str : (s : Bytes) → length (items_bytes (str s ∷ [])) ≡ 5 + length s
unfolding item_bytes
one_str s =
    ap length (one_item (str s))
    ∙ omega (arith, length-append (le_bytes 4 (length s)) s, length-le_bytes 4 (length s))

module _ (strtol strtod strtoll : Bytes → ℕ) (hnode : Bytes → ℕ)
    (do_pfadd do_pfcount do_pfmerge : Conn → List Bytes → Db → Handler) (curr_ms addr : ℕ) where
  -- `out_buffer` on the tokens of a request.
  abbrev pub on_tokens : Db × Heap → Conn → List Dstr → Option ((Db × Heap) × Conn)
  on_tokens g conn cmd =
      out_buffer strtol strtod strtoll hnode do_pfadd do_pfcount do_pfmerge curr_ms addr g conn
        (map (λ (d : Dstr). d.chars) cmd)

  pub get-Answers :
      (run : Run (Db × Heap)) (db : Db) (heap : Heap) (s key : Dstr) (val : Bytes)
      → lower_name s.chars ≡ name_get
      → read_str db key.chars ≡ some (some val)
      → run (db, heap) (s ∷ key ∷ []) ≡ ((db, heap), res_ok, str val ∷ [])
      → Answers on_tokens run (db, heap) (s ∷ key ∷ [])
  unfolding on_db
  get-Answers run db heap s key val e there ran conn out held =
      let name =
        served-get strtol strtod strtoll hnode do_pfadd do_pfcount do_pfmerge curr_ms addr db heap
          conn s.chars key.chars e in
      let read = do_get-read conn db name_get key.chars in
      let said : out_str conn val (length val)
          ≡ some (record conn { outgoing = conn.outgoing ++ item_bytes (str val) }) =
        rw append-nil at (out_str-item conn val []) in
      rw (name, read, there, said, held, ran, one_item (str val)) refl

  pub set-Answers :
      (run : Run (Db × Heap)) (db db' : Db) (heap : Heap) (s key val : Dstr) (v : Option Value)
      → lower_name s.chars ≡ name_set
      → find_val db key.chars ≡ some v
      → assign_val db key.chars val.chars v ≡ some db'
      → run (db, heap) (s ∷ key ∷ val ∷ []) ≡ ((db', heap), res_ok, null ∷ [])
      → Answers on_tokens run (db, heap) (s ∷ key ∷ val ∷ [])
  unfolding on_db do_set tag_null item_bytes buf_append_u8
  set-Answers run db db' heap s key val v e found stored ran conn out held =
      let name =
        served-set strtol strtod strtoll hnode do_pfadd do_pfcount do_pfmerge curr_ms addr db heap
          conn s.chars key.chars val.chars e in
      rw (name, found, stored, ran, one_item null, held) refl

  -- When the allocator serves every request and what has come in on a connection with nothing to
  -- send is the bytes of a command SET of a key and a value and of a GET of the same key, the
  -- names in any case, within the limits, and the database is valid with at most one node for the
  -- key, which is absent or holds a string, then the server's loop, with its own `out_buffer` and
  -- handlers, returns without a fault with nothing left to read, the heap of expiry times as it
  -- was, and exactly two replies to send: success with null, and success with the bytes of the
  -- value.
  pub stored-replies :
      (malloc : Malloc) (conn : Conn) (s s' key val : Dstr) (db : Db) (heap : Heap)
      (old : Option Bytes)
      → Serves malloc
      → lower_name s.chars ≡ name_set
      → lower_name s'.chars ≡ name_get
      → IsMap db
      → IsSingle key.chars db
      → read_str db key.chars ≡ some old
      → conn.incoming ≡ requests ((s ∷ key ∷ val ∷ []) ∷ (s' ∷ key ∷ []) ∷ [])
      → conn.outgoing ≡ []
      → 2 * length (request_body (s ∷ key ∷ val ∷ [])) ≤ max_str_size
      → 2 * length (request_body (s' ∷ key ∷ [])) ≤ max_str_size
      → 15 + size val ≤ max_message_len
      → Returns (try_all_reqs malloc on_tokens (reqs_fuel conn) (db, heap) conn) λ r.
        (r.0.1 ≡ heap)
        × (r.1.incoming ≡ [])
        × (r.1.outgoing
            ≡ message res_ok (items_bytes (null ∷ []))
              ++ message res_ok (items_bytes (str val.chars ∷ [])))
  unfolding Sets AnswersAll AreShort run_all requests
  stored-replies malloc conn s s' key val db heap old serves set get valid one e all empty fits
        fits' short =
      let (v, found, (db', stored, reads)) =
        set_any db key.chars val.chars key.chars (find_val db key.chars) old valid one refl e in
      let again : read_str db' key.chars ≡ some (some val.chars) =
        reads ∙ rw (same_key_refl key.chars) refl in
      let run : Run (Db × Heap) = λ g cmd.
        if length cmd == 3
        then ((db', heap), res_ok, null ∷ [])
        else (g, res_ok, str val.chars ∷ []) in
      let said = items_bytes (str val.chars ∷ []) in
      let a = one_null in
      let b = one_str val.chars in
      let out : conn.outgoing
            ++ (message res_ok (items_bytes (null ∷ [])) ++ (message res_ok said ++ []))
          ≡ message res_ok (items_bytes (null ∷ [])) ++ message res_ok said =
        rw (empty, append-nil) refl in
      let small : length (
            conn.outgoing
            ++ (message res_ok (items_bytes (null ∷ [])) ++ (message res_ok said ++ [])))
          < 2 ^ 32 =
        rw out (
          omega (
            arith,
            a,
            b,
            length-append (message res_ok (items_bytes (null ∷ []))) (message res_ok said),
            length-message res_ok (items_bytes (null ∷ [])),
            length-message res_ok said,
          )) in
      let ran =
        try_all_reqs-requests malloc serves on_tokens run (db, heap) conn
          ((s ∷ key ∷ val ∷ []) ∷ (s' ∷ key ∷ []) ∷ []) [] (all ∙ sym (append-nil _))
          (inl (omega arith)) small (fits, omega (arith, a), (fits', omega (arith, b), tt))
          (
            set-Answers run db db' heap (parsed s) (parsed key) (parsed val) v set found stored
                refl,
            (get-Answers run db' heap (parsed s') (parsed key) val.chars get again refl, tt),
          ) in
      (_, ran, (refl, refl, out))
