-- ===== src/Server/Tests.antt =====
-- The protocol of src/client.cpp and src/server.cpp at concrete commands and replies.
use custom_redis.Base.{
  ◌≡◌, refl, ◌∙◌, inl, List, [], ◌∷◌, ◌++◌, Option, none, some, map, arith, length, All, Returns,
  true, false,
}
use custom_redis.Str.{Dstr, Malloc}
use custom_redis.Wire.{Bytes, le_bytes}
use custom_redis.Reply.{Conn, out_str, before_res_build, after_res_build}
use custom_redis.Reply.Items.{null, str, item_bytes, message, preamble, out_str-item, reply-message}
use custom_redis.Client.{handle_write, handle_read}
use custom_redis.Client.Shows.{Fits, items_bytes}
use custom_redis.Server.{try_all_reqs, reqs_fuel}
use custom_redis.Server.Parse.{request, request_body, parsed, query_bytes, handle_write-request}
use custom_redis.Heap.{Heap}
use custom_redis.Commands.{t_str, Db, Handler}
use custom_redis.Commands.Names.{name_get, name_set}
use custom_redis.Commands.Keyspace.{read_str}
use custom_redis.Commands.Dispatch.{lower_name}
use custom_redis.Commands.Tests.{
  key_k, text_db, to_long, to_double, single-IsMap, entry, entry_place, entry-single, entry_found,
}
use custom_redis.Server.Stored.{on_tokens, get-Answers, stored-replies}
use custom_redis.Server.Pipeline.{
  Run, Answers, AnswersAll, requests, run_all, AreShort, try_all_reqs-requests,
}
use custom_redis.Server.Exchange.{exchange}

abbrev serving : Malloc
serving n = true

-- "get" and "k".
abbrev get_word : Dstr
get_word = record { chars = 103 ∷ 101 ∷ 116 ∷ []; free = 0; room = 4 }

abbrev key_word : Dstr
key_word = record { chars = 107 ∷ []; free = 2; room = 4 }

abbrev get_query : List Dstr
get_query = get_word ∷ key_word ∷ []

abbrev conn_of : Bytes → Bytes → Conn
conn_of incoming outgoing = record {
  fd = 5;
  want_read = true;
  want_write = false;
  want_close = false;
  incoming = incoming;
  outgoing = outgoing;
  last_active_ms = 0;
  last_read_ms = 0;
  last_write_ms = 0;
}

-- The dispatch of the program, without the commands on HyperLogLogs.
abbrev no_pf : Conn → List Bytes → Db → Handler
no_pf c args db = none

abbrev no_times : Heap
no_times = record { nodes = []; heap_idx = λ entry. 0 }

abbrev program : Db × Heap → Conn → List Dstr → Option ((Db × Heap) × Conn)
program = on_tokens to_long to_double to_long (λ key. 0) no_pf no_pf no_pf 5 16

-- GET replies with the string that the database has.
abbrev get_run : Run (Db × Heap)
get_run g cmd = (g, 0, str (1 ∷ 2 ∷ []) ∷ [])

lower_word : lower_name get_word.chars ≡ name_get
unfolding lower_name
lower_word = refl

text_there : read_str text_db key_k ≡ some (some (1 ∷ 2 ∷ []))
text_there = rw (entry_found (t_str (1 ∷ 2 ∷ []))) refl

program-Answers : Answers program get_run (text_db, no_times) (map parsed get_query)
program-Answers =
    get-Answers to_long to_double to_long (λ key. 0) no_pf no_pf no_pf 5 16 get_run text_db no_times
      (parsed get_word) (parsed key_word) (1 ∷ 2 ∷ []) lower_word text_there refl

out_str-item_example :
    out_str (conn_of [] (7 ∷ [])) (key_word.chars ++ (0 ∷ [])) (length key_word.chars)
    ≡ some (conn_of [] ((7 ∷ []) ++ item_bytes (str key_word.chars)))
out_str-item_example = out_str-item (conn_of [] (7 ∷ [])) key_word.chars (0 ∷ [])

reply-message_example :
    after_res_build
      ((7 ∷ []) ++ (le_bytes 4 0 ++ (preamble 2 ++ (3 ∷ []))))
      (before_res_build (7 ∷ [])).1
    ≡ some ((7 ∷ []) ++ message 2 (3 ∷ []))
reply-message_example = reply-message (7 ∷ []) (3 ∷ []) 2 (omega arith) (omega arith)

get_len : length (request_body get_query) ≡ 19
unfolding query_bytes le_bytes
get_len = refl

-- Two requests and the first bytes of a third.
abbrev two_requests : List (List Dstr)
two_requests = get_query ∷ get_query ∷ []

abbrev piped : Conn
piped = conn_of (requests two_requests ++ (19 ∷ 0 ∷ [])) []

two_requests-AreShort : AreShort get_run (text_db, no_times) two_requests
unfolding AreShort items_bytes item_bytes le_bytes
two_requests-AreShort =
    (omega (arith, get_len), omega arith, (omega (arith, get_len), omega arith, tt))

two_replies : length ([] ++ (run_all get_run (text_db, no_times) two_requests).1) ≡ 42
unfolding run_all items_bytes item_bytes message preamble le_bytes
two_replies = refl

program-AnswersAll : AnswersAll program get_run (text_db, no_times) two_requests
unfolding AnswersAll
program-AnswersAll = (program-Answers, (program-Answers, tt))

try_all_reqs-requests_example :
    try_all_reqs serving program (reqs_fuel piped) (text_db, no_times) piped
    ≡ some (
      (run_all get_run (text_db, no_times) two_requests).0,
      conn_of (19 ∷ 0 ∷ []) ([] ++ (run_all get_run (text_db, no_times) two_requests).1),
    )
try_all_reqs-requests_example =
    try_all_reqs-requests serving (λ n. refl) program get_run (text_db, no_times) piped two_requests
      (19 ∷ 0 ∷ []) refl (inl (omega arith)) (omega (arith, two_replies)) two_requests-AreShort
      program-AnswersAll

get_sent : handle_write get_query ≡ some (request get_query)
get_sent = handle_write-request get_query (omega (arith, get_len)) ∙ ground (arith, get_len)

one_item-Fits : All Fits (str (1 ∷ 2 ∷ []) ∷ [])
unfolding Fits
one_item-Fits = ((omega arith, (refl, (refl, tt))), tt)

one_item-short : length (items_bytes (str (1 ∷ 2 ∷ []) ∷ [])) ≡ 7
unfolding items_bytes item_bytes le_bytes
one_item-short = refl

-- Fresh memory.
abbrev zeros : Bytes → Bytes
zeros rest = 0 ∷ []

exchange_example :
    Returns
      (try_all_reqs serving program
        (reqs_fuel (conn_of (request get_query) []))
        (text_db, no_times)
        (conn_of (request get_query) []))
      λ r.
        (r.0 ≡ (text_db, no_times))
        × (r.1.incoming ≡ [])
        × (handle_read serving zeros r.1.outgoing ≡ some (some (0, str (1 ∷ 2 ∷ []) ∷ [])))
exchange_example =
    exchange serving (λ n. refl) program get_run zeros (λ rest. refl) (text_db, no_times)
      (conn_of (request get_query) []) get_query program-Answers (omega (arith, get_len)) get_sent
      refl (omega arith) one_item-Fits (omega (arith, one_item-short))

-- "Set"
abbrev set_word : Dstr
set_word = record { chars = 83 ∷ 101 ∷ 116 ∷ []; free = 0; room = 4 }

lower_set_word : lower_name set_word.chars ≡ name_set
unfolding lower_name
lower_set_word = refl

set_len : length (request_body (set_word ∷ key_word ∷ get_word ∷ [])) ≡ 27
unfolding query_bytes le_bytes
set_len = refl

abbrev set_get : Conn
set_get = conn_of (requests ((set_word ∷ key_word ∷ get_word ∷ []) ∷ get_query ∷ [])) []

stored-replies_example :
    Returns (try_all_reqs serving program (reqs_fuel set_get) (text_db, no_times) set_get) λ r.
      (r.0.1 ≡ no_times)
      × (r.1.incoming ≡ [])
      × (r.1.outgoing
          ≡ message 0 (items_bytes (null ∷ []))
            ++ message 0 (items_bytes (str get_word.chars ∷ [])))
stored-replies_example =
    stored-replies to_long to_double to_long (λ key. 0) no_pf no_pf no_pf 5 16 serving set_get
      set_word get_word key_word get_word text_db no_times (some (1 ∷ 2 ∷ [])) (λ n. refl)
      lower_set_word lower_word (single-IsMap (entry (t_str (1 ∷ 2 ∷ []))) entry_place)
      (omega (arith, entry-single (t_str (1 ∷ 2 ∷ [])))) text_there refl refl
      (omega (arith, set_len)) (omega (arith, get_len)) (omega arith)
