-- ===== src/Commands/Sets.antt =====
-- The commands on sets, `do_sadd`, `do_srem`, `do_smembers` and `do_scard` of
-- src/redis_functions.cpp.
use custom_redis.Base.{List, false, Option, none, some, length, ◌>>=◌}
use custom_redis.Wire.{Bytes}
use custom_redis.Hash.{str_hash}
use custom_redis.HashMap.{HMap, empty_map, hm_insert, hm_delete_free, hm_keys, hm_size}
use custom_redis.Reply.{Conn, out_arr, out_int, out_err}
use custom_redis.Commands.Messages
use custom_redis.Commands.Strings.{out_keys}
use custom_redis.Commands.{
  Value, t_set, Db, success, not_found, incorrect_type, Handler, arg, empty_bytes, new_node,
  hm_store, find_val, find_or_add,
}

unfoldable pub sadd_to : Conn → Db → Bytes → Bytes → Value → Handler
sadd_to conn db key value (t_set m) =
    hm_insert (λ (s : Bytes). s) m (new_node value empty_bytes) >>= λ m.
    hm_store db key (str_hash key) (t_set m) >>= λ db. some (success, conn, db)
sadd_to conn db key value _ =
    out_err conn Messages.key_not_set_mes >>= λ conn. some (incorrect_type, conn, db)

unfoldable pub do_sadd : Conn → List Bytes → Db → Handler
do_sadd conn cmd db = do
  key ← arg cmd 1
  value ← arg cmd 2
  (v, db) ← find_or_add db key (t_set empty_map)
  sadd_to conn db key value v

-- The set at a key, or the error reply.
unfoldable pub with_set : Conn → Db → Option Value → (HMap Bytes → Handler) → Handler
with_set conn db (some (t_set m)) step = step m
with_set conn db none step =
    out_err conn Messages.no_provided_key_mes >>= λ conn. some (not_found, conn, db)
with_set conn db (some _) step =
    out_err conn Messages.not_set_mes >>= λ conn. some (incorrect_type, conn, db)

unfoldable pub do_srem : Conn → List Bytes → Db → Handler
do_srem conn cmd db = do
  key ← arg cmd 1
  value ← arg cmd 2
  found ← find_val db key
  with_set conn db found λ m.
      hm_delete_free (λ (s : Bytes). s) (λ s. false) m value (str_hash value) >>= λ (deleted, m).
      hm_store db key (str_hash key) (t_set m) >>= λ db. some (success, out_int conn deleted, db)

unfoldable pub do_smembers : Conn → List Bytes → Db → Handler
do_smembers conn cmd db = do
  key ← arg cmd 1
  found ← find_val db key
  with_set conn db found λ m. hm_keys m >>= λ keys.
      out_keys (out_arr conn (length keys)) keys >>= λ conn. some (success, conn, db)

unfoldable pub do_scard : Conn → List Bytes → Db → Handler
do_scard conn cmd db = do
  key ← arg cmd 1
  found ← find_val db key
  with_set conn db found λ m. some (success, out_int conn (hm_size m), db)
