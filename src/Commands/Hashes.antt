-- ===== src/Commands/Hashes.antt =====
-- The commands on hashes, `do_hset`, `do_hget`, `do_hdel` and `do_hgetall` of
-- src/redis_functions.cpp.
use custom_redis.Base.{
  ℕ, bit_and, Bool, false, ◌||◌, List, [], ◌∷◌, Option, none, some, ◌==◌, if◌then◌else◌, length,
  get_elem?, ◌>>=◌,
}
use custom_redis.Wire.{Bytes}
use custom_redis.Hash.{str_hash}
use custom_redis.HashMap.{
  Node, Buckets, HTab, HMap, empty_map, hm_insert, hm_delete_free, hm_keys, hm_size,
}
use custom_redis.Reply.{Conn, out_arr, out_str, out_err, out_null}
use custom_redis.Commands.Messages
use custom_redis.Commands.Strings.{out_keys}
use custom_redis.Commands.{
  Value, t_hset, Db, Status, success, not_found, incorrect_type, Handler, arg, unlink_val, is_large,
  new_node, hm_store, find_val, find_or_add,
}

-- `hm_tmp.key` is never set in `do_hset`, so a lookup that compares keys reads through NULL: it
-- compares them where a chain has a node with the same hash.
unfoldable pub same_hash : ℕ → List (Node Bytes) → Bool
same_hash hcode [] = false
same_hash hcode (n ∷ chain) = n.hcode == hcode || same_hash hcode chain

unfoldable pub ht_lookup_null_in : HTab Bytes → ℕ → Option (Buckets Bytes) → Option (Unit {0})
unfolding same_hash
ht_lookup_null_in t hcode none = some tt
ht_lookup_null_in t hcode (some tab) = get_elem? tab (bit_and hcode t.mask) >>= λ chain.
    if same_hash hcode chain then none else some tt

-- `hm_lookup` of such a node: it finds none, or it is a fault.
unfoldable pub hm_lookup_null : HMap Bytes → ℕ → Option (Unit {0})
unfolding ht_lookup_null_in
hm_lookup_null m hcode =
    ht_lookup_null_in m.older hcode m.older.tab >>= λ _. ht_lookup_null_in m.newer hcode m.newer.tab

unfoldable pub hset_in : Conn → Db → Bytes → Bytes → Bytes → Value → Handler
hset_in conn db key field value (t_hset m) = hm_lookup_null m (str_hash field) >>= λ _.
    hm_insert (λ (s : Bytes). s) m (new_node field value) >>= λ m.
    hm_store db key (str_hash key) (t_hset m) >>= λ db. some (success, out_null conn, db)
hset_in conn db key field value _ =
    out_err conn Messages.not_hset_mes >>= λ conn. some (incorrect_type, conn, db)

unfoldable pub do_hset : Conn → List Bytes → Db → Handler
do_hset conn cmd db = do
  key ← arg cmd 1
  field ← arg cmd 2
  value ← arg cmd 3
  (v, db) ← find_or_add db key (t_hset empty_map)
  hset_in conn db key field value v

-- The hash at a key, or the reply; `wrong` is what is returned for another type.
unfoldable pub with_hset : Conn → Db → Option Value → Status → (HMap Bytes → Handler) → Handler
with_hset conn db (some (t_hset m)) wrong step = step m
with_hset conn db none wrong step = some (success, out_null conn, db)
with_hset conn db (some _) wrong step =
    out_err conn Messages.not_hset_mes >>= λ conn. some (wrong, conn, db)

unfoldable pub reply_field : Conn → Db → Option Bytes → Handler
reply_field conn db none = some (success, out_null conn, db)
reply_field conn db (some val) = out_str conn val (length val) >>= λ conn. some (success, conn, db)

unfoldable pub do_hget : Conn → List Bytes → Db → Handler
do_hget conn cmd db = do
  key ← arg cmd 1
  field ← arg cmd 2
  found ← find_val db key
  with_hset conn db found incorrect_type λ m. find_val m field >>= λ val. reply_field conn db val

-- A hash without fields is deleted.
unfoldable pub drop_empty : Db → Bytes → HMap Bytes → Option Db
drop_empty db key m =
    if hm_size m == 0
    then (hm_delete_free unlink_val is_large db key (str_hash key) >>= λ (deleted, db). some db)
    else some db

unfoldable pub do_hdel : Conn → List Bytes → Db → Handler
do_hdel conn cmd db = do
  key ← arg cmd 1
  field ← arg cmd 2
  found ← find_val db key
  with_hset conn db found success λ m.
      hm_delete_free (λ (s : Bytes). s) (λ s. false) m field (str_hash field) >>= λ (deleted, m).
      if deleted == 0
      then (out_err conn Messages.no_node_mes >>= λ conn. some (not_found, conn, db))
      else (hm_store db key (str_hash key) (t_hset m) >>= λ db.
          drop_empty db key m >>= λ db. some (success, out_null conn, db))

-- The type is not tested; the map of a node of another type is not initialised.
unfoldable pub hgetall_of : Conn → Db → Option Value → Handler
hgetall_of conn db none = some (success, out_null conn, db)
hgetall_of conn db (some (t_hset m)) = hm_keys m >>= λ keys.
    out_keys (out_arr conn (length keys)) keys >>= λ conn. some (success, conn, db)
hgetall_of conn db (some _) = none

unfoldable pub do_hgetall : Conn → List Bytes → Db → Handler
do_hgetall conn cmd db = do key ← arg cmd 1; found ← find_val db key; hgetall_of conn db found
