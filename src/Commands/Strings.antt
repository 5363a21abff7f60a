-- ===== src/Commands/Strings.antt =====
-- The keyspace commands, `do_get`, `do_set`, `do_del` and `do_keys` of src/redis_functions.cpp.
use custom_redis.Base.{List, [], ◌∷◌, Option, none, some, ◌==◌, if◌then◌else◌, length, ◌>>=◌}
use custom_redis.Wire.{Bytes, buf_append_u8}
use custom_redis.Hash.{str_hash}
use custom_redis.HashMap.{hm_insert, hm_delete_free, hm_keys}
use custom_redis.Reply.Tags
use custom_redis.Reply.{Conn, out_arr, out_str, out_err, out_not_found}
use custom_redis.Commands.Messages
use custom_redis.Commands.{
  Value, t_str, Db, success, not_found, Handler, arg, unlink_val, is_large, new_node, hm_store,
  find_val,
}

-- `node->val` of a node of another type is not initialised.
unfoldable pub reply_val : Conn → Db → Option Value → Handler
reply_val conn db none = out_not_found conn >>= λ conn. some (not_found, conn, db)
reply_val conn db (some (t_str val)) =
    out_str conn val (length val) >>= λ conn. some (success, conn, db)
reply_val conn db (some _) = none

unfoldable pub do_get : Conn → List Bytes → Db → Handler
do_get conn cmd db = do key ← arg cmd 1; found ← find_val db key; reply_val conn db found

-- `buf_append_u8(conn->outgoing, TAG_NULL)`
unfoldable pub tag_null : Conn → Conn
tag_null conn = record conn { outgoing = buf_append_u8 conn.outgoing Tags.null }

unfoldable pub assign_val : Db → Bytes → Bytes → Option Value → Option Db
assign_val db key val none = hm_insert unlink_val db (new_node key (t_str val))
assign_val db key val (some (t_str _)) = hm_store db key (str_hash key) (t_str val)
assign_val db key val (some _) = none

unfoldable pub do_set : Conn → List Bytes → Db → Handler
do_set conn cmd db = do
  key ← arg cmd 1
  val ← arg cmd 2
  found ← find_val db key
  db ← assign_val db key val found
  some (success, tag_null conn, db)

unfoldable pub do_del : Conn → List Bytes → Db → Handler
do_del conn cmd db = do
  key ← arg cmd 1
  (deleted, db) ← hm_delete_free unlink_val is_large db key (str_hash key)
  if deleted == 0
      then (out_err conn Messages.no_node_mes >>= λ conn. some (not_found, conn, db))
      else some (success, tag_null conn, db)

-- `for (dstr* key : keys) out_str(conn, key->buf, key->size)`
unfoldable pub out_keys : Conn → List Bytes → Option Conn
out_keys conn [] = some conn
out_keys conn (key ∷ keys) = out_str conn key (length key) >>= λ conn. out_keys conn keys

unfoldable pub do_keys : Conn → Db → Handler
do_keys conn db = do
  keys ← hm_keys db
  conn ← out_keys (out_arr conn (length keys)) keys
  some (success, conn, db)
