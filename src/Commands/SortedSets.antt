-- ===== src/Commands/SortedSets.antt =====
-- The commands on sorted sets, `do_zadd`, `do_zscore`, `do_zrem` and `do_zrangequery` of
-- src/redis_functions.cpp. `strtod` and `strtol` are parameters: the first gives the bits of a
-- double, the second a `long` with 2 ^ 63 added. What is printed to the terminal is not modelled.
use custom_redis.Base.{
  ℕ, zero, suc, ◌+◌, ◌-◌, ◌%◌, ◌^◌, List, Option, none, some, ltb, if◌then◌else◌, length, ◌>>=◌,
}
use custom_redis.Wire.{Bytes}
use custom_redis.Hash.{str_hash}
use custom_redis.Avl.{Place}
use custom_redis.Avl.Shape.{count}
use custom_redis.ZSet.{
  ZNode, ZSet, zset_lookup, zset_insert, zset_delete, zset_lower_bound, zset_offset,
}
use custom_redis.Reply.{
  Conn, out_arr, out_int, out_double, out_str, out_err, out_unknown_arr, overwrite_u32,
}
use custom_redis.Commands.Messages
use custom_redis.Commands.Strings.{tag_null}
use custom_redis.Commands.{
  Value, t_zset, Db, success, incorrect_type, Handler, arg, new_zset, hm_store, find_or_add,
  find_zset,
}

unfoldable pub zadd_to : Conn → Db → Bytes → ℕ → ℕ → Bytes → Value → Handler
zadd_to conn db key addr score member (t_zset zset) =
    zset_insert zset addr score member >>= λ (inserted, zset).
    hm_store db key (str_hash key) (t_zset zset) >>= λ db.
    some (success, out_int conn (if inserted then 1 else 0), db)
zadd_to conn db key addr score member _ =
    out_err conn Messages.not_zset_mes >>= λ conn. some (incorrect_type, conn, db)

unfoldable pub zscore_of : Conn → Db → Option ZNode → Handler
zscore_of conn db none = some (success, tag_null conn, db)
zscore_of conn db (some znode) = some (success, out_double conn znode.score, db)

unfoldable pub do_zscore : Conn → List Bytes → Db → Handler
do_zscore conn cmd db = do
  key ← arg cmd 1
  member ← arg cmd 2
  pointer ← find_zset db key
  zset ← pointer
  ret ← zset_lookup zset member
  zscore_of conn db ret

unfoldable pub zrem_of : Conn → Db → Bytes → ZSet → Option ZNode → Handler
zrem_of conn db key zset none = some (success, out_int conn 0, db)
zrem_of conn db key zset (some znode) = zset_delete zset znode >>= λ zset.
    hm_store db key (str_hash key) (t_zset zset) >>= λ db. some (success, out_int conn 1, db)

unfoldable pub do_zrem : Conn → List Bytes → Db → Handler
do_zrem conn cmd db = do
  key ← arg cmd 1
  member ← arg cmd 2
  pointer ← find_zset db key
  zset ← pointer
  znode ← zset_lookup zset member
  zrem_of conn db key zset znode

-- The loop of `do_zrangequery`: the first argument bounds its rounds; the result has the number of
-- items written.
unfoldable pub range_loop : ℕ → ℕ → ℕ → Conn → Option (Place ZNode) → Option (ℕ × Conn)
range_loop zero limit size conn znode = none
range_loop (suc fuel) limit size conn none = some (size, conn)
range_loop (suc fuel) limit size conn (some z) =
    let more = out_str (out_double conn z.item.score) z.item.key (length z.item.key) >>= λ conn.
    zset_offset z (2 ^ 31 + 1) >>= λ next. range_loop fuel limit ((size + 2) % 2 ^ 32) conn next in
    if ltb size limit then more else some (size, conn)

unfoldable pub range_from : Conn → Db → ZSet → ℕ → ℕ → Option (Place ZNode) → Handler
range_from conn db zset offset limit none = some (success, out_arr conn 0, db)
range_from conn db zset offset limit (some lb) = zset_offset lb offset >>= λ znode.
    let (size_pos, conn) = out_unknown_arr conn in
    range_loop (suc (count zset.avl_root)) limit 0 conn znode >>= λ (size, conn).
    overwrite_u32 conn.outgoing size_pos size >>= λ outgoing.
    some (success, record conn { outgoing = outgoing }, db)

module _ (strtod : Bytes → ℕ) (strtol : Bytes → ℕ) where
  -- `addr` is the address of the new `ZNode`.
  unfoldable pub do_zadd : ℕ → Conn → List Bytes → Db → Handler
  do_zadd addr conn cmd db = do
    key ← arg cmd 1
    score ← arg cmd 2
    member ← arg cmd 3
    (v, db) ← find_or_add db key (t_zset new_zset)
    zadd_to conn db key addr (strtod score) member v

  -- The conversions of a `long` to `int32_t`, with 2 ^ 31 added, and to `uint32_t`.
  unfoldable pub int32_of : ℕ → ℕ
  int32_of n = (n + 2 ^ 31) % 2 ^ 32

  unfoldable pub uint32_of : ℕ → ℕ
  uint32_of n = n % 2 ^ 32

  unfoldable pub offset_arg : Option Bytes → ℕ
  offset_arg none = 2 ^ 31
  offset_arg (some s) = int32_of (strtol s)

  unfoldable pub limit_arg : Option Bytes → ℕ
  limit_arg none = 2 ^ 32 - 1
  limit_arg (some s) = uint32_of (strtol s)

  unfoldable pub do_zrangequery : Conn → List Bytes → Db → Handler
  do_zrangequery conn cmd db = do
    key ← arg cmd 1
    score_lb ← arg cmd 2
    key_lb ← arg cmd 3
    pointer ← find_zset db key
    zset ← pointer
    range_from conn db zset (offset_arg (arg cmd 4)) (limit_arg (arg cmd 5))
        (zset_lower_bound zset (strtod score_lb) key_lb)
