-- ===== src/Commands/Dispatch.antt =====
-- The dispatch of a command, `out_buffer` of src/server.cpp.
-- The global data are the database and the heap of expiry times. `curr_ms` is the clock's reading,
-- `addr` the address of a new `ZNode`, `hnode` names the node of a key in the heap. The handlers of
-- the HyperLogLog commands are parameters. Each part of the chain of tests has what comes behind it
-- as `rest`.
use custom_redis.Base.{
  ℕ, ◌+◌, ◌%◌, ◌&&◌, ◌||◌, Bool, List, [], ◌∷◌, Option, none, some, leb, ◌==◌, bytes_eq,
  if◌then◌else◌, length, ◌>>=◌,
}
use custom_redis.Wire.{Bytes}
use custom_redis.HashMap.{c_str}
use custom_redis.Heap.{Heap}
use custom_redis.Reply.{Conn, out_err}
use custom_redis.Commands.{Db, Status, Handler}
use custom_redis.Commands.Names.{
  name_get, name_set, name_del, name_keys, name_hset, name_hget, name_hgetall, name_hdel,
  name_expire, name_ttl, name_persist, name_zadd, name_zscore, name_zrem, name_zquery, name_lpush,
  name_rpush, name_lpop, name_rpop, name_lrange, name_sadd, name_srem, name_smembers, name_scard,
  name_setbit, name_getbit, name_bitcount, name_pfadd, name_pfcount, name_pfmerge, name_multi,
  name_exec, name_watch, name_discard, unknown_mes,
}
use custom_redis.Commands.Strings.{do_get, do_set, do_del, do_keys}
use custom_redis.Commands.Hashes.{do_hset, do_hget, do_hgetall, do_hdel}
use custom_redis.Commands.Expiry.{do_expire, do_ttl, do_persist}
use custom_redis.Commands.SortedSets.{do_zadd, do_zscore, do_zrem, do_zrangequery}
use custom_redis.Commands.Lists.{left, right, do_push, do_pop, do_lrange}
use custom_redis.Commands.Sets.{do_sadd, do_srem, do_smembers, do_scard}
use custom_redis.Commands.Bitmaps.{do_setbit, do_getbit, do_bitcount}

-- `*p = tolower(*p)` up to the zero byte.
abbrev pub to_lower : ℕ → ℕ
to_lower c = if leb 65 c && leb c 90 then c + 32 else c

unfoldable pub lower_name : Bytes → Bytes
lower_name [] = []
lower_name (c ∷ s) = let rest = lower_name s in if c == 0 then c ∷ s else to_lower c ∷ rest

-- `!strcmp(cmd[0]->buf, word)`
unfoldable pub is_named : Bytes → Bytes → Bool
is_named word name = bytes_eq (c_str name) word

abbrev pub Outcome : Type 0
Outcome = Option ((Db × Heap) × Conn)

-- The value that a handler returns is dropped.
unfoldable pub on_db : Heap → Handler → Outcome
on_db heap ran = ran >>= λ (status, conn, db). some ((db, heap), conn)

unfoldable pub on_heap : Db → Option (Status × Conn × Heap) → Outcome
on_heap db ran = ran >>= λ (status, conn, heap). some ((db, heap), conn)

module _ (strtol strtod strtoll : Bytes → ℕ) (hnode : Bytes → ℕ)
    (do_pfadd do_pfcount do_pfmerge : Conn → List Bytes → Db → Handler) (curr_ms addr : ℕ) (db : Db)
    (heap : Heap) (conn : Conn) (name : Bytes) (cmd : List Bytes) where
  -- The keyspace.
  unfoldable pub string_commands : Outcome → Outcome
  string_commands rest =
      let n = length cmd in
      if (n == 2) && is_named name_get name
      then on_db heap (do_get conn cmd db)
      else if (n == 3) && is_named name_set name
      then on_db heap (do_set conn cmd db)
      else if (n == 2) && is_named name_del name
      then on_db heap (do_del conn cmd db)
      else if (n == 1) && is_named name_keys name
      then on_db heap (do_keys conn db)
      else rest

  -- Hashes.
  unfoldable pub hash_commands : Outcome → Outcome
  hash_commands rest =
      let n = length cmd in
      if (leb 4 n && (n % 2 == 0)) && is_named name_hset name
      then on_db heap (do_hset conn cmd db)
      else if (n == 3) && is_named name_hget name
      then on_db heap (do_hget conn cmd db)
      else if (n == 2) && is_named name_hgetall name
      then on_db heap (do_hgetall conn cmd db)
      else if (leb 3 n) && is_named name_hdel name
      then on_db heap (do_hdel conn cmd db)
      else rest

  -- Expiry times.
  unfoldable pub time_commands : Outcome → Outcome
  time_commands rest =
      let n = length cmd in
      if (n == 3) && is_named name_expire name
      then on_heap db (do_expire strtoll hnode curr_ms conn cmd db heap)
      else if (n == 2) && is_named name_ttl name
      then on_heap db (do_ttl strtoll hnode curr_ms conn cmd db heap)
      else if (n == 2) && is_named name_persist name
      then on_heap db (do_persist strtoll hnode conn cmd db heap)
      else rest

  -- Sorted sets.
  unfoldable pub zset_commands : Outcome → Outcome
  zset_commands rest =
      let n = length cmd in
      if (n == 4) && is_named name_zadd name
      then on_db heap (do_zadd strtod strtol addr conn cmd db)
      else if (n == 3) && is_named name_zscore name
      then on_db heap (do_zscore conn cmd db)
      else if (n == 3) && is_named name_zrem name
      then on_db heap (do_zrem conn cmd db)
      else if is_named name_zquery name
      then on_db heap (do_zrangequery strtod strtol conn cmd db)
      else rest

  -- Lists.
  unfoldable pub list_commands : Outcome → Outcome
  list_commands rest =
      let n = length cmd in
      if (n == 3) && is_named name_lpush name
      then on_db heap (do_push left conn cmd db)
      else if (n == 3) && is_named name_rpush name
      then on_db heap (do_push right conn cmd db)
      else if (leb 2 n) && is_named name_lpop name
      then on_db heap (do_pop strtol left conn cmd db)
      else if (leb 2 n) && is_named name_rpop name
      then on_db heap (do_pop strtol right conn cmd db)
      else if (n == 4) && is_named name_lrange name
      then on_db heap (do_lrange strtol conn cmd db)
      else rest

  -- Sets.
  unfoldable pub set_commands : Outcome → Outcome
  set_commands rest =
      if is_named name_sadd name
      then on_db heap (do_sadd conn cmd db)
      else if is_named name_srem name
      then on_db heap (do_srem conn cmd db)
      else if is_named name_smembers name
      then on_db heap (do_smembers conn cmd db)
      else if is_named name_scard name
      then on_db heap (do_scard conn cmd db)
      else rest

  -- Bitmaps.
  unfoldable pub bitmap_commands : Outcome → Outcome
  bitmap_commands rest =
      if is_named name_setbit name
      then on_db heap (do_setbit strtol conn cmd db)
      else if is_named name_getbit name
      then on_db heap (do_getbit strtol conn cmd db)
      else if is_named name_bitcount name
      then on_db heap (do_bitcount strtol conn cmd db)
      else rest

  -- HyperLogLogs.
  unfoldable pub hll_commands : Outcome → Outcome
  hll_commands rest =
      if is_named name_pfadd name
      then on_db heap (do_pfadd conn cmd db)
      else if is_named name_pfcount name
      then on_db heap (do_pfcount conn cmd db)
      else if is_named name_pfmerge name
      then on_db heap (do_pfmerge conn cmd db)
      else rest

  -- Names without an implementation, and unknown ones.
  unfoldable pub other_commands : Outcome
  other_commands =
      if is_named name_multi name
        || is_named name_exec name
        || is_named name_watch name
        || is_named name_discard name
      then some ((db, heap), conn)
      else (out_err conn unknown_mes >>= λ conn. some ((db, heap), conn))

  unfoldable pub commands : Outcome
  commands = string_commands (
      hash_commands (
        time_commands (
          zset_commands
            (list_commands (set_commands (bitmap_commands (hll_commands (other_commands))))))))

module _ (strtol strtod strtoll : Bytes → ℕ) (hnode : Bytes → ℕ)
    (do_pfadd do_pfcount do_pfmerge : Conn → List Bytes → Db → Handler) where
  unfoldable pub out_buffer : ℕ → ℕ → Db × Heap → Conn → List Bytes → Outcome
  out_buffer curr_ms addr g conn [] = none
  out_buffer curr_ms addr g conn (first ∷ args) =
      let name = lower_name first in
      commands strtol strtod strtoll hnode do_pfadd do_pfcount do_pfmerge curr_ms addr g.0 g.1 conn
        name (name ∷ args)
