-- ===== src/Commands/Expiry.antt =====
-- The commands on expiry times, `do_expire`, `do_ttl` and `do_persist` of src/redis_functions.cpp.
-- The database does not change. `hnode` gives the number that names the node of a key in the heap;
-- the clock's reading is an argument.
use custom_redis.Base.{ℕ, ◌+◌, ◌-◌, ◌*◌, ◌/◌, ◌%◌, ◌^◌, List, Option, none, some, get_elem?, ◌>>=◌}
use custom_redis.Wire.{Bytes}
use custom_redis.Heap.{Heap}
use custom_redis.Timers.{set_ttl, rem_ttl}
use custom_redis.Reply.{Conn, out_int, out_null}
use custom_redis.Commands.{Value, Db, Status, success, arg, find_val}

-- The step on the heap for a key that is there, or `out_null`.
unfoldable pub with_hnode :
    Conn → Heap → Option Value → Option (Conn × Heap) → Option (Status × Conn × Heap)
with_hnode conn heap none step = some (success, out_null conn, heap)
with_hnode conn heap (some _) step = step >>= λ (conn, heap). some (success, conn, heap)

module _ (strtoll : Bytes → ℕ) (hnode : Bytes → ℕ) where
  -- The `long long`, which is held with 2 ^ 63 added, as a `uint64_t`.
  unfoldable pub ttl_arg : Bytes → ℕ
  ttl_arg s = (strtoll s + 2 ^ 63) % 2 ^ 64 * 1000 % 2 ^ 64

  unfoldable pub do_expire : ℕ → Conn → List Bytes → Db → Heap → Option (Status × Conn × Heap)
  do_expire curr_ms conn cmd db heap = do
    key ← arg cmd 1
    ttl ← arg cmd 2
    found ← find_val db key
    with_hnode conn heap found
        do heap ← set_ttl curr_ms heap (hnode key) (ttl_arg ttl); some (out_null conn, heap)

  -- `curr_ms` is a `uint32_t` here.
  unfoldable pub do_ttl : ℕ → Conn → List Bytes → Db → Heap → Option (Status × Conn × Heap)
  do_ttl curr_ms conn cmd db heap = do
    key ← arg cmd 1
    found ← find_val db key
    with_hnode conn heap found do
      node ← get_elem? heap.nodes (heap.heap_idx (hnode key))
      let left_ms = (node.val + 2 ^ 64 - curr_ms % 2 ^ 32) % 2 ^ 64
      some (out_int conn (left_ms / 1000 % 2 ^ 32), heap)

  unfoldable pub do_persist : Conn → List Bytes → Db → Heap → Option (Status × Conn × Heap)
  do_persist conn cmd db heap = do
    key ← arg cmd 1
    found ← find_val db key
    with_hnode conn heap found do heap ← rem_ttl heap (hnode key); some (out_null conn, heap)
