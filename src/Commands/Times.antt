-- ===== src/Commands/Times.antt =====
-- EXPIRE followed by TTL or PERSIST, `do_expire`, `do_ttl` and `do_persist` of
-- src/redis_functions.cpp.
use mathlib.Core.List.{mem-cons_self}
use mathlib.Core.List.Perm
use mathlib.Core.Logic.{∥∥₁_elim}
use custom_redis.Base.{
  ℕ, ◌+◌, ◌-◌, ◌*◌, ◌/◌, ◌%◌, ◌^◌, ◌<◌, ◌≤◌, ◌≡◌, refl, List, [], ◌∷◌, Perm, Option, some, arith,
  length, get_elem?, Returns,
}
use custom_redis.Base.Perms.{length-perm}
use custom_redis.Wire.{Bytes}
use custom_redis.Heap.{HeapNode, Heap}
use custom_redis.Heap.Refs.{Refers}
use custom_redis.Heap.Order.{IsOrdered}
use custom_redis.Timers.{expiry}
use custom_redis.Timers.Places.{IsAbsent}
use custom_redis.Timers.Live.{held_at}
use custom_redis.Timers.Insert.{set_ttl-inserts}
use custom_redis.Timers.Remove.{rem_ttl-removes}
use custom_redis.Reply.{Conn, out_int, out_null}
use custom_redis.Commands.{Value, Db, success, find_val}
use custom_redis.Commands.Expiry.{with_hnode, ttl_arg, do_expire, do_ttl, do_persist}

HeapNode-set : IsSet (Option HeapNode)
HeapNode-set = hlevel

-- The reference of an entry leads to its time.
ref_held :
    (heap : Heap) (x : HeapNode) (ns : List HeapNode)
    → Refers heap
    → Perm heap.nodes (x ∷ ns)
    → get_elem? heap.nodes (heap.heap_idx x.pos_ref) ≡ some x
ref_held heap x ns r p =
    ∥∥₁_elim ((Perm.mem_iff p).1 mem-cons_self) (HeapNode-set _ _)
      λ d. let (i, at) = held_at heap.nodes x d in rw (r i x at) at

module _ (strtoll : Bytes → ℕ) (hnode : Bytes → ℕ) where
  ttl_arg_lem :
      (s : Bytes) (n : ℕ)
      → strtoll s ≡ 9223372036854775808 + n
      → n * 1000 < 18446744073709551616
      → ttl_arg strtoll hnode s ≡ n * 1000
  unfolding ttl_arg
  ttl_arg_lem s n e lt =
      let w : (strtoll s + 2 ^ 63) % 2 ^ 64 ≡ n = omega (arith, e) in rw w (omega arith)

  -- For a key that is there and has no expiry time, in a heap of fewer than 2 ^ 31 times with
  -- references in place and in heap order, EXPIRE by n seconds returns success, and a TTL at a
  -- time that is not after the expiry and below 2 ^ 32 replies with the whole seconds that are
  -- left, as a `uint32_t`, when the expiry does not wrap.
  pub do_ttl-expire :
      (conn conn' : Conn) (c c' key ttl : Bytes) (db : Db) (v : Value) (heap : Heap)
      (curr_ms later n : ℕ)
      → find_val db key ≡ some (some v)
      → strtoll ttl ≡ 9223372036854775808 + n
      → length heap.nodes < 2 ^ 31
      → Refers heap
      → IsOrdered heap.nodes
      → IsAbsent (hnode key) heap
      → later < 4294967296
      → later ≤ curr_ms + n * 1000
      → curr_ms + n * 1000 < 18446744073709551616
      → Returns (do_expire strtoll hnode curr_ms conn (c ∷ key ∷ ttl ∷ []) db heap) λ r.
        (r.0 ≡ success)
        × (do_ttl strtoll hnode later conn' (c' ∷ key ∷ []) db r.2
            ≡ some (success, out_int conn' ((curr_ms + n * 1000 - later) / 1000 % 2 ^ 32), r.2))
  unfolding do_expire do_ttl with_hnode
  do_ttl-expire conn conn' c c' key ttl db v heap curr_ms later n there e small r o absent now le
        fits =
      let (heap', run, (r', _, bag)) =
        set_ttl-inserts curr_ms heap (hnode key) (n * 1000) small r o absent in
      let at = ref_held heap' (expiry curr_ms (n * 1000) (hnode key)) heap.nodes r' bag in
      let left_ms : ((curr_ms + n * 1000) % 18446744073709551616
              + 18446744073709551616
              - later % 4294967296)
            % 18446744073709551616
          ≡ curr_ms + n * 1000 - later =
        omega arith in
      (
        (success, out_null conn, heap'),
        rw (there, ttl_arg_lem ttl n e (omega arith), run) refl,
        (refl, rw (there, at, left_ms) refl),
      )

  -- For a key that is there and has no expiry time, in a heap of fewer than 2 ^ 31 times with
  -- references in place and in heap order, EXPIRE and then PERSIST return success, and the heap
  -- then has the times it had before, with references in place.
  pub do_persist-expire :
      (conn conn' : Conn) (c c' key ttl : Bytes) (db : Db) (v : Value) (heap : Heap) (curr_ms : ℕ)
      → find_val db key ≡ some (some v)
      → length heap.nodes < 2 ^ 31
      → Refers heap
      → IsOrdered heap.nodes
      → IsAbsent (hnode key) heap
      → Returns (do_expire strtoll hnode curr_ms conn (c ∷ key ∷ ttl ∷ []) db heap) λ r.
        (r.0 ≡ success)
        × Returns
            (do_persist strtoll hnode conn' (c' ∷ key ∷ []) db r.2)
            λ r'. (r'.0 ≡ success) × Refers r'.2 × Perm r'.2.nodes heap.nodes
  unfolding do_expire do_persist with_hnode
  do_persist-expire conn conn' c c' key ttl db v heap curr_ms there small r o absent =
      let ms = ttl_arg strtoll hnode ttl in
      let (heap', run, (r', _, bag)) =
        set_ttl-inserts curr_ms heap (hnode key) ms small r o absent in
      let x = expiry curr_ms ms (hnode key) in
      let at = ref_held heap' x heap.nodes r' bag in
      let (heap'', run', (r'', bag')) =
        rem_ttl-removes heap' (heap'.heap_idx (hnode key)) x (omega (arith, length-perm bag)) r'
          at in
      (
        (success, out_null conn, heap'),
        rw (there, run) refl,
        (
          refl,
          (
            (success, out_null conn', heap''),
            rw (there, run') refl,
            (refl, r'', Perm.cons_inv (Perm.trans (Perm.symm bag') bag)),
          ),
        ),
      )
