-- ===== src/Timers.antt =====
-- The expiry times of entries: `set_ttl`, `rem_ttl` and the last loop of `process_timers` of
-- src/server.cpp.
-- An `HNode` with an expiry time is named by a number, as in the heap; its key and its hash are
-- given by the entries that are allocated. The clock's reading is an argument.
pub mod Places
pub mod Insert
pub mod Remove
pub mod Live
pub mod Expire
pub mod Tests
use custom_redis.Base.{
  Bool, ◌==◌, ℕ, zero, suc, ◌+◌, ◌-◌, ◌%◌, ◌^◌, List, [], ◌∷◌, ◌++◌, Option, none, some, ltb, leb,
  if◌then◌else◌, length, get_elem?, set, take, ◌>>=◌,
}
use custom_redis.Heap.{HeapNode, Heap, heap_fix}
use custom_redis.HashMap.{HMap, hm_delete_free}

abbrev pub max_ttl_tasks : ℕ
max_ttl_tasks = 200

-- The time of expiry, a `uint64_t`.
abbrev pub expiry : ℕ → ℕ → ℕ → HeapNode
expiry curr_ms ttl entry = record { val = (curr_ms + ttl) % 2 ^ 64; pos_ref = entry }

unfoldable pub set_ttl : ℕ → Heap → ℕ → ℕ → Option Heap
set_ttl curr_ms heap entry ttl =
    let nodes = heap.nodes ++ (expiry curr_ms ttl entry ∷ []) in
    heap_fix (record heap { nodes = nodes }) (length nodes - 1)

-- `ttl_heap[i] = ttl_heap.back(); ttl_heap.pop_back()`, and the repair of what stands at `i`.
unfoldable pub replace_by_last : Heap → ℕ → Option Heap
replace_by_last heap i = do
  last ← get_elem? heap.nodes (length heap.nodes - 1)
  let nodes = take (length heap.nodes - 1) (set heap.nodes i last)
  if ltb i (length nodes)
      then heap_fix (record heap { nodes = nodes }) i
      else some (record heap { nodes = nodes })

unfoldable pub rem_ttl : Heap → ℕ → Option Heap
rem_ttl heap entry =
    let i = heap.heap_idx entry in
    let removed = replace_by_last heap i in if leb (length heap.nodes) i then some heap else removed

-- The key and the hash of each entry that is allocated; a read of another one is a fault.
abbrev pub Entries : Type 0
Entries = ℕ → Option (List ℕ × ℕ)

-- `free(del)`
unfoldable pub free_entry : Entries → ℕ → Entries
free_entry entries hnode = λ entry. if entry == hnode then none else entries entry

module _ {ℓ} {V : Type ℓ} (unlink_val : V → V) (is_large : V → Bool) where
  -- The loop over the entries, with the number of rounds that are left. The node of the database
  -- that has the entry's key is the entry, and is freed.
  unfoldable pub expire_entries : ℕ → ℕ → Heap → Entries → HMap V → Option (Heap × HMap V)
  unfolding free_entry hm_delete_free
  expire_entries zero curr_ms heap entries db = some (heap, db)
  expire_entries (suc rounds) curr_ms heap entries db = elim (get_elem? heap.nodes 0) [
    | none ↦ some (heap, db)
    | some first ↦
        let round = entries first.pos_ref >>= λ (key, hcode).
        rem_ttl heap first.pos_ref >>= λ heap'.
        hm_delete_free unlink_val is_large db key hcode >>= λ (deleted, db').
        expire_entries rounds curr_ms heap' (free_entry entries first.pos_ref) db' in
        if ltb first.val curr_ms then round else some (heap, db)
  ]

  -- `curr_iterations++ >= MAX_TTL_TASKS` is tested behind a round, so there is one round more.
  unfoldable pub process_entry_timers : ℕ → Heap → Entries → HMap V → Option (Heap × HMap V)
  process_entry_timers curr_ms heap entries db =
      expire_entries (max_ttl_tasks + 1) curr_ms heap entries db
