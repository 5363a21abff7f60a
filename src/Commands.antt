-- ===== src/Commands.antt =====
-- The entries of the database and how the command handlers find them: the values of an `HNode`,
-- `new_node` and `hn_unlink_sync` of src/data_structures/hashmap.cpp, and `find_zset` and
-- `validate_hmnode` of src/redis_functions.cpp.
-- The values that the node's type selects are one data type: a read of another value is a fault,
-- `none`, as every read through NULL is. Strings within a `dstr`'s limit are their bytes, since
-- requests for memory are served here. The elements of a list are those from its head on. What a
-- handler writes through the pointer that a lookup returned is written by `hm_store`, which finds
-- the node again.
pub mod Messages
pub mod Tests
mod ServedTests
mod ListTests
mod TimeTests
pub mod Served
pub mod Dispatch
pub mod Names
pub mod Times
pub mod Ends
pub mod Expiry
pub mod Lists
pub mod Ranges
pub mod Fields
pub mod Scores
pub mod BitCounts
pub mod BitReads
pub mod Deletes
pub mod Bits
pub mod Keyspace
pub mod Lookups
pub mod Chains
pub mod Store
pub mod Bitmaps
pub mod Hashes
pub mod Sets
pub mod SortedSets
pub mod Strings
use custom_redis.Base.{
  ℕ, ◌+◌, ◌^◌, Bool, true, false, List, [], ◌∷◌, Option, none, some, if◌then◌else◌, length, leb,
  get_elem?, set, ◌>>=◌,
}
use custom_redis.Wire.{Bytes}
use custom_redis.Hash.{str_hash}
use custom_redis.HashMap.{
  Node, HTab, HMap, Slot, empty_map, ht_lookup, at_slot, hm_lookup, hm_insert, hm_clear, hm_size,
}
use custom_redis.Avl.{leaf}
use custom_redis.ZSet.{ZSet, zset_clear}
use custom_redis.Reply.{Conn, out_err}
use custom_redis.Commands.Messages.{no_key_mes, wrong_type_mes}

-- The nodes within a hash or a set have strings as values.
pub data Value : Type 0 where
  t_str : Bytes → Value
  t_zset : ZSet → Value
  t_hset : HMap Bytes → Value
  t_list : List Bytes → Value
  t_set : HMap Bytes → Value
  t_bitmap : Bytes → Value
  t_hll : Bytes → Value

abbrev pub Db : Type 0
Db = HMap Value

-- The values that handlers return.
pub data Status : Type 0 where
  success not_found incorrect_type size_err out_of_range internal_err : Status

abbrev pub Handler : Type 0
Handler = Option (Status × Conn × Db)

-- `cmd[i]`
abbrev pub arg : List Bytes → ℕ → Option Bytes
arg cmd i = get_elem? cmd i

unfoldable pub hn_unlink_sync : Value → Value
hn_unlink_sync (t_zset zset) = t_zset (zset_clear zset).0
hn_unlink_sync (t_hset hmap) = t_hset (hm_clear hmap)
hn_unlink_sync (t_str s) = t_str s
hn_unlink_sync (t_list l) = t_list l
hn_unlink_sync (t_set m) = t_set m
hn_unlink_sync (t_bitmap b) = t_bitmap b
hn_unlink_sync (t_hll b) = t_hll b

-- The test of `ht_unlink`: the pool clears a sorted set or a hash of 1000 elements or more.
abbrev pub large_size_treshold : ℕ
large_size_treshold = 1000

unfoldable pub is_large : Value → Bool
is_large (t_zset zset) = leb large_size_treshold (hm_size zset.hmap)
is_large (t_hset hmap) = leb large_size_treshold (hm_size hmap)
is_large (t_str s) = false
is_large (t_list l) = false
is_large (t_set m) = false
is_large (t_bitmap b) = false
is_large (t_hll b) = false

-- What `ht_unlink` does to the value of the node. A large one is handed to the thread pool, whose job
-- is not part of the step.
unfoldable pub unlink_val : Value → Value
unlink_val v = if is_large v then v else hn_unlink_sync v

-- The values that `new_node` makes, but for T_HLL.
abbrev pub new_zset : ZSet
new_zset = record { avl_root = leaf; hmap = empty_map }

abbrev pub empty_bytes : Bytes
empty_bytes = []

unfoldable pub new_node {ℓ} : {V : Type ℓ} → Bytes → V → Node V
new_node key val = record { key = key; hcode = str_hash key; val = val }

module _ {ℓ} {V : Type ℓ} where
  unfoldable pub store_at : HTab V → Slot → V → Option (HTab V)
  store_at t slot v = do
    tab ← t.tab
    chain ← get_elem? tab slot.pos
    node ← get_elem? chain slot.depth
    some (record t {
      tab = some (set tab slot.pos (set chain slot.depth (record node { val = v })));
    })

  -- `node->val = v` for the node that `hm_lookup` finds.
  unfoldable pub hm_store : HMap V → Bytes → ℕ → V → Option (HMap V)
  hm_store m key hcode v = do
    found ← ht_lookup m.older key hcode
    elim found [
      | some slot ↦ store_at m.older slot v >>= λ older. some (record m { older = older })
      | none ↦ ht_lookup m.newer key hcode >>= λ found'. elim found' [
        | some slot ↦ store_at m.newer slot v >>= λ newer. some (record m { newer = newer })
        | none ↦ none
      ]
    ]

  -- A lookup by key alone; the inner `none` is NULL.
  unfoldable pub find_val : HMap V → Bytes → Option (Option V)
  find_val m key = do node ← hm_lookup m key (str_hash key); some (node >>= λ n. some n.val)

-- The value at the key, after a new node is added if there is none.
unfoldable pub find_or_add : Db → Bytes → Value → Option (Value × Db)
find_or_add db key fresh = do
  found ← find_val db key
  elim found [
    | some v ↦ some (v, db)
    | none ↦ hm_insert unlink_val db (new_node key fresh) >>= λ db. some (fresh, db)
  ]

-- `find_zset`: a missing key gives the static empty set, another type gives NULL, the inner `none`.
unfoldable pub zset_of : Option Value → Option ZSet
zset_of none = some new_zset
zset_of (some (t_zset zset)) = some zset
zset_of (some _) = none

unfoldable pub find_zset : Db → Bytes → Option (Option ZSet)
find_zset db key = do found ← find_val db key; some (zset_of found)

-- `validate_hmnode`: whether the node has the type that `is_type` tests, with the error reply.
unfoldable pub validate_hmnode : Conn → Option Value → (Value → Bool) → Option (Status × Conn)
validate_hmnode conn none is_type = do conn ← out_err conn no_key_mes; some (not_found, conn)
validate_hmnode conn (some v) is_type =
    if is_type v
    then some (success, conn)
    else (out_err conn wrong_type_mes >>= λ conn. some (incorrect_type, conn))
