-- ===== src/Commands/Lists.antt =====
-- The commands on lists, `do_push`, `do_pop` and `do_lrange` of src/redis_functions.cpp.
-- The elements of a `DList` are the strings from its head on; its `size` is their number as a
-- `uint32_t`. The ends are tested through `size` only, so what the other end points to when the list
-- runs empty is not read.
use custom_redis.Base.{
  ℕ, zero, suc, ◌+◌, ◌-◌, ◌%◌, ◌^◌, ◌||◌, min, List, [], ◌∷◌, ◌++◌, Option, none, some, ltb, leb,
  ◌==◌, if◌then◌else◌, length, get_elem?, take, drop, ◌>>=◌,
}
use custom_redis.Wire.{Bytes}
use custom_redis.Hash.{str_hash}
use custom_redis.Reply.{Conn, out_arr, out_int, out_str, out_err}
use custom_redis.Commands.Messages
use custom_redis.Commands.{
  Value, t_list, Db, success, not_found, incorrect_type, size_err, out_of_range, Handler, arg,
  hm_store, find_val, find_or_add,
}

-- `LLIST_SIDE_LEFT` and `LLIST_SIDE_RIGHT`, the sides that the commands are called with.
pub data Side : Type 0 where
  left right : Side

-- `list.size`
abbrev pub list_size : List Bytes → ℕ
list_size l = length l % 2 ^ 32

unfoldable pub push : Side → Bytes → List Bytes → List Bytes
push side value [] = value ∷ []
push left value (v ∷ l) = value ∷ v ∷ l
push right value (v ∷ l) = (v ∷ l) ++ (value ∷ [])

unfoldable pub push_to : Side → Conn → Db → Bytes → Bytes → Value → Handler
push_to side conn db key value (t_list l) =
    let pushed = push side value l in
    hm_store db key (str_hash key) (t_list pushed) >>= λ db.
    some (success, out_int conn ((list_size l + 1) % 2 ^ 32), db)
push_to side conn db key value _ =
    out_err conn Messages.key_not_list_mes >>= λ conn. some (incorrect_type, conn, db)

unfoldable pub do_push : Side → Conn → List Bytes → Db → Handler
do_push side conn cmd db = do
  key ← arg cmd 1
  value ← arg cmd 2
  (v, db) ← find_or_add db key (t_list [])
  push_to side conn db key value v

-- The node at an end, and the list without it; NULL is a fault.
unfoldable pub pop_end : Side → List Bytes → Option (Bytes × List Bytes)
pop_end left [] = none
pop_end left (v ∷ l) = some (v, l)
pop_end right l = get_elem? l (length l - 1) >>= λ v. some (v, take (length l - 1) l)

-- `while (size--)`
unfoldable pub pop_loop : Side → ℕ → Conn → List Bytes → Option (Conn × List Bytes)
pop_loop side zero conn l = some (conn, l)
pop_loop side (suc size) conn l =
    pop_end side l >>= λ (v, l). out_str conn v (length v) >>= λ conn. pop_loop side size conn l

-- The list at a key, or the error reply.
unfoldable pub with_list : Conn → Db → Option Value → (List Bytes → Handler) → Handler
with_list conn db (some (t_list l)) step = step l
with_list conn db none step =
    out_err conn Messages.no_list_key_mes >>= λ conn. some (not_found, conn, db)
with_list conn db (some _) step =
    out_err conn Messages.key_not_list_mes >>= λ conn. some (incorrect_type, conn, db)

-- A negative position of a list of `size` elements, an `int32_t` with 2 ^ 31 added.
unfoldable pub from_tail : ℕ → ℕ → ℕ
from_tail size i = if ltb i (2 ^ 31) then (size + i) % 2 ^ 32 else i

-- The node that `r` steps from the tail or `l` steps from the head lead to, and those behind it.
unfoldable pub begin_at : List Bytes → ℕ → ℕ → List Bytes
begin_at elems l r = if ltb l r then drop (length elems - 1 - r) elems else drop l elems

-- The last loop of `do_lrange`.
unfoldable pub out_vals : ℕ → Conn → List Bytes → Option Conn
out_vals zero conn l = some conn
out_vals (suc size) conn [] = none
out_vals (suc size) conn (v ∷ l) = out_str conn v (length v) >>= λ conn. out_vals size conn l

unfoldable pub lrange_of : Conn → Db → ℕ → ℕ → List Bytes → Handler
lrange_of conn db start₀ end₀ elems =
    let size = list_size elems in
    let start = from_tail size start₀ in
    let end = from_tail size end₀ in
    let l = (start + 2 ^ 31) % 2 ^ 32 in
    let count = min (end + 1 - start) size in
    let listed = out_vals count (out_arr conn count) (begin_at elems l (size - l - 1)) >>= λ conn.
    some (success, conn, db) in
    if leb size l
    then (out_err conn Messages.list_range_mes >>= λ conn. some (out_of_range, conn, db))
    else listed

module _ (strtol : Bytes → ℕ) where
  -- `size` is compared with `list.size` as a `uint32_t`.
  unfoldable pub pop_of : Side → Conn → Db → Bytes → Bytes → List Bytes → Handler
  pop_of side conn db key count l =
      let size = min (strtol count % 2 ^ 32) (list_size l) in
      let popped = pop_loop side size (out_arr conn size) l >>= λ (conn, l).
      hm_store db key (str_hash key) (t_list l) >>= λ db. some (success, conn, db) in
      if (size == 0) || leb (2 ^ 31) size
      then (out_err conn Messages.not_positive_mes >>= λ conn. some (size_err, conn, db))
      else popped

  -- `cmd[2]` is read before the number of tokens is tested.
  unfoldable pub do_pop : Side → Conn → List Bytes → Db → Handler
  do_pop side conn cmd db = do
    key ← arg cmd 1
    count ← arg cmd 2
    found ← find_val db key
    with_list conn db found (pop_of side conn db key count)

  unfoldable pub do_lrange : Conn → List Bytes → Db → Handler
  do_lrange conn cmd db = do
    key ← arg cmd 1
    start ← arg cmd 2
    end ← arg cmd 3
    found ← find_val db key
    with_list conn db found
        (lrange_of conn db ((strtol start + 2 ^ 31) % 2 ^ 32) ((strtol end + 2 ^ 31) % 2 ^ 32))
