-- ===== src/Commands/TimeTests.antt =====
-- A heap of expiry times on which the theorems on EXPIRE of src/redis_functions.cpp are applied.
use custom_redis.Base.{
  ℕ, ◌+◌, ◌-◌, ◌*◌, ◌/◌, ◌%◌, ◌^◌, ◌≡◌, refl, [], ◌∷◌, Perm, some, arith, Returns,
}
use custom_redis.Wire.{Bytes}
use custom_redis.Heap.Refs.{Refers}
use custom_redis.Timers.Tests.{two_times, two_times-Refers, two_times-IsOrdered, two_times-IsAbsent}
use custom_redis.Reply.{out_int}
use custom_redis.Commands.{t_str, Db, success}
use custom_redis.Commands.Expiry.{do_expire, do_ttl, do_persist}
use custom_redis.Commands.Times.{do_ttl-expire, do_persist-expire}
use custom_redis.Commands.Tests.{conn, key_k, word_5, to_long, single, entry, entry_found}

abbrev text_db : Db
text_db = single (entry (t_str (1 ∷ [])))

-- The key is the entry 2 of the heap.
abbrev hnode : Bytes → ℕ
hnode key = 2

do_ttl-expire_example :
    Returns (do_expire to_long hnode 40 conn ([] ∷ key_k ∷ word_5 ∷ []) text_db two_times) λ r.
      (r.0 ≡ success)
      × (do_ttl to_long hnode 1000 conn ([] ∷ key_k ∷ []) text_db r.2
          ≡ some (success, out_int conn ((40 + 5 * 1000 - 1000) / 1000 % 2 ^ 32), r.2))
do_ttl-expire_example =
    do_ttl-expire to_long hnode conn conn [] [] key_k word_5 text_db (t_str (1 ∷ [])) two_times 40
      1000 5 (entry_found (t_str (1 ∷ []))) refl (omega arith) two_times-Refers two_times-IsOrdered
      two_times-IsAbsent (omega arith) (omega arith) (omega arith)

do_persist-expire_example :
    Returns (do_expire to_long hnode 40 conn ([] ∷ key_k ∷ word_5 ∷ []) text_db two_times) λ r.
      (r.0 ≡ success)
      × Returns
          (do_persist to_long hnode conn ([] ∷ key_k ∷ []) text_db r.2)
          λ r'. (r'.0 ≡ success) × Refers r'.2 × Perm r'.2.nodes two_times.nodes
do_persist-expire_example =
    do_persist-expire to_long hnode conn conn [] [] key_k word_5 text_db (t_str (1 ∷ [])) two_times
      40 (entry_found (t_str (1 ∷ []))) (omega arith) two_times-Refers two_times-IsOrdered
      two_times-IsAbsent
