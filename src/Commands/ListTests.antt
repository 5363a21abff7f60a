-- ===== src/Commands/ListTests.antt =====
-- Lists on which the theorems on PUSH, POP and LRANGE of src/redis_functions.cpp are applied.
use custom_redis.Base.{◌≡◌, refl, inl, List, [], ◌∷◌, none, some, arith, ◌>>=◌, Returns}
use custom_redis.Wire.{Bytes}
use custom_redis.Reply.{out_arr, out_int, out_str}
use custom_redis.Commands.{t_list, Db, success, find_val}
use custom_redis.Commands.Strings.{out_keys}
use custom_redis.Commands.Lists.{right, do_push, do_pop, do_lrange}
use custom_redis.Commands.Ends.{do_pop-push, do_lrange-inside, do_lrange-beyond}
use custom_redis.Commands.Tests.{conn, key_k, to_long, single, entry, entry_found}

abbrev elems : List Bytes
elems = (1 ∷ []) ∷ (2 ∷ 3 ∷ []) ∷ []

abbrev list_db : Db
list_db = single (entry (t_list elems))

-- "0", "1" and "9"
abbrev word_0 : Bytes
word_0 = 48 ∷ []

abbrev word_1 : Bytes
word_1 = 49 ∷ []

abbrev word_9 : Bytes
word_9 = 57 ∷ []

do_pop-push_example : Returns (do_push right conn ([] ∷ key_k ∷ (7 ∷ []) ∷ []) list_db) λ r.
    (r.0 ≡ success)
    × (r.1 ≡ out_int conn 3)
    × Returns (do_pop to_long right conn ([] ∷ key_k ∷ word_1 ∷ []) r.2) λ r'.
      (r'.0 ≡ success)
      × (out_str (out_arr conn 1) (7 ∷ []) 1 ≡ some r'.1)
      × (find_val r'.2 key_k ≡ some (some (t_list elems)))
do_pop-push_example =
    do_pop-push to_long right conn conn [] [] key_k (7 ∷ []) word_1 list_db elems
      (entry_found (t_list elems)) (omega arith) refl

do_lrange-inside_example :
    do_lrange to_long conn ([] ∷ key_k ∷ word_0 ∷ word_1 ∷ []) list_db
    ≡ (out_keys (out_arr conn 2) elems >>= λ conn. some (success, conn, list_db))
do_lrange-inside_example =
    do_lrange-inside to_long conn [] key_k word_0 word_1 list_db elems 0 1
      (entry_found (t_list elems)) (omega arith) (omega arith, inl refl) (omega arith, inl refl)
      (omega arith)

do_lrange-beyond_example : do_lrange to_long conn ([] ∷ key_k ∷ word_1 ∷ word_9 ∷ []) list_db ≡ none
do_lrange-beyond_example =
    do_lrange-beyond to_long conn [] key_k word_1 word_9 list_db elems 1 9
      (entry_found (t_list elems)) (omega arith) (omega arith, inl refl) refl (omega arith)
      (omega arith) (omega arith)
