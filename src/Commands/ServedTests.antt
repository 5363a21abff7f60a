-- ===== src/Commands/ServedTests.antt =====
-- Commands in capital letters on which the theorem on `out_buffer` of src/server.cpp is applied.
use custom_redis.Base.{◌≡◌, refl, List, [], ◌∷◌, none, some, arith, if◌then◌else◌, ◌>>=◌, Returns}
use custom_redis.Wire.{Bytes}
use custom_redis.Heap.{Heap}
use custom_redis.Reply.{Conn}
use custom_redis.Commands.{t_str, Db, Handler}
use custom_redis.Commands.Names.{name_get, name_set}
use custom_redis.Commands.Lookups.{same_key}
use custom_redis.Commands.Keyspace.{read_str, reply_str}
use custom_redis.Commands.Dispatch.{lower_name, Outcome, on_db, out_buffer}
use custom_redis.Commands.Served.{out_buffer-get_set}
use custom_redis.Commands.Tests.{
  conn, key_k, key_j, text_db, to_long, to_double, single-IsMap, entry, entry_place, entry-single,
  other_absent,
}

-- "SET" and "Get"
abbrev upper_set : Bytes
upper_set = 83 ∷ 69 ∷ 84 ∷ []

abbrev mixed_get : Bytes
mixed_get = 71 ∷ 101 ∷ 116 ∷ []

lower_set : lower_name upper_set ≡ name_set
unfolding lower_name
lower_set = refl

lower_get : lower_name mixed_get ≡ name_get
unfolding lower_name
lower_get = refl

abbrev no_pf : Conn → List Bytes → Db → Handler
no_pf c args db = none

abbrev no_times : Heap
no_times = record { nodes = []; heap_idx = λ entry. 0 }

abbrev dispatch : Db × Heap → Conn → List Bytes → Outcome
dispatch = out_buffer to_long to_double to_long (λ key. 0) no_pf no_pf no_pf 5 16

out_buffer-get_set_example :
    Returns (dispatch (text_db, no_times) conn (upper_set ∷ key_j ∷ (7 ∷ []) ∷ [])) λ r.
      (r.0.1 ≡ no_times)
      × (dispatch r.0 conn (mixed_get ∷ key_k ∷ [])
          ≡ on_db no_times (
              (if same_key key_j key_k then some (some (7 ∷ [])) else read_str text_db key_k)
              >>= reply_str conn r.0.0))
out_buffer-get_set_example =
    out_buffer-get_set to_long to_double to_long (λ key. 0) no_pf no_pf no_pf 5 5 16 16 conn conn
      upper_set mixed_get key_j (7 ∷ []) key_k text_db no_times none lower_set lower_get
      (single-IsMap (entry (t_str (1 ∷ 2 ∷ []))) entry_place)
      (omega (arith, entry-single (t_str (1 ∷ 2 ∷ [])))) other_absent
