-- ===== src/Commands/Served.antt =====
-- Commands through the dispatch, `out_buffer` of src/server.cpp, whatever the case of their names.
use custom_redis.Base.{
  ℕ, ◌≡◌, refl, ap, ◌∙◌, List, [], ◌∷◌, Option, some, if◌then◌else◌, ◌>>=◌, Returns, bytes_eq,
}
use custom_redis.Wire.{Bytes}
use custom_redis.HashMap.{c_str}
use custom_redis.HashMap.Valid.{IsMap}
use custom_redis.Heap.{Heap}
use custom_redis.Reply.{Conn}
use custom_redis.Commands.{Db, Handler}
use custom_redis.Commands.Names.{name_get, name_set}
use custom_redis.Commands.Strings.{do_get, do_set}
use custom_redis.Commands.Lookups.{IsSingle, same_key}
use custom_redis.Commands.Keyspace.{read_str, reply_str, do_get-set}
use custom_redis.Commands.Dispatch.{
  lower_name, is_named, Outcome, on_db, string_commands, commands, out_buffer,
}

module _ (strtol strtod strtoll : Bytes → ℕ) (hnode : Bytes → ℕ)
    (do_pfadd do_pfcount do_pfmerge : Conn → List Bytes → Db → Handler) where
  abbrev pub served : ℕ → ℕ → Db × Heap → Conn → List Bytes → Outcome
  served = out_buffer strtol strtod strtoll hnode do_pfadd do_pfcount do_pfmerge

  pub served-set :
      (curr_ms addr : ℕ) (db : Db) (heap : Heap) (conn : Conn) (s key val : Bytes)
      → lower_name s ≡ name_set
      → served curr_ms addr (db, heap) conn (s ∷ key ∷ val ∷ [])
        ≡ on_db heap (do_set conn (name_set ∷ key ∷ val ∷ []) db)
  unfolding out_buffer commands string_commands is_named bytes_eq c_str
  served-set curr_ms addr db heap conn s key val e = rw e refl

  pub served-get :
      (curr_ms addr : ℕ) (db : Db) (heap : Heap) (conn : Conn) (s key : Bytes)
      → lower_name s ≡ name_get
      → served curr_ms addr (db, heap) conn (s ∷ key ∷ [])
        ≡ on_db heap (do_get conn (name_get ∷ key ∷ []) db)
  unfolding out_buffer commands string_commands is_named bytes_eq c_str
  served-get curr_ms addr db heap conn s key e = rw e refl

  -- Through the dispatch of `out_buffer`, on a valid database in which at most one node matches
  -- the probed key: a command of three tokens whose name is SET in any case, on a key that is
  -- absent or holds a string, does not fault and leaves the heap of expiry times alone, and a
  -- command of two tokens whose name is GET in any case then replies with the new value when it
  -- names the same key and else with what its key held before.
  pub out_buffer-get_set :
      (curr_ms curr_ms' addr addr' : ℕ) (conn conn' : Conn) (s s' key val q : Bytes) (db : Db)
      (heap : Heap) (old : Option Bytes)
      → lower_name s ≡ name_set
      → lower_name s' ≡ name_get
      → IsMap db
      → IsSingle q db
      → read_str db key ≡ some old
      → Returns
          (out_buffer strtol strtod strtoll hnode do_pfadd do_pfcount do_pfmerge curr_ms addr
            (db, heap)
            conn
            (s ∷ key ∷ val ∷ []))
          λ r.
            (r.0.1 ≡ heap)
            × (out_buffer strtol strtod strtoll hnode do_pfadd do_pfcount do_pfmerge curr_ms' addr'
                  r.0 conn'
                  (s' ∷ q ∷ [])
                ≡ on_db heap (
                    (if same_key key q then some (some val) else read_str db q)
                    >>= reply_str conn' r.0.0))
  unfolding on_db
  out_buffer-get_set curr_ms curr_ms' addr addr' conn conn' s s' key val q db heap old set get v one
        e =
      let ((status, conn₁, db'), run, (_, reads)) =
        do_get-set conn conn' name_set name_get key val q db old v one e in
      (
        ((db', heap), conn₁),
        served-set curr_ms addr db heap conn s key val set ∙ ap (on_db heap) run,
        (refl, served-get curr_ms' addr' db' heap conn' s' q get ∙ ap (on_db heap) reads),
      )
