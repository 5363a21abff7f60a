-- ===== src/Commands/Keyspace.antt =====
-- Reads of strings after SET and DEL, `do_get`, `do_set` and `do_del` of src/redis_functions.cpp.
use custom_redis.Base.{
  ◌≡◌, refl, sym, ap, ◌∙◌, inl, inr, Bool-cases, [], ◌∷◌, Option, none, some, if◌then◌else◌, length,
  ◌>>=◌, Returns,
}
use custom_redis.Wire.{Bytes}
use custom_redis.HashMap.Valid.{IsMap}
use custom_redis.HashMap.Probes.{found}
use custom_redis.Reply.{Conn, out_str, out_not_found}
use custom_redis.Commands.{
  Value, t_str, t_zset, t_hset, t_list, t_set, t_bitmap, t_hll, Db, success, not_found, Handler,
  hn_unlink_sync, is_large, unlink_val, find_val,
}
use custom_redis.Commands.Strings.{reply_val, do_get, assign_val, do_set, tag_null}
use custom_redis.Commands.Lookups.{same_key, IsSingle, unlinked, find_val-store, find_val-insert}

-- The string under a key: another type is a fault, the inner `none` is a missing key.
abbrev pub str_of : Option Value → Option (Option Bytes)
str_of none = some none
str_of (some (t_str s)) = some (some s)
str_of (some _) = none

abbrev pub read_str : Db → Bytes → Option (Option Bytes)
read_str db key = find_val db key >>= str_of

-- The reply of GET.
abbrev pub reply_str : Conn → Db → Option Bytes → Handler
reply_str conn db none = out_not_found conn >>= λ conn. some (not_found, conn, db)
reply_str conn db (some s) = out_str conn s (length s) >>= λ conn. some (success, conn, db)

reply_of :
    (conn : Conn) (db : Db) (v : Option Value)
    → reply_val conn db v ≡ (str_of v >>= reply_str conn db)
unfolding reply_val
reply_of conn db none = refl
reply_of conn db (some (t_str s)) = refl
reply_of conn db (some (t_zset s)) = refl
reply_of conn db (some (t_hset s)) = refl
reply_of conn db (some (t_list s)) = refl
reply_of conn db (some (t_set s)) = refl
reply_of conn db (some (t_bitmap s)) = refl
reply_of conn db (some (t_hll s)) = refl

pub do_get-read :
    (conn : Conn) (db : Db) (c key : Bytes)
    → do_get conn (c ∷ key ∷ []) db ≡ (read_str db key >>= reply_str conn db)
unfolding do_get
do_get-read conn db c key = of_found (find_val db key)
  where
    of_found :
        (o : Option (Option Value))
        → (o >>= λ v. reply_val conn db v) ≡ ((o >>= str_of) >>= reply_str conn db)
    of_found none = refl
    of_found (some v) = reply_of conn db v

-- Unlinking changes no string and makes none.
str_of-unlinked :
    (o : Option (Option Value)) → ((o >>= λ v. some (unlinked v)) >>= str_of) ≡ (o >>= str_of)
unfolding unlink_val is_large hn_unlink_sync
str_of-unlinked none = refl
str_of-unlinked (some none) = refl
str_of-unlinked (some (some (t_str s))) = refl
str_of-unlinked (some (some (t_zset s))) = elim (Bool-cases (is_large (t_zset s))) [
  | inl large ↦ rw large refl
  | inr small ↦ rw small refl
]
str_of-unlinked (some (some (t_hset s))) = elim (Bool-cases (is_large (t_hset s))) [
  | inl large ↦ rw large refl
  | inr small ↦ rw small refl
]
str_of-unlinked (some (some (t_list s))) = refl
str_of-unlinked (some (some (t_set s))) = refl
str_of-unlinked (some (some (t_bitmap s))) = refl
str_of-unlinked (some (some (t_hll s))) = refl

-- The string under each key after the value of one is set.
unfoldable pub Sets : Db → Bytes → Bytes → Bytes → Db → Type 0
Sets db key val q db' = read_str db' q ≡ (if same_key key q then some (some val) else read_str db q)

set_new :
    (db : Db) (key val q : Bytes)
    → IsMap db
    → IsSingle q db
    → find_val db key ≡ some none
    → Returns (assign_val db key val none) (Sets db key val q)
unfolding assign_val Sets unlink_val is_large hn_unlink_sync
set_new db key val q v one gone =
    let (db', run, (v', w)) = find_val-insert db key q (t_str val) v gone one in
    (
      db',
      run,
      sym (str_of-unlinked (find_val db' q))
          ∙ ap (λ o. o >>= str_of) w
          ∙ elim (Bool-cases (same_key key q)) [
            | inl same ↦ rw same refl
            | inr differ ↦ rw differ (str_of-unlinked (find_val db q))
          ],
    )

set_old :
    (db : Db) (key val q old : Bytes)
    → find_val db key ≡ some (some (t_str old))
    → Returns (assign_val db key val (some (t_str old))) (Sets db key val q)
unfolding assign_val Sets
set_old db key val q old there =
    let (db', run, w) = find_val-store db key (t_str old) (t_str val) there in
    (
      db',
      run,
      ap (λ o. o >>= str_of) (w q) ∙ elim (Bool-cases (same_key key q)) [
        | inl same ↦ rw same refl
        | inr differ ↦ rw differ refl
      ],
    )

-- A key that holds a string or nothing.
pub set_any :
    (db : Db) (key val q : Bytes) (o : Option (Option Value)) (old : Option Bytes)
    → IsMap db
    → IsSingle q db
    → find_val db key ≡ o
    → (o >>= str_of) ≡ some old
    → (v : Option Value) × (find_val db key ≡ some v)
      × Returns (assign_val db key val v) (Sets db key val q)
set_any db key val q none old v one e f = cc
set_any db key val q (some none) old v one e f = (none, e, set_new db key val q v one e)
set_any db key val q (some (some (t_str s))) old v one e f =
    (some (t_str s), e, set_old db key val q s e)
set_any db key val q (some (some (t_zset s))) old v one e f = cc
set_any db key val q (some (some (t_hset s))) old v one e f = cc
set_any db key val q (some (some (t_list s))) old v one e f = cc
set_any db key val q (some (some (t_set s))) old v one e f = cc
set_any db key val q (some (some (t_bitmap s))) old v one e f = cc
set_any db key val q (some (some (t_hll s))) old v one e f = cc

-- On a valid database in which at most one node matches the probed key, and in which the key that
-- is set is absent or holds a string, SET returns success without a fault, and a GET of the
-- probed key on the database that it leaves replies with the new value when the two keys are the
-- same and else with what the key held before.
pub do_get-set :
    (conn conn' : Conn) (c c' key val q : Bytes) (db : Db) (old : Option Bytes)
    → IsMap db
    → IsSingle q db
    → read_str db key ≡ some old
    → Returns (do_set conn (c ∷ key ∷ val ∷ []) db) λ r.
      (r.0 ≡ success)
      × (do_get conn' (c' ∷ q ∷ []) r.2
          ≡ ((if same_key key q then some (some val) else read_str db q) >>= reply_str conn' r.2))
unfolding do_set Sets
do_get-set conn conn' c c' key val q db old v one e =
    let (o, found, (db', run, w)) = set_any db key val q (find_val db key) old v one refl e in
    (
      (success, tag_null conn, db'),
      rw (found, run) refl,
      (refl, do_get-read conn' db' c' q ∙ ap (λ o. o >>= reply_str conn' db') w),
    )
