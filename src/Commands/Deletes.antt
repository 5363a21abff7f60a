-- ===== src/Commands/Deletes.antt =====
-- Reads of strings after DEL, `do_del` and `do_get` of src/redis_functions.cpp.
use mathlib.Core.List.{head?}
use custom_redis.Base.{
  ℕ, ◌≡◌, refl, sym, ap, ◌∙◌, inl, inr, false, Bool-cases, [], ◌∷◌, none, some, ◌==◌, if◌then◌else◌,
  ◌>>=◌, Returns,
}
use custom_redis.Wire.{Bytes}
use custom_redis.Hash.{str_hash}
use custom_redis.HashMap.{hm_delete_free}
use custom_redis.HashMap.Valid.{IsMap}
use custom_redis.HashMap.Lookup.{search_order, hm_lookup_lem}
use custom_redis.HashMap.Hits.{hits}
use custom_redis.HashMap.Probes.{found}
use custom_redis.HashMap.Refine.{hm_lookup-delete}
use custom_redis.Reply.{Conn}
use custom_redis.Commands.{Value, Db, success, unlink_val, is_large, find_val}
use custom_redis.Commands.Strings.{do_get, do_del, tag_null}
use custom_redis.Commands.Lookups.{Value-set, same_key, IsSingle, found_node}
use custom_redis.Commands.Keyspace.{str_of, read_str, reply_str, do_get-read}

-- The key of a node that is there is deleted, and no other.
Deletes : Db → Bytes → Bytes → ℕ × Db → Type 0
Deletes db key q r =
    (r.0 ≡ 1) × IsMap r.1 × (find_val r.1 q ≡ (if same_key key q then some none else find_val db q))

delete_there :
    (db : Db) (key q : Bytes) (v : Value)
    → IsMap db
    → IsSingle q db
    → find_val db key ≡ some (some v)
    → is_large v ≡ false
    → Returns (hm_delete_free unlink_val is_large db key (str_hash key)) (Deletes db key q)
unfolding Deletes find_val head? hm_delete_free
delete_there db key q v valid one there small =
    let (n, node) = found_node db key v there in
    let named : some (some n.val) ≡ some (some v) =
      sym (ap (λ o. o >>= λ n. some (n >>= λ n. some n.val)) node) ∙ there in
    let same_val : n.val ≡ v = cc named in
    let first : some (head? (hits key (str_hash key) (search_order db))) ≡ some (some n) =
      sym (hm_lookup_lem key (str_hash key) db valid) ∙ node in
    let (r, run, (valid', count, w)) =
      hm_lookup-delete Value-set unlink_val db key (str_hash key) q (str_hash q) valid one in
    let first' : head? (hits key (str_hash key) (search_order db)) ≡ some n = cc in
    (
      r,
      rw (node, run, same_val, small) refl,
      (
        count ∙ ap found first',
        valid',
        elim (Bool-cases (same_key key q)) [
          | inl same ↦ rw (w, same) refl
          | inr differ ↦ rw (w, differ) refl
        ],
      ),
    )

-- On a valid database in which at most one node matches the probed key, DEL of a key that holds a
-- value of any type, but no sorted set and no hash that is so large that it goes to the thread
-- pool, returns success and a valid database, and a GET of the probed key there replies that it
-- is not found when it is the deleted key and else with what it held before.
pub do_get-del :
    (conn conn' : Conn) (c c' key q : Bytes) (db : Db) (v : Value)
    → IsMap db
    → IsSingle q db
    → find_val db key ≡ some (some v)
    → is_large v ≡ false
    → Returns (do_del conn (c ∷ key ∷ []) db) λ r.
      (r.0 ≡ success)
      × IsMap r.2
      × (do_get conn' (c' ∷ q ∷ []) r.2
          ≡ ((if same_key key q then some none else read_str db q) >>= reply_str conn' r.2))
unfolding do_del Deletes
do_get-del conn conn' c c' key q db v valid one there small =
    let ((deleted, db'), run, (count, valid', w)) = delete_there db key q v valid one there small in
    let test : (deleted == 0) ≡ false = rw count refl in
    (
      (success, tag_null conn, db'),
      rw (run, test) refl,
      (
        refl,
        valid',
        do_get-read conn' db' c' q
            ∙ ap (λ o. (o >>= str_of) >>= reply_str conn' db') w
            ∙ elim (Bool-cases (same_key key q)) [
              | inl same ↦ rw same refl
              | inr differ ↦ rw differ refl
            ],
      ),
    )
