-- ===== src/Commands/Scores.antt =====
-- The score that `do_zscore` reads after `do_zadd`, src/redis_functions.cpp.
use custom_redis.Base.{
  ℕ, suc, ◌<◌, ◌≡◌, refl, ap, ◌∙◌, Bool, true, false, not, [], ◌∷◌, some, if◌then◌else◌, Returns,
}
use custom_redis.Wire.{Bytes}
use custom_redis.Hash.{str_hash}
use custom_redis.Avl.Shape.{bound, items, count}
use custom_redis.ZSet.{ZSet, is_nan, new_znode}
use custom_redis.ZSet.Distinct.{has_key}
use custom_redis.ZSet.Valid.{IsZSet}
use custom_redis.ZSet.Update.{IsFresh}
use custom_redis.ZSet.Readback.{zset_lookup-insert}
use custom_redis.Reply.{Conn, out_int, out_double}
use custom_redis.Commands.{t_zset, Db, success, find_val, find_or_add, zset_of, find_zset}
use custom_redis.Commands.SortedSets.{do_zadd, zadd_to, do_zscore, zscore_of}
use custom_redis.Commands.Lookups.{same_key_refl, find_val-store}

flip_if : (a b : Bool) → a ≡ not b → ◌≡◌ {A = ℕ} (if a then 1 else 0) (if b then 0 else 1)
flip_if true true e = cc
flip_if true false e = refl
flip_if false true e = refl
flip_if false false e = cc

module _ (strtod strtol : Bytes → ℕ) where
  -- On a key that holds a valid sorted set, with a score that is a number, a fresh address and
  -- fewer than 2 ^ 31 nodes after the insert, ZADD replies 1 when the member is new and 0 when it
  -- is not, and a ZSCORE of the member afterwards replies with the new score.
  pub do_zscore-zadd :
      (conn conn' : Conn) (c c' key number member : Bytes) (addr : ℕ) (db : Db) (zset : ZSet)
      → find_val db key ≡ some (some (t_zset zset))
      → IsZSet zset
      → is_nan (strtod number) ≡ false
      → IsFresh addr (items zset.avl_root)
      → suc (count zset.avl_root) < bound
      → Returns (do_zadd strtod strtol addr conn (c ∷ key ∷ number ∷ member ∷ []) db) λ r.
        (r.0 ≡ success)
        × (r.1
            ≡ out_int conn
                (if has_key member (str_hash member) (items zset.avl_root) then 0 else 1))
        × (do_zscore conn' (c' ∷ key ∷ member ∷ []) r.2
            ≡ some (success, out_double conn' (strtod number), r.2))
  unfolding do_zadd zadd_to do_zscore zscore_of find_or_add find_zset zset_of new_znode
  do_zscore-zadd conn conn' c c' key number member addr db zset there v num fresh small =
      let ((inserted, zset'), run, (w, look)) =
        zset_lookup-insert zset addr (strtod number) member v num fresh small in
      let (db', store, reads) = find_val-store db key (t_zset zset) (t_zset zset') there in
      let again : find_val db' key ≡ some (some (t_zset zset')) =
        reads key ∙ rw (same_key_refl key) refl in
      (
        (success, out_int conn (if inserted then 1 else 0), db'),
        rw (there, run, store) refl,
        (refl, ap (out_int conn) (flip_if inserted _ w.1), rw (again, look) refl),
      )
