-- ===== src/Commands/Lookups.antt =====
-- Reads of the database by key after an insertion or a write, src/redis_functions.cpp.
use mathlib.Core.List.{head?}
use custom_redis.Base.{
  false, ◌≡◌, refl, sym, ap, ◌∙◌, inl, inr, Bool, true, Bool-cases, Option-cases, [], ◌∷◌, Option,
  none, some, ◌==◌, ◌&&◌, bytes_eq, bytes_eq_refl, if◌then◌else◌, length, ◌>>=◌, Returns, arith,
}
use custom_redis.Base.Perms.{length-perm}
use custom_redis.Wire.{Bytes}
use custom_redis.Hash.{str_hash}
use custom_redis.ZSet.{zset_clear}
use custom_redis.HashMap.{c_str, hm_clear, hm_size, Node, HMap, matches, hm_lookup, hm_insert}
use custom_redis.HashMap.Valid.{IsMap, hm_nodes}
use custom_redis.HashMap.Hits.{hits}
use custom_redis.HashMap.Lookup.{search_order, hm_lookup_lem}
use custom_redis.HashMap.Steps.{nil_of_length}
use custom_redis.HashMap.Probes.{same_probe, IsUnique, nil_of_head, hits-perm, search_order-perm}
use custom_redis.HashMap.Seen.{seen, seen_in, hm_lookup-insert_seen}
use custom_redis.Commands.{
  Value, t_str, t_zset, t_hset, t_list, t_set, t_bitmap, t_hll, Db, is_large, hn_unlink_sync,
  unlink_val, new_node, hm_store, find_val,
}
use custom_redis.Commands.Store.{hm_store_lem}

pub Value-set : IsSet Value
Value-set = hlevel

-- Two keys that no lookup tells apart.
abbrev pub same_key : Bytes → Bytes → Bool
same_key k q = same_probe k (str_hash k) q (str_hash q)

pub same_key_refl : (k : Bytes) → same_key k k ≡ true
same_key_refl k = rw (bytes_eq_refl (c_str k)) (ground arith)

-- At most one node has the key.
abbrev pub IsSingle : Bytes → Db → Type 0
IsSingle k db = IsUnique k (str_hash k) db

module _ {ℓ} {V : Type ℓ} where
  abbrev pub val_of : Option (Node V) → Option V
  val_of o = o >>= λ n. some n.val

  val_of-none : (o : Option (Node V)) → val_of o ≡ none → o ≡ none
  val_of-none none e = refl
  val_of-none (some n) e = cc

  -- A value that was found is that of a node that was found.
  pub found_node :
      (m : HMap V) (k : Bytes) (v : V)
      → find_val m k ≡ some (some v)
      → (n : Node V) × (hm_lookup m k (str_hash k) ≡ some (some n))
  unfolding find_val
  found_node m k v e = elim (Option-cases (hm_lookup m k (str_hash k))) [
    | inl bad ↦ absurd (ground arith)
    | inr (none, gone) ↦ absurd (ground arith)
    | inr (some n, found) ↦ (n, found)
  ]

  -- A write through the pointer to a value.
  pub find_val-store :
      (m : HMap V) (k : Bytes) (v v' : V)
      → find_val m k ≡ some (some v)
      → Returns (hm_store m k (str_hash k) v') λ m'.
        (q : Bytes) → find_val m' q ≡ (if same_key k q then some (some v') else find_val m q)
  unfolding find_val
  find_val-store m k v v' e =
      let (n, found) = found_node m k v e in
      let (m', run, w) = hm_store_lem m k (str_hash k) n v' found in
      (
        m',
        run,
        λ q. elim (Bool-cases (same_key k q)) [
          | inl same ↦ rw (w q (str_hash q), same) refl
          | inr differ ↦ rw (w q (str_hash q), differ) refl
        ],
      )

  -- A key that is not there is not among the nodes.
  pub absent_hits :
      (m : HMap V) (k : Bytes)
      → IsMap m
      → find_val m k ≡ some none
      → hits k (str_hash k) (hm_nodes m) ≡ []
  unfolding find_val
  absent_hits m k v e =
      let run = hm_lookup_lem k (str_hash k) m v in
      let e' : some (val_of (head? (hits k (str_hash k) (search_order m)))) ≡ some none =
        sym (ap (λ o. o >>= λ n. some (val_of n)) run) ∙ e in
      let none_first = nil_of_head (hits k (str_hash k) (search_order m)) (val_of-none _ (cc)) in
      nil_of_length _ (
        omega (
          arith,
          length-perm (hits-perm k (str_hash k) (search_order-perm m)),
          ap length none_first,
        ))

-- What unlinking leaves of a value.
abbrev pub unlinked : Option Value → Option Value
unlinked none = none
unlinked (some v) = some (unlink_val v)

-- What was cleared is not large.
cleared-small : (v : Value) → is_large v ≡ false → is_large (hn_unlink_sync v) ≡ false
unfolding is_large hn_unlink_sync zset_clear hm_clear hm_size
cleared-small (t_str s) e = refl
cleared-small (t_zset s) e = refl
cleared-small (t_hset s) e = refl
cleared-small (t_list s) e = refl
cleared-small (t_set s) e = refl
cleared-small (t_bitmap s) e = refl
cleared-small (t_hll s) e = refl

clear_twice : (v : Value) → hn_unlink_sync (hn_unlink_sync v) ≡ hn_unlink_sync v
unfolding hn_unlink_sync zset_clear hm_clear
clear_twice (t_str s) = refl
clear_twice (t_zset s) = refl
clear_twice (t_hset s) = refl
clear_twice (t_list s) = refl
clear_twice (t_set s) = refl
clear_twice (t_bitmap s) = refl
clear_twice (t_hll s) = refl

unlink_twice : (v : Value) → unlink_val (unlink_val v) ≡ unlink_val v
unfolding unlink_val
unlink_twice v = elim (Bool-cases (is_large v)) [
  | inl large ↦ rw (large, large) refl
  | inr small ↦ rw (small, cleared-small v small) (clear_twice v)
]

seen_val :
    (o : Option (Option (Node Value)))
    → ((o >>= λ n. some (seen_in Value-set unlink_val n)) >>= λ n. some (val_of n))
      ≡ ((o >>= λ n. some (val_of n)) >>= λ v. some (unlinked v))
seen_val none = refl
seen_val (some none) = refl
seen_val (some (some n)) = refl

bytes_eq_sym : (s t : Bytes) → bytes_eq s t ≡ bytes_eq t s
unfolding bytes_eq
bytes_eq_sym [] [] = refl
bytes_eq_sym [] (b ∷ t) = refl
bytes_eq_sym (a ∷ s) [] = refl
bytes_eq_sym (a ∷ s) (b ∷ t) = ground (arith, bytes_eq_sym s t)

matches_new : (k q : Bytes) (v : Value) → matches q (str_hash q) (new_node k v) ≡ same_key k q
unfolding matches new_node
matches_new k q v = ap (λ b. (str_hash k == str_hash q) && b) (bytes_eq_sym (c_str q) (c_str k))

-- An insertion of a key that is not there, up to what the migration of nodes unlinks.
pub find_val-insert :
    (db : Db) (k q : Bytes) (v : Value)
    → IsMap db
    → find_val db k ≡ some none
    → IsSingle q db
    → Returns (hm_insert unlink_val db (new_node k v)) λ db'.
      IsMap db'
      × ((find_val db' q >>= λ o. some (unlinked o)) ≡ (
          if same_key k q
          then some (some (unlink_val v))
          else (find_val db q >>= λ o. some (unlinked o))))
unfolding find_val new_node
find_val-insert db k q v valid gone one =
    let (db', run, (valid', w)) =
      hm_lookup-insert_seen Value-set unlink_val db (new_node k v) q (str_hash q) unlink_twice valid
        (absent_hits db k valid gone) one in
    (
      db',
      run,
      (
        valid',
        elim (Bool-cases (same_key k q)) [
          | inl same ↦
              let w' : (hm_lookup db' q (str_hash q) >>= λ o. some (seen_in Value-set unlink_val o))
                  ≡ some (some (seen Value-set unlink_val (new_node k v))) =
                rw (matches_new k q v, same) at w in
              rw same (
                sym (seen_val (hm_lookup db' q (str_hash q)))
                ∙ ap (λ o. o >>= λ n. some (val_of n)) w')
          | inr differ ↦
              let w' : (hm_lookup db' q (str_hash q) >>= λ o. some (seen_in Value-set unlink_val o))
                  ≡ (hm_lookup db q (str_hash q) >>= λ o. some (seen_in Value-set unlink_val o)) =
                rw (matches_new k q v, differ) at w in
              rw differ (
                sym (seen_val (hm_lookup db' q (str_hash q)))
                ∙ ap (λ o. o >>= λ n. some (val_of n)) w'
                ∙ seen_val (hm_lookup db q (str_hash q)))
        ],
      ),
    )
