-- ===== src/Commands/Fields.antt =====
-- Fields of a hash that are set and read, `do_hset` and `do_hget` of src/redis_functions.cpp.
use mathlib.Core.List.{head?}
use custom_redis.Base.{
  ℕ, ◌≡◌, refl, sym, ap, ◌∙◌, inl, inr, true, Bool-cases, Option-cases, bytes_eq_refl, List, [],
  ◌∷◌, Option, none, some, ◌>>=◌, Returns, length, arith,
}
use custom_redis.Wire.{Bytes}
use custom_redis.Hash.{str_hash}
use custom_redis.HashMap.{c_str, Node, HTab, HMap, matches, find_depth, hm_lookup, hm_insert}
use custom_redis.HashMap.Valid.{IsMap}
use custom_redis.HashMap.Lookup.{search_order, hm_lookup_lem}
use custom_redis.HashMap.Hits.{hits}
use custom_redis.HashMap.Find.{ht_find, hm_lookup-find, ht_find-Spot}
use custom_redis.HashMap.Probes.{matches-parts}
use custom_redis.HashMap.Refine.{hm_lookup-insert}
use custom_redis.Reply.{Conn, out_str, out_null}
use custom_redis.Commands.{t_hset, Db, success, new_node, find_val, find_or_add}
use custom_redis.Commands.Hashes.{
  same_hash, ht_lookup_null_in, hm_lookup_null, hset_in, do_hset, with_hset, reply_field, do_hget,
}
use custom_redis.Commands.Lookups.{same_key_refl, find_val-store, found_node, absent_hits}

same_hash-found :
    (k : Bytes) (h : ℕ) (chain : List (Node Bytes)) (d : ℕ)
    → find_depth k h chain ≡ some d
    → same_hash h chain ≡ true
unfolding find_depth same_hash
same_hash-found k h [] d e = cc
same_hash-found k h (n ∷ chain) d e = elim (Bool-cases (matches k h n)) [
  | inl hit ↦ (let (p, _) = matches-parts k h n hit in rw p (ground arith))
  | inr miss ↦ elim (Option-cases (find_depth k h chain)) [
    | inl gone ↦ absurd (ground arith)
    | inr (d', found) ↦ ground (arith, same_hash-found k h chain d')
  ]
]

-- A table in which a search finds a node.
null_found :
    (t : HTab Bytes) (k : Bytes) (h : ℕ) (n : Node Bytes)
    → ht_find t k h ≡ some (some n)
    → ht_lookup_null_in t h t.tab ≡ none
unfolding ht_lookup_null_in
null_found t k h n e =
    let w = ht_find-Spot t k h n e in
    rw (w.held, w.bucket, same_hash-found k h w.chain w.depth w.found) refl

abbrev nothing : Option (Unit {0})
nothing = none

bind_none : (o : Option (Unit {0})) → (o >>= λ _. nothing) ≡ nothing
bind_none none = refl
bind_none (some a) = refl

-- The lookup without a key is a fault where a lookup with a key finds a node.
null_fault :
    (m : HMap Bytes) (k : Bytes) (h : ℕ) (n : Node Bytes)
    → hm_lookup m k h ≡ some (some n)
    → hm_lookup_null m h ≡ none
unfolding hm_lookup_null
null_fault m k h n e = elim (Option-cases (ht_find m.older k h)) [
  | inl bad ↦
      (let clash : none ≡ some (some n) = sym (hm_lookup-find m k h ∙ rw bad refl) ∙ e in cc)
  | inr (some x, found) ↦ rw (null_found m.older k h x found) refl
  | inr (none, gone) ↦
      let f : ht_find m.newer k h ≡ hm_lookup m k h = sym (hm_lookup-find m k h ∙ rw gone refl) in
      rw (null_found m.newer k h n (f ∙ e)) (bind_none (ht_lookup_null_in m.older h m.older.tab))
]

-- HSET of a field that the hash has already faults: its first lookup compares the names of nodes
-- of the same hash with a key that is NULL.
pub do_hset-existing :
    (conn : Conn) (c key field value old : Bytes) (db : Db) (m : HMap Bytes)
    → find_val db key ≡ some (some (t_hset m))
    → find_val m field ≡ some (some old)
    → do_hset conn (c ∷ key ∷ field ∷ value ∷ []) db ≡ none
unfolding do_hset hset_in find_or_add
do_hset-existing conn c key field value old db m there has =
    let (n, found) = found_node m field old has in
    rw (there, null_fault m field (str_hash field) n found) refl

-- The lookup without a key passes only where the field is not there.
null_absent :
    (m : HMap Bytes) (field : Bytes)
    → IsMap m
    → hm_lookup_null m (str_hash field) ≡ some tt
    → find_val m field ≡ some none
unfolding find_val
null_absent m field v e =
    elim (Option-cases (head? (hits field (str_hash field) (search_order m)))) [
      | inl gone ↦ rw (hm_lookup_lem field (str_hash field) m v, gone) refl
      | inr (n, first) ↦
          let found = hm_lookup_lem field (str_hash field) m v ∙ ap some first in
          let clash : none ≡ some (tt {0}) =
            sym (null_fault m field (str_hash field) n found) ∙ e in
          cc
    ]

bytes_set : IsSet Bytes
bytes_set = hlevel

new_matches : (field value : Bytes) → matches field (str_hash field) (new_node field value) ≡ true
unfolding matches new_node
new_matches field value = rw (bytes_eq_refl (c_str field)) (ground arith)

find_val-new :
    (m : HMap Bytes) (field value : Bytes)
    → IsMap m
    → find_val m field ≡ some none
    → Returns
        (hm_insert (λ (s : Bytes). s) m (new_node field value))
        λ m'. find_val m' field ≡ some (some value)
unfolding find_val new_node
find_val-new m field value v absent =
    let gone = absent_hits m field v absent in
    let (m', run, (v', look)) =
      hm_lookup-insert bytes_set (λ (s : Bytes). s) m (new_node field value) field (str_hash field)
        (λ s. refl) v gone (omega (arith, ap length gone)) in
    let hit : hm_lookup m' field (str_hash field) ≡ some (some (new_node field value)) =
      look ∙ rw (new_matches field value) refl in
    (m', run, rw hit refl)

-- On a key that holds a valid hash, when the lookup without a key that HSET starts with passes,
-- HSET returns success and replies null, and an HGET of the field afterwards replies with the
-- value that was set.
pub do_hget-hset :
    (conn conn' : Conn) (c c' key field value : Bytes) (db : Db) (m : HMap Bytes)
    → find_val db key ≡ some (some (t_hset m))
    → IsMap m
    → hm_lookup_null m (str_hash field) ≡ some tt
    → Returns (do_hset conn (c ∷ key ∷ field ∷ value ∷ []) db) λ r.
      (r.0 ≡ success)
      × (r.1 ≡ out_null conn)
      × (do_hget conn' (c' ∷ key ∷ field ∷ []) r.2
          ≡ (out_str conn' value (length value) >>= λ conn. some (success, conn, r.2)))
unfolding do_hset hset_in find_or_add do_hget with_hset reply_field
do_hget-hset conn conn' c c' key field value db m there v pass =
    let (m', run, look) = find_val-new m field value v (null_absent m field v pass) in
    let (db', store, reads) = find_val-store db key (t_hset m) (t_hset m') there in
    let again : find_val db' key ≡ some (some (t_hset m')) =
      reads key ∙ rw (same_key_refl key) refl in
    (
      (success, out_null conn, db'),
      rw (there, pass, run, store) refl,
      (refl, refl, rw (again, look) refl),
    )
