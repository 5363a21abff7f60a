-- ===== src/Commands/Tests.antt =====
-- Databases on which the theorems about src/redis_functions.cpp are applied.
use mathlib.Core.Path.{subst}
use custom_redis.Base.{
  ℕ, zero, suc, ◌+◌, ◌-◌, ◌*◌, ◌%◌, ◌^◌, ◌≡◌, refl, inl, inr, true, false, ◌==◌, List, [], ◌∷◌, All,
  none, some, flatten, get_elem?, bit_and, bytes_eq, if◌then◌else◌, ◌>>=◌, Returns, length, arith,
}
use custom_redis.Wire.{Bytes}
use custom_redis.Hash.{
  mul64, fold_high, mix_word, mix_words, xor_tail, mix_tail, murmur_hash64_a, str_hash,
}
use custom_redis.HashMap.{
  Node, HMap, empty_tab, c_str, matches, find_depth, ht_lookup_in, ht_lookup, at_slot, hm_lookup,
}
use custom_redis.HashMap.Valid.{IsMap, hm_nodes, tab_nodes}
use custom_redis.HashMap.Hits.{hits, hits-nil, hits-cons}
use custom_redis.ZSet.{is_nan}
use custom_redis.Avl.Shape.{items}
use custom_redis.ZSet.Order.{highs}
use custom_redis.ZSet.Distinct.{has_key}
use custom_redis.ZSet.Tests.{two_set, two_set-IsZSet}
use custom_redis.Reply.{Conn, out_int, out_null, out_double, out_str}
use custom_redis.Commands.{
  Value, t_str, t_zset, t_hset, t_bitmap, Db, success, is_large, find_val, hm_store,
}
use custom_redis.Commands.Strings.{do_get, do_set, do_del}
use custom_redis.Commands.Store.{StoresIn, hm_store_lem}
use custom_redis.Commands.Keyspace.{read_str, reply_str, do_get-set}
use custom_redis.Commands.Deletes.{do_get-del}
use custom_redis.Commands.Lookups.{same_key}
use custom_redis.Commands.Bitmaps.{do_setbit, do_getbit, bitcount_of}
use custom_redis.Commands.BitReads.{bit_or_zero, do_getbit-setbit}
use custom_redis.Commands.BitCounts.{bitcount-modes}
use custom_redis.Commands.SortedSets.{do_zadd, do_zscore, do_zrangequery}
use custom_redis.Commands.Scores.{do_zscore-zadd}
use custom_redis.Commands.Ranges.{range_reply, do_zrangequery-reply}
use custom_redis.Commands.Hashes.{same_hash, ht_lookup_null_in, hm_lookup_null, do_hset, do_hget}
use custom_redis.Commands.Fields.{do_hset-existing, do_hget-hset}

abbrev pub conn : Conn
conn = record {
  fd = 5;
  want_read = true;
  want_write = false;
  want_close = false;
  incoming = [];
  outgoing = [];
  last_active_ms = 0;
  last_read_ms = 0;
  last_write_ms = 0;
}

abbrev pub key_k : Bytes
key_k = 107 ∷ []

abbrev pub key_j : Bytes
key_j = 106 ∷ []

-- One node, the only one of the newer table.
abbrev pub single {ℓ} : {V : Type ℓ} → Node V → HMap V
single n = record {
  older = empty_tab;
  newer = record { tab = some ((n ∷ []) ∷ []); mask = 0; size = 1 };
  migrate_pos = 0;
}

pub single-IsMap {ℓ} : {V : Type ℓ} (n : Node V) → bit_and n.hcode 0 ≡ 0 → IsMap (single n)
unfolding flatten
single-IsMap {V} n e = inr (
    inl (record {
      new_buckets = (n ∷ []) ∷ [];
      new_valid = record {
        held = refl;
        width = refl;
        power = (0, refl);
        counted = refl;
        placed = placed;
      };
      no_older = refl;
    }))
  where
    placed :
        (i : ℕ) (c : List (Node V))
        → get_elem? ((n ∷ []) ∷ []) i ≡ some c
        → All (λ (x : Node V). bit_and x.hcode 0 ≡ i) c
    placed zero c at =
        let same : n ∷ [] ≡ c = cc in
        subst (All (λ (x : Node V). bit_and x.hcode 0 ≡ 0)) same (e, tt)
    placed (suc i) c at = cc

abbrev pub entry {ℓ} : {V : Type ℓ} → V → Node V
entry v = record { key = key_k; hcode = str_hash key_k; val = v }

pub entry_place : bit_and (str_hash key_k) 0 ≡ 0
unfolding str_hash murmur_hash64_a mul64 fold_high mix_word mix_words xor_tail mix_tail
entry_place = refl

pub entry_found {ℓ} : {V : Type ℓ} (v : V) → find_val (single (entry v)) key_k ≡ some (some v)
unfolding find_val hm_lookup ht_lookup ht_lookup_in at_slot find_depth matches c_str bytes_eq
    str_hash murmur_hash64_a mul64 fold_high mix_word mix_words xor_tail mix_tail
entry_found v = refl

pub entry-single :
    (v : Value) → length (hits key_k (str_hash key_k) (hm_nodes (single (entry v)))) ≡ 1
unfolding hm_nodes tab_nodes flatten matches c_str bytes_eq str_hash murmur_hash64_a mul64 fold_high
    mix_word mix_words xor_tail mix_tail
entry-single v =
    rw (hits-cons key_k (str_hash key_k) (entry v) [], hits-nil {V = Value} key_k (str_hash key_k))
      refl

abbrev pub text_db : Db
text_db = single (entry (t_str (1 ∷ 2 ∷ [])))

pub other_absent : read_str text_db key_j ≡ some none
unfolding find_val hm_lookup ht_lookup ht_lookup_in at_slot find_depth matches c_str bytes_eq
    str_hash murmur_hash64_a mul64 fold_high mix_word mix_words xor_tail mix_tail
other_absent = refl

do_get-set_example : Returns (do_set conn ([] ∷ key_j ∷ (7 ∷ []) ∷ []) text_db) λ r.
    (r.0 ≡ success)
    × (do_get conn ([] ∷ key_k ∷ []) r.2 ≡ (
        (if same_key key_j key_k then some (some (7 ∷ [])) else read_str text_db key_k)
        >>= reply_str conn r.2))
do_get-set_example =
    do_get-set conn conn [] [] key_j (7 ∷ []) key_k text_db none
      (single-IsMap (entry (t_str (1 ∷ 2 ∷ []))) entry_place)
      (omega (arith, entry-single (t_str (1 ∷ 2 ∷ [])))) other_absent

text_small : is_large (t_str (1 ∷ 2 ∷ [])) ≡ false
unfolding is_large
text_small = refl

do_get-del_example : Returns (do_del conn ([] ∷ key_k ∷ []) text_db) λ r.
    (r.0 ≡ success)
    × IsMap r.2
    × (do_get conn ([] ∷ key_k ∷ []) r.2 ≡ (
        (if same_key key_k key_k then some none else read_str text_db key_k)
        >>= reply_str conn r.2))
do_get-del_example =
    do_get-del conn conn [] [] key_k key_k text_db (t_str (1 ∷ 2 ∷ []))
      (single-IsMap (entry (t_str (1 ∷ 2 ∷ []))) entry_place)
      (omega (arith, entry-single (t_str (1 ∷ 2 ∷ [])))) (entry_found (t_str (1 ∷ 2 ∷ [])))
      text_small

entry_lookup : hm_lookup text_db key_k (str_hash key_k) ≡ some (some (entry (t_str (1 ∷ 2 ∷ []))))
unfolding hm_lookup ht_lookup ht_lookup_in at_slot find_depth matches c_str bytes_eq str_hash
    murmur_hash64_a mul64 fold_high mix_word mix_words xor_tail mix_tail
entry_lookup = refl

hm_store_lem_example :
    Returns
      (hm_store text_db key_k (str_hash key_k) (t_str []))
      (StoresIn text_db key_k (str_hash key_k) (entry (t_str (1 ∷ 2 ∷ []))) (t_str []))
hm_store_lem_example =
    hm_store_lem text_db key_k (str_hash key_k) (entry (t_str (1 ∷ 2 ∷ []))) (t_str []) entry_lookup

-- "5" and "17", and what `strtol` and `strtod` may give for them.
abbrev pub word_5 : Bytes
word_5 = 53 ∷ []

abbrev word_17 : Bytes
word_17 = 49 ∷ 55 ∷ []

abbrev pub to_long : Bytes → ℕ
to_long (c ∷ []) = 9223372036854775808 + (c - 48)
to_long (c ∷ d ∷ s) = 9223372036854775808 + (10 * (c - 48) + (d - 48))
to_long [] = 9223372036854775808

abbrev pub to_double : Bytes → ℕ
to_double s = 4611686018427387904

abbrev bit_db : Db
bit_db = single (entry (t_bitmap (128 ∷ [])))

-- A bit behind the end is set; the bits before it are kept.
do_getbit-setbit_example :
    Returns (do_setbit to_long conn ([] ∷ key_k ∷ word_17 ∷ (49 ∷ []) ∷ []) bit_db) λ r.
      (r.0 ≡ success)
      × (r.1 ≡ out_int conn (bit_or_zero (128 ∷ []) 17))
      × (do_getbit to_long conn ([] ∷ key_k ∷ word_5 ∷ []) r.2
          ≡ some (success, out_int conn (if 17 == 5 then 1 else bit_or_zero (128 ∷ []) 5), r.2))
unfolding bytes_eq c_str
do_getbit-setbit_example =
    do_getbit-setbit to_long conn conn [] [] key_k word_17 word_5 (49 ∷ []) (128 ∷ []) bit_db 17 5
      (entry_found (t_bitmap (128 ∷ []))) (omega arith) refl refl (omega arith) refl (omega arith)

bitcount-modes_example :
    bitcount_of true (9223372036854775808 + 1) (9223372036854775808 + 2) (7 ∷ 255 ∷ 1 ∷ [])
    ≡ bitcount_of false
        (9223372036854775808 + 8 * 1)
        (9223372036854775808 + (8 * 2 + 7))
        (7 ∷ 255 ∷ 1 ∷ [])
bitcount-modes_example = bitcount-modes (7 ∷ 255 ∷ 1 ∷ []) 1 2

abbrev set_db : Db
set_db = single (entry (t_zset two_set))

double_number : is_nan (to_double word_5) ≡ false
unfolding is_nan
double_number = refl

do_zscore-zadd_example :
    Returns (do_zadd to_double to_long 30 conn ([] ∷ key_k ∷ word_5 ∷ key_j ∷ []) set_db) λ r.
      (r.0 ≡ success)
      × (r.1
          ≡ out_int conn (if has_key key_j (str_hash key_j) (items two_set.avl_root) then 0 else 1))
      × (do_zscore conn ([] ∷ key_k ∷ key_j ∷ []) r.2
          ≡ some (success, out_double conn (to_double word_5), r.2))
do_zscore-zadd_example =
    do_zscore-zadd to_double to_long conn conn [] [] key_k word_5 key_j 30 set_db two_set
      (entry_found (t_zset two_set)) two_set-IsZSet double_number (refl, (refl, tt)) (omega arith)

do_zrangequery-reply_example :
    do_zrangequery to_double to_long conn
      ([] ∷ key_k ∷ word_5 ∷ key_k ∷ word_5 ∷ word_17 ∷ [])
      set_db
    ≡ range_reply conn set_db 5
        (to_long word_17 % 2 ^ 32)
        (highs (to_double word_5) key_k (items two_set.avl_root))
do_zrangequery-reply_example =
    do_zrangequery-reply to_double to_long conn [] key_k word_5 key_k word_5 word_17 set_db two_set
      5 (entry_found (t_zset two_set)) two_set-IsZSet (omega arith) refl (omega arith)

abbrev fields : HMap Bytes
fields = single (entry (1 ∷ []))

abbrev hash_db : Db
hash_db = single (entry (t_hset fields))

do_hset-existing_example : do_hset conn ([] ∷ key_k ∷ key_k ∷ (2 ∷ []) ∷ []) hash_db ≡ none
do_hset-existing_example =
    do_hset-existing conn [] key_k key_k (2 ∷ []) (1 ∷ []) hash_db fields
      (entry_found (t_hset fields)) (entry_found (1 ∷ []))

other_hash : hm_lookup_null fields (str_hash key_j) ≡ some tt
unfolding hm_lookup_null ht_lookup_null_in same_hash str_hash murmur_hash64_a mul64 fold_high
    mix_word mix_words xor_tail mix_tail
other_hash = refl

do_hget-hset_example : Returns (do_hset conn ([] ∷ key_k ∷ key_j ∷ (2 ∷ []) ∷ []) hash_db) λ r.
    (r.0 ≡ success)
    × (r.1 ≡ out_null conn)
    × (do_hget conn ([] ∷ key_k ∷ key_j ∷ []) r.2
        ≡ (out_str conn (2 ∷ []) 1 >>= λ conn. some (success, conn, r.2)))
do_hget-hset_example =
    do_hget-hset conn conn [] [] key_k key_j (2 ∷ []) hash_db fields (entry_found (t_hset fields))
      (single-IsMap (entry (1 ∷ [])) entry_place) other_hash
