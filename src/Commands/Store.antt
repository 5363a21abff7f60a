-- ===== src/Commands/Store.antt =====
-- What a handler writes through the pointer to a node, and later lookups: `hm_lookup` of
-- src/data_structures/hashmap.cpp with the writes of src/redis_functions.cpp.
use mathlib.Core.List.{head?}
use native.Mathlib.Decide.{ℕ_discrete}
use custom_redis.Base.{
  ℕ, bit_and, ◌≡◌, refl, sym, ap, ◌∙◌, inl, inr, true, false, Bool-cases, Option-cases, List, none,
  some, ◌==◌, if◌then◌else◌, get_elem?, set, get_elem?-set, get_elem?-lt, ◌>>=◌, Returns, arith,
}
use custom_redis.Wire.{Bytes}
use custom_redis.HashMap.{Node, Buckets, HTab, HMap, find_depth, hm_lookup}
use custom_redis.HashMap.Find.{
  ht_find, ht_find-bucket, hm_lookup-find, Spot, ht_find-Spot, ht_find-gone, ht_find_congr,
}
use custom_redis.HashMap.Hits.{hits}
use custom_redis.HashMap.Probes.{same_probe, same_probe-parts}
use custom_redis.Commands.{store_at, hm_store}
use custom_redis.Commands.Chains.{with_val, chain_hit}

module _ {ℓ} {V : Type ℓ} where
  -- What a probe finds in a table after the write at the slot of another probe.
  abbrev Stores : HTab V → HTab V → Bytes → ℕ → Node V → V → Type ℓ
  Stores t t' k h n v =
      (q : Bytes) (hq : ℕ)
      → ht_find t' q hq
        ≡ (if same_probe k h q hq then some (some (with_val n v)) else ht_find t q hq)

  other_bucket :
      (t : HTab V) (k : Bytes) (h : ℕ) (q : Bytes) (hq : ℕ)
      → ¬ (bit_and h t.mask ≡ bit_and hq t.mask)
      → same_probe k h q hq ≡ false
  other_bucket t k h q hq other = elim (Bool-cases (same_probe k h q hq)) [
    | inr differ ↦ differ
    | inl same ↦
        let (e, _) = same_probe-parts k h q hq same in absurd (other (ap (λ x. bit_and x t.mask) e))
  ]

  same_bucket :
      (t : HTab V) (tab : Buckets V) (chain : List (Node V)) (k : Bytes) (h : ℕ) (q : Bytes)
      (hq : ℕ) (n : Node V) (v : V)
      → t.tab ≡ some tab
      → get_elem? tab (bit_and hq t.mask) ≡ some chain
      → some (if same_probe k h q hq then some (with_val n v) else head? (hits q hq chain))
        ≡ (if same_probe k h q hq then some (some (with_val n v)) else ht_find t q hq)
  same_bucket t tab chain k h q hq n v e bucket = elim (Bool-cases (same_probe k h q hq)) [
    | inl same ↦ rw same refl
    | inr differ ↦ rw (differ, ht_find-bucket t tab q hq e, bucket) refl
  ]

  bucket-Stores :
      (t : HTab V) (tab : Buckets V) (chain : List (Node V)) (k : Bytes) (h d : ℕ) (n : Node V)
      (v : V)
      → t.tab ≡ some tab
      → get_elem? tab (bit_and h t.mask) ≡ some chain
      → find_depth k h chain ≡ some d
      → get_elem? chain d ≡ some n
      → Stores t
          (record t { tab = some (set tab (bit_and h t.mask) (set chain d (with_val n v))) })
          k
          h
          n
          v
  bucket-Stores t tab chain k h d n v e bucket found at q hq =
      let pos : ℕ = bit_and h t.mask in
      let chain' : List (Node V) = set chain d (with_val n v) in
      let lhs =
        ht_find-bucket (record t { tab = some (set tab pos chain') }) (set tab pos chain') q hq
          refl in
      let rhs = ht_find-bucket t tab q hq e in
      let cell = get_elem?-set tab pos (bit_and hq t.mask) chain' (get_elem?-lt tab pos bucket) in
      elim (ℕ_discrete pos (bit_and hq t.mask)) [
        | yes same ↦
            let test : (pos == bit_and hq t.mask) ≡ true = ground arith in
            let hit = chain_hit k h q hq chain d n v found at in
            lhs ∙ rw (cell, test, hit) (same_bucket t tab chain k h q hq n v e (rw same at bucket))
        | no other ↦
            let test : (pos == bit_and hq t.mask) ≡ false = ground arith in
            let differ : same_probe k h q hq ≡ false = other_bucket t k h q hq other in
            lhs ∙ rw (cell, test, differ) (sym rhs)
      ]

  store_at_lem :
      (t : HTab V) (k : Bytes) (h : ℕ) (n : Node V) (v : V) (spot : Spot t k h n)
      → Returns
          (store_at t (record { pos = bit_and h t.mask; depth = spot.depth }) v)
          (λ t'. Stores t t' k h n v)
  unfolding store_at
  store_at_lem t k h n v spot = (
    record t {
      tab = some (set spot.tab (bit_and h t.mask) (set spot.chain spot.depth (with_val n v)));
    },
    rw (spot.held, spot.bucket, spot.link) refl,
    bucket-Stores t spot.tab spot.chain k h spot.depth n v spot.held spot.bucket spot.found
        spot.link,
  )

  -- What a later probe finds in the two tables.
  abbrev pub StoresIn : HMap V → Bytes → ℕ → Node V → V → HMap V → Type ℓ
  StoresIn m k h n v m' =
      (q : Bytes) (hq : ℕ)
      → hm_lookup m' q hq
        ≡ (if same_probe k h q hq then some (some (with_val n v)) else hm_lookup m q hq)

  store_older :
      (m : HMap V) (older : HTab V) (k : Bytes) (h : ℕ) (n : Node V) (v : V)
      → Stores m.older older k h n v
      → StoresIn m k h n v (record m { older = older })
  store_older m older k h n v w q hq =
      hm_lookup-find (record m { older = older }) q hq ∙ elim (Bool-cases (same_probe k h q hq)) [
        | inl same ↦ rw (w q hq, same) refl
        | inr differ ↦ rw (w q hq, differ) (sym (hm_lookup-find m q hq))
      ]

  store_newer :
      (m : HMap V) (newer : HTab V) (k : Bytes) (h : ℕ) (n : Node V) (v : V)
      → ht_find m.older k h ≡ some none
      → Stores m.newer newer k h n v
      → StoresIn m k h n v (record m { newer = newer })
  store_newer m newer k h n v gone w q hq =
      hm_lookup-find (record m { newer = newer }) q hq ∙ elim (Bool-cases (same_probe k h q hq)) [
        | inl same ↦
            let (a, b) = same_probe-parts k h q hq same in
            let gone' = sym (ht_find_congr m.older k h q hq a b) ∙ gone in
            rw (gone', w q hq, same) refl
        | inr differ ↦
            let kept : ht_find newer q hq ≡ ht_find m.newer q hq = rw differ at (w q hq) in
            rw differ (
              ap (λ x. ht_find m.older q hq >>= λ o. elim o [ some n ↦ some (some n) | none ↦ x ])
                kept
              ∙ sym (hm_lookup-find m q hq))
      ]

  -- A write through the pointer to a node that a lookup found in a map does not fault; later
  -- lookups that name the same key and hash find that node with the new value, and all other
  -- lookups find what they found before.
  pub hm_store_lem :
      (m : HMap V) (k : Bytes) (h : ℕ) (n : Node V) (v : V)
      → hm_lookup m k h ≡ some (some n)
      → Returns (hm_store m k h v) (StoresIn m k h n v)
  unfolding hm_store
  hm_store_lem m k h n v e = elim (Option-cases (ht_find m.older k h)) [
    | inl bad ↦
        (let clash : none ≡ some (some n) = sym (hm_lookup-find m k h ∙ rw bad refl) ∙ e in cc)
    | inr (some x, found) ↦
        let f : some (some x) ≡ hm_lookup m k h = sym (hm_lookup-find m k h ∙ rw found refl) in
        let same : x ≡ n = cc in
        let spot = ht_find-Spot m.older k h n (found ∙ ap (λ y. some (some y)) same) in
        let (t, run, w) = store_at_lem m.older k h n v spot in
        (record m { older = t }, rw (spot.slot, run) refl, store_older m t k h n v w)
    | inr (none, gone) ↦
        let f : ht_find m.newer k h ≡ hm_lookup m k h = sym (hm_lookup-find m k h ∙ rw gone refl) in
        let spot = ht_find-Spot m.newer k h n (f ∙ e) in
        let (t, run, w) = store_at_lem m.newer k h n v spot in
        (
          record m { newer = t },
          rw (ht_find-gone m.older k h gone, spot.slot, run) refl,
          store_newer m t k h n v gone w,
        )
  ]
