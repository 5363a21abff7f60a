-- ===== src/HashMap/Find.antt =====
-- The search of one table of src/data_structures/hashmap.cpp up to the node that it returns.
use mathlib.Core.List.{head?}
use mathlib.Core.Path.{fun_ext}
use custom_redis.Base.{
  ℕ, bit_and, ◌≡◌, refl, sym, ap, ◌∙◌, inl, inr, Option-cases, List, Option, none, some, arith,
  get_elem?, ◌>>=◌,
}
use custom_redis.HashMap.{
  Node, Buckets, HTab, HMap, Slot, c_str, find_depth, ht_lookup_in, ht_lookup, at_slot, hm_lookup,
}
use custom_redis.HashMap.Probes.{hits_congr}
use custom_redis.HashMap.Hits.{hits, find_depth-none, find_depth-some}

module _ {ℓ} {V : Type ℓ} where
  unfoldable pub slot_node : HTab V → Option Slot → Option (Option (Node V))
  slot_node t none = some none
  slot_node t (some slot) = at_slot t slot >>= λ n. some (some n)

  unfoldable pub ht_find : HTab V → List ℕ → ℕ → Option (Option (Node V))
  ht_find t q hq = ht_lookup t q hq >>= λ found. slot_node t found

  ht_find-chain :
      (t : HTab V) (tab : Buckets V) (q : List ℕ) (hq : ℕ) (chain : List (Node V))
      → t.tab ≡ some tab
      → get_elem? tab (bit_and hq t.mask) ≡ some chain
      → ht_find t q hq ≡ some (head? (hits q hq chain))
  unfolding ht_find slot_node ht_lookup ht_lookup_in at_slot head?
  ht_find-chain t tab q hq chain e bucket = elim (Option-cases (find_depth q hq chain)) [
    | inl gone ↦ rw (e, bucket, gone, find_depth-none q hq chain gone) refl
    | inr (d, found) ↦
        let (n, at, first) = find_depth-some q hq chain d found in
        rw (e, bucket, found, first, bucket, at) refl
  ]

  pub ht_find-bucket :
      (t : HTab V) (tab : Buckets V) (q : List ℕ) (hq : ℕ)
      → t.tab ≡ some tab
      → ht_find t q hq
        ≡ (get_elem? tab (bit_and hq t.mask) >>= λ chain. some (head? (hits q hq chain)))
  unfolding ht_find ht_lookup ht_lookup_in
  ht_find-bucket t tab q hq e = elim (Option-cases (get_elem? tab (bit_and hq t.mask))) [
    | inl out ↦ rw (e, out) refl
    | inr (chain, bucket) ↦ rw bucket (ht_find-chain t tab q hq chain e bucket)
  ]

  pub hm_lookup-find :
      (m : HMap V) (q : List ℕ) (hq : ℕ)
      → hm_lookup m q hq ≡ (
          ht_find m.older q hq >>= λ o. elim o [
            | some n ↦ some (some n)
            | none ↦ ht_find m.newer q hq
          ])
  unfolding hm_lookup ht_find slot_node
  hm_lookup-find m q hq = ground arith

  -- Where a search found its node.
  pub record Spot (t : HTab V) (k : List ℕ) (h : ℕ) (n : Node V) : Type ℓ where
    pub tab : Buckets V
    pub chain : List (Node V)
    pub depth : ℕ
    pub held : t.tab ≡ some tab
    pub bucket : get_elem? tab (bit_and h t.mask) ≡ some chain
    pub found : find_depth k h chain ≡ some depth
    pub link : get_elem? chain depth ≡ some n
    pub slot : ht_lookup t k h ≡ some (some (record { pos = bit_and h t.mask; depth = depth }))

  Spot-in :
      (t : HTab V) (k : List ℕ) (h : ℕ) (n : Node V) (tab : Buckets V) (chain : List (Node V))
      → t.tab ≡ some tab
      → get_elem? tab (bit_and h t.mask) ≡ some chain
      → ht_find t k h ≡ some (some n)
      → Spot t k h n
  unfolding ht_lookup ht_lookup_in head?
  Spot-in t k h n tab chain e bucket found = elim (Option-cases (find_depth k h chain)) [
    | inl gone ↦
        let f =
          ht_find-chain t tab k h chain e bucket
          ∙ ap (λ xs. some (head? xs)) (find_depth-none k h chain gone) in
        let clash : ◌≡◌ {A = Option (Option (Node V))} (some none) (some (some n)) =
          sym f ∙ found in
        cc
    | inr (d, deep) ↦
        let (m, at, first) = find_depth-some k h chain d deep in
        let f = ht_find-chain t tab k h chain e bucket ∙ ap some first in
        let same : m ≡ n = cc in
        record {
          tab = tab;
          chain = chain;
          depth = d;
          held = e;
          bucket = bucket;
          found = deep;
          link = at ∙ ap some same;
          slot = rw (e, bucket, deep) refl;
        }
  ]

  pub ht_find-Spot :
      (t : HTab V) (k : List ℕ) (h : ℕ) (n : Node V) → ht_find t k h ≡ some (some n) → Spot t k h n
  unfolding ht_find slot_node ht_lookup ht_lookup_in
  ht_find-Spot t k h n found = elim (Option-cases t.tab) [
    | inl blank ↦ absurd (ground arith)
    | inr (tab, e) ↦ elim (Option-cases (get_elem? tab (bit_and h t.mask))) [
      | inl out ↦ absurd (ground arith)
      | inr (chain, bucket) ↦ Spot-in t k h n tab chain e bucket found
    ]
  ]

  pub ht_find-gone :
      (t : HTab V) (k : List ℕ) (h : ℕ) → ht_find t k h ≡ some none → ht_lookup t k h ≡ some none
  unfolding ht_find slot_node
  ht_find-gone t k h gone = ground arith

  pub ht_find_congr :
      (t : HTab V) (k : List ℕ) (h : ℕ) (q : List ℕ) (hq : ℕ)
      → h ≡ hq
      → c_str k ≡ c_str q
      → ht_find t k h ≡ ht_find t q hq
  unfolding ht_find slot_node ht_lookup ht_lookup_in
  ht_find_congr t k h q hq e f = elim (Option-cases t.tab) [
    | inl blank ↦ rw blank refl
    | inr (tab, held) ↦
        ht_find-bucket t tab k h held
        ∙ ap (λ x. get_elem? tab (bit_and x t.mask) >>= λ chain. some (head? (hits k h chain))) e
        ∙ ap
            (λ (g : List (Node V) → List (Node V)).
              get_elem? tab (bit_and hq t.mask) >>= λ chain. some (head? (g chain)))
            (fun_ext (λ chain. hits_congr k h q hq chain e f))
        ∙ sym (ht_find-bucket t tab q hq held)
  ]
