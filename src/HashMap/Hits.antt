-- ===== src/HashMap/Hits.antt =====
-- The nodes of src/data_structures/hashmap.cpp that match a key, in a chain and in a whole table.
use mathlib.Core.List.{append-nil, filter_map-append, head?}
use custom_redis.Base.{
  ℕ, zero, suc, bit_and, ◌≡◌, ◌≢◌, refl, inl, inr, false, List, [], ◌∷◌, ◌++◌, flatten, filter_map,
  Option, none, some, arith, get_elem?, All, ◌==◌, Bool-cases, Option-cases, if◌then◌else◌,
}
use custom_redis.HashMap.{Node, Buckets, HTab, matches, find_depth}
use custom_redis.HashMap.Tab.{IsTab}

module _ {ℓ} {V : Type ℓ} (key : List ℕ) (hcode : ℕ) where
  abbrev hit : Node V → Option (Node V)
  hit n = if matches key hcode n then some n else none

  -- The nodes that match the key and the hash, in order.
  unfoldable pub hits : List (Node V) → List (Node V)
  hits ns = filter_map hit ns

  pub hits-append : (xs ys : List (Node V)) → hits (xs ++ ys) ≡ hits xs ++ hits ys
  unfolding hits
  hits-append xs ys = filter_map-append hit xs ys

  pub hits-nil : hits [] ≡ []
  unfolding hits filter_map
  hits-nil = refl

  pub hits-cons :
      (n : Node V) (ns : List (Node V))
      → hits (n ∷ ns) ≡ (if matches key hcode n then n ∷ hits ns else hits ns)
  unfolding hits filter_map
  hits-cons n ns = ground arith

  -- The loop over a chain stops at the first node that matches.
  pub find_depth-none : (c : List (Node V)) → find_depth key hcode c ≡ none → hits c ≡ []
  unfolding find_depth
  find_depth-none [] h = hits-nil
  find_depth-none (n ∷ c) h = ground (arith, hits-cons n c, find_depth-none c)

  pub find_depth-some :
      (c : List (Node V)) (d : ℕ)
      → find_depth key hcode c ≡ some d
      → (n : Node V) × (get_elem? c d ≡ some n) × (head? (hits c) ≡ some n)
  unfolding find_depth head?
  find_depth-some [] d h = cc
  find_depth-some (n ∷ c) d h = elim (Bool-cases (matches key hcode n)) [
    | inl same ↦ (n, ground arith, rw (hits-cons n c, same) refl)
    | inr other ↦ elim (Option-cases (find_depth key hcode c)) [
      | inl gone ↦ absurd (ground arith)
      | inr (e, found) ↦
          let (m, at, first) = find_depth-some c e found in
          (m, ground arith, rw (hits-cons n c, other) first)
    ]
  ]

  other_hash :
      (mask i : ℕ) (n : Node V)
      → bit_and hcode mask ≢ i
      → bit_and n.hcode mask ≡ i
      → matches key hcode n ≡ false
  unfolding matches
  other_hash mask i n ne e = elim (Bool-cases (n.hcode == hcode)) [
    | inr other ↦ rw other
    | inl same ↦ let e' : n.hcode ≡ hcode = ground arith in absurd (ne (rw e' at e))
  ]

  -- A node in the bucket of another hash does not match.
  hits_elsewhere :
      (mask i : ℕ) (c : List (Node V))
      → bit_and hcode mask ≢ i
      → All (λ n. bit_and n.hcode mask ≡ i) c
      → hits c ≡ []
  hits_elsewhere mask i [] ne a = hits-nil
  hits_elsewhere mask i (n ∷ c) ne a =
      rw (hits-cons n c, other_hash mask i n ne a.0) (hits_elsewhere mask i c ne a.1)

  hits-flatten_nowhere :
      (bs : Buckets V)
      → ((j : ℕ) (c : List (Node V)) → get_elem? bs j ≡ some c → hits c ≡ [])
      → hits (flatten bs) ≡ []
  unfolding flatten
  hits-flatten_nowhere [] h = hits-nil
  hits-flatten_nowhere (x ∷ bs) h =
      rw (hits-append, h 0 x refl) (hits-flatten_nowhere bs (λ j c e. h (suc j) c e))

  -- If only one bucket has hits, they are those of the whole array.
  hits-flatten_only :
      (bs : Buckets V) (pos : ℕ) (c : List (Node V))
      → get_elem? bs pos ≡ some c
      → ((j : ℕ) (c' : List (Node V)) → pos ≢ j → get_elem? bs j ≡ some c' → hits c' ≡ [])
      → hits (flatten bs) ≡ hits c
  unfolding flatten
  hits-flatten_only [] pos c at h = cc
  hits-flatten_only (x ∷ bs) zero c at h =
      let e : x ≡ c = cc in
      rw (
        hits-append,
        hits-flatten_nowhere bs (λ j c' e'. h (suc j) c' (omega arith) e'),
        append-nil,
        e,
      )
  hits-flatten_only (x ∷ bs) (suc pos) c at h =
      rw (hits-append, h 0 x (omega arith) refl)
        (hits-flatten_only bs pos c at (λ j c' ne e. h (suc j) c' (omega arith) e))

  -- In a valid table the hits are those of the bucket that the hash selects.
  pub hits-bucket :
      (t : HTab V) (bs : Buckets V) (c : List (Node V))
      → IsTab t bs
      → get_elem? bs (bit_and hcode t.mask) ≡ some c
      → hits (flatten bs) ≡ hits c
  hits-bucket t bs c v at =
      hits-flatten_only bs (bit_and hcode t.mask) c at
        (λ j c' ne e. hits_elsewhere t.mask j c' ne (v.placed j c' e))
