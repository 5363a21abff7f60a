-- ===== src/HashMap/Probes.antt =====
-- Probes of src/data_structures/hashmap.cpp: when two of them, or a probe and a node, have the same
-- key, and what that says of the nodes that match.
use mathlib.Core.List.{head?, mem-cons_self, perm_append_comm}
use mathlib.Core.List.Perm
use mathlib.Core.List.Memᴰ
use mathlib.Core.Logic.{∥∥₁_elim}
use custom_redis.Base.{
  bytes_eq, eq_of_bytes_eq, ◌&&◌, ◌==◌, ℕ, ◌≤◌, ◌≡◌, refl, sym, ap, ◌∙◌, inl, inr, Bool, true,
  false, List, [], ◌∷◌, Perm, Option, none, some, arith, length, Bool-cases,
}
use custom_redis.Base.Perms.{length-perm}
use custom_redis.HashMap.{Node, HMap, c_str, matches}
use custom_redis.HashMap.Valid.{hm_nodes, tab_nodes}
use custom_redis.HashMap.Hits.{hits, hits-nil, hits-cons}
use custom_redis.HashMap.Lookup.{search_order}

module _ {ℓ} {V : Type ℓ} (key : List ℕ) (hcode : ℕ) where
  pub hits-perm :
      {xs ys : List (Node V)} → Perm xs ys → Perm (hits key hcode xs) (hits key hcode ys)
  unfolding hits
  hits-perm p = Perm.filter_map _ p

abbrev pub found {ℓ} : {A : Type ℓ} → Option A → ℕ
found none = 0
found (some a) = 1

-- In a set, a bag with at most one element has one first element.
module _ {ℓ} {A : Type ℓ} (A_set : IsSet A) where
  pub head?-perm : (xs ys : List A) → Perm xs ys → length xs ≤ 1 → head? xs ≡ head? ys
  head?-perm [] ys p h = ap head? (Perm.nil-eq p)
  head?-perm (x ∷ []) [] p h = absurd (omega (arith, length-perm p))
  head?-perm (x ∷ []) (y ∷ []) p h =
      ap some (∥∥₁_elim ((Perm.mem_iff p).0 mem-cons_self) (A_set x y) Memᴰ.eq_of_singleton)
  head?-perm (x ∷ []) (y ∷ z ∷ ys) p h = absurd (omega (arith, length-perm p))
  head?-perm (x ∷ y ∷ xs) ys p h = absurd (omega arith)

pub Node-set {ℓ} : {V : Type ℓ} → IsSet V → IsSet (Node V)
Node-set V_set = hlevel V_set

-- Two probes for the same key.
abbrev pub same_probe : List ℕ → ℕ → List ℕ → ℕ → Bool
same_probe k h q hq = h == hq && bytes_eq (c_str k) (c_str q)

pub same_probe-parts :
    (k : List ℕ) (h : ℕ) (q : List ℕ) (hq : ℕ)
    → same_probe k h q hq ≡ true
    → (h ≡ hq) × (c_str k ≡ c_str q)
same_probe-parts k h q hq e = (ground arith, eq_of_bytes_eq (c_str k) (c_str q) (ground arith))

module _ {ℓ} {V : Type ℓ} where
  pub matches-parts :
      (k : List ℕ) (h : ℕ) (n : Node V)
      → matches k h n ≡ true
      → (n.hcode ≡ h) × (c_str k ≡ c_str n.key)
  unfolding matches
  matches-parts k h n e = (ground arith, eq_of_bytes_eq (c_str k) (c_str n.key) (ground arith))

  pub matches_congr :
      (k : List ℕ) (h : ℕ) (q : List ℕ) (hq : ℕ) (n : Node V)
      → h ≡ hq
      → c_str k ≡ c_str q
      → matches k h n ≡ matches q hq n
  unfolding matches
  matches_congr k h q hq n e e' = rw (e, e')

  pub hits_congr :
      (k : List ℕ) (h : ℕ) (q : List ℕ) (hq : ℕ) (ns : List (Node V))
      → h ≡ hq
      → c_str k ≡ c_str q
      → hits k h ns ≡ hits q hq ns
  hits_congr k h q hq [] e e' = hits-nil k h ∙ sym (hits-nil q hq)
  hits_congr k h q hq (n ∷ ns) e e' = rw (
    hits-cons k h n ns,
    hits-cons q hq n ns,
    matches_congr k h q hq n e e',
    hits_congr k h q hq ns e e',
  )

  pub hits-matches :
      (k : List ℕ) (h : ℕ) (n : Node V) (ns : List (Node V))
      → head? (hits k h ns) ≡ some n
      → matches k h n ≡ true
  unfolding head?
  hits-matches k h n [] e =
      let e' : head? {A = Node V} [] ≡ some n = rw (hits-nil {V = V} k h) at e in cc
  hits-matches k h n (x ∷ ns) e = elim (Bool-cases (matches k h x)) [
    | inl hit ↦
        let e' : head? (x ∷ hits k h ns) ≡ some n = rw (hits-cons k h x ns, hit) at e in
        let same : x ≡ n = cc in rw (← same) hit
    | inr miss ↦ hits-matches k h n ns (rw (hits-cons k h x ns, miss) at e)
  ]

  pub differ_of_miss :
      (k : List ℕ) (h : ℕ) (q : List ℕ) (hq : ℕ) (n : Node V)
      → matches k h n ≡ true
      → matches q hq n ≡ false
      → same_probe k h q hq ≡ false
  differ_of_miss k h q hq n hit miss = elim (Bool-cases (same_probe k h q hq)) [
    | inr differ ↦ differ
    | inl same ↦ let (e, e') = same_probe-parts k h q hq same in cc (matches_congr k h q hq n e e')
  ]

  pub nil_of_head : (xs : List (Node V)) → head? xs ≡ none → xs ≡ []
  unfolding head?
  nil_of_head [] h = refl
  nil_of_head (x ∷ xs) h = cc

  pub search_order-perm : (m : HMap V) → Perm (search_order m) (hm_nodes m)
  unfolding hm_nodes
  search_order-perm m = perm_append_comm (tab_nodes m.older) (tab_nodes m.newer)

  -- At most one node matches.
  abbrev pub IsUnique : List ℕ → ℕ → HMap V → Type 0
  IsUnique k h m = length (hits k h (hm_nodes m)) ≤ 1
