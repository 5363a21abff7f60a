-- ===== src/Commands/Chains.antt =====
-- A chain of src/data_structures/hashmap.cpp in which one node gets another value: what a search finds
-- there.
use mathlib.Core.List.{head?}
use custom_redis.Base.{
  ℕ, zero, suc, ◌≡◌, refl, sym, ap, ◌∙◌, inl, inr, true, false, Bool-cases, bytes_eq_refl,
  Option-cases, List, [], ◌∷◌, some, if◌then◌else◌, get_elem?, set, arith,
}
use custom_redis.Wire.{Bytes}
use custom_redis.HashMap.{Node, c_str, matches, find_depth}
use custom_redis.HashMap.Hits.{hits, hits-cons}
use custom_redis.HashMap.Probes.{same_probe, same_probe-parts, matches-parts, matches_congr}

same_of_parts :
    (k : Bytes) (h : ℕ) (q : Bytes) (hq : ℕ)
    → h ≡ hq
    → c_str k ≡ c_str q
    → same_probe k h q hq ≡ true
same_of_parts k h q hq e f = rw (e, f, bytes_eq_refl (c_str q)) (ground arith)

module _ {ℓ} {V : Type ℓ} where
  abbrev pub with_val : Node V → V → Node V
  with_val n v = record n { val = v }

  pub matches-with_val :
      (k : Bytes) (h : ℕ) (n : Node V) (v : V) → matches k h (with_val n v) ≡ matches k h n
  unfolding matches
  matches-with_val k h n v = refl

  pub differ_of_hit :
      (k : Bytes) (h : ℕ) (q : Bytes) (hq : ℕ) (n : Node V)
      → same_probe k h q hq ≡ false
      → matches k h n ≡ true
      → matches q hq n ≡ false
  differ_of_hit k h q hq n differ hit = elim (Bool-cases (matches q hq n)) [
    | inr miss ↦ miss
    | inl hit' ↦
        let (e, f) = matches-parts k h n hit in
        let (e', f') = matches-parts q hq n hit' in
        let clash : true ≡ false =
          sym (same_of_parts k h q hq (sym e ∙ e') (f ∙ sym f')) ∙ differ in
        cc
  ]

  pub depth_first :
      (k : Bytes) (h : ℕ) (x : Node V) (chain : List (Node V)) (d : ℕ)
      → matches k h x ≡ true
      → find_depth k h (x ∷ chain) ≡ some d
      → d ≡ 0
  unfolding find_depth
  depth_first k h x chain d hit e = ground arith

  pub depth_later :
      (k : Bytes) (h : ℕ) (x : Node V) (chain : List (Node V)) (d : ℕ)
      → matches k h x ≡ false
      → find_depth k h (x ∷ chain) ≡ some d
      → (d' : ℕ) × (d ≡ suc d') × (find_depth k h chain ≡ some d')
  unfolding find_depth
  depth_later k h x chain d miss e = elim (Option-cases (find_depth k h chain)) [
    | inl gone ↦ absurd (ground arith)
    | inr (d', found) ↦ (d', ground arith, found)
  ]

  pub chain_hit_first :
      (k : Bytes) (h : ℕ) (q : Bytes) (hq : ℕ) (x : Node V) (chain : List (Node V)) (d : ℕ)
      (n : Node V) (v : V)
      → d ≡ 0
      → get_elem? (x ∷ chain) d ≡ some n
      → matches k h x ≡ true
      → head? (hits q hq (set (x ∷ chain) d (with_val n v)))
        ≡ (if same_probe k h q hq then some (with_val n v) else head? (hits q hq (x ∷ chain)))
  unfolding head?
  chain_hit_first k h q hq x chain (suc d) n v z f hit = absurd (omega arith)
  chain_hit_first k h q hq x chain zero n v z f hit =
      let same : x ≡ n = cc in
      elim (Bool-cases (same_probe k h q hq)) [
        | inl e ↦
            let (a, b) = same_probe-parts k h q hq e in
            let hit' : matches q hq (with_val n v) ≡ true =
              matches-with_val q hq n v
              ∙ sym (matches_congr k h q hq n a b)
              ∙ ap (matches k h) (sym same)
              ∙ hit in
            rw (e, hits-cons q hq (with_val n v) chain, hit') refl
        | inr e ↦
            let miss = differ_of_hit k h q hq x e hit in
            let miss' : matches q hq (with_val n v) ≡ false =
              matches-with_val q hq n v ∙ ap (matches q hq) (sym same) ∙ miss in
            rw (e, hits-cons q hq (with_val n v) chain, miss', hits-cons q hq x chain, miss) refl
      ]

  pub chain_hit_later :
      (k : Bytes) (h : ℕ) (q : Bytes) (hq : ℕ) (x : Node V) (chain : List (Node V)) (d : ℕ)
      (n : Node V) (v : V)
      → matches k h x ≡ false
      → (d' : ℕ) × (d ≡ suc d') × (find_depth k h chain ≡ some d')
      → get_elem? (x ∷ chain) d ≡ some n
      → ((d' : ℕ)
          → find_depth k h chain ≡ some d'
          → get_elem? chain d' ≡ some n
          → head? (hits q hq (set chain d' (with_val n v)))
            ≡ (if same_probe k h q hq then some (with_val n v) else head? (hits q hq chain)))
      → head? (hits q hq (set (x ∷ chain) d (with_val n v)))
        ≡ (if same_probe k h q hq then some (with_val n v) else head? (hits q hq (x ∷ chain)))
  unfolding head?
  chain_hit_later k h q hq x chain zero n v miss (d', z, e) f ih = absurd (omega arith)
  chain_hit_later k h q hq x chain (suc d) n v miss (d', z, e) f ih =
      let e' : find_depth k h chain ≡ some d = e ∙ ap some (omega arith) in
      let rest = ih d e' f in
      elim (Bool-cases (matches q hq x)) [
        | inr other ↦
            rw (hits-cons q hq x (set chain d (with_val n v)), hits-cons q hq x chain, other) rest
        | inl hit ↦ elim (Bool-cases (same_probe k h q hq)) [
          | inr differ ↦
              rw
                (hits-cons q hq x (set chain d (with_val n v)), hits-cons q hq x chain, hit, differ)
                refl
          | inl same ↦
              let (a, b) = same_probe-parts k h q hq same in
              let clash : true ≡ false = sym hit ∙ sym (matches_congr k h q hq x a b) ∙ miss in cc
        ]
      ]

  -- The first hit in a chain whose node at the depth found has another value.
  pub chain_hit :
      (k : Bytes) (h : ℕ) (q : Bytes) (hq : ℕ) (chain : List (Node V)) (d : ℕ) (n : Node V) (v : V)
      → find_depth k h chain ≡ some d
      → get_elem? chain d ≡ some n
      → head? (hits q hq (set chain d (with_val n v)))
        ≡ (if same_probe k h q hq then some (with_val n v) else head? (hits q hq chain))
  unfolding head?
  chain_hit k h q hq [] d n v e f = cc
  chain_hit k h q hq (x ∷ chain) d n v e f = elim (Bool-cases (matches k h x)) [
    | inl hit ↦ chain_hit_first k h q hq x chain d n v (depth_first k h x chain d hit e) f hit
    | inr miss ↦
        chain_hit_later k h q hq x chain d n v miss (depth_later k h x chain d miss e) f
          (λ d' e' f'. chain_hit k h q hq chain d' n v e' f')
  ]
