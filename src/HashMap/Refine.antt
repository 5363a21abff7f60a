-- ===== src/HashMap/Refine.antt =====
-- The map of src/data_structures/hashmap.cpp as a function from keys to nodes: what a lookup finds
-- after an insert and after a delete.
use mathlib.Core.List.{head?, map-id}
use mathlib.Core.List.Perm
use custom_redis.Base.{
  bytes_eq_refl, ℕ, ◌≤◌, ◌≡◌, refl, sym, ap, ◌∙◌, inl, inr, true, false, List, [], ◌∷◌, Perm,
  Option, none, some, arith, length, Returns, if◌then◌else◌, Bool-cases,
}
use custom_redis.Base.Perms.{length-perm}
use custom_redis.HashMap.{Node, HMap, c_str, matches, hm_insert, hm_lookup, hm_delete}
use custom_redis.HashMap.Valid.{hm_nodes, IsMap}
use custom_redis.HashMap.Insert.{hm_insert-adds}
use custom_redis.HashMap.Steps.{nil_of_length}
use custom_redis.HashMap.Hits.{hits, hits-cons}
use custom_redis.HashMap.Lookup.{search_order, hm_lookup_lem}
use custom_redis.HashMap.Delete.{Deletes, hm_delete_lem}
use custom_redis.HashMap.Probes.{
  found, hits-perm, head?-perm, Node-set, same_probe, same_probe-parts, matches-parts, hits_congr,
  hits-matches, differ_of_miss, nil_of_head, search_order-perm, IsUnique,
}

module _ {ℓ} {V : Type ℓ} (V_set : IsSet V) where
  -- A lookup of a key that occurs at most once finds the one node of the bag.
  lookup_bag :
      (k : List ℕ) (h : ℕ) (m : HMap V) (ns : List (Node V))
      → IsMap m
      → Perm (hm_nodes m) ns
      → length (hits k h ns) ≤ 1
      → hm_lookup m k h ≡ some (head? (hits k h ns))
  lookup_bag k h m ns v p one =
      let p' = hits-perm k h (Perm.trans (search_order-perm m) p) in
      hm_lookup_lem k h m v ∙ ap some (sym (head?-perm (Node-set V_set) _ _ (Perm.symm p') one))

  -- On a valid map in which the node's key is not present, with a probe that at most one node
  -- matches, and if unlinking keeps every node's value, `hm_insert` returns a valid map, and a
  -- lookup of the probe there finds the new node when it matches the probe and else what it found
  -- before, whatever rehashing the insert started or continued.
  pub hm_lookup-insert :
      (unlink_val : V → V) (m : HMap V) (n : Node V) (k : List ℕ) (h : ℕ)
      → ((v : V) → unlink_val v ≡ v)
      → IsMap m
      → hits n.key n.hcode (hm_nodes m) ≡ []
      → IsUnique k h m
      → Returns (hm_insert unlink_val m n) λ m'.
        IsMap m' × (hm_lookup m' k h ≡ (if matches k h n then some (some n) else hm_lookup m k h))
  hm_lookup-insert unlink_val m n k h same v fresh one =
      let (m', run, (v', bag)) =
        hm_insert-adds unlink_val (λ (q : Node V). q) (λ q. rw same) m n v in
      let bag' : Perm (hm_nodes m') (n ∷ hm_nodes m) = simp map-id at bag in
      (
        m',
        run,
        (
          inr v',
          elim (Bool-cases (matches k h n)) [
            | inl hit ↦
                let (e, e') = matches-parts k h n hit in
                let gone = hits_congr k h n.key n.hcode (hm_nodes m) (sym e) e' ∙ fresh in
                let only : hits k h (n ∷ hm_nodes m) ≡ n ∷ [] =
                  rw (hits-cons k h n (hm_nodes m), hit, gone) in
                rw hit (
                  lookup_bag k h m' (n ∷ hm_nodes m) (inr v') bag' (rw only (omega arith))
                  ∙ rw only)
            | inr miss ↦
                let others : hits k h (n ∷ hm_nodes m) ≡ hits k h (hm_nodes m) =
                  rw (hits-cons k h n (hm_nodes m), miss) in
                rw miss (
                  lookup_bag k h m' (n ∷ hm_nodes m) (inr v') bag' (rw others one)
                  ∙ rw others (sym (lookup_bag k h m (hm_nodes m) v (Perm.refl _) one)))
          ],
        ),
      )

  -- What is left of the hits of one probe when a hit of another is taken out.
  hits-without :
      (k : List ℕ) (h : ℕ) (q : List ℕ) (hq : ℕ) (n : Node V) (ns rest : List (Node V))
      → matches k h n ≡ true
      → Perm ns (n ∷ rest)
      → length (hits q hq ns) ≤ 1
      → (length (hits q hq rest) ≤ 1)
        × (head? (hits q hq rest) ≡ (if same_probe k h q hq then none else head? (hits q hq ns)))
  hits-without k h q hq n ns rest hit p one =
      let p' = hits-perm q hq p in
      let (e, e') = matches-parts k h n hit in
      elim (Bool-cases (matches q hq n)) [
        | inl both ↦
            let (f, f') = matches-parts q hq n both in
            let split : hits q hq (n ∷ rest) ≡ n ∷ hits q hq rest =
              rw (hits-cons q hq n rest, both) in
            let none_left : hits q hq rest ≡ [] =
              nil_of_length _ (omega (arith, length-perm p', ap length split)) in
            let same : same_probe k h q hq ≡ true =
              ground (arith, bytes_eq_refl (c_str q), e, f, e', f') in
            (rw none_left (omega arith), rw (same, none_left))
        | inr other ↦
            let split : hits q hq (n ∷ rest) ≡ hits q hq rest = rw (hits-cons q hq n rest, other) in
            let differ : same_probe k h q hq ≡ false = differ_of_miss k h q hq n hit other in
            let p'' = rw split at p' in
            (
              omega (arith, length-perm p''),
              rw differ (sym (head?-perm (Node-set V_set) _ _ p'' one)),
            )
      ]

  -- What a lookup of `q` finds in `m'` once a delete of `k` has been carried out on `m`.
  abbrev AfterDelete : HMap V → List ℕ → ℕ → List ℕ → ℕ → ℕ × HMap V → Type ℓ
  AfterDelete m k h q hq r =
      IsMap r.1
      × (r.0 ≡ found (head? (hits k h (search_order m))))
      × (hm_lookup r.1 q hq ≡ (if same_probe k h q hq then some none else hm_lookup m q hq))

  after_delete :
      (m : HMap V) (k : List ℕ) (h : ℕ) (q : List ℕ) (hq : ℕ)
      → IsMap m
      → IsUnique q hq m
      → (o : Option (Node V)) (r : ℕ × HMap V) → head? (hits k h (search_order m)) ≡ o
      → Deletes m o r
      → AfterDelete m k h q hq r
  after_delete m k h q hq v one none (deleted, m') e (zero_deleted, same_map) =
      rw (same_map, e)
        (
          v,
          zero_deleted,
          elim (Bool-cases (same_probe k h q hq)) [
            | inr differ ↦ rw differ
            | inl same ↦
                let (f, f') = same_probe-parts k h q hq same in
                let gone = sym (hits_congr k h q hq (search_order m) f f') ∙ nil_of_head _ e in
                rw (hm_lookup_lem q hq m v, same, gone) refl
          ],
        )
  after_delete m k h q hq v one (some n) (deleted, m') e (one_deleted, v', p) =
      let hit = hits-matches k h n (search_order m) e in
      let (one', rest) = hits-without k h q hq n (hm_nodes m) (hm_nodes m') hit p one in
      (
        v',
        rw e one_deleted,
        lookup_bag q hq m' (hm_nodes m') v' (Perm.refl _) one'
            ∙ rw (rest, lookup_bag q hq m (hm_nodes m) v (Perm.refl _) one) (ground arith),
      )

  -- On a valid map, with a probe that at most one node matches, `hm_delete` of any key returns a
  -- valid map and the number 1 or 0 as a node matched the key or not; afterwards the probe finds
  -- nothing when it is for the deleted key, and else what it found before.
  pub hm_lookup-delete :
      (unlink_val : V → V) (m : HMap V) (k : List ℕ) (h : ℕ) (q : List ℕ) (hq : ℕ)
      → IsMap m
      → IsUnique q hq m
      → Returns (hm_delete unlink_val m k h) λ r.
        IsMap r.1
        × (r.0 ≡ found (head? (hits k h (search_order m))))
        × (hm_lookup r.1 q hq ≡ (if same_probe k h q hq then some none else hm_lookup m q hq))
  hm_lookup-delete unlink_val m k h q hq v one =
      let (r, run, d) = hm_delete_lem unlink_val k h m v in
      (r, run, after_delete m k h q hq v one _ r refl d)
