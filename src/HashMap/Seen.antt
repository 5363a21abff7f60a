-- ===== src/HashMap/Seen.antt =====
-- Lookups after an insert into a map of src/data_structures/hashmap.cpp where unlinking changes
-- values: nodes are compared as they are after they are unlinked.
use mathlib.Core.List.{head?}
use mathlib.Core.List.Perm
use custom_redis.Base.{
  ℕ, ◌≤◌, ◌≡◌, refl, sym, ap, ◌∙◌, inl, inr, Bool-cases, List, [], ◌∷◌, Perm, map, Option, none,
  some, if◌then◌else◌, ◌>>=◌, length, Returns, arith,
}
use custom_redis.HashMap.{Node, HMap, matches, hm_insert, hm_lookup}
use custom_redis.HashMap.Valid.{hm_nodes, IsMap}
use custom_redis.HashMap.Insert.{hm_insert-adds}
use custom_redis.HashMap.Hits.{hits, hits-nil, hits-cons}
use custom_redis.HashMap.Lookup.{search_order, hm_lookup_lem}
use custom_redis.HashMap.Probes.{
  hits-perm, head?-perm, Node-set, matches-parts, hits_congr, search_order-perm, IsUnique,
}

module _ {ℓ} {V : Type ℓ} (V_set : IsSet V) (unlink_val : V → V) where
  abbrev pub seen : Node V → Node V
  seen n = record n { val = unlink_val n.val }

  abbrev pub seen_in : Option (Node V) → Option (Node V)
  seen_in none = none
  seen_in (some n) = some (seen n)

  matches-seen : (k : List ℕ) (h : ℕ) (n : Node V) → matches k h (seen n) ≡ matches k h n
  unfolding matches
  matches-seen k h n = refl

  hits-seen :
      (k : List ℕ) (h : ℕ) (ns : List (Node V)) → hits k h (map seen ns) ≡ map seen (hits k h ns)
  hits-seen k h [] = hits-nil k h ∙ sym (ap (map seen) (hits-nil k h))
  hits-seen k h (n ∷ ns) = elim (Bool-cases (matches k h n)) [
    | inl hit ↦
        rw
          (
            hits-cons k h (seen n) (map seen ns),
            hits-cons k h n ns,
            matches-seen k h n,
            hit,
            hits-seen k h ns,
          )
          refl
    | inr miss ↦
        rw
          (
            hits-cons k h (seen n) (map seen ns),
            hits-cons k h n ns,
            matches-seen k h n,
            miss,
            hits-seen k h ns,
          )
          refl
  ]

  head?-seen : (ns : List (Node V)) → head? (map seen ns) ≡ seen_in (head? ns)
  unfolding head?
  head?-seen [] = refl
  head?-seen (n ∷ ns) = refl

  -- The one node that a bag has for a probe.
  seen_bag :
      (k : List ℕ) (h : ℕ) (m : HMap V) (ns : List (Node V))
      → IsMap m
      → Perm (map seen (hm_nodes m)) ns
      → length (hits k h ns) ≤ 1
      → (hm_lookup m k h >>= λ o. some (seen_in o)) ≡ some (head? (hits k h ns))
  seen_bag k h m ns v p one =
      let p' = hits-perm k h (Perm.trans (Perm.map seen (search_order-perm m)) p) in
      let first = sym (head?-perm (Node-set V_set) _ _ (Perm.symm p') one) in
      ap (λ o. o >>= λ o. some (seen_in o)) (hm_lookup_lem k h m v)
      ∙ ap some (
          sym (head?-seen (hits k h (search_order m)))
          ∙ ap head? (sym (hits-seen k h (search_order m)))
          ∙ first)

  length-map-seen : (ns : List (Node V)) → length (map seen ns) ≡ length ns
  length-map-seen [] = refl
  length-map-seen (n ∷ ns) = omega (arith, length-map-seen ns)

  -- As `hm_lookup-insert`, for values that unlinking changes, but not twice.
  pub hm_lookup-insert_seen :
      (m : HMap V) (n : Node V) (k : List ℕ) (h : ℕ)
      → ((v : V) → unlink_val (unlink_val v) ≡ unlink_val v)
      → IsMap m
      → hits n.key n.hcode (hm_nodes m) ≡ []
      → IsUnique k h m
      → Returns (hm_insert unlink_val m n) λ m'.
        IsMap m'
        × ((hm_lookup m' k h >>= λ o. some (seen_in o)) ≡ (
            if matches k h n
            then some (some (seen n))
            else (hm_lookup m k h >>= λ o. some (seen_in o))))
  unfolding head?
  hm_lookup-insert_seen m n k h twice v fresh one =
      let (m', run, (v', bag)) =
        hm_insert-adds unlink_val seen
          (λ (q : Node V). ap (λ x. record q { val = x }) (twice q.val)) m n v in
      let old = seen_bag k h m (map seen (hm_nodes m)) v (Perm.refl _) (
        omega (
          arith,
          ap length (hits-seen k h (hm_nodes m)),
          length-map-seen (hits k h (hm_nodes m)),
        )) in
      (
        m',
        run,
        (
          inr v',
          elim (Bool-cases (matches k h n)) [
            | inl hit ↦
                let (e, e') = matches-parts k h n hit in
                let gone =
                  hits-seen k h (hm_nodes m)
                  ∙ ap (map seen) (hits_congr k h n.key n.hcode (hm_nodes m) (sym e) e' ∙ fresh) in
                let only : hits k h (seen n ∷ map seen (hm_nodes m)) ≡ seen n ∷ [] =
                  rw (hits-cons k h (seen n) (map seen (hm_nodes m)), matches-seen k h n, hit, gone)
                    refl in
                rw hit (
                  seen_bag k h m' (seen n ∷ map seen (hm_nodes m)) (inr v') bag
                    (rw only (omega arith))
                  ∙ ap (λ xs. some (head? xs)) only)
            | inr miss ↦
                let others : hits k h (seen n ∷ map seen (hm_nodes m))
                    ≡ hits k h (map seen (hm_nodes m)) =
                  rw (hits-cons k h (seen n) (map seen (hm_nodes m)), matches-seen k h n, miss)
                    refl in
                rw miss (
                  seen_bag k h m' (seen n ∷ map seen (hm_nodes m)) (inr v') bag (
                    omega (
                      arith,
                      ap length others,
                      ap length (hits-seen k h (hm_nodes m)),
                      length-map-seen (hits k h (hm_nodes m)),
                    ))
                  ∙ ap (λ xs. some (head? xs)) others
                  ∙ sym old)
          ],
        ),
      )
