-- ===== src/HashMap/Delete.antt =====
-- `hm_delete` of src/data_structures/hashmap.cpp, against the search of `hm_lookup`.
use mathlib.Core.List.{head?, perm_middle}
use mathlib.Core.List.Perm
use custom_redis.Base.{
  ℕ, ◌<◌, ◌≡◌, refl, ap, ◌∙◌, inl, inr, List, [], ◌∷◌, flatten, map, Perm, Option, none, some,
  get_elem?, Returns,
}
use native.Mathlib.Decide.{ℕ_discrete}
use custom_redis.HashMap.{Node, Buckets, HTab, HMap, hm_delete}
use custom_redis.HashMap.Tab.{IsTab, ht_unlink-Removes}
use custom_redis.HashMap.Valid.{hm_nodes, IsSettled, IsBusy, IsMap, hm_nodes-busy, hm_nodes-settled}
use custom_redis.HashMap.Hits.{hits}
use custom_redis.HashMap.Lookup.{
  Misses, Finds, search_order, first_older, first_newer, ht_lookup-empty, ht_lookup-held,
}

module _ {ℓ} {V : Type ℓ} where
  -- What `hm_delete` returns, by what a search of all the nodes finds first.
  abbrev pub Deletes : HMap V → Option (Node V) → ℕ × HMap V → Type ℓ
  Deletes m none (deleted, m') = (deleted ≡ 0) × (m' ≡ m)
  Deletes m (some n) (deleted, m') = (deleted ≡ 1) × IsMap m' × Perm (hm_nodes m) (n ∷ hm_nodes m')

  -- No node stands in a bucket that the migration has passed.
  not_passed :
      (m : HMap V) (b : IsBusy m) (i d : ℕ) (c : List (Node V)) (n : Node V)
      → i < m.migrate_pos
      → get_elem? b.old_buckets i ≡ some c
      → ¬ (get_elem? c d ≡ some n)
  not_passed m b i d [] n lt at link = cc
  not_passed m b i d (x ∷ c) n lt at link = cc (b.migrated i lt)

  bare : Node V → Node V
  bare n = n

  map-bare : (xs : List (Node V)) → map bare xs ≡ xs
  unfolding bare
  map-bare [] = refl
  map-bare (x ∷ xs) = ap (◌∷◌ x) (map-bare xs)

  same_bag :
      (m m' : HMap V) (n : Node V)
      → Perm (map bare (hm_nodes m)) (bare n ∷ map bare (hm_nodes m'))
      → Perm (hm_nodes m) (n ∷ hm_nodes m')
  unfolding bare
  same_bag m m' n p = simp map-bare at p

module _ {ℓ} {V : Type ℓ} (unlink_val : V → V) (key : List ℕ) (hcode : ℕ) (m : HMap V) where
  -- Taking a node out of the older table of a busy map.
  delete_older :
      (b : IsBusy m) (g : Finds key hcode m.older b.old_buckets)
      → Returns (hm_delete unlink_val m key hcode) (Deletes m (some g.node))
  unfolding hm_delete
  delete_older b g =
      let ((n, older), out, (e, r)) =
        ht_unlink-Removes unlink_val bare m.older b.old_buckets g.slot g.chain g.node b.old_valid
          g.bucket g.link in
      let m' : HMap V = record m { older = older } in
      let b' : IsBusy m' = record {
        new_buckets = b.new_buckets;
        old_buckets = r.buckets;
        new_valid = b.new_valid;
        old_valid = r.valid;
        migrated = λ i lt. elim (ℕ_discrete g.slot.pos i) [
          | no ne ↦ r.others i ne ∙ b.migrated i lt
          | yes at ↦
              absurd (not_passed m b i g.slot.depth g.chain g.node lt (rw at at g.bucket) g.link)
        ];
      } in
      (
        (1, m'),
        rw (g.run, out),
        (
          refl,
          inr (inr b'),
          same_bag m m' g.node (
              rw (hm_nodes-busy bare m b, hm_nodes-busy bare m' b')
                (Perm.trans (Perm.append_left (map bare (flatten b.new_buckets)) r.bag)
                  (perm_middle (map bare (flatten b.new_buckets)) _))),
        ),
      )

  -- Taking a node out of the newer table.
  delete_newer :
      (bs : Buckets V)
      → IsTab m.newer bs
      → IsMap m
      → Misses key hcode m.older
      → (g : Finds key hcode m.newer bs)
      → Returns (hm_delete unlink_val m key hcode) (Deletes m (some g.node))
  unfolding hm_delete
  delete_newer bs v (inl blank) gone g =
      let no_tab : m.newer.tab ≡ none = ap (λ (t : HTab V). t.tab) blank.no_newer in cc (v.held)
  delete_newer bs v (inr (inl s)) gone g =
      let ((n, newer), out, (e, r)) =
        ht_unlink-Removes unlink_val bare m.newer bs g.slot g.chain g.node v g.bucket g.link in
      let m' : HMap V = record m { newer = newer } in
      let s' : IsSettled m' = record {
        new_buckets = r.buckets;
        new_valid = r.valid;
        no_older = s.no_older;
      } in
      (
        (1, m'),
        rw (gone.run, g.run, out),
        (
          refl,
          inr (inl s'),
          same_bag m m' g.node (
              rw
                (
                  hm_nodes-settled bare m (record s { new_buckets = bs; new_valid = v }),
                  hm_nodes-settled bare m' s',
                )
                r.bag),
        ),
      )
  delete_newer bs v (inr (inr b)) gone g =
      let ((n, newer), out, (e, r)) =
        ht_unlink-Removes unlink_val bare m.newer bs g.slot g.chain g.node v g.bucket g.link in
      let m' : HMap V = record m { newer = newer } in
      let b' : IsBusy m' = record {
        new_buckets = r.buckets;
        old_buckets = b.old_buckets;
        new_valid = r.valid;
        old_valid = b.old_valid;
        migrated = b.migrated;
      } in
      (
        (1, m'),
        rw (gone.run, g.run, out),
        (
          refl,
          inr (inr b'),
          same_bag m m' g.node (
              rw
                (
                  hm_nodes-busy bare m (record b { new_buckets = bs; new_valid = v }),
                  hm_nodes-busy bare m' b',
                )
                (Perm.append_right (map bare (flatten b.old_buckets)) r.bag)),
        ),
      )

  delete_absent :
      Misses key hcode m.older
      → Misses key hcode m.newer
      → Returns (hm_delete unlink_val m key hcode) (Deletes m none)
  unfolding hm_delete
  delete_absent gone gone' = ((0, m), rw (gone.run, gone'.run), (refl, refl))

  -- After a miss in the older table the newer one decides.
  delete_second :
      (bs : Buckets V)
      → IsTab m.newer bs
      → IsMap m
      → Misses key hcode m.older
      → Returns
          (hm_delete unlink_val m key hcode)
          (Deletes m (head? (hits key hcode (search_order m))))
  delete_second bs v valid gone =
      let newer = first_newer key hcode m gone.absent in
      elim (ht_lookup-held key hcode m.newer bs v) [
        | inl gone' ↦ rw (newer, gone'.absent) (delete_absent gone gone')
        | inr g ↦ rw (newer, g.first) (delete_newer bs v valid gone g)
      ]

  -- `hm_delete` on a valid map does not fault: when no node of the two tables matches, it returns
  -- 0 and the same map, and else 1 and a valid map that lacks exactly the first match, the older
  -- table searched first.
  pub hm_delete_lem :
      IsMap m
      → Returns
          (hm_delete unlink_val m key hcode)
          (Deletes m (head? (hits key hcode (search_order m))))
  hm_delete_lem (inl blank) =
      let gone = ht_lookup-empty key hcode m.older blank.no_older in
      let gone' = ht_lookup-empty key hcode m.newer blank.no_newer in
      rw (first_newer key hcode m gone.absent, gone'.absent) (delete_absent gone gone')
  hm_delete_lem (inr (inl s)) =
      delete_second s.new_buckets s.new_valid (inr (inl s))
        (ht_lookup-empty key hcode m.older s.no_older)
  hm_delete_lem (inr (inr b)) = elim (ht_lookup-held key hcode m.older b.old_buckets b.old_valid) [
    | inl gone ↦ delete_second b.new_buckets b.new_valid (inr (inr b)) gone
    | inr g ↦ rw (first_older key hcode m g.node g.first) (delete_older b g)
  ]
