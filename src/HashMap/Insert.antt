-- ===== src/HashMap/Insert.antt =====
-- `hm_insert` of src/data_structures/hashmap.cpp, with the rehash that it may start or continue.
use mathlib.Core.List.Perm
use native.Mathlib.Nat.{two-pow-succ}
use custom_redis.Base.{
  suc, ◌+◌, ◌*◌, ◌≡◌, refl, ◌∙◌, ◌⊎◌, inl, inr, true, false, [], ◌∷◌, flatten, map, Perm, some,
  arith, replicate, Returns, leb, Bool-cases,
}
use custom_redis.HashMap.{
  Node, Buckets, HTab, HMap, empty_tab, max_load_factor, h_init, ht_insert, hm_rehash, ready, grow,
  hm_rehash_help, hm_insert,
}
use custom_redis.HashMap.Tab.{h_init-IsTab, ht_insert-Adds, flatten-replicate}
use custom_redis.HashMap.Valid.{
  hm_nodes, IsSettled, IsBusy, IsMap, hm_nodes-busy, hm_nodes-settled, hm_nodes-blank,
}
use custom_redis.HashMap.Rehash.{hm_rehash_help-IsBusy, hm_rehash_help-settled}

-- `hm_insert` returned `m'`.
abbrev pub IsLive {ℓ} : {V : Type ℓ} → HMap V → Type ℓ
IsLive m = IsSettled m ⊎ IsBusy m

module _ {ℓ} {V : Type ℓ} (m : HMap V) where
  ready-blank :
      (t : HTab V)
      → m.newer ≡ empty_tab
      → h_init 4 ≡ some t
      → ready m ≡ some (record m { newer = t })
  unfolding ready
  ready-blank t h made = ground arith

  ready-held : (bs : Buckets V) → m.newer.tab ≡ some bs → ready m ≡ some m
  unfolding ready
  ready-held bs h = ground arith

  grow-busy : (bs : Buckets V) → m.older.tab ≡ some bs → grow m ≡ some m
  unfolding grow
  grow-busy bs h = ground arith

  grow-roomy :
      m.older ≡ empty_tab
      → leb ((m.newer.mask + 1) * max_load_factor) m.newer.size ≡ false
      → grow m ≡ some m
  unfolding grow
  grow-roomy h roomy = ground arith

  grow-full :
      m.older ≡ empty_tab
      → leb ((m.newer.mask + 1) * max_load_factor) m.newer.size ≡ true
      → grow m ≡ hm_rehash m
  unfolding grow
  grow-full h full = ground arith

module _ {ℓ κ} {V : Type ℓ} {B : Type κ} (f : Node V → B) where
  -- The first insert makes a table of four buckets.
  ready-IsLive :
      (m : HMap V)
      → IsMap m
      → Returns (ready m) λ m'. IsLive m' × (map f (hm_nodes m') ≡ map f (hm_nodes m))
  ready-IsLive m (inl blank) =
      let (t, made, v) = h_init-IsTab {V = V} 4 2 refl in
      let m' : HMap V = record m { newer = t } in
      let s : IsSettled m' = record {
        new_buckets = replicate 4 [];
        new_valid = v.0;
        no_older = blank.no_older;
      } in
      (
        m',
        ready-blank m t blank.no_newer made,
        (
          inl s,
          rw (hm_nodes-settled f m' s, hm_nodes-blank f m blank, flatten-replicate {V = V} 4),
        ),
      )
  ready-IsLive m (inr (inl s)) = (m, ready-held m s.new_buckets s.new_valid.held, (inl s, refl))
  ready-IsLive m (inr (inr b)) = (m, ready-held m b.new_buckets b.new_valid.held, (inr b, refl))

  -- The node goes into the newer table.
  insert_new :
      (m : HMap V) (n : Node V)
      → IsLive m
      → Returns (ht_insert m.newer n) λ t.
        IsLive (record m { newer = t })
        × Perm (map f (hm_nodes (record m { newer = t }))) (f n ∷ map f (hm_nodes m))
  insert_new m n (inl s) =
      let (t, run, a) = ht_insert-Adds f m.newer s.new_buckets n s.new_valid in
      let m' : HMap V = record m { newer = t } in
      let s' : IsSettled m' = record {
        new_buckets = a.buckets;
        new_valid = a.valid;
        no_older = s.no_older;
      } in
      (t, run, (inl s', rw (hm_nodes-settled f m' s', hm_nodes-settled f m s) a.bag))
  insert_new m n (inr b) =
      let (t, run, a) = ht_insert-Adds f m.newer b.new_buckets n b.new_valid in
      let m' : HMap V = record m { newer = t } in
      let b' : IsBusy m' = record {
        new_buckets = a.buckets;
        old_buckets = b.old_buckets;
        new_valid = a.valid;
        old_valid = b.old_valid;
        migrated = b.migrated;
      } in
      (
        t,
        run,
        (
          inr b',
          rw (hm_nodes-busy f m' b', hm_nodes-busy f m b)
              (Perm.append_right (map f (flatten b.old_buckets)) a.bag),
        ),
      )

  -- A rehash begins with a newer table of twice as many buckets, all empty.
  hm_rehash-IsBusy :
      (m : HMap V)
      → IsSettled m
      → Returns (hm_rehash m) λ m'. IsBusy m' × (map f (hm_nodes m') ≡ map f (hm_nodes m))
  unfolding hm_rehash
  hm_rehash-IsBusy m s =
      let (k, e) = s.new_valid.power in
      let n = 2 * (m.newer.mask + 1) in
      let (t, made, v) = h_init-IsTab {V = V} n (suc k) (omega (arith, e, two-pow-succ k)) in
      let m' : HMap V = record { older = m.newer; newer = t; migrate_pos = 0 } in
      let b : IsBusy m' = record {
        new_buckets = replicate n [];
        old_buckets = s.new_buckets;
        new_valid = v.0;
        old_valid = s.new_valid;
        migrated = λ i lt. absurd (omega arith);
      } in
      (
        m',
        rw made,
        (b, rw (hm_nodes-busy f m' b, hm_nodes-settled f m s, flatten-replicate {V = V} n)),
      )

  grow-IsLive :
      (m : HMap V)
      → IsLive m
      → Returns (grow m) λ m'. IsLive m' × (map f (hm_nodes m') ≡ map f (hm_nodes m))
  grow-IsLive m (inr b) = (m, grow-busy m b.old_buckets b.old_valid.held, (inr b, refl))
  grow-IsLive m (inl s) =
      elim (Bool-cases (leb ((m.newer.mask + 1) * max_load_factor) m.newer.size)) [
        | inr roomy ↦ (m, grow-roomy m s.no_older roomy, (inl s, refl))
        | inl full ↦
            let (m', run, (b, same)) = hm_rehash-IsBusy m s in
            (m', grow-full m s.no_older full ∙ run, (inr b, same))
      ]

module _ {ℓ κ} {V : Type ℓ} {B : Type κ} (unlink_val : V → V) (f : Node V → B)
    (blind : (n : Node V) → f (record n { val = unlink_val n.val }) ≡ f n) where
  rehash_help-IsLive :
      (m : HMap V)
      → IsLive m
      → Returns
          (hm_rehash_help unlink_val m)
          λ m'. IsLive m' × Perm (map f (hm_nodes m')) (map f (hm_nodes m))
  rehash_help-IsLive m (inl s) =
      (m, hm_rehash_help-settled unlink_val m s.no_older, (inl s, Perm.refl _))
  rehash_help-IsLive m (inr b) = hm_rehash_help-IsBusy unlink_val f blind m b

  -- For any observation of nodes that unlinking does not change, `hm_insert` of a node into a
  -- valid map does not fault and returns a valid map whose nodes, as a bag of observations, are
  -- those from before and the new one: no node is lost or doubled by the first allocation, the
  -- start of a rehash or the migration.
  pub hm_insert-adds :
      (m : HMap V) (n : Node V)
      → IsMap m
      → Returns
          (hm_insert unlink_val m n)
          λ m'. IsLive m' × Perm (map f (hm_nodes m')) (f n ∷ map f (hm_nodes m))
  unfolding hm_insert
  hm_insert-adds m n v =
      let (m₁, run₁, (v₁, same₁)) = ready-IsLive f m v in
      let (t, run₂, (v₂, bag₂)) = insert_new f m₁ n v₁ in
      let (m₃, run₃, (v₃, same₃)) = grow-IsLive f (record m₁ { newer = t }) v₂ in
      let (m₄, run₄, (v₄, bag₄)) = rehash_help-IsLive m₃ v₃ in
      (m₄, rw (run₁, run₂, run₃, run₄), (v₄, Perm.trans bag₄ (rw same₃ (rw same₁ at bag₂))))
