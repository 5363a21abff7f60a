-- ===== src/HashMap/Rehash.antt =====
-- The loop of `hm_rehash_help` of src/data_structures/hashmap.cpp on a valid map, and its end.
use mathlib.Core.List.{append-nil}
use mathlib.Core.List.Perm
use custom_redis.Base.{
  ℕ, zero, suc, ◌+◌, ◌-◌, ◌<◌, ◌≡◌, refl, sym, ap, ◌∙◌, ◌⊎◌, inl, inr, true, List, [], ◌∷◌, flatten,
  map, Perm, some, arith, length, get_elem?, Returns, ◌==◌, get_elem?-some, Bool-cases,
}
use custom_redis.HashMap.{
  Node, HTab, HMap, rehashing_work, rehash_fuel, empty_tab, ht_unlink, ht_insert, rehash_loop,
  free_older, hm_rehash_help,
}
use custom_redis.HashMap.Tab.{Adds, Removes, ht_insert-Adds, ht_unlink-Removes}
use custom_redis.HashMap.Valid.{
  hm_nodes, IsBusy, IsSettled, hm_nodes-busy, hm_nodes-settled, flatten-migrated,
}
use native.Mathlib.Decide.{dec_lt}
use custom_redis.HashMap.Steps.{
  Migrates, free_older-done, free_older-more, moved, nil_of_length, rehash_move, rehash_skip,
  rehash_stop, works,
}

module _ {ℓ κ} {V : Type ℓ} {B : Type κ} (unlink_val : V → V) (f : Node V → B)
    (blind : (n : Node V) → f (record n { val = unlink_val n.val }) ≡ f n) where
  -- Under way, and with a node left, the position is within the older array.
  position-lt :
      (m : HMap V) (b : IsBusy m) → 0 < m.older.size → m.migrate_pos < length b.old_buckets
  position-lt m b pos = elim (dec_lt m.migrate_pos (length b.old_buckets)) [
    | yes lt ↦ lt
    | no ge ↦
        let none_left : flatten b.old_buckets ≡ [] =
          flatten-migrated b.old_buckets (λ i lt. b.migrated i (omega arith)) in
        absurd (omega (arith, b.old_valid.counted, ap length none_left))
  ]

  skip-IsBusy :
      (m : HMap V) (b : IsBusy m)
      → get_elem? b.old_buckets m.migrate_pos ≡ some []
      → (b' : IsBusy (record m { migrate_pos = m.migrate_pos + 1 })) × (length b'.old_buckets
          ≡ length b.old_buckets)
        × (hm_nodes (record m { migrate_pos = m.migrate_pos + 1 }) ≡ hm_nodes m)
  unfolding hm_nodes
  skip-IsBusy m b at = (
    record {
      new_buckets = b.new_buckets;
      old_buckets = b.old_buckets;
      new_valid = b.new_valid;
      old_valid = b.old_valid;
      migrated = λ i lt. elim (dec_lt i m.migrate_pos) [
        | yes past ↦ b.migrated i past
        | no here ↦ let e : i ≡ m.migrate_pos = omega arith in rw e at
      ];
    },
    refl,
    refl,
  )

  -- What one move leaves.
  record Moved (m : HMap V) (b : IsBusy m) (n : Node V) (c : List (Node V)) : Type (ℓ ⊔ κ) where
    out : Node V × HTab V
    into : HTab V
    unlinked : ht_unlink unlink_val m.older (record { pos = m.migrate_pos; depth = 0 }) ≡ some out
    inserted : ht_insert m.newer out.0 ≡ some into
    removes : Removes f m.older b.old_buckets m.migrate_pos n out.1
    adds : Adds f m.newer b.new_buckets out.0 into
    same : f out.0 ≡ f n

  move :
      (m : HMap V) (b : IsBusy m) (n : Node V) (c : List (Node V))
      → get_elem? b.old_buckets m.migrate_pos ≡ some (n ∷ c)
      → Moved m b n c
  move m b n c at =
      let (out, unlinked, r) =
        ht_unlink-Removes unlink_val f m.older b.old_buckets
          (record { pos = m.migrate_pos; depth = 0 }) (n ∷ c) n b.old_valid at refl in
      let (into, inserted, adds) = ht_insert-Adds f m.newer b.new_buckets out.0 b.new_valid in
      record {
        out = out;
        into = into;
        unlinked = unlinked;
        inserted = inserted;
        removes = r.1;
        adds = adds;
        same = ap f r.0 ∙ blind n;
      }

  Moved-Migrates :
      (m : HMap V) (b : IsBusy m) (n : Node V) (c : List (Node V)) (v : Moved m b n c)
      → (b' : IsBusy (record m { older = v.out.1; newer = v.into })) × (length b'.old_buckets
          ≡ length b.old_buckets)
        × Perm
            (map f (hm_nodes (record m { older = v.out.1; newer = v.into })))
            (map f (hm_nodes m))
  Moved-Migrates m b n c v =
      let m' = record m { older = v.out.1; newer = v.into } in
      let b' : IsBusy m' = record {
        new_buckets = v.adds.buckets;
        old_buckets = v.removes.buckets;
        new_valid = v.adds.valid;
        old_valid = v.removes.valid;
        migrated = λ i lt. v.removes.others i (omega arith) ∙ b.migrated i lt;
      } in
      (
        b',
        omega (arith, v.removes.valid.width, v.removes.mask, b.old_valid.width),
        rw (hm_nodes-busy f m' b', hm_nodes-busy f m b)
            (moved (f n) (map f (flatten b.new_buckets)) (map f (flatten b.old_buckets))
              (map f (flatten v.adds.buckets)) (map f (flatten v.removes.buckets)) v.removes.bag
              (rw v.same at v.adds.bag)),
      )

  -- The loop from `m` on is under control once it is under control after one round.
  module _ (fuel nwork : ℕ) (m : HMap V) (b : IsBusy m) (go : works nwork m ≡ true) where
    abbrev Controls : ℕ → ℕ → HMap V → Type (ℓ ⊔ κ)
    Controls fuel nwork m = Returns (rehash_loop unlink_val fuel nwork m) (Migrates f m)

    -- For every busy map with fewer positions or less work to go.
    abbrev Later : Type (ℓ ⊔ κ)
    Later =
        (nwork' : ℕ) (m' : HMap V) (b' : IsBusy m')
        → (rehashing_work - nwork') + (length b'.old_buckets - m'.migrate_pos)
          < (rehashing_work - nwork) + (length b.old_buckets - m.migrate_pos)
        → Controls fuel nwork' m'

    round :
        (c : List (Node V))
        → get_elem? b.old_buckets m.migrate_pos ≡ some c
        → Later
        → Controls (suc fuel) nwork m
    round [] at later =
        let (b', kept, same) = skip-IsBusy m b at in
        let within = position-lt m b (ground arith) in
        let (m'', run, r) =
          later nwork (record m { migrate_pos = m.migrate_pos + 1 }) b' (omega arith) in
        (
          m'',
          rehash_skip unlink_val fuel nwork m b.old_buckets go b.old_valid.held at ∙ run,
          record { busy = r.busy; bag = rw same at r.bag },
        )
    round (n ∷ c) at later =
        let v = move m b n c at in
        let (b', kept, bag) = Moved-Migrates m b n c v in
        let left : nwork < rehashing_work = ground arith in
        let (m'', run, r) =
          later (nwork + 1) (record m { older = v.out.1; newer = v.into }) b' (omega arith) in
        (
          m'',
          rehash_move unlink_val fuel nwork m b.old_buckets n c v.out v.into go b.old_valid.held at
                v.unlinked v.inserted
              ∙ run,
          record { busy = r.busy; bag = Perm.trans r.bag bag },
        )

  rehash_loop-Migrates :
      (fuel nwork : ℕ) (m : HMap V) (b : IsBusy m)
      → (rehashing_work - nwork) + (length b.old_buckets - m.migrate_pos) < fuel
      → Returns (rehash_loop unlink_val fuel nwork m) (Migrates f m)
  rehash_loop-Migrates zero nwork m b lt = absurd (omega arith)
  rehash_loop-Migrates (suc fuel) nwork m b lt = elim (Bool-cases (works nwork m)) [
    | inr stop ↦
        (m, rehash_stop unlink_val fuel nwork m stop, record { busy = b; bag = Perm.refl _ })
    | inl go ↦
        let (c, at) = get_elem?-some b.old_buckets m.migrate_pos (position-lt m b (ground arith)) in
        round fuel nwork m b go c at
          (λ nwork' m' b' less. rehash_loop-Migrates fuel nwork' m' b' (omega arith))
  ]

  freed :
      (m : HMap V) (b : IsBusy m)
      → (IsSettled (free_older m) ⊎ IsBusy (free_older m))
        × (map f (hm_nodes (free_older m)) ≡ map f (hm_nodes m))
  freed m b = elim (Bool-cases (m.older.size == 0)) [
    | inr more ↦ rw (free_older-more m b.old_buckets b.old_valid.held more) (inr b, refl)
    | inl done ↦
        let s : IsSettled (record m { older = empty_tab }) = record {
          new_buckets = b.new_buckets;
          new_valid = b.new_valid;
          no_older = refl;
        } in
        let none_left : flatten b.old_buckets ≡ [] =
          nil_of_length _ (ground (arith, b.old_valid.counted)) in
        rw (free_older-done m b.old_buckets b.old_valid.held done) (
          inl s,
          hm_nodes-settled f (record m { older = empty_tab }) s
              ∙ sym (hm_nodes-busy f m b ∙ rw none_left (append-nil _)),
        )
  ]

  -- While a rehash is under way, `hm_rehash_help` returns: its loop ends within its fuel and
  -- stays within both arrays, the rehash is then either over or still under way in a valid map,
  -- and no node is lost or doubled, as far as an observation sees that unlinking does not change.
  pub hm_rehash_help-IsBusy :
      (m : HMap V)
      → IsBusy m
      → Returns
          (hm_rehash_help unlink_val m)
          λ m'. (IsSettled m' ⊎ IsBusy m') × Perm (map f (hm_nodes m')) (map f (hm_nodes m))
  unfolding hm_rehash_help
  hm_rehash_help-IsBusy m b =
      let (m', run, r) =
        rehash_loop-Migrates (rehash_fuel m) 0 m b (omega (arith, b.old_valid.width)) in
      let (v, same) = freed m' r.busy in (free_older m', rw run, (v, rw same r.bag))

module _ {ℓ} {V : Type ℓ} (unlink_val : V → V) where
  rehash_loop-settled :
      (fuel nwork : ℕ) (m : HMap V)
      → 0 < fuel
      → m.older ≡ empty_tab
      → rehash_loop unlink_val fuel nwork m ≡ some m
  rehash_loop-settled zero nwork m lt h = absurd (omega arith)
  rehash_loop-settled (suc fuel) nwork m lt h =
      let none_left : m.older.size ≡ 0 = ap (λ (t : HTab V). t.size) h in
      rehash_stop unlink_val fuel nwork m (ground arith)

  -- Without an older table it does nothing.
  pub hm_rehash_help-settled :
      (m : HMap V) → m.older ≡ empty_tab → hm_rehash_help unlink_val m ≡ some m
  unfolding hm_rehash_help free_older
  hm_rehash_help-settled m h =
      rw (rehash_loop-settled (rehash_fuel m) 0 m (omega arith) h) (ground arith)
