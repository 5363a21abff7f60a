-- ===== src/HashMap/Steps.antt =====
-- One round of the loop of `hm_rehash_help` of src/data_structures/hashmap.cpp.
use mathlib.Core.List.{perm_middle}
use mathlib.Core.List.Perm
use custom_redis.Base.{
  ℕ, suc, ◌+◌, ◌≡◌, refl, Bool, true, false, ◌&&◌, List, [], ◌∷◌, ◌++◌, map, Perm, some, arith,
  length, get_elem?, ltb, ◌==◌,
}
use custom_redis.HashMap.{
  Node, Buckets, HTab, HMap, rehashing_work, empty_tab, ht_unlink, ht_insert, rehash_loop,
  free_older,
}
use custom_redis.HashMap.Valid.{hm_nodes, IsBusy}

module _ {ℓ} {A : Type ℓ} where
  pub nil_of_length : (xs : List A) → length xs ≡ 0 → xs ≡ []
  nil_of_length [] h = refl
  nil_of_length (x ∷ xs) h = absurd (omega arith)

  -- A node that leaves one list for another is still there.
  pub moved :
      (x : A) (new old new' old' : List A)
      → Perm old (x ∷ old')
      → Perm new' (x ∷ new)
      → Perm (new' ++ old') (new ++ old)
  moved x new old new' old' p q =
      Perm.trans (Perm.append_right old' q)
        (Perm.trans (Perm.symm (perm_middle new old')) (Perm.append_left new (Perm.symm p)))

abbrev pub works {ℓ} : {V : Type ℓ} → ℕ → HMap V → Bool
works nwork m = ltb nwork rehashing_work && ltb 0 m.older.size

module _ {ℓ} {V : Type ℓ} (unlink_val : V → V) (fuel nwork : ℕ) (m : HMap V) where
  pub rehash_stop : works nwork m ≡ false → rehash_loop unlink_val (suc fuel) nwork m ≡ some m
  unfolding rehash_loop
  rehash_stop h = simp h

  pub rehash_skip :
      (bs : Buckets V)
      → works nwork m ≡ true
      → m.older.tab ≡ some bs
      → get_elem? bs m.migrate_pos ≡ some []
      → rehash_loop unlink_val (suc fuel) nwork m
        ≡ rehash_loop unlink_val fuel nwork (record m { migrate_pos = m.migrate_pos + 1 })
  unfolding rehash_loop
  rehash_skip bs h held at = simp (h, held, at)

  pub rehash_move :
      (bs : Buckets V) (n : Node V) (c : List (Node V)) (r : Node V × HTab V) (newer : HTab V)
      → works nwork m ≡ true
      → m.older.tab ≡ some bs
      → get_elem? bs m.migrate_pos ≡ some (n ∷ c)
      → ht_unlink unlink_val m.older (record { pos = m.migrate_pos; depth = 0 }) ≡ some r
      → ht_insert m.newer r.0 ≡ some newer
      → rehash_loop unlink_val (suc fuel) nwork m
        ≡ rehash_loop unlink_val fuel (nwork + 1) (record m { older = r.1; newer = newer })
  unfolding rehash_loop
  rehash_move bs n c r newer h held at out into = simp (h, held, at, out, into)

module _ {ℓ} {V : Type ℓ} (m : HMap V) (bs : Buckets V) (held : m.older.tab ≡ some bs) where
  pub free_older-more : m.older.size == 0 ≡ false → free_older m ≡ m
  unfolding free_older
  free_older-more h = ground arith

  pub free_older-done : m.older.size == 0 ≡ true → free_older m ≡ record m { older = empty_tab }
  unfolding free_older
  free_older-done h = ground arith

-- `m'` is a busy map with the nodes of `m`, as far as `f` sees.
pub record Migrates {ℓ κ} {V : Type ℓ} {B : Type κ} (f : Node V → B) (m m' : HMap V)
    : Type (ℓ ⊔ κ) where
  pub busy : IsBusy m'
  pub bag : Perm (map f (hm_nodes m')) (map f (hm_nodes m))
