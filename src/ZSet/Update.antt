-- ===== src/ZSet/Update.antt =====
-- The lookup and the insertion of a key, `zset_lookup` and `zset_insert` of
-- src/data_structures/zset.cpp.
use mathlib.Core.List.{map-id}
use mathlib.Core.List.Perm
use mathlib.Core.Path.{subst, ap₂}
use custom_redis.Base.{
  ℕ, suc, ◌<◌, ◌≡◌, refl, sym, ap, ◌∙◌, ◌⊎◌, inl, inr, Bool, true, false, not, List, [], ◌∷◌, ◌++◌,
  All, map, Perm, Option, none, some, ◌>>=◌, ◌==◌, Returns, length, length-append, arith,
}
use custom_redis.Wire.{Bytes}
use custom_redis.Hash.{str_hash}
use custom_redis.HashMap.{Node, HMap, hm_insert}
use custom_redis.HashMap.Valid.{IsMap, hm_nodes}
use custom_redis.HashMap.Lookup.{hm_lookup_lem}
use custom_redis.HashMap.Insert.{hm_insert-adds}
use custom_redis.Avl.{Tree, leaf, node}
use custom_redis.Avl.Shape.{bound, items, count, IsAvl}
use custom_redis.ZSet.{
  ZNode, ZSet, is_nan, new_znode, h_node, same_node, unlink_znode, zless, lookup_under, zset_lookup,
  drop_old, add_new, zset_insert,
}
use custom_redis.ZSet.Order.{
  IsSorted, IsOther, lows, highs, lows-highs, lows-IsLess, highs_above, IsSorted-with, All-append,
  All-left, All-right,
}
use custom_redis.ZSet.Insert.{insert-Added}
use custom_redis.ZSet.Distinct.{
  Missed, Apart, IsDistinct, hits_key, hits_key-same, others, has_key, IsDistinct-with, Absent,
  Present, probe,
}
use custom_redis.ZSet.Valid.{IsNode, IsZSet, first-Absent, first-Present, h_nodes-middle}
use custom_redis.ZSet.Delete.{zset_delete-IsZSet}

-- What a lookup of the key returns.
abbrev pub Looks : Bytes → ZSet → Option (Option ZNode) → Type 0
Looks key zset o =
    ((o ≡ some none) × Absent key (str_hash key) (items zset.avl_root))
    ⊎ ((w : Present key (str_hash key) (items zset.avl_root)) × (o ≡ some (some w.znode)))

lookup_root :
    (t : Tree ZNode) (hmap : HMap ZNode) (key : Bytes)
    → IsMap hmap
    → IsDistinct (items t)
    → Perm (hm_nodes hmap) (map h_node (items t))
    → Looks key (record { avl_root = t; hmap = hmap }) (lookup_under t hmap key)
unfolding lookup_under h_node
lookup_root leaf hmap key v d p = elim (probe key (str_hash key) [] d) [
  | inl w ↦ inl (refl, w)
  | inr w ↦ absurd (omega (arith, ap length w.split, length-append w.before (w.znode ∷ w.after)))
]
lookup_root (node a h s l r) hmap key v d p =
    elim (probe key (str_hash key) (items (node a h s l r)) d) [
      | inl w ↦ inl (
        rw
            (
              hm_lookup_lem key (str_hash key) hmap v,
              first-Absent key (str_hash key) hmap (items (node a h s l r)) p w,
            )
            refl,
        w,
      )
      | inr w ↦ inr (
        w,
        rw
            (
              hm_lookup_lem key (str_hash key) hmap v,
              first-Present key (str_hash key) hmap (items (node a h s l r)) p w,
            )
            refl,
      )
    ]

pub zset_lookup_lem :
    (zset : ZSet) (key : Bytes) → IsZSet zset → Looks key zset (zset_lookup zset key)
unfolding zset_lookup
zset_lookup_lem zset key v = lookup_root zset.avl_root zset.hmap key v.table v.distinct v.same_nodes

-- No object of the set is at the address.
abbrev pub IsFresh : ℕ → List ZNode → Type 0
IsFresh addr xs = All (λ x. (x.addr == addr) ≡ false) xs

Apart-new :
    (z : ZNode) (xs : List ZNode)
    → IsFresh z.addr xs
    → All (Missed z.key z.hcode) xs
    → All (Apart z) xs
unfolding same_node
Apart-new z [] f m = tt
Apart-new z (x ∷ xs) f m = ((f.0, m.0), Apart-new z xs f.1 m.1)

other_key : (z x : ZNode) → IsNode z → IsNode x → Missed z.key z.hcode x → ¬ (x.key ≡ z.key)
unfolding h_node
other_key z x nz nx m e =
    let hash : x.hcode ≡ z.hcode = nx.0 ∙ ap str_hash e ∙ sym nz.0 in
    let clash : true ≡ false = sym (hits_key-same x) ∙ ap₂ (λ k h. hits_key k h x) e hash ∙ m in cc

IsOther-keys :
    (z : ZNode) (xs : List ZNode)
    → IsNode z
    → All IsNode xs
    → All (Missed z.key z.hcode) xs
    → All (IsOther z) xs
IsOther-keys z [] nz ns m = tt
IsOther-keys z (x ∷ xs) nz ns m =
    ((ns.0.1, other_key z x nz ns.0 m.0), IsOther-keys z xs nz ns.1 m.1)

-- The hash map with the new node.
linked :
    (hmap : HMap ZNode) (z : ZNode)
    → IsMap hmap
    → Returns
        (hm_insert unlink_znode hmap (h_node z))
        λ hmap'. IsMap hmap' × Perm (hm_nodes hmap') (h_node z ∷ hm_nodes hmap)
unfolding unlink_znode
linked hmap z v =
    let (hmap', run, (v', bag)) =
      hm_insert-adds unlink_znode (λ (q : Node ZNode). q) (λ q. refl) hmap (h_node z) v in
    (hmap', run, (inr v', simp map-id at bag))

-- The set with the new node, from its tree and its hash map.
valid_with :
    (zset : ZSet) (z : ZNode) (root : Tree ZNode) (hmap : HMap ZNode) (before after : List ZNode)
    → IsZSet zset
    → IsNode z
    → items zset.avl_root ≡ before ++ after
    → items root ≡ before ++ (z ∷ after)
    → IsAvl root
    → All (λ x. zless x z.score z.key ≡ true) before
    → All (λ x. zless z x.score x.key ≡ true) after
    → All (Apart z) (before ++ after)
    → IsMap hmap
    → Perm (hm_nodes hmap) (h_node z ∷ hm_nodes zset.hmap)
    → IsZSet (record { avl_root = root; hmap = hmap })
valid_with zset z root hmap before after v nz e f avl lo hi apart m bag =
    let nodes = subst (All IsNode) e v.nodes in
    record {
      avl = avl;
      sorted =
          subst IsSorted (sym f) (IsSorted-with before after z (subst IsSorted e v.sorted) lo hi);
      distinct = subst IsDistinct (sym f) (
          IsDistinct-with before after z (subst IsDistinct e v.distinct)
            (All-left (Apart z) before after apart) (All-right (Apart z) before after apart));
      nodes = subst (All IsNode) (sym f) (
          All-append IsNode before (z ∷ after) (All-left IsNode before after nodes)
            (nz, All-right IsNode before after nodes));
      table = m;
      same_nodes =
          let p = subst (λ xs. Perm (hm_nodes zset.hmap) (map h_node xs)) e v.same_nodes in
          subst (λ xs. Perm (hm_nodes hmap) (map h_node xs)) (sym f)
            (Perm.trans bag
              (Perm.trans (Perm.cons (h_node z) p) (Perm.symm (h_nodes-middle before after z))));
    }

-- The new node is put into a set without its key.
add_new-IsZSet :
    (zset : ZSet) (addr score : ℕ) (key : Bytes)
    → IsZSet zset
    → is_nan score ≡ false
    → IsFresh addr (items zset.avl_root)
    → suc (count zset.avl_root) < bound
    → All (Missed key (str_hash key)) (items zset.avl_root)
    → Returns (add_new zset addr score key) λ zset'.
      IsZSet zset'
      × (items zset'.avl_root
          ≡ lows score key (items zset.avl_root)
            ++ (new_znode addr score key ∷ highs score key (items zset.avl_root)))
unfolding add_new new_znode
add_new-IsZSet zset addr score key v number fresh small miss =
    let xs = items zset.avl_root in
    let z : ZNode = new_znode addr score key in
    let nz : IsNode z = (refl, number) in
    let (hmap, run, (m, bag)) = linked zset.hmap z v.table in
    let (root, run', w) = insert-Added z zset.avl_root v.avl v.sorted small in
    let e : xs ≡ lows score key xs ++ highs score key xs = sym (lows-highs score key xs) in
    (
      record { avl_root = root; hmap = hmap },
      rw (run, run') refl,
      (
        valid_with zset z root hmap (lows score key xs) (highs score key xs) v nz e w.sequence w.avl
            (lows-IsLess score key xs)
            (highs_above z xs v.sorted number (IsOther-keys z xs nz v.nodes miss))
            (subst (All (Apart z)) e (Apart-new z xs fresh miss)) m bag,
        w.sequence,
      ),
    )

-- What `zset_insert` returns: the set with the new node in its place among the nodes with other
-- keys, and whether the key was new.
abbrev pub Inserts : ZSet → ℕ → ℕ → Bytes → Bool × ZSet → Type 0
Inserts zset addr score key (is_insert, zset') =
    let rest = others key (str_hash key) (items zset.avl_root) in
    IsZSet zset'
    × (is_insert ≡ not (has_key key (str_hash key) (items zset.avl_root)))
    × (items zset'.avl_root
        ≡ lows score key rest ++ (new_znode addr score key ∷ highs score key rest))

replaced :
    (zset : ZSet) (addr score : ℕ) (key : Bytes)
    → IsZSet zset
    → is_nan score ≡ false
    → IsFresh addr (items zset.avl_root)
    → suc (count zset.avl_root) < bound
    → (old : Option (Option ZNode)) → Looks key zset old
    → Returns
        (old >>= λ old. drop_old zset old >>= λ (is_insert, zset).
          add_new zset addr score key >>= λ zset. some (is_insert, zset))
        (Inserts zset addr score key)
unfolding drop_old
replaced zset addr score key v number fresh small old (inl (e, w)) =
    let (zset', run, (v', seq)) =
      add_new-IsZSet zset addr score key v number fresh small w.missed in
    ((true, zset'), rw (e, run) refl, (v', rw w.no_key refl, rw w.all_others seq))
replaced zset addr score key v number fresh small old (inr (w, e)) =
    let (mid, run, (vm, seqm, tot)) =
      zset_delete-IsZSet zset w.before w.after w.znode v (omega arith) w.split in
    let parts = subst (IsFresh addr) w.split fresh in
    let fresh' =
      All-append (λ x. (x.addr == addr) ≡ false) w.before w.after
        (All-left (λ x. (x.addr == addr) ≡ false) w.before (w.znode ∷ w.after) parts)
        (All-right (λ x. (x.addr == addr) ≡ false) w.before (w.znode ∷ w.after) parts).1 in
    let (zset', run', (v', seq)) =
      add_new-IsZSet mid addr score key vm number (subst (IsFresh addr) (sym seqm) fresh')
        (omega arith) (subst (All (Missed key (str_hash key))) (sym seqm) w.missed) in
    ((false, zset'), rw (e, run, run') refl, (v', rw w.key_there refl, rw (w.rest, ← seqm) seq))

pub zset_insert-Inserts :
    (zset : ZSet) (addr score : ℕ) (key : Bytes)
    → IsZSet zset
    → is_nan score ≡ false
    → IsFresh addr (items zset.avl_root)
    → suc (count zset.avl_root) < bound
    → Returns (zset_insert zset addr score key) (Inserts zset addr score key)
unfolding zset_insert
zset_insert-Inserts zset addr score key v number fresh small =
    replaced zset addr score key v number fresh small (zset_lookup zset key)
      (zset_lookup_lem zset key v)
