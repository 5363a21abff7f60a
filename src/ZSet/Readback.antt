-- ===== src/ZSet/Readback.antt =====
-- A lookup of the key that was inserted: `zset_lookup` and `zset_insert` of
-- src/data_structures/zset.cpp.
use mathlib.Core.Path.{subst}
use custom_redis.Base.{
  ℕ, suc, ◌<◌, ◌≡◌, sym, ap, ◌∙◌, inl, inr, true, false, List, [], ◌∷◌, ◌++◌, All, Option, some,
  Returns,
}
use custom_redis.Wire.{Bytes}
use custom_redis.Hash.{str_hash}
use custom_redis.Avl.Shape.{bound, items, count}
use custom_redis.Avl.Paths.{Misses}
use custom_redis.Avl.Replace.{split_unique}
use custom_redis.ZSet.{ZNode, ZSet, is_nan, new_znode, zset_lookup, zset_insert}
use custom_redis.ZSet.Order.{lows, highs, All-left, All-right}
use custom_redis.ZSet.Distinct.{Missed, hits_key, hits_key-same, others}
use custom_redis.ZSet.Valid.{IsZSet}
use custom_redis.ZSet.Update.{Looks, IsFresh, Inserts, zset_lookup_lem, zset_insert-Inserts}

middle : (xs ys zs : List ZNode) (a b : ZNode) → xs ++ (a ∷ ys) ≡ xs ++ (b ∷ zs) → a ≡ b
middle [] ys zs a b e = cc
middle (x ∷ xs) ys zs a b e = middle xs ys zs a b (cc)

Misses-of :
    (key : Bytes) (h : ℕ) (xs : List ZNode) → All (Missed key h) xs → Misses (hits_key key h) xs
Misses-of key h [] m = tt
Misses-of key h (x ∷ xs) m = (m.0, Misses-of key h xs m.1)

-- A lookup finds the node of a sequence that has the key.
the_node :
    (zset : ZSet) (key : Bytes) (xs ys : List ZNode) (z : ZNode) (o : Option (Option ZNode))
    → items zset.avl_root ≡ xs ++ (z ∷ ys)
    → hits_key key (str_hash key) z ≡ true
    → Looks key zset o
    → o ≡ some (some z)
the_node zset key xs ys z o e hit (inl (_, w)) =
    let m = subst (All (Missed key (str_hash key))) e w.missed in
    let clash : true ≡ false = sym hit ∙ (All-right (Missed key (str_hash key)) xs (z ∷ ys) m).0 in
    cc
the_node zset key xs ys z o e hit (inr (w, found)) =
    let f : xs ++ (z ∷ ys) ≡ w.before ++ (w.znode ∷ w.after) = sym e ∙ w.split in
    let (before, after) =
      split_unique (hits_key key (str_hash key)) xs ys w.before w.after z w.znode f hit
        (Misses-of key (str_hash key) w.before
          (All-left (Missed key (str_hash key)) w.before w.after w.missed))
        (Misses-of key (str_hash key) w.after
          (All-right (Missed key (str_hash key)) w.before w.after w.missed)) in
    let same : z ≡ w.znode =
      middle xs ys w.after z w.znode (f ∙ ap (λ us. us ++ (w.znode ∷ w.after)) (sym before)) in
    found ∙ ap (λ x. some (some x)) (sym same)

-- For a valid set with fewer than 2 ^ 31 nodes after the insert, a score that is a number and a
-- fresh address, `zset_insert` does not fault and returns a valid set, true just when no node had
-- the key, with the new node in its place in the order among the nodes of other keys;
-- `zset_lookup` of the key there finds the new node.
pub zset_lookup-insert :
    (zset : ZSet) (addr score : ℕ) (key : Bytes)
    → IsZSet zset
    → is_nan score ≡ false
    → IsFresh addr (items zset.avl_root)
    → suc (count zset.avl_root) < bound
    → Returns (zset_insert zset addr score key) λ r.
      Inserts zset addr score key r × (zset_lookup r.1 key ≡ some (some (new_znode addr score key)))
unfolding new_znode
zset_lookup-insert zset addr score key v number fresh small =
    let (r, run, w) = zset_insert-Inserts zset addr score key v number fresh small in
    let rest = others key (str_hash key) (items zset.avl_root) in
    (
      r,
      run,
      (
        w,
        the_node r.1 key (lows score key rest) (highs score key rest) (new_znode addr score key) _
            w.2 (hits_key-same (new_znode addr score key)) (zset_lookup_lem r.1 key w.0),
      ),
    )
