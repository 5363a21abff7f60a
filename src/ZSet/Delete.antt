-- ===== src/ZSet/Delete.antt =====
-- The deletion of a node, `zset_delete` of src/data_structures/zset.cpp.
use mathlib.Core.List.{head?, map-append}
use mathlib.Core.List.Perm
use mathlib.Core.Path.{subst}
use custom_redis.Base.{
  length, suc, ◌<◌, ◌≡◌, refl, sym, ap, ◌∙◌, true, List, [], ◌∷◌, ◌++◌, All, map, Perm, some,
  Returns, arith,
}
use custom_redis.HashMap.{HMap, hm_delete}
use custom_redis.HashMap.Valid.{IsMap, hm_nodes}
use custom_redis.HashMap.Hits.{hits, hits-append, hits-cons}
use custom_redis.HashMap.Lookup.{search_order}
use custom_redis.HashMap.Delete.{Deletes, hm_delete_lem}
use custom_redis.Avl.Shape.{bound, items, count}
use custom_redis.Avl.Paths.{Misses}
use custom_redis.Avl.Del.{avl_del-Removed}
use custom_redis.ZSet.{ZNode, ZSet, h_node, same_node, unlink_znode, zset_delete}
use custom_redis.ZSet.Order.{IsSorted, All-append, All-left, All-right, All-imp, IsSorted-without}
use custom_redis.ZSet.Distinct.{Missed, Apart, IsDistinct, hits_key-same, IsDistinct-around, absent}
use custom_redis.ZSet.Valid.{IsNode, IsZSet, first_hit, h_nodes-middle}

Misses-Apart : (z : ZNode) (xs : List ZNode) → All (Apart z) xs → Misses (same_node z) xs
Misses-Apart z [] a = tt
Misses-Apart z (x ∷ xs) a = (a.0.0, Misses-Apart z xs a.1)

same_node_refl : (z : ZNode) → same_node z z ≡ true
unfolding same_node
same_node_refl z = ground arith

-- The hash map loses the node.
unlinked :
    (hmap : HMap ZNode) (before after : List ZNode) (z : ZNode)
    → IsMap hmap
    → Perm (hm_nodes hmap) (map h_node (before ++ (z ∷ after)))
    → head? (hits z.key z.hcode (search_order hmap)) ≡ some (h_node z)
    → Returns
        (hm_delete unlink_znode hmap z.key z.hcode)
        λ r. (r.0 ≡ 1) × IsMap r.1 × Perm (hm_nodes r.1) (map h_node (before ++ after))
unlinked hmap before after z v p e =
    let ((deleted, m), run, d) = hm_delete_lem unlink_znode z.key z.hcode hmap v in
    let d' : Deletes hmap (some (h_node z)) (deleted, m) = rw e at d in
    (
      (deleted, m),
      run,
      (
        d'.0,
        d'.1,
        Perm.cons_inv (Perm.trans (Perm.symm d'.2) (Perm.trans p (h_nodes-middle before after z))),
      ),
    )

-- The first hit for the key of a node of the set is that node.
own_hit :
    (hmap : HMap ZNode) (before after : List ZNode) (z : ZNode)
    → IsDistinct (before ++ (z ∷ after))
    → Perm (hm_nodes hmap) (map h_node (before ++ (z ∷ after)))
    → head? (hits z.key z.hcode (search_order hmap)) ≡ some (h_node z)
unfolding head?
own_hit hmap before after z d p =
    let (b, a, _) = IsDistinct-around before after z d in
    let wb =
      absent z.key z.hcode before
        (All-imp (Apart z) (Missed z.key z.hcode) before (λ x far. far.1) b) in
    let wa =
      absent z.key z.hcode after
        (All-imp (Apart z) (Missed z.key z.hcode) after (λ x far. far.1) a) in
    let one : hits z.key z.hcode (map h_node (before ++ (z ∷ after))) ≡ h_node z ∷ [] =
      rw
        (
          map-append,
          hits-append,
          hits-cons z.key z.hcode (h_node z) (map h_node after),
          hits_key-same z,
          wb.none_hit,
          wa.none_hit,
        )
        refl in
    first_hit z.key z.hcode hmap (map h_node (before ++ (z ∷ after))) p
      (omega (arith, ap length one))
    ∙ ap head? one

-- On a valid set with fewer than 2 ^ 31 nodes, `zset_delete` of a node of its tree does not fault
-- and returns a valid set that has the other nodes in the same order: tree and hash map still
-- hold the same nodes.
pub zset_delete-IsZSet :
    (zset : ZSet) (before after : List ZNode) (z : ZNode)
    → IsZSet zset
    → count zset.avl_root < bound
    → items zset.avl_root ≡ before ++ (z ∷ after)
    → Returns (zset_delete zset z) λ zset'.
      IsZSet zset'
      × (items zset'.avl_root ≡ before ++ after)
      × (suc (count zset'.avl_root) ≡ count zset.avl_root)
unfolding zset_delete
zset_delete-IsZSet zset before after z v small e =
    let d : IsDistinct (before ++ (z ∷ after)) = subst IsDistinct e v.distinct in
    let p = subst (λ xs. Perm (hm_nodes zset.hmap) (map h_node xs)) e v.same_nodes in
    let (b, a, rest) = IsDistinct-around before after z d in
    let (root, run, w) =
      avl_del-Removed (same_node z) zset.avl_root before after z v.avl small e (same_node_refl z)
        (Misses-Apart z before b) (Misses-Apart z after a) in
    let ((deleted, hmap), run', (_, m, bag)) =
      unlinked zset.hmap before after z v.table p (own_hit zset.hmap before after z d p) in
    let nodes = subst (All IsNode) e v.nodes in
    (
      record { avl_root = root; hmap = hmap },
      rw (run, run') refl,
      (
        record {
          avl = w.avl;
          sorted =
              subst IsSorted (sym w.sequence)
                (IsSorted-without before after z (subst IsSorted e v.sorted));
          distinct = subst IsDistinct (sym w.sequence) rest;
          nodes = subst (All IsNode) (sym w.sequence) (
              All-append IsNode before after (All-left IsNode before (z ∷ after) nodes)
                (All-right IsNode before (z ∷ after) nodes).1);
          table = m;
          same_nodes = subst (λ xs. Perm (hm_nodes hmap) (map h_node xs)) (sym w.sequence) bag;
        },
        w.sequence,
        w.total,
      ),
    )
