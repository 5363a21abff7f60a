-- ===== src/Commands/Ranges.antt =====
-- The range query `do_zrangequery` of src/redis_functions.cpp, against the sequence of the set's nodes.
use mathlib.Core.List.{append_assoc}
use mathlib.Core.Path.{subst, fun_ext}
use custom_redis.Base.{
  ℕ, zero, suc, ◌+◌, ◌%◌, ◌^◌, ◌<◌, ◌≡◌, refl, sym, ap, ◌∙◌, inl, inr, List, [], ◌∷◌, ◌++◌, Option,
  none, some, ltb, if◌then◌else◌, ◌>>=◌, length, length-append, drop, length-drop,
  drop-length_append, arith,
}
use custom_redis.Wire.{Bytes}
use custom_redis.Avl.{Tree, node, Crumb, went_left, went_right, Place}
use custom_redis.Avl.Shape.{bound, items, count, IsSized}
use custom_redis.Avl.Climb.{around}
use custom_redis.Avl.Paths.{fore, aft, around-sides}
use custom_redis.ZSet.{ZNode, ZSet, zset_lower_bound, zset_offset}
use custom_redis.ZSet.Order.{lows, highs, lows-highs}
use custom_redis.ZSet.Rank.{rebuild, before_count, IsRank}
use custom_redis.ZSet.Walk.{zset_offset_lem}
use custom_redis.ZSet.LowerBound.{length-items, zset_lower_bound_lem}
use custom_redis.ZSet.Valid.{IsZSet}
use custom_redis.Reply.{Conn, out_arr, out_double, out_str, out_unknown_arr, overwrite_u32}
use custom_redis.Commands.{t_zset, Db, success, Handler, find_val, zset_of, find_zset}
use custom_redis.Commands.SortedSets.{
  range_loop, range_from, offset_arg, limit_arg, int32_of, uint32_of, do_zrangequery,
}

items-rebuild :
    (t : Tree ZNode) (path : List (Crumb ZNode)) → items (rebuild t path) ≡ around path (items t)
items-rebuild t [] = refl
items-rebuild t (went_left a h s r ∷ path) = items-rebuild (node a h s t r) path
items-rebuild t (went_right a h s l ∷ path) = items-rebuild (node a h s l t) path

length-fore : (path : List (Crumb ZNode)) → length (fore path) ≡ before_count path
length-fore [] = refl
length-fore (went_left a h s r ∷ path) = length-fore path
length-fore (went_right a h s l ∷ path) = omega (
  arith,
  length-append (fore path) (items l ++ (a ∷ [])),
  length-append (items l) (a ∷ []),
  length-items l,
  length-fore path,
)

drop-suc : (xs ys : List ZNode) (a : ZNode) → drop (suc (length xs)) (xs ++ (a ∷ ys)) ≡ ys
drop-suc [] ys a = refl
drop-suc (x ∷ xs) ys a = drop-suc xs ys a

-- The nodes from the one of rank `i` on.
drop_rank :
    (root : Tree ZNode) (i : ℕ) (p : Place ZNode)
    → IsRank root i p
    → (rest : List ZNode) × (drop i (items root) ≡ p.item ∷ rest)
      × (drop (suc i) (items root) ≡ rest)
drop_rank root i p w =
    let pre : List ZNode = fore p.path ++ items p.left in
    let rest : List ZNode = items p.right ++ aft p.path in
    let e : items root ≡ pre ++ (p.item ∷ rest) =
      ap items (sym w.whole)
      ∙ items-rebuild (node p.item p.height p.size p.left p.right) p.path
      ∙ around-sides p.path (items p.left ++ (p.item ∷ items p.right))
      ∙ ap (λ ys. fore p.path ++ ys)
          (append_assoc (items p.left) (p.item ∷ items p.right) (aft p.path))
      ∙ sym (append_assoc (fore p.path) (items p.left) (p.item ∷ rest)) in
    let len : length pre ≡ i = omega (
      arith,
      length-append (fore p.path) (items p.left),
      length-fore p.path,
      length-items p.left,
      w.rank,
    ) in
    (
      rest,
      ap (drop i) e
          ∙ ap (λ k. drop k (pre ++ (p.item ∷ rest))) (sym len)
          ∙ drop-length_append pre (p.item ∷ rest),
      ap (drop (suc i)) e
          ∙ ap (λ k. drop (suc k) (pre ++ (p.item ∷ rest))) (sym len)
          ∙ drop-suc pre rest p.item,
    )

-- What the loop writes of a sequence of nodes: a score and a key for each while the size, which
-- counts both, is below the limit.
abbrev pub write_range : ℕ → ℕ → Conn → List ZNode → Option (ℕ × Conn)
write_range limit size conn [] = some (size, conn)
write_range limit size conn (z ∷ zs) =
    let more = out_str (out_double conn z.score) z.key (length z.key) >>= λ conn.
    write_range limit ((size + 2) % 2 ^ 32) conn zs in
    if ltb size limit then more else some (size, conn)

-- The node that the walk stands at, and the nodes from it on.
abbrev Standing : Tree ZNode → Option (Place ZNode) → List ZNode → Type 0
Standing root none xs = xs ≡ []
Standing root (some p) xs = (i : ℕ) × IsRank root i p × (xs ≡ drop i (items root))

nil_of_empty : (xs : List ZNode) → length xs ≡ 0 → xs ≡ []
nil_of_empty [] e = refl
nil_of_empty (x ∷ xs) e = absurd (omega arith)

rank_sum : (i k g offset : ℕ) → offset ≡ bound + k → offset + i ≡ bound + g → i + k ≡ g
rank_sum i k g offset e goal = omega arith

add_one : (i : ℕ) → i + 1 ≡ suc i
add_one i = omega arith

-- The next node.
stand_offset :
    (root : Tree ZNode) (p : Place ZNode) (i k offset : ℕ)
    → IsSized root
    → count root < bound
    → IsRank root i p
    → offset ≡ bound + k
    → (o : Option (Place ZNode)) × (zset_offset p offset ≡ some o)
      × Standing root o (drop (i + k) (items root))
stand_offset root p i k offset s small rank e =
    elim (zset_offset_lem root p i offset s small rank) [
      | inl (g, goal, lt, (q, run, rank')) ↦
          (some q, run, (g, rank', ap (λ n. drop n (items root)) (rank_sum i k g offset e goal)))
      | inr (run, inl low) ↦ absurd (omega arith)
      | inr (run, inr high) ↦ (
        none,
        run,
        nil_of_empty _ (omega (arith, length-drop (i + k) (items root), length-items root)),
      )
    ]

range_loop-writes :
    (root : Tree ZNode) (fuel limit size : ℕ) (conn : Conn) (o : Option (Place ZNode))
    (xs : List ZNode)
    → IsSized root
    → count root < bound
    → Standing root o xs
    → length xs < fuel
    → range_loop fuel limit size conn o ≡ write_range limit size conn xs
unfolding range_loop
range_loop-writes root zero limit size conn o xs s small w lt = absurd (omega arith)
range_loop-writes root (suc fuel) limit size conn none xs s small w lt = rw w refl
range_loop-writes root (suc fuel) limit size conn (some p) xs s small (i, rank, e) lt =
    let (rest, here, after) = drop_rank root i p rank in
    let (next, run, w) = stand_offset root p i 1 2147483649 s small rank refl in
    let e' : drop (i + 1) (items root) ≡ rest = ap (λ n. drop n (items root)) (add_one i) ∙ after in
    let w' : Standing root next rest = subst (Standing root next) e' w in
    let xs_split : xs ≡ p.item ∷ rest = e ∙ here in
    let step = λ (conn' : Conn).
      range_loop-writes root fuel limit ((size + 2) % 2 ^ 32) conn' next rest s small w'
        (omega (arith, ap length xs_split)) in
    rw (xs_split, run)
      (ap
        (λ (f : Conn → Option (ℕ × Conn)).
          if ltb size limit
          then (out_str (out_double conn p.item.score) p.item.key (length p.item.key) >>= f)
          else some (size, conn))
        (fun_ext step))

-- The reply of the query: an array of the pairs, or an empty one where no node is in range.
abbrev pub range_reply : Conn → Db → ℕ → ℕ → List ZNode → Handler
range_reply conn db k limit [] = some (success, out_arr conn 0, db)
range_reply conn db k limit (z ∷ zs) =
    let (size_pos, conn') = out_unknown_arr conn in
    write_range limit 0 conn' (drop k (z ∷ zs)) >>= λ (size, conn').
    overwrite_u32 conn'.outgoing size_pos size >>= λ outgoing.
    some (success, record conn' { outgoing = outgoing }, db)

suc_sum : (m k : ℕ) → suc m + k ≡ suc (m + k)
suc_sum m k = omega arith

drop_more : (xs ys : List ZNode) (k : ℕ) → drop (length xs + k) (xs ++ ys) ≡ drop k ys
drop_more [] ys k = ap (λ n. drop n ys) (omega arith)
drop_more (x ∷ xs) ys k =
    ap (λ n. drop n (x ∷ (xs ++ ys))) (suc_sum (length xs) k) ∙ drop_more xs ys k

range_from-reply :
    (conn : Conn) (db : Db) (zset : ZSet) (score : ℕ) (key : Bytes) (offset k limit : ℕ)
    → IsZSet zset
    → count zset.avl_root < bound
    → offset ≡ bound + k
    → range_from conn db zset offset limit (zset_lower_bound zset score key)
      ≡ range_reply conn db k limit (highs score key (items zset.avl_root))
unfolding range_from
range_from-reply conn db zset score key offset k limit v small e =
    elim (zset_lower_bound_lem score key zset v.sorted) [
      | inl (empty, run) ↦ rw (run, empty) refl
      | inr (p, rest, run, split, rank) ↦
          let xs = items zset.avl_root in
          let (o, walk, w) =
            stand_offset zset.avl_root p (length (lows score key xs)) k offset v.avl.0 small rank
              e in
          let d : drop (length (lows score key xs) + k) xs ≡ drop k (highs score key xs) =
            ap (drop (length (lows score key xs) + k)) (sym (lows-highs score key xs))
            ∙ drop_more (lows score key xs) (highs score key xs) k in
          let loop =
            range_loop-writes zset.avl_root (suc (count zset.avl_root)) limit 0
              (out_unknown_arr conn).1 o _ v.avl.0 small w
              (omega (
                arith,
                length-drop (length (lows score key xs) + k) xs,
                length-items zset.avl_root,
              )) in
          rw (run, walk, loop, d, split) refl
    ]

module _ (strtod strtol : Bytes → ℕ) where
  -- On a key that holds a valid sorted set, with an offset k that is not negative and below 2 ^
  -- 31, ZRANGEQUERY is the reply that a list reading gives: of the nodes that are not less than
  -- the score and the member it leaves out the first k and replies with the members and scores of
  -- the following ones, as many as `range_reply` takes for the limit, or with the empty reply
  -- where there are none.
  pub do_zrangequery-reply :
      (conn : Conn) (c key number member skip most : Bytes) (db : Db) (zset : ZSet) (k : ℕ)
      → find_val db key ≡ some (some (t_zset zset))
      → IsZSet zset
      → count zset.avl_root < bound
      → strtol skip ≡ 9223372036854775808 + k
      → k < bound
      → do_zrangequery strtod strtol conn (c ∷ key ∷ number ∷ member ∷ skip ∷ most ∷ []) db
        ≡ range_reply conn db k
            (strtol most % 2 ^ 32)
            (highs (strtod number) member (items zset.avl_root))
  unfolding do_zrangequery find_zset zset_of offset_arg limit_arg int32_of uint32_of
  do_zrangequery-reply conn c key number member skip most db zset k there v small e lt =
      let off : (strtol skip + 2147483648) % 4294967296 ≡ bound + k = omega (arith, e) in
      rw there (
        range_from-reply conn db zset (strtod number) member
          ((strtol skip + 2147483648) % 4294967296) k (strtol most % 4294967296) v small off)
