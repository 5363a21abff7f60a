-- ===== src/ZSet/LowerBound.antt =====
-- The search `zset_lower_bound` of src/data_structures/zset.cpp.
use custom_redis.Base.{
  ℕ, ◌+◌, ◌≡◌, refl, ap, ◌∙◌, ◌⊎◌, inl, inr, true, false, Bool-cases, List, [], ◌∷◌, ◌++◌, Option,
  none, some, length, length-append, arith,
}
use custom_redis.Wire.{Bytes}
use custom_redis.Avl.{Tree, leaf, node, Crumb, went_left, went_right, Place}
use custom_redis.Avl.Shape.{items, count}
use custom_redis.ZSet.{ZNode, ZSet, zless, lower_bound_from, zset_lower_bound}
use custom_redis.ZSet.Order.{
  IsSorted, lows, highs, lows-highs, cut_low, cut_high, IsLess-before, IsSorted-left,
  IsSorted-right,
}
use custom_redis.ZSet.Rank.{rebuild, before_count, IsRank}

pub length-items : {A : Type 0} (t : Tree A) → length (items t) ≡ count t
length-items leaf = refl
length-items (node a h s l r) =
    omega (arith, length-append (items l) (a ∷ items r), length-items l, length-items r)

module _ (score : ℕ) (key : Bytes) where
  -- The first node of the subtree that is not less than the tuple, or the best one before.
  abbrev Bounds :
      Tree ZNode → List (Crumb ZNode) → Option (Place ZNode) → Option (Place ZNode) → Type 0
  Bounds t path lb o =
      ((highs score key (items t) ≡ []) × (o ≡ lb))
      ⊎ ((p : Place ZNode) × (rest : List ZNode) × (o ≡ some p)
          × (highs score key (items t) ≡ p.item ∷ rest)
          × IsRank (rebuild t path) (before_count path + length (lows score key (items t))) p)

  bound_right :
      (a : ZNode) (h s : ℕ) (l r : Tree ZNode) (path : List (Crumb ZNode))
      (lb o : Option (Place ZNode))
      → IsSorted (items l ++ (a ∷ items r))
      → zless a score key ≡ true
      → Bounds r (went_right a h s l ∷ path) lb o
      → Bounds (node a h s l r) path lb o
  bound_right a h s l r path lb o srt e b =
      let (lo, hi) =
        cut_low score key (items l) (items r) a
          (IsLess-before score key (items l) (items r) a srt e) e in
      elim b [
        | inl (none_high, same) ↦ inl (hi ∙ none_high, same)
        | inr (p, rest, same, split, rank) ↦ inr (
          p,
          rest,
          same,
          hi ∙ split,
          record {
            whole = rank.whole;
            rank =
                rank.rank
                ∙ omega (
                  arith,
                  ap length lo,
                  length-append (items l) (a ∷ lows score key (items r)),
                  length-items l,
                );
          },
        )
      ]

  bound_left :
      (a : ZNode) (h s : ℕ) (l r : Tree ZNode) (path : List (Crumb ZNode))
      (lb o : Option (Place ZNode))
      → zless a score key ≡ false
      → Bounds l
          (went_left a h s r ∷ path)
          (some (record { item = a; height = h; size = s; left = l; right = r; path = path }))
          o
      → Bounds (node a h s l r) path lb o
  bound_left a h s l r path lb o e (inl (none_high, same)) =
      let (lo, hi) = cut_high score key (items l) (items r) a e in
      inr (
        record { item = a; height = h; size = s; left = l; right = r; path = path },
        items r,
        same,
        hi ∙ ap (λ xs. xs ++ (a ∷ items r)) none_high,
        record {
          whole = refl;
          rank = omega (
            arith,
            ap length lo,
            ap length (lows-highs score key (items l)),
            ap length none_high,
            length-append (lows score key (items l)) (highs score key (items l)),
            length-items l,
          );
        },
      )
  bound_left a h s l r path lb o e (inr (p, rest, same, split, rank)) =
      let (lo, hi) = cut_high score key (items l) (items r) a e in
      inr (
        p,
        rest ++ (a ∷ items r),
        same,
        hi ∙ ap (λ xs. xs ++ (a ∷ items r)) split,
        record { whole = rank.whole; rank = rank.rank ∙ omega (arith, ap length lo) },
      )

  lower_bound_from_lem :
      (t : Tree ZNode) (lb : Option (Place ZNode)) (path : List (Crumb ZNode))
      → IsSorted (items t)
      → Bounds t path lb (lower_bound_from score key t lb path)
  unfolding lower_bound_from highs
  lower_bound_from_lem leaf lb path s = inl (refl, refl)
  lower_bound_from_lem (node a h k l r) lb path s = elim (Bool-cases (zless a score key)) [
    | inl e ↦ bound_right a h k l r path lb _ s e (
        rw (lower_bound_from, e)
          (lower_bound_from_lem r lb (went_right a h k l ∷ path)
            (IsSorted-right (items l) (a ∷ items r) s).1))
    | inr e ↦ bound_left a h k l r path lb _ e (
        rw (lower_bound_from, e)
          (lower_bound_from_lem l
            (some (record { item = a; height = h; size = k; left = l; right = r; path = path }))
            (went_left a h k r ∷ path) (IsSorted-left (items l) (a ∷ items r) s)))
  ]

  -- On a sorted tree `zset_lower_bound` is NULL when every node is less than the score and key,
  -- and is else the first of the nodes that are not, at the place whose rank is the number of
  -- those that are.
  pub zset_lower_bound_lem :
      (zset : ZSet)
      → IsSorted (items zset.avl_root)
      → ((highs score key (items zset.avl_root) ≡ []) × (zset_lower_bound zset score key ≡ none))
        ⊎ ((p : Place ZNode) × (rest : List ZNode) × (zset_lower_bound zset score key ≡ some p)
            × (highs score key (items zset.avl_root) ≡ p.item ∷ rest)
            × IsRank zset.avl_root (length (lows score key (items zset.avl_root))) p)
  unfolding zset_lower_bound
  zset_lower_bound_lem zset s = elim (lower_bound_from_lem zset.avl_root none [] s) [
    | inl b ↦ inl b
    | inr (p, rest, same, split, rank) ↦
        inr (p, rest, same, split, record { whole = rank.whole; rank = rank.rank ∙ omega arith })
  ]
