-- ===== src/ZSet/Keys.antt =====
-- The order of the nodes of a sorted set, `zless` of src/data_structures/zset.cpp.
use Prim.Native.Nat.{Ordering, compare}
use custom_redis.Base.{
  ℕ, suc, min, ◌≡◌, refl, ◌⊎◌, inl, inr, Bool, true, false, [], ◌∷◌, ltb, if◌then◌else◌, length,
  arith,
}
use custom_redis.Wire.{Bytes}
use custom_redis.ZSet.{ZNode, is_nan, dbl_lt, dbl_ne, memcmp, zless}

-- The lexicographic order of byte strings.
unfoldable pub lex : Bytes → Bytes → Bool
lex s [] = false
lex [] (b ∷ t) = true
lex (a ∷ s) (b ∷ t) = elim (compare a b) [
  | Ordering.lt ↦ true
  | Ordering.gt ↦ false
  | Ordering.eq ↦ lex s t
]

key_less : Bytes → Bytes → Ordering → Bool
key_less s t o = elim o [
  | Ordering.lt ↦ true
  | Ordering.gt ↦ false
  | Ordering.eq ↦ ltb (length s) (length t)
]

key_less-lex : (s t : Bytes) → key_less s t (memcmp (min (length t) (length s)) s t) ≡ lex s t
unfolding key_less memcmp lex
key_less-lex [] [] = ground arith
key_less-lex [] (b ∷ t) = ground arith
key_less-lex (a ∷ s) [] = ground arith
key_less-lex (a ∷ s) (b ∷ t) =
    let e : min (suc (length t)) (suc (length s)) ≡ suc (min (length t) (length s)) = omega arith in
    rw e (ground (arith, key_less-lex s t))

lex_trans : (s t u : Bytes) → lex s t ≡ true → lex t u ≡ true → lex s u ≡ true
unfolding lex
lex_trans s t [] p q = q
lex_trans [] t (c ∷ u) p q = refl
lex_trans (a ∷ s) [] (c ∷ u) p q = cc
lex_trans (a ∷ s) (b ∷ t) (c ∷ u) p q = ground (arith, lex_trans s t u)

lex_total : (s t : Bytes) → lex s t ≡ false → (lex t s ≡ true) ⊎ (s ≡ t)
unfolding lex
lex_total [] [] p = inr refl
lex_total (a ∷ s) [] p = inl refl
lex_total [] (b ∷ t) p = cc
lex_total (a ∷ s) (b ∷ t) p = ground (arith, lex_total s t)

-- Scores first, keys among equal scores.
abbrev pub LessThan : ZNode → ZNode → Type 0
LessThan x y = zless x y.score y.key ≡ true

zless-lex :
    (z : ZNode) (score : ℕ) (key : Bytes)
    → zless z score key ≡ (if dbl_ne score z.score then dbl_lt z.score score else lex z.key key)
unfolding zless key_less
zless-lex z score key = ground (arith, key_less-lex z.key key)

pub zless_trans :
    (x y : ZNode) (score : ℕ) (key : Bytes)
    → LessThan x y
    → zless y score key ≡ true
    → zless x score key ≡ true
unfolding dbl_lt dbl_ne
zless_trans x y score key p q = ground (
  arith,
  zless-lex x y.score y.key,
  zless-lex y score key,
  zless-lex x score key,
  lex_trans x.key y.key key,
)

-- Of two nodes with numbers as scores and different keys, one is less than the other.
pub zless_total :
    (x y : ZNode)
    → is_nan x.score ≡ false
    → is_nan y.score ≡ false
    → ¬ (x.key ≡ y.key)
    → zless x y.score y.key ≡ false
    → LessThan y x
unfolding dbl_lt dbl_ne
zless_total x y nx ny differ p =
    ground (arith, zless-lex x y.score y.key, zless-lex y x.score x.key, lex_total x.key y.key)
