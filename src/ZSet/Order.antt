-- ===== src/ZSet/Order.antt =====
-- Sorted sequences of nodes, and where a new one belongs: src/data_structures/zset.cpp.
use custom_redis.Base.{
  ℕ, ◌≡◌, refl, inl, inr, true, false, Bool-cases, List, [], ◌∷◌, ◌++◌, All, if◌then◌else◌, arith,
}
use custom_redis.Wire.{Bytes}
use custom_redis.ZSet.{ZNode, is_nan, zless}
use custom_redis.ZSet.Keys.{LessThan, zless_trans, zless_total}

abbrev pub IsSorted : List ZNode → Type 0
IsSorted [] = Unit
IsSorted (x ∷ xs) = All (LessThan x) xs × IsSorted xs

pub All-append {ℓ} :
    {A : Type ℓ} (P : A → Type 0) (xs ys : List A) → All P xs → All P ys → All P (xs ++ ys)
All-append P [] ys p q = q
All-append P (x ∷ xs) ys p q = (p.0, All-append P xs ys p.1 q)

pub All-left {ℓ} : {A : Type ℓ} (P : A → Type 0) (xs ys : List A) → All P (xs ++ ys) → All P xs
All-left P [] ys p = tt
All-left P (x ∷ xs) ys p = (p.0, All-left P xs ys p.1)

pub All-right {ℓ} : {A : Type ℓ} (P : A → Type 0) (xs ys : List A) → All P (xs ++ ys) → All P ys
All-right P [] ys p = p
All-right P (x ∷ xs) ys p = All-right P xs ys p.1

pub All-imp {ℓ} :
    {A : Type ℓ} (P Q : A → Type 0) (xs : List A) → ((a : A) → P a → Q a) → All P xs → All Q xs
All-imp P Q [] f p = tt
All-imp P Q (x ∷ xs) f p = (f x p.0, All-imp P Q xs f p.1)

module _ (score : ℕ) (key : Bytes) where
  -- The nodes before the first that is not less than the tuple, and the others.
  unfoldable pub lows : List ZNode → List ZNode
  lows [] = []
  lows (x ∷ xs) = if zless x score key then x ∷ lows xs else []

  unfoldable pub highs : List ZNode → List ZNode
  highs [] = []
  highs (x ∷ xs) = if zless x score key then highs xs else x ∷ xs

  abbrev pub IsLess : ZNode → Type 0
  IsLess x = zless x score key ≡ true

  pub lows-highs : (xs : List ZNode) → lows xs ++ highs xs ≡ xs
  unfolding lows highs
  lows-highs [] = refl
  lows-highs (x ∷ xs) = ground (arith, lows-highs xs)

  pub lows-IsLess : (xs : List ZNode) → All IsLess (lows xs)
  unfolding lows
  lows-IsLess [] = tt
  lows-IsLess (x ∷ xs) = elim (Bool-cases (zless x score key)) [
    | inl e ↦ rw e (e, lows-IsLess xs)
    | inr e ↦ rw e tt
  ]

  pub cut_low :
      (xs ys : List ZNode) (a : ZNode)
      → All IsLess xs
      → IsLess a
      → (lows (xs ++ (a ∷ ys)) ≡ xs ++ (a ∷ lows ys)) × (highs (xs ++ (a ∷ ys)) ≡ highs ys)
  unfolding lows highs
  cut_low [] ys a l e = (rw e refl, rw e refl)
  cut_low (x ∷ xs) ys a l e =
      let (p, q) = cut_low xs ys a l.1 e in (rw (l.0, p) refl, rw (l.0, q) refl)

  pub cut_high :
      (xs ys : List ZNode) (a : ZNode)
      → zless a score key ≡ false
      → (lows (xs ++ (a ∷ ys)) ≡ lows xs) × (highs (xs ++ (a ∷ ys)) ≡ highs xs ++ (a ∷ ys))
  unfolding lows highs
  cut_high [] ys a e = (rw e refl, rw e refl)
  cut_high (x ∷ xs) ys a e = elim (Bool-cases (zless x score key)) [
    | inl f ↦ (let (p, q) = cut_high xs ys a e in (rw (f, p) refl, rw (f, q) refl))
    | inr f ↦ (rw f refl, rw f refl)
  ]

  -- In a sorted sequence all nodes before a lesser one are less.
  pub IsLess-before :
      (xs ys : List ZNode) (a : ZNode) → IsSorted (xs ++ (a ∷ ys)) → IsLess a → All IsLess xs
  IsLess-before [] ys a s e = tt
  IsLess-before (x ∷ xs) ys a s e = (
    zless_trans x a score key ((All-right (LessThan x) xs (a ∷ ys) s.0).0) e,
    IsLess-before xs ys a s.1 e,
  )

pub IsSorted-left : (xs ys : List ZNode) → IsSorted (xs ++ ys) → IsSorted xs
IsSorted-left [] ys s = tt
IsSorted-left (x ∷ xs) ys s = (All-left (LessThan x) xs ys s.0, IsSorted-left xs ys s.1)

pub IsSorted-right : (xs ys : List ZNode) → IsSorted (xs ++ ys) → IsSorted ys
IsSorted-right [] ys s = s
IsSorted-right (x ∷ xs) ys s = IsSorted-right xs ys s.1

-- A node is taken out.
pub IsSorted-without :
    (xs ys : List ZNode) (a : ZNode) → IsSorted (xs ++ (a ∷ ys)) → IsSorted (xs ++ ys)
IsSorted-without [] ys a s = s.1
IsSorted-without (x ∷ xs) ys a s = (
  All-append (LessThan x) xs ys (All-left (LessThan x) xs (a ∷ ys) s.0)
      (All-right (LessThan x) xs (a ∷ ys) s.0).1,
  IsSorted-without xs ys a s.1,
)

-- A node is put between those that are less and those that it is less than.
pub IsSorted-with :
    (xs ys : List ZNode) (z : ZNode)
    → IsSorted (xs ++ ys)
    → All (IsLess z.score z.key) xs
    → All (LessThan z) ys
    → IsSorted (xs ++ (z ∷ ys))
IsSorted-with [] ys z s lo hi = (hi, s)
IsSorted-with (x ∷ xs) ys z s lo hi = (
  All-append (LessThan x) xs (z ∷ ys) (All-left (LessThan x) xs ys s.0)
      (lo.0, All-right (LessThan x) xs ys s.0),
  IsSorted-with xs ys z s.1 lo.1 hi,
)

-- A node with another key and a number as its score is above the tuple of `z`.
abbrev pub IsOther : ZNode → ZNode → Type 0
IsOther z x = (is_nan x.score ≡ false) × ¬ (x.key ≡ z.key)

-- The nodes that are not less than a new one are greater.
pub highs_above :
    (z : ZNode) (xs : List ZNode)
    → IsSorted xs
    → is_nan z.score ≡ false
    → All (IsOther z) xs
    → All (LessThan z) (highs z.score z.key xs)
unfolding highs
highs_above z [] s n o = tt
highs_above z (x ∷ xs) s n o = elim (Bool-cases (zless x z.score z.key)) [
  | inl e ↦ rw e (highs_above z xs s.1 n o.1)
  | inr e ↦
      let above = zless_total x z o.0.0 n o.0.1 e in
      rw e (
        above,
        All-imp (LessThan x) (LessThan z) xs (λ y l. zless_trans z x y.score y.key above l) s.0,
      )
]
