-- ===== src/Timers/Places.antt =====
-- Positions in a list at whose end an element is put or taken, as `push_back` and `pop_back` of src/server.cpp do.
use mathlib.Core.List.Perm
use custom_redis.Base.{
  ℕ, zero, suc, ◌<◌, ◌≡◌, ◌≢◌, refl, ap, ◌∙◌, List, [], ◌∷◌, ◌++◌, Perm, some, arith, length,
  length-set, get_elem?, set, take, get_elem?-set, get_elem?-lt,
}
use custom_redis.Heap.{HeapNode, Heap}
use custom_redis.Heap.Refs.{set-perm}

-- The entry has no expiry time.
abbrev pub IsAbsent : ℕ → Heap → Type 0
IsAbsent entry heap = (i : ℕ) (x : HeapNode) → get_elem? heap.nodes i ≡ some x → x.pos_ref ≢ entry

module _ {ℓ} {A : Type ℓ} where
  pub get_last : (xs : List A) (a : A) → get_elem? (xs ++ (a ∷ [])) (length xs) ≡ some a
  get_last [] a = refl
  get_last (x ∷ xs) a = get_last xs a

  pub get_before :
      (xs : List A) (a y : A) (i : ℕ)
      → i ≢ length xs
      → get_elem? (xs ++ (a ∷ [])) i ≡ some y
      → get_elem? xs i ≡ some y
  get_before [] a y zero ne h = absurd (ne refl)
  get_before [] a y (suc i) ne h = cc
  get_before (x ∷ xs) a y zero ne h = h
  get_before (x ∷ xs) a y (suc i) ne h = get_before xs a y i (λ e. ne (ap suc e)) h

  pub get_append :
      (xs ys : List A) (i : ℕ) (y : A) → get_elem? xs i ≡ some y → get_elem? (xs ++ ys) i ≡ some y
  get_append [] ys i y h = cc
  get_append (x ∷ xs) ys zero y h = h
  get_append (x ∷ xs) ys (suc i) y h = get_append xs ys i y h

  pub get_elem?-take :
      (n : ℕ) (xs : List A) (i : ℕ) (y : A)
      → get_elem? (take n xs) i ≡ some y
      → (i < n) × (get_elem? xs i ≡ some y)
  get_elem?-take zero xs i y h = absurd (omega (arith, get_elem?-lt (take 0 xs) i h))
  get_elem?-take (suc n) [] i y h = absurd (omega (arith, get_elem?-lt {A = A} [] i h))
  get_elem?-take (suc n) (x ∷ xs) zero y h = (omega arith, h)
  get_elem?-take (suc n) (x ∷ xs) (suc i) y h =
      let (lt, at) = get_elem?-take n xs i y h in (omega (arith, lt), at)

  pub take-set :
      (n : ℕ) (xs : List A) (i : ℕ) (x : A)
      → i < n
      → i < length xs
      → get_elem? (take n (set xs i x)) i ≡ some x
  take-set zero xs i x lt lt' = absurd (omega arith)
  take-set (suc n) [] i x lt lt' = absurd (omega arith)
  take-set (suc n) (y ∷ xs) zero x lt lt' = refl
  take-set (suc n) (y ∷ xs) (suc i) x lt lt' = take-set n xs i x (omega arith) (omega arith)

  -- Taking the last element off.
  last-perm :
      (n : ℕ) (xs : List A) (b : A)
      → length xs ≡ suc n
      → get_elem? xs n ≡ some b
      → Perm xs (b ∷ take n xs)
  last-perm zero (x ∷ []) b len h = let e : x ≡ b = cc in rw e (Perm.refl _)
  last-perm zero (x ∷ y ∷ xs) b len h = absurd (omega arith)
  last-perm n [] b len h = absurd (omega arith)
  last-perm (suc n) (x ∷ xs) b len h =
      Perm.trans (Perm.cons x (last-perm n xs b (omega arith) h)) (Perm.swap _ _ _)

  -- The element at `i` goes, and the last one takes its place.
  pub replace-perm :
      (n : ℕ) (xs : List A) (i : ℕ) (x last : A)
      → length xs ≡ suc n
      → get_elem? xs i ≡ some x
      → get_elem? xs n ≡ some last
      → Perm xs (x ∷ take n (set xs i last))
  replace-perm n xs i x last len at end =
      let at_end : get_elem? (set xs i last) n ≡ some last =
        ground (arith, end, get_elem?-set xs i n last (get_elem?-lt xs i at)) in
      let a = set-perm xs i x last at in
      let b = last-perm n (set xs i last) last (length-set xs i last ∙ len) at_end in
      Perm.cons_inv (Perm.trans a (Perm.trans (Perm.cons x b) (Perm.swap _ _ _)))
