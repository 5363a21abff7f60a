-- ===== src/Avl/Paths.antt =====
-- Where the nodes of a tree stand: `find_place`, and the victim of `avl_del`,
-- src/data_structures/avl_tree.cpp.
use mathlib.Core.List.{append_assoc, append-nil}
use mathlib.Core.Path.{subst}
use custom_redis.Base.{
  ℕ, suc, ◌+◌, max, ◌≡◌, refl, sym, ap, ◌⊎◌, inl, inr, Bool, true, false, Bool-cases, List, [], ◌∷◌,
  ◌++◌, Option, none, Returns, arith,
}
use custom_redis.Avl.{
  Tree, leaf, node, Crumb, went_left, went_right, Place, choose, find_place, leftmost,
}
use custom_redis.Avl.Shape.{items, depth, count, IsAvl}
use custom_redis.Avl.Climb.{around, path_count, Fits}

max_zero : (n : ℕ) → max 0 n ≡ n
max_zero n = omega arith

module _ {ℓ} {A : Type ℓ} where
  abbrev pub fore : List (Crumb A) → List A
  fore [] = []
  fore (went_left _ _ _ _ ∷ path) = fore path
  fore (went_right a _ _ l ∷ path) = fore path ++ (items l ++ (a ∷ []))

  abbrev pub aft : List (Crumb A) → List A
  aft [] = []
  aft (went_left a _ _ r ∷ path) = (a ∷ items r) ++ aft path
  aft (went_right _ _ _ _ ∷ path) = aft path

  pub around-sides :
      (path : List (Crumb A)) (xs : List A) → around path xs ≡ fore path ++ (xs ++ aft path)
  around-sides [] xs = sym (append-nil xs)
  around-sides (went_left a h s r ∷ path) xs = simp (around-sides path, append_assoc) refl
  around-sides (went_right a h s l ∷ path) xs = simp (around-sides path, append_assoc) refl

  -- The place of a node in a tree with the items `xs`, `n` of them.
  pub record IsPlace (same : A → Bool) (xs : List A) (n : ℕ) (p : Place A) : Type ℓ where
    pub hit : same p.item ≡ true
    pub avl : IsAvl (node p.item p.height p.size p.left p.right)
    pub fits : Fits p.path (suc (max (depth p.left) (depth p.right)))
    pub sequence : around p.path (items p.left ++ (p.item ∷ items p.right)) ≡ xs
    pub total : suc (count p.left + count p.right) + path_count p.path ≡ n

  abbrev pub Misses : (A → Bool) → List A → Type 0
  Misses same [] = Unit
  Misses same (a ∷ xs) = (same a ≡ false) × Misses same xs

  pub Misses-append :
      (same : A → Bool) (xs ys : List A) → Misses same xs → Misses same ys → Misses same (xs ++ ys)
  Misses-append same [] ys m k = k
  Misses-append same (x ∷ xs) ys m k = (m.0, Misses-append same xs ys m.1 k)

  -- The search finds the node, or no node is the one.
  abbrev pub Found : (A → Bool) → Tree A → List (Crumb A) → Option (Place A) → Type ℓ
  Found same t path o =
      ((o ≡ none) × Misses same (items t))
      ⊎ Returns o (IsPlace same (around path (items t)) (count t + path_count path))

  Found-here :
      (same : A → Bool) (a : A) (h s : ℕ) (l r : Tree A) (path : List (Crumb A))
      → IsAvl (node a h s l r)
      → Fits path (depth (node a h s l r))
      → same a ≡ true
      → Found same (node a h s l r) path (find_place same (node a h s l r) path)
  unfolding find_place
  Found-here same a h s l r path i f e = inr (
    record { item = a; height = h; size = s; left = l; right = r; path = path },
    rw e refl,
    record { hit = e; avl = i; fits = f; sequence = refl; total = refl },
  )

  Found-below :
      (same : A → Bool) (a : A) (h s : ℕ) (l r : Tree A) (path : List (Crumb A))
      → same a ≡ false
      → Found same l (went_left a h s r ∷ path) (find_place same l (went_left a h s r ∷ path))
      → Found same r (went_right a h s l ∷ path) (find_place same r (went_right a h s l ∷ path))
      → Found same (node a h s l r) path (find_place same (node a h s l r) path)
  unfolding find_place choose
  Found-below same a h s l r path e (inr (p, ep, w)) _ = inr (
    p,
    rw (e, ep) refl,
    record {
      hit = w.hit;
      avl = w.avl;
      fits = w.fits;
      sequence = w.sequence;
      total = omega (arith, w.total);
    },
  )
  Found-below same a h s l r path e (inl (el, ml)) (inl (er, mr)) =
      inl (rw (e, el, er) refl, Misses-append same (items l) (a ∷ items r) ml (e, mr))
  Found-below same a h s l r path e (inl (el, ml)) (inr (p, ep, w)) = inr (
    p,
    rw (e, el, ep) refl,
    record {
      hit = w.hit;
      avl = w.avl;
      fits = w.fits;
      sequence = w.sequence;
      total = omega (arith, w.total);
    },
  )

  pub find_place-Found :
      (same : A → Bool) (t : Tree A) (path : List (Crumb A))
      → IsAvl t
      → Fits path (depth t)
      → Found same t path (find_place same t path)
  unfolding find_place choose
  find_place-Found same leaf path i f = inl (refl, tt)
  find_place-Found same (node a h s l r) path i f = elim (Bool-cases (same a)) [
    | inl e ↦ Found-here same a h s l r path i f e
    | inr e ↦
        Found-below same a h s l r path e
          (find_place-Found same l (went_left a h s r ∷ path) (i.0.2, i.1.2)
            ((i.0.3, i.1.3), i.1.0, i.1.1, f))
          (find_place-Found same r (went_right a h s l ∷ path) (i.0.3, i.1.3)
            ((i.0.2, i.1.2), i.1.0, i.1.1, f))
  ]

  -- The node that takes the place of the one taken out: the first of the right subtree.
  pub record IsVictim (xs : List A) (n : ℕ) (path : List (Crumb A)) (v : Place A) : Type ℓ where
    pub first : v.left ≡ leaf
    pub rest : List A
    pub items_split : xs ≡ v.item ∷ rest
    pub sequence : around v.path (items v.right) ≡ around path rest
    pub avl : IsAvl v.right
    pub fits : Fits v.path (suc (depth v.right))
    pub total : suc (count v.right) + path_count v.path ≡ n + path_count path

  pub leftmost-IsVictim :
      (a : A) (h s : ℕ) (l r : Tree A) (path : List (Crumb A))
      → IsAvl (node a h s l r)
      → Fits path (depth (node a h s l r))
      → IsVictim (items (node a h s l r)) (count (node a h s l r)) path (leftmost a h s l r path)
  unfolding leftmost
  leftmost-IsVictim a h s leaf r path i f = record {
    first = refl;
    rest = items r;
    items_split = refl;
    sequence = refl;
    avl = (i.0.3, i.1.3);
    fits = subst (λ d. Fits path (suc d)) (max_zero (depth r)) f;
    total = omega arith;
  }
  leftmost-IsVictim a h s (node b g n l m) r path i f =
      let w =
        leftmost-IsVictim b g n l m (went_left a h s r ∷ path) (i.0.2, i.1.2)
          ((i.0.3, i.1.3), i.1.0, i.1.1, f) in
      record {
        first = w.first;
        rest = w.rest ++ (a ∷ items r);
        items_split = ap (λ xs. xs ++ (a ∷ items r)) w.items_split;
        sequence = w.sequence;
        avl = w.avl;
        fits = w.fits;
        total = omega (arith, w.total);
      }
