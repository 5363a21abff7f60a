-- ===== src/HashMap/Buckets.antt =====
-- Bucket arrays of src/data_structures/hashmap.cpp as bags of nodes: what a write to one chain does
-- to the nodes of the whole array, up to order.
use custom_redis.Base.Perms.{length-perm}
use custom_redis.Base.{
  sym, ◌∙◌, ℕ, zero, suc, ◌≡◌, refl, ap, List, [], ◌∷◌, map, flatten, Perm, some, length, get_elem?,
  set,
}
use mathlib.Core.List.Perm
use mathlib.Core.List.{map-append, perm_middle}
use custom_redis.HashMap.{Node, Buckets, unlink_at}

module _ {ℓ κ} {V : Type ℓ} {B : Type κ} (f : Node V → B) where
  -- A node in front of a chain is one more node of the array.
  pub flatten_insert :
      (bs : Buckets V) (i : ℕ) (c : List (Node V)) (n : Node V)
      → get_elem? bs i ≡ some c
      → Perm (map f (flatten (set bs i (n ∷ c)))) (f n ∷ map f (flatten bs))
  unfolding flatten
  flatten_insert [] i c n h = cc
  flatten_insert (x ∷ bs) zero c n h = let e : x ≡ c = cc in rw e (Perm.refl _)
  flatten_insert (x ∷ bs) (suc i) c n h =
      rw (map-append, map-append)
        (Perm.trans (Perm.append_left (map f x) (flatten_insert bs i c n h))
          (perm_middle (map f x) (map f (flatten bs))))

  chain_unlink :
      (c : List (Node V)) (d : ℕ) (n : Node V)
      → get_elem? c d ≡ some n
      → Perm (map f c) (f n ∷ map f (unlink_at c d))
  unfolding unlink_at
  chain_unlink [] d n h = cc
  chain_unlink (x ∷ c) zero n h = let e : x ≡ n = cc in rw e (Perm.refl _)
  chain_unlink (x ∷ c) (suc d) n h =
      Perm.trans (Perm.cons (f x) (chain_unlink c d n h)) (Perm.swap (f n) (f x) _)

  -- A node taken out of a chain is one node less.
  pub flatten_unlink :
      (bs : Buckets V) (i d : ℕ) (c : List (Node V)) (n : Node V)
      → get_elem? bs i ≡ some c
      → get_elem? c d ≡ some n
      → Perm (map f (flatten bs)) (f n ∷ map f (flatten (set bs i (unlink_at c d))))
  unfolding flatten
  flatten_unlink [] i d c n h k = cc
  flatten_unlink (x ∷ bs) zero d c n h k =
      let e : x ≡ c = cc in
      rw (e, map-append, map-append) (Perm.append_right (map f (flatten bs)) (chain_unlink c d n k))
  flatten_unlink (x ∷ bs) (suc i) d c n h k =
      rw (map-append, map-append)
        (Perm.trans (Perm.append_left (map f x) (flatten_unlink bs i d c n h k))
          (perm_middle (map f x) _))

length-map {ℓ κ} :
    {A : Type ℓ} {B : Type κ} (f : A → B) (xs : List A) → length (map f xs) ≡ length xs
length-map f [] = refl
length-map f (x ∷ xs) = ap suc (length-map f xs)

module _ {ℓ} {V : Type ℓ} (bs : Buckets V) (i : ℕ) (c : List (Node V)) where
  pub length-flatten_insert :
      (n : Node V)
      → get_elem? bs i ≡ some c
      → length (flatten (set bs i (n ∷ c))) ≡ suc (length (flatten bs))
  length-flatten_insert n h =
      sym (length-map (λ m. m) _)
      ∙ length-perm (flatten_insert (λ m. m) bs i c n h)
      ∙ ap suc (length-map (λ m. m) _)

  pub length-flatten_unlink :
      (d : ℕ) (n : Node V)
      → get_elem? bs i ≡ some c
      → get_elem? c d ≡ some n
      → length (flatten bs) ≡ suc (length (flatten (set bs i (unlink_at c d))))
  length-flatten_unlink d n h k =
      sym (length-map (λ m. m) _)
      ∙ length-perm (flatten_unlink (λ m. m) bs i d c n h k)
      ∙ ap suc (length-map (λ m. m) _)
