-- ===== src/Heap/Refs.antt =====
-- The references from the heap of src/data_structures/heap.cpp into the entries, and what the move of
-- a time does to them and to the bag of times.
use mathlib.Core.List.Perm
use custom_redis.Base.{
  ℕ, zero, suc, ◌-◌, ◌/◌, ◌^◌, ◌≤◌, ◌<◌, ◌≡◌, ◌≢◌, refl, sym, ap, ◌∙◌, inl, inr, List, [], ◌∷◌,
  Perm, some, arith, ◌==◌, Bool-cases, length, length-set, get_elem?, set, get_elem?-set,
  get_elem?-some, get_elem?-lt,
}
use custom_redis.Heap.{HeapNode, Heap, heap_parent, put}

-- Positions are below 2 ^ 31, so the `int32_t` does not cut them.
abbrev pub IsSmall : Heap → Type 0
IsSmall heap = length heap.nodes ≤ 2 ^ 31

pub heap_parent_lem : (pos : ℕ) → 0 < pos → pos < 2 ^ 31 → heap_parent pos ≡ (pos - 1) / 2
unfolding heap_parent
heap_parent_lem pos h h' = ground arith

-- Each reference leads back to the position of its entry.
abbrev pub Refers : Heap → Type 0
Refers heap = (i : ℕ) (x : HeapNode) → get_elem? heap.nodes i ≡ some x → heap.heap_idx x.pos_ref ≡ i

-- The same, with a hole at `pos` that `node` is to fill.
abbrev pub RefersBut : Heap → ℕ → HeapNode → Type 0
RefersBut heap pos node =
    (i : ℕ) (x : HeapNode)
    → get_elem? heap.nodes i ≡ some x
    → i ≢ pos
    → (heap.heap_idx x.pos_ref ≡ i) × (x.pos_ref ≢ node.pos_ref)

put-Refers :
    (heap : Heap) (pos : ℕ) (node : HeapNode)
    → pos < length heap.nodes
    → RefersBut heap pos node
    → Refers (put heap pos node)
unfolding put
put-Refers heap pos node lt r i x at = elim (Bool-cases (pos == i)) [
  | inl here ↦ ground (arith, get_elem?-set heap.nodes pos i node lt)
  | inr other ↦
      let at' : get_elem? heap.nodes i ≡ some x =
        ground (arith, get_elem?-set heap.nodes pos i node lt) in
      ground (arith, r i x at')
]

-- An entry moves into the hole, and leaves one.
pub put-RefersBut :
    (heap : Heap) (pos q : ℕ) (node x : HeapNode)
    → pos < length heap.nodes
    → get_elem? heap.nodes q ≡ some x
    → q ≢ pos
    → RefersBut heap pos node
    → RefersBut (put heap pos x) q node
unfolding put
put-RefersBut heap pos q node x lt here ne r i y at ne' = elim (Bool-cases (pos == i)) [
  | inl same ↦
      let e : x ≡ y = ground (arith, get_elem?-set heap.nodes pos i x lt) in
      let (a, b) = r q x here ne in rw (← e) (ground (arith, b))
  | inr other ↦
      let at' : get_elem? heap.nodes i ≡ some y =
        ground (arith, get_elem?-set heap.nodes pos i x lt) in
      let (a, b) = r i y at' (ground arith) in
      let (c, d) = r q x here ne in
      let apart : y.pos_ref ≢ x.pos_ref = λ e. ne' (sym a ∙ ap heap.heap_idx e ∙ c) in
      (ground (arith, a, apart), b)
]

pub hole-RefersBut :
    (heap : Heap) (pos : ℕ) (node : HeapNode)
    → Refers heap
    → get_elem? heap.nodes pos ≡ some node
    → RefersBut heap pos node
hole-RefersBut heap pos node r here i x at ne =
    (r i x at, λ e. ne (sym (r i x at) ∙ ap heap.heap_idx e ∙ r pos node here))

module _ {ℓ} {A : Type ℓ} where
  -- A write takes one element out of the bag and puts one in.
  pub set-perm :
      (xs : List A) (i : ℕ) (x y : A) → get_elem? xs i ≡ some x → Perm (y ∷ xs) (x ∷ set xs i y)
  set-perm [] i x y h = cc
  set-perm (z ∷ xs) zero x y h = let e : z ≡ x = cc in rw e (Perm.swap _ _ _)
  set-perm (z ∷ xs) (suc i) x y h =
      Perm.trans (Perm.swap _ _ _)
        (Perm.trans (Perm.cons z (set-perm xs i x y h)) (Perm.swap _ _ _))

  move-perm :
      (xs : List A) (pos q : ℕ) (old x node : A)
      → get_elem? xs pos ≡ some old
      → get_elem? xs q ≡ some x
      → pos ≢ q
      → Perm (set (set xs pos x) q node) (set xs pos node)
  move-perm xs pos q old x node h h' ne =
      let lt = get_elem?-lt xs pos h in
      let at : get_elem? (set xs pos x) q ≡ some x = ground (arith, get_elem?-set xs pos q x lt) in
      let a = set-perm (set xs pos x) q x node at in
      let b = set-perm xs pos old x h in
      let c = set-perm xs pos old node h in
      let ab =
        Perm.trans (Perm.swap _ _ _) (Perm.trans (Perm.cons old (Perm.symm a)) (Perm.swap _ _ _)) in
      let bc =
        Perm.trans (Perm.cons node (Perm.symm b)) (Perm.trans (Perm.swap _ _ _) (Perm.cons x c)) in
      Perm.cons_inv (Perm.cons_inv (Perm.trans ab bc))

-- `node` stands where the loop stopped, the rest has moved, and the references agree.
abbrev pub Fills : Heap → ℕ → HeapNode → Heap → Type 0
Fills heap pos node heap' = Refers heap' × Perm heap'.nodes (set heap.nodes pos node)

pub put-Fills :
    (heap : Heap) (pos : ℕ) (node : HeapNode)
    → pos < length heap.nodes
    → RefersBut heap pos node
    → Fills heap pos node (put heap pos node)
unfolding put
put-Fills heap pos node lt r = (put-Refers heap pos node lt r, Perm.refl _)

-- What follows the move of an entry fills the first hole.
pub Fills-put :
    (heap heap' : Heap) (pos q : ℕ) (node x : HeapNode)
    → pos < length heap.nodes
    → get_elem? heap.nodes q ≡ some x
    → pos ≢ q
    → Fills (put heap pos x) q node heap'
    → Fills heap pos node heap'
unfolding put
Fills-put heap heap' pos q node x lt at ne (r, bag) =
    let (old, here) = get_elem?-some heap.nodes pos lt in
    (r, Perm.trans bag (move-perm heap.nodes pos q old x node here at ne))

pub length-put :
    (heap : Heap) (pos : ℕ) (x : HeapNode) → length (put heap pos x).nodes ≡ length heap.nodes
unfolding put
length-put heap pos x = length-set heap.nodes pos x

pub set_same {ℓ} :
    {A : Type ℓ} (xs : List A) (i : ℕ) (x : A) → get_elem? xs i ≡ some x → set xs i x ≡ xs
set_same [] i x h = refl
set_same (y ∷ xs) zero x h = let e : y ≡ x = cc in rw e
set_same (y ∷ xs) (suc i) x h = ap (◌∷◌ y) (set_same xs i x h)

-- The same entries, with references that agree.
abbrev pub Keeps : Heap → Heap → Type 0
Keeps heap heap' = Refers heap' × Perm heap'.nodes heap.nodes

pub Fills-Keeps :
    (heap heap' : Heap) (pos : ℕ) (node : HeapNode)
    → get_elem? heap.nodes pos ≡ some node
    → Fills heap pos node heap'
    → Keeps heap heap'
Fills-Keeps heap heap' pos node at (r, bag) = (r, rw (set_same heap.nodes pos node at) at bag)
