-- ===== src/Timers/Live.antt =====
-- Which entries of src/server.cpp are allocated while `process_timers` deletes some of them, and
-- which values of the database the thread pool would clear.
use mathlib.Core.List.{
  Mem, Memᴰ, Nodup, Nodup-nil, Nodup-cons, mem-cons_self, mem-cons_of_mem, mem-map_of_mem,
  exists_of_mem-map,
}
use mathlib.Core.List.Perm
use mathlib.Core.Path.{subst}
use mathlib.Core.Logic.{∥∥₁_elim}
use custom_redis.Base.{
  ℕ, zero, suc, ◌+◌, ◌≡◌, ◌==◌, refl, sym, ap, inl, inr, Bool, false, Bool-cases, List, [], ◌∷◌,
  map, Perm, some, arith, get_elem?,
}
use custom_redis.HashMap.{Node, HMap}
use custom_redis.HashMap.Valid.{hm_nodes}
use custom_redis.Heap.{HeapNode, Heap}
use custom_redis.Heap.Refs.{Refers}
use custom_redis.Timers.{Entries, free_entry}

pub held_at :
    (nodes : List HeapNode) (x : HeapNode) → Memᴰ x nodes → (i : ℕ) × (get_elem? nodes i ≡ some x)
held_at [] x d = elim d [ ]
held_at (y ∷ nodes) x (Memᴰ.head e) = (0, ap some (sym e))
held_at (y ∷ nodes) x (Memᴰ.tail d) = let (i, at) = held_at nodes x d in (suc i, at)

pub Mem-at :
    (nodes : List HeapNode) (i : ℕ) (x : HeapNode) → get_elem? nodes i ≡ some x → Mem x nodes
Mem-at [] i x h = absurd (cc h)
Mem-at (y ∷ nodes) zero x h =
    let e : some y ≡ some x = h in let same : y ≡ x = cc e in rw same mem-cons_self
Mem-at (y ∷ nodes) (suc i) x h = mem-cons_of_mem y (Mem-at nodes i x h)

absurd_prop : IsProp ⊥
absurd_prop a b = absurd a

-- The entry that a time belongs to.
abbrev pub refs : List HeapNode → List ℕ
refs nodes = map (λ (x : HeapNode). x.pos_ref) nodes

-- Entries that know their positions are different.
refs-Nodup :
    (nodes : List HeapNode) (idx : ℕ → ℕ) (off : ℕ)
    → ((i : ℕ) (x : HeapNode) → get_elem? nodes i ≡ some x → idx x.pos_ref ≡ off + i)
    → Nodup (refs nodes)
refs-Nodup [] idx off r = Nodup-nil
refs-Nodup (x ∷ nodes) idx off r = Nodup-cons.1 (
  λ m. ∥∥₁_elim (exists_of_mem-map m) absurd_prop λ (y, held, same). ∥∥₁_elim held absurd_prop λ d.
      let (i, at) = held_at nodes y d in
      let a = r 0 x refl in
      let b = r (suc i) y at in
      let c : idx y.pos_ref ≡ idx x.pos_ref = ap idx same in omega (arith, a, b, c),
  refs-Nodup nodes idx (off + 1) (λ i y at. omega (arith, r (suc i) y at)),
)

-- The entry of a time that was taken out has no other.
pub taken_apart :
    (heap : Heap) (x : HeapNode) (ns : List HeapNode)
    → Refers heap
    → Perm heap.nodes (x ∷ ns)
    → (y : HeapNode) → Mem y ns
    → (y.pos_ref == x.pos_ref) ≡ false
taken_apart heap x ns r p y m =
    let distinct : Nodup (x.pos_ref ∷ refs ns) =
      Perm.nodup (Perm.map (λ (x : HeapNode). x.pos_ref) p)
        (refs-Nodup heap.nodes heap.heap_idx 0 (λ i x at. omega (arith, r i x at))) in
    elim (Bool-cases (y.pos_ref == x.pos_ref)) [
      | inl same ↦
          let e : y.pos_ref ≡ x.pos_ref = ground arith in
          absurd (
            (Nodup-cons.0 distinct).0
              (subst (λ z. Mem z (refs ns)) e (mem-map_of_mem (λ (x : HeapNode). x.pos_ref) m)))
      | inr differ ↦ differ
    ]

module _ (key : ℕ → List ℕ) (hcode : ℕ → ℕ) where
  -- The entries of all times in the heap are allocated, with these keys and hashes.
  abbrev pub IsLive : Entries → List HeapNode → Type 0
  IsLive entries nodes =
      (x : HeapNode) → Mem x nodes → entries x.pos_ref ≡ some (key x.pos_ref, hcode x.pos_ref)

  pub rest-IsLive :
      (heap : Heap) (x : HeapNode) (ns : List HeapNode) (entries : Entries)
      → Refers heap
      → Perm heap.nodes (x ∷ ns)
      → IsLive entries heap.nodes
      → IsLive (free_entry entries x.pos_ref) ns
  unfolding free_entry
  rest-IsLive heap x ns entries r p live y m =
      rw (taken_apart heap x ns r p y m) (live y ((Perm.mem_iff p).1 (mem-cons_of_mem x m)))

module _ {ℓ} {V : Type ℓ} (is_large : V → Bool) where
  -- No value of the database is so large that the pool would clear it.
  abbrev pub AreSmall : HMap V → Type ℓ
  AreSmall db = (n : Node V) → Mem n (hm_nodes db) → is_large n.val ≡ false
