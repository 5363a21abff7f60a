-- ===== src/Timers/Tests.antt =====
-- The heap and the timers of src/data_structures/heap.cpp and src/server.cpp at a heap of two times.
use custom_redis.Base.{
  ℕ, zero, suc, ◌-◌, ◌<◌, ◌≡◌, ◌≢◌, refl, [], ◌∷◌, Perm, some, none, ◌==◌, if◌then◌else◌, arith,
  get_elem?, Returns,
}
use mathlib.Core.List.Memᴰ
use custom_redis.Wire.{Bytes}
use custom_redis.Hash.{str_hash}
use custom_redis.Commands.Tests.{key_k, entry}
use custom_redis.Heap.{HeapNode, Heap, heap_up, heap_fix, sift_up, heap_parent, put}
use custom_redis.Heap.Refs.{Refers, Keeps, hole-RefersBut}
use custom_redis.Heap.Moves.{heap_fix-Keeps}
use custom_redis.Heap.Order.{IsOrdered, IsOrderedBut}
use custom_redis.Timers.{Entries, expiry, set_ttl}
use custom_redis.Timers.Places.{IsAbsent}
use custom_redis.Timers.Insert.{set_ttl-inserts}

-- The times 10 and 20 of the entries 0 and 1.
abbrev early : HeapNode
early = record { val = 10; pos_ref = 0 }

abbrev late : HeapNode
late = record { val = 20; pos_ref = 1 }

abbrev pub two_times : Heap
two_times = record { nodes = early ∷ late ∷ []; heap_idx = λ entry. entry }

pub two_times-Refers : Refers two_times
two_times-Refers zero x h = let e : some early ≡ some x = h in ground (arith, e)
two_times-Refers (suc zero) x h = let e : some late ≡ some x = h in ground (arith, e)
two_times-Refers (suc (suc i)) x h = absurd (cc h)

pub two_times-IsOrdered : IsOrdered two_times.nodes
two_times-IsOrdered zero x y low h h' = absurd (omega arith)
two_times-IsOrdered (suc zero) x y low h h' =
    let e : some late ≡ some x = h in let e' : some early ≡ some y = h' in ground (arith, e, e')
two_times-IsOrdered (suc (suc i)) x y low h h' = absurd (cc h)

pub two_times-IsAbsent : IsAbsent 2 two_times
two_times-IsAbsent zero x h = λ q. let e : some early ≡ some x = h in ground (arith, q, e)
two_times-IsAbsent (suc zero) x h = λ q. let e : some late ≡ some x = h in ground (arith, q, e)
two_times-IsAbsent (suc (suc i)) x h = absurd (cc h)

set_ttl-inserts_example : Returns (set_ttl 0 two_times 2 5) λ heap'.
    Refers heap' × IsOrdered heap'.nodes × Perm heap'.nodes (expiry 0 5 2 ∷ two_times.nodes)
set_ttl-inserts_example =
    set_ttl-inserts 0 two_times 2 5 (omega arith) two_times-Refers two_times-IsOrdered
      two_times-IsAbsent

heap_fix-Keeps_example : Returns (heap_fix two_times 1) (Keeps two_times)
heap_fix-Keeps_example =
    heap_fix-Keeps two_times 1 late (omega arith) refl
      (hole-RefersBut two_times 1 late two_times-Refers refl)

-- A time that is before its parent.
abbrev swapped : Heap
swapped = record { nodes = late ∷ early ∷ []; heap_idx = λ entry. 1 - entry }

abbrev lifted : Heap
lifted = put (put swapped 1 late) 0 early

swapped-IsOrderedBut : IsOrderedBut swapped.nodes 1 early
swapped-IsOrderedBut = record {
  elsewhere = λ i x y low ne ne' h h'. absurd (beyond i x low ne h);
  below = λ c x low e h. absurd (beyond c x low (λ q. omega arith) h);
  across = λ c x y low low' e h h'. absurd (beyond c x low (λ q. omega arith) h);
}
  where
    beyond : (i : ℕ) (x : HeapNode) → 0 < i → i ≢ 1 → ¬ (get_elem? swapped.nodes i ≡ some x)
    beyond zero x low ne h = omega arith
    beyond (suc zero) x low ne h = ne refl
    beyond (suc (suc i)) x low ne h = cc

swapped_up : heap_up swapped 1 ≡ some lifted
unfolding heap_up sift_up heap_parent
swapped_up = refl

-- One time, of the entry 0, which is the node that the database has.
abbrev one_time : Heap
one_time = record { nodes = early ∷ []; heap_idx = λ entry. 0 }

abbrev key_of : ℕ → Bytes
key_of entry = key_k

abbrev hcode_of : ℕ → ℕ
hcode_of entry = str_hash key_k

abbrev entries : Entries
entries entry = if entry == 0 then some (key_k, str_hash key_k) else none
