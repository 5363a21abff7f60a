-- ===== src/Timers/Remove.antt =====
-- `rem_ttl` of src/server.cpp: a time less in the heap.
use mathlib.Core.List.Perm
use custom_redis.Base.{
  ℕ, suc, ◌-◌, ◌<◌, ◌≡◌, sym, ap, ◌∙◌, inl, inr, ◌∷◌, Perm, some, arith, ltb, Bool-cases,
  if◌then◌else◌, length, length-set, length-take, get_elem?, set, take, get_elem?-set,
  get_elem?-some, get_elem?-lt, Returns,
}
use custom_redis.Base.Perms.{length-perm}
use custom_redis.Heap.{HeapNode, Heap, heap_fix}
use custom_redis.Heap.Refs.{IsSmall, Refers, RefersBut}
use custom_redis.Heap.Moves.{heap_fix-Keeps}
use custom_redis.Timers.{replace_by_last, rem_ttl}
use custom_redis.Timers.Places.{get_elem?-take, replace-perm, take-set}

-- After the last time has taken the place at `i`, its reference is still to be written.
replaced-RefersBut :
    (heap : Heap) (n i : ℕ) (last : HeapNode)
    → length heap.nodes ≡ suc n
    → i < n
    → get_elem? heap.nodes n ≡ some last
    → Refers heap
    → RefersBut (record heap { nodes = take n (set heap.nodes i last) }) i last
replaced-RefersBut heap n i last len lt end r j y at ne =
    let (lt', at') = get_elem?-take n (set heap.nodes i last) j y at in
    let here : get_elem? heap.nodes j ≡ some y =
      ground (arith, get_elem?-set heap.nodes i j last (omega arith)) in
    let a = r j y here in
    let b = r n last end in
    (a, λ e. let q : j ≡ n = sym a ∙ ap heap.heap_idx e ∙ b in omega (arith, q))

replace_by_last-middle :
    (heap : Heap) (n i : ℕ) (last : HeapNode)
    → length heap.nodes ≡ suc n
    → get_elem? heap.nodes n ≡ some last
    → replace_by_last heap i ≡ (
        if ltb i n
        then heap_fix (record heap { nodes = take n (set heap.nodes i last) }) i
        else some (record heap { nodes = take n (set heap.nodes i last) }))
unfolding replace_by_last
replace_by_last-middle heap n i last len end =
    let e : length heap.nodes - 1 ≡ n = omega arith in
    let e' : length (take n (set heap.nodes i last)) ≡ n =
      omega (arith, length-take n (set heap.nodes i last), length-set heap.nodes i last) in
    rw (e, end, e')

rem_ttl-held :
    (heap : Heap) (i entry : ℕ)
    → heap.heap_idx entry ≡ i
    → i < length heap.nodes
    → rem_ttl heap entry ≡ replace_by_last heap i
unfolding rem_ttl
rem_ttl-held heap i entry e lt = rw e (ground arith)

-- On a heap of at most 2 ^ 31 times whose references agree, `rem_ttl` of the entry of any of its
-- times returns a heap whose references agree, with exactly this time less.
pub rem_ttl-removes :
    (heap : Heap) (i : ℕ) (x : HeapNode)
    → IsSmall heap
    → Refers heap
    → get_elem? heap.nodes i ≡ some x
    → Returns (rem_ttl heap x.pos_ref) λ heap'. Refers heap' × Perm heap.nodes (x ∷ heap'.nodes)
rem_ttl-removes heap i x small r at =
    let lt = get_elem?-lt heap.nodes i at in
    let n = length heap.nodes - 1 in
    let len : length heap.nodes ≡ suc n = omega arith in
    let (last, end) = get_elem?-some heap.nodes n (omega arith) in
    let nodes = take n (set heap.nodes i last) in
    let rest : Heap = record heap { nodes = nodes } in
    let bag = replace-perm n heap.nodes i x last len at end in
    let run =
      rem_ttl-held heap i x.pos_ref (r i x at) lt ∙ replace_by_last-middle heap n i last len end in
    elim (Bool-cases (ltb i n)) [
      | inl inside ↦
          let but = replaced-RefersBut heap n i last len (ground arith) end r in
          let size = length-perm bag in
          let here : get_elem? nodes i ≡ some last =
            take-set n heap.nodes i last (ground arith) lt in
          let (heap', run', (r', bag')) =
            heap_fix-Keeps rest i last (omega (arith, size)) here but in
          (heap', run ∙ rw inside run', (r', Perm.trans bag (Perm.cons x (Perm.symm bag'))))
      | inr outside ↦
          let only : (j : ℕ) (y : HeapNode)
              → get_elem? nodes j ≡ some y
              → heap.heap_idx y.pos_ref ≡ j =
            λ j y h.
              let (lt', h') = get_elem?-take n (set heap.nodes i last) j y h in
              let kept : get_elem? heap.nodes j ≡ some y =
                ground (arith, get_elem?-set heap.nodes i j last lt) in
              r j y kept in
          (rest, run ∙ rw outside, (only, bag))
    ]
