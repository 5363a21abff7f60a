-- ===== src/Heap/Up.antt =====
-- The loop of `heap_up` of src/data_structures/heap.cpp: the times and their references.
use custom_redis.Base.{
  ℕ, zero, suc, ◌+◌, ◌≤◌, ◌<◌, ◌≡◌, ◌∙◌, ◌⊎◌, inl, inr, some, arith, ltb, leb, Bool-cases, length,
  get_elem?, get_elem?-some, get_elem?-lt, Returns,
}
use custom_redis.Heap.{HeapNode, Heap, heap_parent, put, sift_up, heap_up}
use custom_redis.Heap.Refs.{
  Fills, Fills-Keeps, Fills-put, IsSmall, Keeps, RefersBut, heap_parent_lem, length-put, put-Fills,
  put-RefersBut,
}

pub sift_up-stop :
    (fuel : ℕ) (heap : Heap) (pos : ℕ) (node : HeapNode)
    → (pos ≡ 0)
      ⊎ ((above : HeapNode) × (get_elem? heap.nodes (heap_parent pos) ≡ some above)
          × (0 < pos)
          × (above.val < node.val))
    → sift_up (suc fuel) heap pos node ≡ some (put heap pos node)
unfolding sift_up
sift_up-stop fuel heap pos node (inl top) = ground arith
sift_up-stop fuel heap pos node (inr (above, at, low, lt)) = ground arith

pub sift_up-step :
    (fuel : ℕ) (heap : Heap) (pos : ℕ) (node above : HeapNode)
    → 0 < pos
    → get_elem? heap.nodes (heap_parent pos) ≡ some above
    → node.val ≤ above.val
    → sift_up (suc fuel) heap pos node ≡ sift_up fuel (put heap pos above) (heap_parent pos) node
unfolding sift_up
sift_up-step fuel heap pos node above low at le = ground arith

-- The loop of `heap_up` goes on or ends.
pub up-cases :
    (heap : Heap) (pos : ℕ) (node : HeapNode)
    → IsSmall heap
    → pos < length heap.nodes
    → ((pos ≡ 0)
        ⊎ ((above : HeapNode) × (get_elem? heap.nodes (heap_parent pos) ≡ some above)
            × (0 < pos)
            × (above.val < node.val)))
      ⊎ ((above : HeapNode) × (get_elem? heap.nodes (heap_parent pos) ≡ some above)
          × (0 < pos)
          × (node.val ≤ above.val))
up-cases heap pos node small lt = elim (Bool-cases (ltb 0 pos)) [
  | inr top ↦ inl (inl (ground arith))
  | inl low ↦
      let low' : 0 < pos = ground arith in
      let (above, at) =
        get_elem?-some heap.nodes (heap_parent pos)
          (omega (arith, heap_parent_lem pos low' (omega arith))) in
      elim (Bool-cases (leb node.val above.val)) [
        | inl le ↦ inr (above, at, low', ground arith)
        | inr gt ↦ inl (inr (above, at, low', ground arith))
      ]
]

sift_up-Fills :
    (fuel : ℕ) (heap : Heap) (pos : ℕ) (node : HeapNode)
    → IsSmall heap
    → pos < length heap.nodes
    → pos < fuel
    → RefersBut heap pos node
    → Returns (sift_up fuel heap pos node) (Fills heap pos node)
sift_up-Fills zero heap pos node small lt enough r = absurd (omega arith)
sift_up-Fills (suc fuel) heap pos node small lt enough r = elim (up-cases heap pos node small lt) [
  | inl stop ↦
      (put heap pos node, sift_up-stop fuel heap pos node stop, put-Fills heap pos node lt r)
  | inr (above, at, low, le) ↦
      let p = heap_parent pos in
      let e = heap_parent_lem pos low (omega arith) in
      let len = length-put heap pos above in
      let (heap', run, filled) =
        sift_up-Fills fuel (put heap pos above) p node (omega (arith, len)) (omega (arith, len, e))
          (omega (arith, e)) (put-RefersBut heap pos p node above lt at (ground (arith, e)) r) in
      (
        heap',
        sift_up-step fuel heap pos node above low at le ∙ run,
        Fills-put heap heap' pos p node above lt at (ground (arith, e)) filled,
      )
]

pub heap_up-Keeps :
    (heap : Heap) (pos : ℕ) (node : HeapNode)
    → IsSmall heap
    → get_elem? heap.nodes pos ≡ some node
    → RefersBut heap pos node
    → Returns (heap_up heap pos) (Keeps heap)
unfolding heap_up
heap_up-Keeps heap pos node small at r =
    let lt = get_elem?-lt heap.nodes pos at in
    let (heap', run, filled) = sift_up-Fills (pos + 1) heap pos node small lt (omega arith) r in
    (heap', rw at run, Fills-Keeps heap heap' pos node at filled)
