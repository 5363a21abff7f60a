-- ===== src/Heap/Moves.antt =====
-- `heap_down` and `heap_fix` of src/data_structures/heap.cpp: the times and their references.
use custom_redis.Base.{
  ℕ, zero, suc, ◌+◌, ◌≤◌, ◌<◌, ◌≡◌, sym, ◌∙◌, ◌⊎◌, inl, inr, not, ◌&&◌, List, none, some, arith,
  ltb, ◌==◌, Bool-cases, Option-cases, length, get_elem?, get_elem?-some, get_elem?-lt, Returns,
}
use custom_redis.Heap.{
  HeapNode, Heap, heap_left, heap_right, heap_parent, put, heap_up, min_with, next_pos, sift_down,
  heap_down, heap_fix,
}
use custom_redis.Heap.Refs.{
  Fills, Fills-Keeps, Fills-put, IsSmall, Keeps, RefersBut, heap_parent_lem, length-put, put-Fills,
  put-RefersBut,
}
use custom_redis.Heap.Up.{heap_up-Keeps}

next_pos-left : (nodes : List HeapNode) (pos : ℕ) → next_pos nodes pos ≡ heap_left pos
unfolding next_pos
next_pos-left nodes pos = ground arith

min_with-none :
    (nodes : List HeapNode) (min_val i : ℕ)
    → get_elem? nodes i ≡ none
    → min_with nodes min_val i ≡ min_val
unfolding min_with
min_with-none nodes min_val i gone = rw (min_with, gone)

-- Without a left child there is no right one.
no_right :
    (nodes : List HeapNode) (pos : ℕ)
    → get_elem? nodes (heap_left pos) ≡ none
    → get_elem? nodes (heap_right pos) ≡ none
no_right nodes pos gone = elim (Option-cases (get_elem? nodes (heap_right pos))) [
  | inl gone' ↦ gone'
  | inr (right, at) ↦
      let (left, at') =
        get_elem?-some nodes (heap_left pos)
          (omega (arith, get_elem?-lt nodes (heap_right pos) at)) in
      let clash : none ≡ some left = sym gone ∙ at' in cc
]

pub sift_down-stop :
    (fuel : ℕ) (heap : Heap) (pos : ℕ) (node : HeapNode)
    → get_elem? heap.nodes (heap_left pos) ≡ none
    → sift_down (suc fuel) heap pos node ≡ some (put heap pos node)
unfolding sift_down
sift_down-stop fuel heap pos node none_left =
    let right = no_right heap.nodes pos none_left in
    rw
      (
        min_with-none heap.nodes node.val (heap_left pos) none_left,
        min_with-none heap.nodes node.val (heap_right pos) right,
      )
      (ground arith)

-- The loop of `heap_down` ends, or goes on at the left child.
pub down-cases :
    (fuel : ℕ) (heap : Heap) (pos : ℕ) (node : HeapNode)
    → (sift_down (suc fuel) heap pos node ≡ some (put heap pos node))
      ⊎ ((child : HeapNode) × (get_elem? heap.nodes (heap_left pos) ≡ some child)
          × (sift_down (suc fuel) heap pos node
              ≡ sift_down fuel (put heap pos child) (heap_left pos) node))
unfolding sift_down
down-cases fuel heap pos node = elim (Option-cases (get_elem? heap.nodes (heap_left pos))) [
  | inl gone ↦ inl (sift_down-stop fuel heap pos node gone)
  | inr (child, at) ↦
      elim (Bool-cases (
        ltb pos (length heap.nodes)
        && not (
            node.val
            == min_with heap.nodes (min_with heap.nodes node.val (heap_left pos))
                (heap_right pos)))) [
                  | inl go ↦ inr (child, at, rw (go, next_pos-left, at))
                  | inr stop ↦ inl (rw stop)
                ]
]

sift_down-Fills :
    (fuel : ℕ) (heap : Heap) (pos : ℕ) (node : HeapNode)
    → pos < length heap.nodes
    → length heap.nodes < fuel + pos
    → RefersBut heap pos node
    → Returns (sift_down fuel heap pos node) (Fills heap pos node)
sift_down-Fills zero heap pos node lt enough r = absurd (omega arith)
sift_down-Fills (suc fuel) heap pos node lt enough r = elim (down-cases fuel heap pos node) [
  | inl stop ↦ (put heap pos node, stop, put-Fills heap pos node lt r)
  | inr (child, at, step) ↦
      let q = heap_left pos in
      let len = length-put heap pos child in
      let (heap', run, filled) =
        sift_down-Fills fuel (put heap pos child) q node
          (omega (arith, len, get_elem?-lt heap.nodes q at)) (omega (arith, len))
          (put-RefersBut heap pos q node child lt at (ground arith) r) in
      (heap', step ∙ run, Fills-put heap heap' pos q node child lt at (ground arith) filled)
]

pub heap_down-Keeps :
    (heap : Heap) (pos : ℕ) (node : HeapNode)
    → get_elem? heap.nodes pos ≡ some node
    → RefersBut heap pos node
    → Returns (heap_down heap pos) (Keeps heap)
unfolding heap_down
heap_down-Keeps heap pos node at r =
    let lt = get_elem?-lt heap.nodes pos at in
    let (heap', run, filled) =
      sift_down-Fills (length heap.nodes + 1) heap pos node lt (omega arith) r in
    (heap', rw at run, Fills-Keeps heap heap' pos node at filled)

-- An entry without a child stays where it is.
pub heap_down-leaf :
    (heap : Heap) (pos : ℕ) (node : HeapNode)
    → get_elem? heap.nodes pos ≡ some node
    → get_elem? heap.nodes (heap_left pos) ≡ none
    → heap_down heap pos ≡ some (put heap pos node)
unfolding heap_down
heap_down-leaf heap pos node at leaf =
    let fuel : length heap.nodes + 1 ≡ suc (length heap.nodes) = omega arith in
    rw (at, fuel) (sift_down-stop (length heap.nodes) heap pos node leaf)

-- `heap_fix` is one of the two, on a position within the vector.
pub fix-cases :
    (heap : Heap) (pos : ℕ) (node : HeapNode)
    → IsSmall heap
    → get_elem? heap.nodes pos ≡ some node
    → ((heap_fix heap pos ≡ heap_down heap pos)
        × ((parent : HeapNode)
            → 0 < pos
            → get_elem? heap.nodes (heap_parent pos) ≡ some parent
            → parent.val ≤ node.val))
      ⊎ ((parent : HeapNode) × (0 < pos)
          × (get_elem? heap.nodes (heap_parent pos) ≡ some parent)
          × (node.val < parent.val)
          × (heap_fix heap pos ≡ heap_up heap pos))
unfolding heap_fix
fix-cases heap pos node small at =
    let lt = get_elem?-lt heap.nodes pos at in
    elim (Bool-cases (ltb 0 pos)) [
      | inr top ↦ inl (ground arith, (λ parent low h. absurd (ground arith)))
      | inl low ↦
          let low' : 0 < pos = ground arith in
          let (parent, at') =
            get_elem?-some heap.nodes (heap_parent pos)
              (omega (arith, heap_parent_lem pos low' (omega arith))) in
          elim (Bool-cases (ltb node.val parent.val)) [
            | inl less ↦ inr (parent, low', at', ground arith, rw (at, low, at', less))
            | inr more ↦ inl (
              rw (at, low, at', more) (ground arith),
              (λ other low'' h.
                  let same : some parent ≡ some other = sym at' ∙ h in ground (arith, same)),
            )
          ]
    ]

-- At a position of a heap of at most 2 ^ 31 times, where the other references agree and lead
-- elsewhere, `heap_fix` returns a heap with the same times in which all references agree,
-- whichever way the time moves.
pub heap_fix-Keeps :
    (heap : Heap) (pos : ℕ) (node : HeapNode)
    → IsSmall heap
    → get_elem? heap.nodes pos ≡ some node
    → RefersBut heap pos node
    → Returns (heap_fix heap pos) (Keeps heap)
heap_fix-Keeps heap pos node small at r = elim (fix-cases heap pos node small at) [
  | inl (down, after) ↦ rw down (heap_down-Keeps heap pos node at r)
  | inr (parent, low, at', less, up) ↦ rw up (heap_up-Keeps heap pos node small at r)
]
