-- ===== src/Heap.antt =====
-- The binary heap of expiry times: src/data_structures/heap.h and src/data_structures/heap.cpp.
-- `pos_ref` points to the `heap_idx` of the entry that the time belongs to. The model names the
-- entry by a number, and `heap_idx` of the state gives the field's value for every entry.
pub mod Refs
pub mod Up
pub mod Moves
pub mod Order
use custom_redis.Base.{
  not, ℕ, zero, suc, ◌+◌, ◌-◌, ◌*◌, ◌/◌, ◌%◌, ◌^◌, min, Bool, List, Option, none, some, ltb, leb,
  ◌==◌, ◌&&◌, if◌then◌else◌, length, get_elem?, set, ◌>>=◌,
}

pub record HeapNode : Type 0 where
  pub val : ℕ
  pub pos_ref : ℕ

-- The vector, and the store that the references point into.
pub record Heap : Type 0 where
  pub nodes : List HeapNode
  pub heap_idx : ℕ → ℕ

abbrev pub heap_left : ℕ → ℕ
heap_left pos = pos * 2 + 1

abbrev pub heap_right : ℕ → ℕ
heap_right pos = pos * 2 + 2

-- `(pos - 1) >> 1` of a `size_t`, which goes through an `int32_t`.
unfoldable pub heap_parent : ℕ → ℕ
heap_parent pos =
    let half = (pos + (2 ^ 64 - 1)) % 2 ^ 64 / 2 in
    let low = half % 2 ^ 32 in if ltb low (2 ^ 31) then low else low + (2 ^ 64 - 2 ^ 32)

-- `heap[pos] = node; *heap[pos].pos_ref = pos`
unfoldable pub put : Heap → ℕ → HeapNode → Heap
put heap pos node = record {
  nodes = set heap.nodes pos node;
  heap_idx = λ entry. if entry == node.pos_ref then pos else heap.heap_idx entry;
}

-- The `while` of `heap_up`, and the writes behind it; the first argument bounds the rounds.
unfoldable pub sift_up : ℕ → Heap → ℕ → HeapNode → Option Heap
sift_up zero heap pos node = none
sift_up (suc fuel) heap pos node =
    let parent = heap_parent pos in
    let step = get_elem? heap.nodes parent >>= λ above.
    let rest = sift_up fuel (put heap pos above) parent node in
    if leb node.val above.val then rest else some (put heap pos node) in
    if ltb 0 pos then step else some (put heap pos node)

unfoldable pub heap_up : Heap → ℕ → Option Heap
heap_up heap pos = do node ← get_elem? heap.nodes pos; sift_up (pos + 1) heap pos node

-- `if (i < size) min_val = dmin(min_val, heap[i].val)`
unfoldable pub min_with : List HeapNode → ℕ → ℕ → ℕ
min_with nodes min_val i = elim (get_elem? nodes i) [
  | none ↦ min_val
  | some child ↦ min min_val child.val
]

-- Both branches take the left child.
unfoldable pub next_pos : List HeapNode → ℕ → ℕ
next_pos nodes pos = elim (get_elem? nodes (heap_right pos)) [
  | none ↦ heap_left pos
  | some right ↦ elim (get_elem? nodes (heap_left pos)) [
    | none ↦ heap_left pos
    | some left ↦ if ltb right.val left.val then heap_left pos else heap_left pos
  ]
]

-- The `while` of `heap_down`, and the writes behind it.
unfoldable pub sift_down : ℕ → Heap → ℕ → HeapNode → Option Heap
sift_down zero heap pos node = none
sift_down (suc fuel) heap pos node =
    let next = next_pos heap.nodes pos in
    let min_val =
      min_with heap.nodes (min_with heap.nodes node.val (heap_left pos)) (heap_right pos) in
    let step =
      get_elem? heap.nodes next >>= λ child. sift_down fuel (put heap pos child) next node in
    if ltb pos (length heap.nodes) && not (node.val == min_val)
    then step
    else some (put heap pos node)

unfoldable pub heap_down : Heap → ℕ → Option Heap
heap_down heap pos = do
  node ← get_elem? heap.nodes pos
  sift_down (length heap.nodes + 1) heap pos node

-- `heap[parent_pos].val > heap[pos].val` is read when `pos > 0`.
unfoldable pub heap_fix : Heap → ℕ → Option Heap
heap_fix heap pos = get_elem? heap.nodes pos >>= λ node.
    let down = if ltb pos (length heap.nodes) then heap_down heap pos else some heap in
    let up = get_elem? heap.nodes (heap_parent pos) >>= λ parent.
    if ltb node.val parent.val then heap_up heap pos else down in
    if ltb 0 pos then up else down
