-- ===== src/Heap/Order.antt =====
-- The heap order of src/data_structures/heap.cpp, and what `heap_up` does to it.
use custom_redis.Base.{
  ℕ, zero, suc, ◌+◌, ◌-◌, ◌/◌, ◌≤◌, ◌<◌, ◌≡◌, ◌≢◌, refl, sym, ap, ◌∙◌, inl, inr, List, some, arith,
  Bool-cases, ◌==◌, length, get_elem?, set, get_elem?-set, get_elem?-some, get_elem?-lt,
}
use custom_redis.Heap.{HeapNode, Heap, heap_parent, put, sift_up, heap_up}
use custom_redis.Heap.Refs.{IsSmall, heap_parent_lem, length-put}
use custom_redis.Heap.Up.{up-cases, sift_up-stop, sift_up-step}

-- No entry is before its parent.
abbrev pub IsOrdered : List HeapNode → Type 0
IsOrdered nodes =
    (i : ℕ) (x y : HeapNode)
    → 0 < i
    → get_elem? nodes i ≡ some x
    → get_elem? nodes ((i - 1) / 2) ≡ some y
    → y.val ≤ x.val

-- The order with a hole at `pos`, which `node` may fill as far as what stands below is concerned.
pub record IsOrderedBut (nodes : List HeapNode) (pos : ℕ) (node : HeapNode) : Type 0 where
  pub elsewhere :
      (i : ℕ) (x y : HeapNode)
      → 0 < i
      → i ≢ pos
      → (i - 1) / 2 ≢ pos
      → get_elem? nodes i ≡ some x
      → get_elem? nodes ((i - 1) / 2) ≡ some y
      → y.val ≤ x.val
  pub below :
      (c : ℕ) (x : HeapNode)
      → 0 < c
      → (c - 1) / 2 ≡ pos
      → get_elem? nodes c ≡ some x
      → node.val ≤ x.val
  pub across :
      (c : ℕ) (x y : HeapNode)
      → 0 < c
      → 0 < pos
      → (c - 1) / 2 ≡ pos
      → get_elem? nodes c ≡ some x
      → get_elem? nodes ((pos - 1) / 2) ≡ some y
      → y.val ≤ x.val

module _ (nodes : List HeapNode) (pos : ℕ) (node : HeapNode) (lt : pos < length nodes) where
  at_hole : (x : HeapNode) → get_elem? (set nodes pos node) pos ≡ some x → node ≡ x
  at_hole x h = ground (arith, get_elem?-set nodes pos pos node lt)

  at_other :
      (i : ℕ) (x : HeapNode)
      → i ≢ pos
      → get_elem? (set nodes pos node) i ≡ some x
      → get_elem? nodes i ≡ some x
  at_other i x ne h = ground (arith, get_elem?-set nodes pos i node lt)

  -- The node fills the hole, below a parent that is not after it.
  fill-IsOrdered :
      IsOrderedBut nodes pos node
      → ((y : HeapNode) → 0 < pos → get_elem? nodes ((pos - 1) / 2) ≡ some y → y.val ≤ node.val)
      → IsOrdered (set nodes pos node)
  fill-IsOrdered o above i x y low h h' = elim (Bool-cases (i == pos)) [
    | inl same ↦
        let e : i ≡ pos = ground arith in
        let e' : node ≡ x = at_hole x (rw e at h) in
        let up : get_elem? nodes ((pos - 1) / 2) ≡ some y =
          rw e at (at_other ((i - 1) / 2) y (omega arith) h') in
        rw (← e') (above y (omega arith) up)
    | inr other ↦
        let ne : i ≢ pos = ground arith in
        elim (Bool-cases ((i - 1) / 2 == pos)) [
          | inl child ↦
              let e : (i - 1) / 2 ≡ pos = ground arith in
              let e' : node ≡ y = at_hole y (rw e at h') in
              rw (← e') (o.below i x low e (at_other i x ne h))
          | inr apart ↦
              let ne' : (i - 1) / 2 ≢ pos = ground arith in
              o.elsewhere i x y low ne ne' (at_other i x ne h) (at_other ((i - 1) / 2) y ne' h')
        ]
  ]

-- The parent moves into the hole.
step-IsOrderedBut :
    (nodes : List HeapNode) (pos : ℕ) (node above : HeapNode)
    → pos < length nodes
    → 0 < pos
    → get_elem? nodes ((pos - 1) / 2) ≡ some above
    → node.val ≤ above.val
    → IsOrderedBut nodes pos node
    → IsOrderedBut (set nodes pos above) ((pos - 1) / 2) node
step-IsOrderedBut nodes pos node above lt low at le o =
    let p = (pos - 1) / 2 in
    let ne : p ≢ pos = λ e. omega arith in
    record {
      elsewhere = λ i x y low' n n' h h'. elim (Bool-cases ((i - 1) / 2 == pos)) [
        | inl child ↦
            let e : (i - 1) / 2 ≡ pos = ground arith in
            let e' : above ≡ y = at_hole nodes pos above lt y (rw e at h') in
            rw (← e') (
              o.across i x above low' low e (at_other nodes pos above lt i x (λ q. omega arith) h)
                at)
        | inr apart ↦
            let m : (i - 1) / 2 ≢ pos = ground arith in
            let m' : i ≢ pos = λ q. n' (ap (λ j. (j - 1) / 2) q) in
            o.elsewhere i x y low' m' m (at_other nodes pos above lt i x m' h)
              (at_other nodes pos above lt ((i - 1) / 2) y m h')
      ];
      below = λ c x low' e h. elim (Bool-cases (c == pos)) [
        | inl same ↦
            let q : c ≡ pos = ground arith in
            let q' : above ≡ x = at_hole nodes pos above lt x (rw q at h) in rw (← q') le
        | inr other ↦
            let m : c ≢ pos = ground arith in
            let h' = at_other nodes pos above lt c x m h in
            let up : get_elem? nodes ((c - 1) / 2) ≡ some above = rw e at in
            let step = o.elsewhere c x above low' m (λ q. ne (sym e ∙ q)) h' up in
            omega (arith, step)
      ];
      across = λ c x y low' lowp e h h'.
          let up : get_elem? nodes ((p - 1) / 2) ≡ some y =
            at_other nodes pos above lt ((p - 1) / 2) y (λ q. omega arith) h' in
          let top = o.elsewhere p above y lowp ne (λ q. omega arith) at up in
          elim (Bool-cases (c == pos)) [
            | inl same ↦
                let q : c ≡ pos = ground arith in
                let q' : above ≡ x = at_hole nodes pos above lt x (rw q at h) in rw (← q') top
            | inr other ↦
                let m : c ≢ pos = ground arith in
                let h'' = at_other nodes pos above lt c x m h in
                let upc : get_elem? nodes ((c - 1) / 2) ≡ some above = rw e at in
                let step = o.elsewhere c x above low' m (λ q. ne (sym e ∙ q)) h'' upc in
                omega (arith, step, top)
          ];
    }

pub put-nodes :
    (heap : Heap) (pos : ℕ) (node : HeapNode) → (put heap pos node).nodes ≡ set heap.nodes pos node
unfolding put
put-nodes heap pos node = refl

no_fuel : (heap heap' : Heap) (pos : ℕ) (node : HeapNode) → ¬ (sift_up 0 heap pos node ≡ some heap')
unfolding sift_up
no_fuel heap heap' pos node h = cc

some_eq {ℓ} : {A : Type ℓ} {a b : A} → some a ≡ some b → a ≡ b
some_eq h = cc

sift_up-IsOrdered :
    (fuel : ℕ) (heap heap' : Heap) (pos : ℕ) (node : HeapNode)
    → IsSmall heap
    → pos < length heap.nodes
    → IsOrderedBut heap.nodes pos node
    → sift_up fuel heap pos node ≡ some heap'
    → IsOrdered heap'.nodes
sift_up-IsOrdered zero heap heap' pos node small lt o run = absurd (no_fuel heap heap' pos node run)
sift_up-IsOrdered (suc fuel) heap heap' pos node small lt o run =
    elim (up-cases heap pos node small lt) [
      | inl (inl top) ↦
          let e : put heap pos node ≡ heap' =
            some_eq (sym (sift_up-stop fuel heap pos node (inl top)) ∙ run) in
          rw (← e, put-nodes)
            (fill-IsOrdered heap.nodes pos node lt o (λ y low h. absurd (omega arith)))
      | inl (inr (above, at, low, less)) ↦
          let q = heap_parent_lem pos low (omega arith) in
          let e : put heap pos node ≡ heap' =
            some_eq (sym (sift_up-stop fuel heap pos node (inr (above, at, low, less))) ∙ run) in
          let at' : get_elem? heap.nodes ((pos - 1) / 2) ≡ some above = rw q at at in
          rw (← e, put-nodes)
            (fill-IsOrdered heap.nodes pos node lt o (λ y low' h.
              let same : above ≡ y = some_eq (sym at' ∙ h) in rw (← same) (omega arith)))
      | inr (above, at, low, le) ↦
          let q = heap_parent_lem pos low (omega arith) in
          let at' : get_elem? heap.nodes ((pos - 1) / 2) ≡ some above = rw q at at in
          let len = length-put heap pos above in
          let o' : IsOrderedBut (put heap pos above).nodes (heap_parent pos) node =
            rw (put-nodes, q) (step-IsOrderedBut heap.nodes pos node above lt low at' le o) in
          sift_up-IsOrdered fuel (put heap pos above) heap' (heap_parent pos) node
            (omega (arith, len)) (omega (arith, len, q)) o'
            (sym (sift_up-step fuel heap pos node above low at le) ∙ run)
    ]

-- When a heap of at most 2 ^ 31 times is in order but for one time, which may only be before its
-- parent, the heap that `heap_up` of its position returns is in order.
pub heap_up-IsOrdered :
    (heap heap' : Heap) (pos : ℕ) (node : HeapNode)
    → IsSmall heap
    → get_elem? heap.nodes pos ≡ some node
    → IsOrderedBut heap.nodes pos node
    → heap_up heap pos ≡ some heap'
    → IsOrdered heap'.nodes
unfolding heap_up
heap_up-IsOrdered heap heap' pos node small at o run =
    let run' : sift_up (pos + 1) heap pos node ≡ some heap' = rw at at run in
    let fuel : pos + 1 ≡ suc pos = omega arith in
    sift_up-IsOrdered (pos + 1) heap heap' pos node small (get_elem?-lt heap.nodes pos at) o run'

-- The root is not after any entry.
pub root_first :
    (nodes : List HeapNode) (fuel i : ℕ) (x y : HeapNode)
    → IsOrdered nodes
    → i < fuel
    → get_elem? nodes i ≡ some x
    → get_elem? nodes 0 ≡ some y
    → y.val ≤ x.val
root_first nodes zero i x y o lt h h' = absurd (omega arith)
root_first nodes (suc fuel) i x y o lt h h' = elim (Bool-cases (i == 0)) [
  | inl root ↦
      let e : i ≡ 0 = ground arith in
      let same : y ≡ x = some_eq (sym h' ∙ (rw e at h)) in rw same (omega arith)
  | inr low ↦
      let low' : 0 < i = ground arith in
      let (z, at) = get_elem?-some nodes ((i - 1) / 2) (omega (arith, get_elem?-lt nodes i h)) in
      let first = root_first nodes fuel ((i - 1) / 2) z y o (omega arith) at h' in
      let step = o i x z low' h at in omega (arith, first, step)
]
