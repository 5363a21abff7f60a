-- ===== src/Timers/Insert.antt =====
-- `set_ttl` of src/server.cpp: a new time in the heap.
use mathlib.Core.List.{perm_append_comm}
use mathlib.Core.List.Perm
use custom_redis.Base.{
  ℕ, ◌+◌, ◌-◌, ◌/◌, ◌^◌, ◌≤◌, ◌<◌, ◌≡◌, ◌≢◌, sym, ap, ◌∙◌, inl, inr, [], ◌∷◌, ◌++◌, Perm, none,
  some, arith, ◌==◌, Bool-cases, Option-cases, length, length-append, get_elem?, get_elem?-lt,
  Returns,
}
use custom_redis.Heap.{HeapNode, Heap, heap_left, put, heap_fix}
use custom_redis.Heap.Refs.{IsSmall, heap_parent_lem, Refers, RefersBut, set_same}
use custom_redis.Heap.Moves.{fix-cases, heap_fix-Keeps, heap_down-leaf}
use custom_redis.Heap.Order.{IsOrdered, IsOrderedBut, heap_up-IsOrdered, put-nodes}
use custom_redis.Timers.{expiry, set_ttl}
use custom_redis.Timers.Places.{IsAbsent, get_append, get_before, get_last}

-- The heap with the new time behind the others.
abbrev pushed : ℕ → Heap → ℕ → ℕ → Heap
pushed curr_ms heap entry ttl = record heap {
  nodes = heap.nodes ++ (expiry curr_ms ttl entry ∷ []);
}

module _ (curr_ms : ℕ) (heap : Heap) (entry ttl : ℕ) where
  length-pushed : length (pushed curr_ms heap entry ttl).nodes ≡ length heap.nodes + 1
  length-pushed = length-append heap.nodes (expiry curr_ms ttl entry ∷ [])

  set_ttl-fix :
      set_ttl curr_ms heap entry ttl ≡ heap_fix (pushed curr_ms heap entry ttl) (length heap.nodes)
  unfolding set_ttl
  set_ttl-fix =
      let e : length (heap.nodes ++ (expiry curr_ms ttl entry ∷ [])) - 1 ≡ length heap.nodes =
        omega (arith, length-pushed) in
      ap (heap_fix (pushed curr_ms heap entry ttl)) e

  pushed-RefersBut :
      Refers heap
      → IsAbsent entry heap
      → RefersBut (pushed curr_ms heap entry ttl) (length heap.nodes) (expiry curr_ms ttl entry)
  pushed-RefersBut r absent i x at ne =
      let at' = get_before heap.nodes (expiry curr_ms ttl entry) x i ne at in
      (r i x at', absent i x at')

  set_ttl-Keeps :
      length heap.nodes < 2 ^ 31
      → Refers heap
      → IsAbsent entry heap
      → Returns
          (set_ttl curr_ms heap entry ttl)
          λ heap'. Refers heap' × Perm heap'.nodes (expiry curr_ms ttl entry ∷ heap.nodes)
  set_ttl-Keeps small r absent =
      let node = expiry curr_ms ttl entry in
      let (heap', run, (r', bag)) =
        heap_fix-Keeps (pushed curr_ms heap entry ttl) (length heap.nodes) node
          (omega (arith, length-pushed)) (get_last heap.nodes node) (pushed-RefersBut r absent) in
      (heap', set_ttl-fix ∙ run, (r', Perm.trans bag (perm_append_comm heap.nodes (node ∷ []))))

  -- Nothing stands below the new time.
  no_child :
      (n : ℕ) (x : HeapNode)
      → length heap.nodes < n
      → ¬ (get_elem? (pushed curr_ms heap entry ttl).nodes n ≡ some x)
  no_child n x lt h =
      omega (arith, length-pushed, get_elem?-lt (pushed curr_ms heap entry ttl).nodes n h)

  pushed-IsOrderedBut :
      IsOrdered heap.nodes
      → IsOrderedBut
          (pushed curr_ms heap entry ttl).nodes
          (length heap.nodes)
          (expiry curr_ms ttl entry)
  pushed-IsOrderedBut o =
      let node = expiry curr_ms ttl entry in
      record {
        elsewhere = λ i x y low ne ne' h h'.
            o i x y low (get_before heap.nodes node x i ne h)
              (get_before heap.nodes node y ((i - 1) / 2) ne' h');
        below = λ c x low e h. absurd (no_child c x (omega arith) h);
        across = λ c x y low low' e h h'. absurd (no_child c x (omega arith) h);
      }

  -- Behind a parent that is not after it the new time is in order.
  pushed-IsOrdered :
      IsOrdered heap.nodes
      → ((y : HeapNode)
          → 0 < length heap.nodes
          → get_elem? heap.nodes ((length heap.nodes - 1) / 2) ≡ some y
          → y.val ≤ (expiry curr_ms ttl entry).val)
      → IsOrdered (pushed curr_ms heap entry ttl).nodes
  pushed-IsOrdered o above i x y low h h' =
      let node = expiry curr_ms ttl entry in
      elim (Bool-cases (i == length heap.nodes)) [
        | inl same ↦
            let e : i ≡ length heap.nodes = ground arith in
            let last : some node ≡ some x = sym (get_last heap.nodes node) ∙ (rw e at h) in
            let e' : node ≡ x = cc last in
            let up = get_before heap.nodes node y ((i - 1) / 2) (λ q. omega arith) h' in
            rw (← e') (above y (omega arith) (rw e at up))
        | inr other ↦
            let ne : i ≢ length heap.nodes = ground arith in
            let at = get_before heap.nodes node x i ne h in
            let ne' : (i - 1) / 2 ≢ length heap.nodes =
              λ q. omega (arith, get_elem?-lt heap.nodes i at) in
            o i x y low at (get_before heap.nodes node y ((i - 1) / 2) ne' h')
      ]

  leaf : get_elem? (pushed curr_ms heap entry ttl).nodes (heap_left (length heap.nodes)) ≡ none
  leaf =
      elim (Option-cases
        (get_elem? (pushed curr_ms heap entry ttl).nodes (heap_left (length heap.nodes)))) [
          | inl gone ↦ gone
          | inr (x, at) ↦ absurd (no_child (heap_left (length heap.nodes)) x (omega arith) at)
        ]

  some_eq : {a b : Heap} → some a ≡ some b → a ≡ b
  some_eq h = cc

  set_ttl-IsOrdered :
      (heap' : Heap)
      → length heap.nodes < 2 ^ 31
      → IsOrdered heap.nodes
      → set_ttl curr_ms heap entry ttl ≡ some heap'
      → IsOrdered heap'.nodes
  set_ttl-IsOrdered heap' small o run =
      let node = expiry curr_ms ttl entry in
      let big = pushed curr_ms heap entry ttl in
      let n = length heap.nodes in
      let at : get_elem? big.nodes n ≡ some node = get_last heap.nodes node in
      let small' : IsSmall big = omega (arith, length-pushed) in
      let run' = sym set_ttl-fix ∙ run in
      elim (fix-cases big n node small' at) [
        | inl (down, after) ↦
            let stays = heap_down-leaf big n node at leaf in
            let e : put big n node ≡ heap' = some_eq (sym stays ∙ sym down ∙ run') in
            let above : (y : HeapNode)
                → 0 < n
                → get_elem? heap.nodes ((n - 1) / 2) ≡ some y
                → y.val ≤ node.val =
              λ y low h. after y low (
                rw (heap_parent_lem n low small)
                  (get_append heap.nodes (node ∷ []) ((n - 1) / 2) y h)) in
            rw (← e, put-nodes, set_same big.nodes n node at) (pushed-IsOrdered o above)
        | inr (parent, low, at', less, up) ↦
            heap_up-IsOrdered big heap' n node small' at (pushed-IsOrderedBut o) (sym up ∙ run')
      ]

  -- On an ordered heap below 2 ^ 31 whose references agree, and for an entry that has no time in
  -- it, `set_ttl` returns an ordered heap whose references agree, with exactly the new time more.
  pub set_ttl-inserts :
      length heap.nodes < 2 ^ 31
      → Refers heap
      → IsOrdered heap.nodes
      → IsAbsent entry heap
      → Returns (set_ttl curr_ms heap entry ttl) λ heap'.
        Refers heap'
        × IsOrdered heap'.nodes
        × Perm heap'.nodes (expiry curr_ms ttl entry ∷ heap.nodes)
  set_ttl-inserts small r o absent =
      let (heap', run, (r', bag)) = set_ttl-Keeps small r absent in
      (heap', run, (r', set_ttl-IsOrdered heap' small o run, bag))
