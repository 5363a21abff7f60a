-- ===== src/DList.antt =====
-- Doubly linked lists: src/data_structures/dlist.h and src/data_structures/dlist.cpp.
-- A node is named by its address, 0 is NULL, and the two fields of all nodes are the state. What a
-- node carries, `val`, is not touched by these functions.
pub mod Ring
pub mod Deatach
mod Tests
use custom_redis.Base.{ℕ, Bool, ◌==◌, if◌then◌else◌}

pub record Links : Type 0 where
  pub prev : ℕ → ℕ
  pub next : ℕ → ℕ

-- `p->prev = v`
unfoldable pub write_prev : Links → ℕ → ℕ → Links
write_prev s p v = record s { prev = λ q. if q == p then v else s.prev q }

-- `p->next = v`
unfoldable pub write_next : Links → ℕ → ℕ → Links
write_next s p v = record s { next = λ q. if q == p then v else s.next q }

unfoldable pub dlist_init : Links → ℕ → Links
unfolding write_prev write_next
dlist_init s node = write_next (write_prev s node node) node node

unfoldable pub dlist_empty : Links → ℕ → Bool
dlist_empty s node = s.next node == node

-- The node's own links stay as they are.
unfoldable pub dlist_deatach : Links → ℕ → Links
unfolding write_prev write_next
dlist_deatach s node =
    let next = s.next node in
    let prev = s.prev node in
    let s₁ = if prev == 0 then s else write_next s prev next in
    if next == 0 then s₁ else write_prev s₁ next prev

unfoldable pub dlist_insert_before : Links → ℕ → ℕ → Links
unfolding write_prev write_next
dlist_insert_before s target node =
    let prev = s.prev target in
    let s₁ = write_prev s target node in
    let s₂ = write_next s₁ node target in
    let s₃ = write_prev s₂ node prev in if prev == 0 then s₃ else write_next s₃ prev node

unfoldable pub dlist_insert_after : Links → ℕ → ℕ → Links
unfolding write_prev write_next
dlist_insert_after s target node =
    let next = s.next target in
    let s₁ = write_next s target node in
    let s₂ = write_prev s₁ node target in
    let s₃ = write_next s₂ node next in if next == 0 then s₃ else write_prev s₃ next node
