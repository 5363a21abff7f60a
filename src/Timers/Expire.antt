-- ===== src/Timers/Expire.antt =====
-- The last loop of `process_timers` of src/server.cpp: entries whose time is over.
use mathlib.Core.List.Perm
use custom_redis.Base.{
  ℕ, ◌≤◌, ◌<◌, ◌≡◌, ◌⊎◌, List, [], ◌∷◌, ◌++◌, Perm, Bool, Option, some, length, get_elem?, All,
  ◌>>=◌,
}
use custom_redis.HashMap.{HMap, hm_delete_free}
use custom_redis.HashMap.Valid.{IsMap}
use custom_redis.Heap.{HeapNode, Heap}
use custom_redis.Heap.Refs.{Refers}

module _ {ℓ} {V : Type ℓ} (unlink_val : V → V) (is_large : V → Bool) (key : ℕ → List ℕ)
    (hcode : ℕ → ℕ) where
  -- The entries of these times are deleted one after the other.
  unfoldable pub delete_all : List HeapNode → HMap V → Option (HMap V)
  delete_all [] db = some db
  delete_all (x ∷ xs) db =
      let rest = hm_delete_free unlink_val is_large db (key x.pos_ref) (hcode x.pos_ref) in
      rest >>= λ (deleted, db'). delete_all xs db'

  -- The loop has taken out `gone`, with at most `rounds` rounds.
  pub record Expires (rounds curr_ms : ℕ) (heap : Heap) (db : HMap V) (r : Heap × HMap V)
      : Type ℓ where
    pub gone : List HeapNode
    pub refers : Refers r.0
    pub valid : IsMap r.1
    pub bag : Perm heap.nodes (gone ++ r.0.nodes)
    pub over : All (λ (x : HeapNode). x.val < curr_ms) gone
    pub deleted : delete_all gone db ≡ some r.1
    pub finished :
        (length gone ≡ rounds)
        ⊎ ((length gone < rounds)
            × ((x : HeapNode) → get_elem? r.0.nodes 0 ≡ some x → curr_ms ≤ x.val))
