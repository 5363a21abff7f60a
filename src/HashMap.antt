-- ===== src/HashMap.antt =====
-- The hash table with chaining and progressive rehashing: src/data_structures/hashmap.h and
-- src/data_structures/hashmap.cpp.
-- A chain of `HNode`s is the list of its nodes, and a bucket array is a list of chains. A pointer to
-- a link, `HNode **`, is a slot: the bucket and the number of nodes before the link. What a node
-- carries beside its key and its hash is a type `V`, since the program stores nodes of all types in
-- one table and only plain ones in the tables within. `unlink_val` is what `ht_unlink` does to
-- the value of the node that it takes out, whether at once or as a job of the thread pool.
-- `none` is a fault: a read or write out of bounds or through NULL, or a failed assertion. The counts
-- of nodes are bounded by memory, so `size++` does not wrap.
pub mod Buckets
pub mod Tab
pub mod Valid
pub mod Steps
pub mod Rehash
pub mod Insert
pub mod Hits
pub mod Lookup
pub mod Delete
pub mod Probes
pub mod Refine
pub mod Keys
pub mod Find
pub mod Seen
mod Tests
use custom_redis.Base.{
  ℕ, zero, suc, ◌+◌, ◌-◌, ◌*◌, ◌^◌, bit_and, Bool, ◌&&◌, List, [], ◌∷◌, ◌++◌, map, Option, none,
  some, ltb, leb, ◌==◌, bytes_eq, if◌then◌else◌, get_elem?, set, replicate, ◌>>=◌,
}

pub record Node {ℓ} (V : Type ℓ) : Type ℓ where
  pub key : List ℕ
  pub hcode : ℕ
  pub val : V

abbrev pub Buckets {ℓ} : Type ℓ → Type ℓ
Buckets V = List (List (Node V))

pub record HTab {ℓ} (V : Type ℓ) : Type ℓ where
  pub tab : Option (Buckets V)
  pub mask : ℕ
  pub size : ℕ

pub record HMap {ℓ} (V : Type ℓ) : Type ℓ where
  pub older : HTab V
  pub newer : HTab V
  pub migrate_pos : ℕ

pub record Slot : Type 0 where
  pub pos : ℕ
  pub depth : ℕ

abbrev pub max_load_factor : ℕ
max_load_factor = 8

abbrev pub rehashing_work : ℕ
rehashing_work = 128

-- The characters that `strcmp` reads: those before the first '\0'.
unfoldable pub c_str : List ℕ → List ℕ
c_str [] = []
c_str (c ∷ s) = if c == 0 then [] else c ∷ c_str s

-- `curr->hcode == node->hcode && !strcmp(node->key->buf, curr->key->buf)`
unfoldable pub matches {ℓ} : {V : Type ℓ} → List ℕ → ℕ → Node V → Bool
matches key hcode curr = curr.hcode == hcode && bytes_eq (c_str key) (c_str curr.key)

-- `size--` of a `size_t`.
unfoldable pub size_pred : ℕ → ℕ
size_pred n = if n == 0 then 2 ^ 64 - 1 else n - 1

module _ {ℓ} {V : Type ℓ} where
  -- `HTab{}`
  abbrev pub empty_tab : HTab V
  empty_tab = record { tab = none; mask = 0; size = 0 }

  -- `HMap{}`
  abbrev pub empty_map : HMap V
  empty_map = record { older = empty_tab; newer = empty_tab; migrate_pos = 0 }

  unfoldable pub h_init : ℕ → Option (HTab V)
  h_init n =
      if ltb 0 n && bit_and (n - 1) n == 0
      then some (record { tab = some (replicate n []); mask = n - 1; size = 0 })
      else none

  unfoldable pub hm_rehash : HMap V → Option (HMap V)
  hm_rehash m = do
    newer ← h_init (2 * (m.newer.mask + 1))
    some (record { older = m.newer; newer = newer; migrate_pos = 0 })

  -- The `while` over a chain: the number of nodes before the first that matches.
  unfoldable pub find_depth : List ℕ → ℕ → List (Node V) → Option ℕ
  find_depth key hcode [] = none
  find_depth key hcode (curr ∷ chain) =
      if matches key hcode curr then some 0 else (find_depth key hcode chain >>= λ d. some (suc d))

  -- The inner `none` is the NULL of a key that is not there.
  unfoldable pub ht_lookup_in : HTab V → List ℕ → ℕ → Option (Buckets V) → Option (Option Slot)
  unfolding find_depth
  ht_lookup_in t key hcode none = some none
  ht_lookup_in t key hcode (some tab) = do
    let pos = bit_and hcode t.mask
    chain ← get_elem? tab pos
    some (find_depth key hcode chain >>= λ d. some (record { pos = pos; depth = d }))

  unfoldable pub ht_lookup : HTab V → List ℕ → ℕ → Option (Option Slot)
  unfolding ht_lookup_in
  ht_lookup t key hcode = ht_lookup_in t key hcode t.tab

  -- `*slot`
  unfoldable pub at_slot : HTab V → Slot → Option (Node V)
  at_slot t slot = do tab ← t.tab; chain ← get_elem? tab slot.pos; get_elem? chain slot.depth

  -- `*from = to_delete->next`
  unfoldable pub unlink_at : List (Node V) → ℕ → List (Node V)
  unlink_at [] d = []
  unlink_at (n ∷ chain) zero = chain
  unlink_at (n ∷ chain) (suc d) = n ∷ unlink_at chain d

  unfoldable pub ht_insert : HTab V → Node V → Option (HTab V)
  ht_insert t node = do
    let pos = bit_and node.hcode t.mask
    tab ← t.tab
    next ← get_elem? tab pos
    some (record t { tab = some (set tab pos (node ∷ next)); size = t.size + 1 })

  -- `for (i = 0; i <= mask; i++)`, from `i` on with `n` rounds left
  h_foreach_from : ℕ → ℕ → Buckets V → Option (List (List ℕ))
  h_foreach_from zero i tab = some []
  h_foreach_from (suc n) i tab =
      let rest = h_foreach_from n (suc i) tab in
      get_elem? tab i >>= λ chain.
      rest >>= λ keys. some (map (λ (curr : Node V). curr.key) chain ++ keys)

  -- Without an array every round is a `continue`.
  h_foreach_in : ℕ → Option (Buckets V) → Option (List (List ℕ))
  unfolding h_foreach_from
  h_foreach_in mask none = some []
  h_foreach_in mask (some tab) = h_foreach_from (mask + 1) 0 tab

  unfoldable pub h_foreach : HTab V → Option (List (List ℕ))
  unfolding h_foreach_in
  h_foreach t = h_foreach_in t.mask t.tab

  unfoldable pub hm_keys : HMap V → Option (List (List ℕ))
  hm_keys m = do a ← h_foreach m.newer; b ← h_foreach m.older; some (a ++ b)

  unfoldable pub hm_size : HMap V → ℕ
  hm_size m = m.newer.size + m.older.size

  unfoldable pub hm_clear : HMap V → HMap V
  hm_clear m = empty_map

  -- The older table is searched first.
  unfoldable pub hm_lookup : HMap V → List ℕ → ℕ → Option (Option (Node V))
  hm_lookup m key hcode = do
    found ← ht_lookup m.older key hcode
    elim found [
      | some slot ↦ (at_slot m.older slot >>= λ n. some (some n))
      | none ↦
          (ht_lookup m.newer key hcode >>= λ found'. elim found' [
            | some slot ↦ (at_slot m.newer slot >>= λ n. some (some n))
            | none ↦ some none
          ])
    ]

  -- Each round moves a node or a position on.
  abbrev pub rehash_fuel : HMap V → ℕ
  rehash_fuel m = rehashing_work + m.older.mask + 2

  unfoldable pub free_older : HMap V → HMap V
  free_older m = elim m.older.tab [
    | none ↦ m
    | some _ ↦ if m.older.size == 0 then record m { older = empty_tab } else m
  ]

  -- `if (!hmap->newer.tab) h_init(&hmap->newer, 4)`
  unfoldable pub ready : HMap V → Option (HMap V)
  ready m = elim m.newer.tab [
    | none ↦ (h_init 4 >>= λ newer. some (record m { newer = newer }))
    | some _ ↦ some m
  ]

  -- The start of a rehash, when none is under way and the newer table is full.
  unfoldable pub grow : HMap V → Option (HMap V)
  grow m = elim m.older.tab [
    | none ↦ if leb ((m.newer.mask + 1) * max_load_factor) m.newer.size then hm_rehash m else some m
    | some _ ↦ some m
  ]

module _ {ℓ} {V : Type ℓ} (unlink_val : V → V) where
  -- Callers pass a slot that holds a node. `unlink_val` says what becomes of its value, whether it is
  -- cleared or handed to the thread pool.
  unfoldable pub ht_unlink : HTab V → Slot → Option (Node V × HTab V)
  unfolding unlink_at size_pred
  ht_unlink t slot = do
    tab ← t.tab
    chain ← get_elem? tab slot.pos
    to_delete ← get_elem? chain slot.depth
    some (
      record to_delete { val = unlink_val to_delete.val },
      record t {
        tab = some (set tab slot.pos (unlink_at chain slot.depth));
        size = size_pred t.size;
      },
    )

  -- The `while` of `hm_rehash_help`; the first argument bounds its rounds.
  unfoldable pub rehash_loop : ℕ → ℕ → HMap V → Option (HMap V)
  rehash_loop zero nwork m = none
  rehash_loop (suc fuel) nwork m =
      let skip = rehash_loop fuel nwork (record m { migrate_pos = m.migrate_pos + 1 }) in
      let move = ht_unlink m.older (record { pos = m.migrate_pos; depth = 0 }) >>= λ (node, older).
      ht_insert m.newer node >>= λ newer.
      rehash_loop fuel (nwork + 1) (record m { older = older; newer = newer }) in
      let step = m.older.tab >>= λ tab.
      get_elem? tab m.migrate_pos >>= λ slot. elim slot [ [] ↦ skip | _ ∷ _ ↦ move ] in
      if ltb nwork rehashing_work && ltb 0 m.older.size then step else some m

  unfoldable pub hm_rehash_help : HMap V → Option (HMap V)
  hm_rehash_help m = do m' ← rehash_loop (rehash_fuel m) 0 m; some (free_older m')

  unfoldable pub hm_insert : HMap V → Node V → Option (HMap V)
  hm_insert m node = do
    m₁ ← ready m
    newer ← ht_insert m₁.newer node
    m₂ ← grow (record m₁ { newer = newer })
    hm_rehash_help m₂

  -- Without `do_free`: 1 if a node was unlinked, else 0.
  unfoldable pub hm_delete : HMap V → List ℕ → ℕ → Option (ℕ × HMap V)
  hm_delete m key hcode = do
    found ← ht_lookup m.older key hcode
    elim found [
      | some slot ↦
          (ht_unlink m.older slot >>= λ (del, older). some (1, record m { older = older }))
      | none ↦
          (ht_lookup m.newer key hcode >>= λ found'. elim found' [
            | some slot ↦
                (ht_unlink m.newer slot >>= λ (del, newer). some (1, record m { newer = newer }))
            | none ↦ some (0, m)
          ])
    ]

  -- `hm_delete` with `do_free`. `is_large` is the test of `ht_unlink` on the value: the node of such a
  -- value has been handed to the thread pool, and a free of it is a fault. The node that is unlinked
  -- is the one that a lookup finds.
  unfoldable pub hm_delete_free : (V → Bool) → HMap V → List ℕ → ℕ → Option (ℕ × HMap V)
  unfolding hm_lookup hm_delete
  hm_delete_free is_large m key hcode = do
    found ← hm_lookup m key hcode
    done ← hm_delete m key hcode
    elim found [ none ↦ some done | some del ↦ if is_large del.val then none else some done ]
