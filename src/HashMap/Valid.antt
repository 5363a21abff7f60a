-- ===== src/HashMap/Valid.antt =====
-- The invariant of the whole map of src/data_structures/hashmap.cpp, and the bag of its nodes.
use mathlib.Core.List.{append-nil, map-append}
use custom_redis.Base.{
  ℕ, suc, ◌<◌, ◌≡◌, refl, ◌⊎◌, List, [], ◌∷◌, ◌++◌, flatten, map, Option, none, some, arith, length,
  get_elem?,
}
use custom_redis.HashMap.{Node, Buckets, HTab, HMap, empty_tab}
use custom_redis.HashMap.Tab.{IsTab}

module _ {ℓ} {V : Type ℓ} where
  abbrev nodes_in : Option (Buckets V) → List (Node V)
  nodes_in none = []
  nodes_in (some bs) = flatten bs

  unfoldable pub tab_nodes : HTab V → List (Node V)
  tab_nodes t = nodes_in t.tab

  -- The nodes of both tables, in the order of `hm_keys`.
  unfoldable pub hm_nodes : HMap V → List (Node V)
  hm_nodes m = tab_nodes m.newer ++ tab_nodes m.older

  -- The buckets that the migration has passed are empty.
  abbrev pub IsMigrated : ℕ → Buckets V → Type ℓ
  IsMigrated pos bs = (i : ℕ) → i < pos → get_elem? bs i ≡ some []

  -- A rehash is under way: both tables are there.
  pub record IsBusy (m : HMap V) : Type ℓ where
    pub new_buckets : Buckets V
    pub old_buckets : Buckets V
    pub new_valid : IsTab m.newer new_buckets
    pub old_valid : IsTab m.older old_buckets
    pub migrated : IsMigrated m.migrate_pos old_buckets

  -- No rehash is under way.
  pub record IsSettled (m : HMap V) : Type ℓ where
    pub new_buckets : Buckets V
    pub new_valid : IsTab m.newer new_buckets
    pub no_older : m.older ≡ empty_tab

  -- A map before its first insert.
  pub record IsBlank (m : HMap V) : Type ℓ where
    pub no_newer : m.newer ≡ empty_tab
    pub no_older : m.older ≡ empty_tab

  abbrev pub IsMap : HMap V → Type ℓ
  IsMap m = IsBlank m ⊎ IsSettled m ⊎ IsBusy m

  pub tab_nodes-held : (t : HTab V) (bs : Buckets V) → t.tab ≡ some bs → tab_nodes t ≡ flatten bs
  unfolding tab_nodes
  tab_nodes-held t bs h = rw h

  pub tab_nodes-empty : (t : HTab V) → t ≡ empty_tab → tab_nodes t ≡ []
  unfolding tab_nodes
  tab_nodes-empty t h = rw h

  -- An array whose buckets are all empty holds no node.
  pub flatten-migrated : (bs : Buckets V) → IsMigrated (length bs) bs → flatten bs ≡ []
  unfolding flatten
  flatten-migrated [] h = refl
  flatten-migrated (c ∷ bs) h =
      let first : c ≡ [] = cc (h 0 (omega arith)) in
      rw first (flatten-migrated bs (λ i lt. h (suc i) (omega arith)))

module _ {ℓ κ} {V : Type ℓ} {B : Type κ} (f : Node V → B) (m : HMap V) where
  pub hm_nodes-busy :
      (b : IsBusy m)
      → map f (hm_nodes m) ≡ map f (flatten b.new_buckets) ++ map f (flatten b.old_buckets)
  unfolding hm_nodes
  hm_nodes-busy b = rw (
    tab_nodes-held m.newer b.new_buckets b.new_valid.held,
    tab_nodes-held m.older b.old_buckets b.old_valid.held,
    map-append,
  )

  pub hm_nodes-settled : (b : IsSettled m) → map f (hm_nodes m) ≡ map f (flatten b.new_buckets)
  unfolding hm_nodes
  hm_nodes-settled b = rw (
    tab_nodes-held m.newer b.new_buckets b.new_valid.held,
    tab_nodes-empty m.older b.no_older,
    append-nil,
  )

  pub hm_nodes-blank : (b : IsBlank m) → map f (hm_nodes m) ≡ []
  unfolding hm_nodes
  hm_nodes-blank b = rw (tab_nodes-empty m.newer b.no_newer, tab_nodes-empty m.older b.no_older)
