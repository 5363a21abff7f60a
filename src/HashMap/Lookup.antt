-- ===== src/HashMap/Lookup.antt =====
-- `ht_lookup` and `hm_lookup` of src/data_structures/hashmap.cpp against a search of all the nodes.
use mathlib.Core.List.{head?}
use custom_redis.Base.{
  ℕ, bit_and, ◌≡◌, refl, ◌∙◌, ◌⊎◌, inl, inr, List, [], ◌∷◌, ◌++◌, none, some, get_elem?,
  get_elem?-some, Option-cases, ◌>>=◌,
}
use custom_redis.HashMap.{
  Node, Buckets, HTab, HMap, Slot, empty_tab, find_depth, ht_lookup, at_slot, hm_lookup,
}
use custom_redis.HashMap.Tab.{IsTab, index-lt}
use custom_redis.HashMap.Hits.{
  hits, hits-nil, hits-append, hits-bucket, find_depth-none, find_depth-some,
}
use custom_redis.HashMap.Valid.{tab_nodes, tab_nodes-held, tab_nodes-empty, IsMap}

module _ {ℓ} {V : Type ℓ} where
  -- The nodes in the order in which `hm_lookup` and `hm_delete` search them.
  abbrev pub search_order : HMap V → List (Node V)
  search_order m = tab_nodes m.older ++ tab_nodes m.newer

  -- A table that is not there, or a valid one.
  abbrev pub IsTable : HTab V → Type ℓ
  IsTable t = (t ≡ empty_tab) ⊎ ((bs : Buckets V) × IsTab t bs)

  pub tables : (m : HMap V) → IsMap m → IsTable m.older × IsTable m.newer
  tables m (inl b) = (inl b.no_older, inl b.no_newer)
  tables m (inr (inl s)) = (inl s.no_older, inr (s.new_buckets, s.new_valid))
  tables m (inr (inr b)) = (inr (b.old_buckets, b.old_valid), inr (b.new_buckets, b.new_valid))

module _ {ℓ} {V : Type ℓ} (key : List ℕ) (hcode : ℕ) where
  -- `ht_lookup` returned NULL, and no node matches.
  pub record Misses (t : HTab V) : Type ℓ where
    pub run : ht_lookup t key hcode ≡ some none
    pub absent : hits key hcode (tab_nodes t) ≡ []

  -- `ht_lookup` returned the link to the first node that matches.
  pub record Finds (t : HTab V) (bs : Buckets V) : Type ℓ where
    pub slot : Slot
    pub chain : List (Node V)
    pub node : Node V
    pub run : ht_lookup t key hcode ≡ some (some slot)
    pub bucket : get_elem? bs slot.pos ≡ some chain
    pub link : get_elem? chain slot.depth ≡ some node
    pub first : head? (hits key hcode (tab_nodes t)) ≡ some node

  pub ht_lookup-empty : (t : HTab V) → t ≡ empty_tab → Misses t
  unfolding ht_lookup
  ht_lookup-empty t h = record {
    run = rw h;
    absent = rw (tab_nodes-empty t h) (hits-nil key hcode);
  }

  lookup_eq :
      (t : HTab V) (bs : Buckets V) (c : List (Node V))
      → t.tab ≡ some bs
      → get_elem? bs (bit_and hcode t.mask) ≡ some c
      → ht_lookup t key hcode
        ≡ some (
            find_depth key hcode c >>= λ d. some (record { pos = bit_and hcode t.mask; depth = d }))
  unfolding ht_lookup
  lookup_eq t bs c held at = rw (held, at)

  pub ht_lookup-held : (t : HTab V) (bs : Buckets V) → IsTab t bs → Misses t ⊎ Finds t bs
  ht_lookup-held t bs v =
      let (c, at) = get_elem?-some bs (bit_and hcode t.mask) (index-lt v hcode) in
      let only : hits key hcode (tab_nodes t) ≡ hits key hcode c =
        rw (tab_nodes-held t bs v.held) (hits-bucket key hcode t bs c v at) in
      let run = lookup_eq t bs c v.held at in
      elim (Option-cases (find_depth key hcode c)) [
        | inl gone ↦
            inl (record { run = run ∙ rw gone; absent = only ∙ find_depth-none key hcode c gone })
        | inr (d, found) ↦
            let (n, link, first) = find_depth-some key hcode c d found in
            inr (record {
              slot = record { pos = bit_and hcode t.mask; depth = d };
              chain = c;
              node = n;
              run = run ∙ rw found;
              bucket = at;
              link = link;
              first = rw only first;
            })
      ]

  head?-append_some :
      (xs ys : List (Node V)) (n : Node V) → head? xs ≡ some n → head? (xs ++ ys) ≡ some n
  unfolding head?
  head?-append_some [] ys n h = cc
  head?-append_some (x ∷ xs) ys n h = h

  pub first_older :
      (m : HMap V) (n : Node V)
      → head? (hits key hcode (tab_nodes m.older)) ≡ some n
      → head? (hits key hcode (search_order m)) ≡ some n
  first_older m n h = rw (hits-append key hcode) (head?-append_some _ _ n h)

  pub first_newer :
      (m : HMap V)
      → hits key hcode (tab_nodes m.older) ≡ []
      → hits key hcode (search_order m) ≡ hits key hcode (tab_nodes m.newer)
  first_newer m h = rw (hits-append key hcode, h)

  at_slot-found :
      (t : HTab V) (bs : Buckets V) (c : List (Node V)) (n : Node V) (slot : Slot)
      → t.tab ≡ some bs
      → get_elem? bs slot.pos ≡ some c
      → get_elem? c slot.depth ≡ some n
      → at_slot t slot ≡ some n
  unfolding at_slot
  at_slot-found t bs c n slot held bucket link = rw (held, bucket, link)

  -- The newer table is searched after a miss in the older one.
  lookup_newer :
      (m : HMap V)
      → Misses m.older
      → (Misses m.newer ⊎ ((bs : Buckets V) × IsTab m.newer bs × Finds m.newer bs))
      → hm_lookup m key hcode ≡ some (head? (hits key hcode (search_order m)))
  unfolding hm_lookup
  lookup_newer m gone (inl gone') =
      rw (gone.run, gone'.run, first_newer m gone.absent, gone'.absent) refl
  lookup_newer m gone (inr (bs, v, f)) = rw (
    gone.run,
    f.run,
    at_slot-found m.newer bs f.chain f.node f.slot v.held f.bucket f.link,
    first_newer m gone.absent,
    f.first,
  )

  pub search : (t : HTab V) → IsTable t → Misses t ⊎ ((bs : Buckets V) × IsTab t bs × Finds t bs)
  search t (inl e) = inl (ht_lookup-empty t e)
  search t (inr (bs, v)) = elim (ht_lookup-held t bs v) [
    | inl gone ↦ inl gone
    | inr f ↦ inr (bs, v, f)
  ]

  -- `hm_lookup` on a valid map does not fault and returns the first node, in the order of the
  -- older table and then the newer one, whose hash and key match, or nothing when there is none,
  -- although it reads one bucket of each table only.
  pub hm_lookup_lem :
      (m : HMap V)
      → IsMap m
      → hm_lookup m key hcode ≡ some (head? (hits key hcode (search_order m)))
  unfolding hm_lookup
  hm_lookup_lem m v = elim (search m.older (tables m v).0) [
    | inl gone ↦ lookup_newer m gone (search m.newer (tables m v).1)
    | inr (bs, v', f) ↦ rw (
      f.run,
      at_slot-found m.older bs f.chain f.node f.slot v'.held f.bucket f.link,
      first_older m f.node f.first,
    )
  ]
