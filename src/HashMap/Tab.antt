-- ===== src/HashMap/Tab.antt =====
-- The invariant of one table of src/data_structures/hashmap.cpp, and `h_init`, `ht_insert` and
-- `ht_unlink` on it.
use custom_redis.Base.{
  ℕ, zero, suc, ◌+◌, ◌-◌, ◌^◌, ◌<◌, bit_and, ◌≡◌, ◌≢◌, refl, ◌∙◌, List, [], ◌∷◌, flatten, map, Perm,
  some, arith, length, get_elem?, set, replicate, All, length-set, length-replicate, get_elem?-set,
  get_elem?-some, get_elem?-lt, Returns, ◌==◌, Bool-cases, inl, inr,
}
use custom_redis.Base.Bits.{bit_and-le, bit_and-pow_pred, pow-pos}
use custom_redis.HashMap.{
  Node, Buckets, HTab, Slot, h_init, unlink_at, size_pred, ht_insert, ht_unlink,
}
use custom_redis.HashMap.Buckets.{
  flatten_insert, flatten_unlink, length-flatten_insert, length-flatten_unlink,
}

-- `t` is the table with the buckets `bs`: their number is a power of two, `size` counts the nodes,
-- and a node stands in the bucket that its hash selects.
pub record IsTab {ℓ} {V : Type ℓ} (t : HTab V) (bs : Buckets V) : Type ℓ where
  pub held : t.tab ≡ some bs
  pub width : length bs ≡ t.mask + 1
  pub power : (k : ℕ) × (t.mask + 1 ≡ 2 ^ k)
  pub counted : t.size ≡ length (flatten bs)
  pub placed :
      (i : ℕ) (c : List (Node V))
      → get_elem? bs i ≡ some c
      → All (λ n. bit_and n.hcode t.mask ≡ i) c

module _ {ℓ κ} {V : Type ℓ} (P : Node V → Type κ) where
  All-unlink_at : (c : List (Node V)) (d : ℕ) → All P c → All P (unlink_at c d)
  unfolding unlink_at
  All-unlink_at [] d a = a
  All-unlink_at (n ∷ c) zero a = a.1
  All-unlink_at (n ∷ c) (suc d) a = (a.0, All-unlink_at c d a.1)

module _ {ℓ} {V : Type ℓ} where
  pub flatten-replicate : (n : ℕ) → flatten {A = Node V} (replicate n []) ≡ []
  unfolding flatten
  flatten-replicate zero = refl
  flatten-replicate (suc n) = flatten-replicate n

  get_elem?-replicate_nil :
      (n i : ℕ) (c : List (Node V)) → get_elem? (replicate n []) i ≡ some c → c ≡ []
  get_elem?-replicate_nil zero i c h = cc
  get_elem?-replicate_nil (suc n) zero c h = cc
  get_elem?-replicate_nil (suc n) (suc i) c h = get_elem?-replicate_nil n i c h

  -- `h_init` of a power of two passes its assertion and makes a valid table with so many buckets
  -- and no nodes.
  pub h_init-IsTab :
      (n k : ℕ)
      → n ≡ 2 ^ k
      → Returns (h_init {V = V} n) λ t. IsTab t (replicate n []) × (t.mask + 1 ≡ n) × (t.size ≡ 0)
  unfolding h_init
  h_init-IsTab n k e =
      let pos : 0 < n = rw e (pow-pos k) in
      let test : bit_and (n - 1) n ≡ 0 = rw e (bit_and-pow_pred k) in
      (
        record { tab = some (replicate n []); mask = n - 1; size = 0 },
        ground (arith, test),
        (
          record {
            held = refl;
            width = rw length-replicate (omega arith);
            power = (k, rw (← e) (omega arith));
            counted = rw flatten-replicate;
            placed = λ i c h. rw (get_elem?-replicate_nil n i c h) tt;
          },
          omega arith,
          refl,
        ),
      )

  -- The index of a hash is within the array.
  pub index-lt : {t : HTab V} {bs : Buckets V} → IsTab t bs → (h : ℕ) → bit_and h t.mask < length bs
  index-lt {t} v h = omega (arith, v.width, bit_and-le h t.mask)

  set-placed :
      (t : HTab V) (bs : Buckets V) (i : ℕ) (new : List (Node V))
      → IsTab t bs
      → i < length bs
      → All (λ n. bit_and n.hcode t.mask ≡ i) new
      → (j : ℕ) (c : List (Node V)) → get_elem? (set bs i new) j ≡ some c
      → All (λ n. bit_and n.hcode t.mask ≡ j) c
  set-placed t bs i new v lt a j c h = elim (Bool-cases (i == j)) [
    | inl same ↦
        let e : i ≡ j = ground arith in
        let e' : new ≡ c = ground (arith, get_elem?-set bs i j new lt) in rw (← e, ← e') a
    | inr other ↦ v.placed j c (ground (arith, get_elem?-set bs i j new lt))
  ]

-- `t'` with buckets `bs'` holds one node more than `t`, as far as `f` sees.
pub record Adds {ℓ κ} {V : Type ℓ} {B : Type κ} (f : Node V → B) (t : HTab V) (bs : Buckets V)
    (n : Node V) (t' : HTab V) : Type (ℓ ⊔ κ) where
  pub buckets : Buckets V
  pub valid : IsTab t' buckets
  pub mask : t'.mask ≡ t.mask
  pub bag : Perm (map f (flatten buckets)) (f n ∷ map f (flatten bs))

module _ {ℓ κ} {V : Type ℓ} {B : Type κ} (f : Node V → B) where
  -- `ht_insert` into a valid table does not fault, keeps the table valid with the same mask, and
  -- adds exactly the new node to the bag of nodes.
  pub ht_insert-Adds :
      (t : HTab V) (bs : Buckets V) (n : Node V)
      → IsTab t bs
      → Returns (ht_insert t n) (Adds f t bs n)
  unfolding ht_insert
  ht_insert-Adds t bs n v =
      let i = bit_and n.hcode t.mask in
      let lt : i < length bs = index-lt v n.hcode in
      let (c, at) = get_elem?-some bs i lt in
      (
        record t { tab = some (set bs i (n ∷ c)); size = t.size + 1 },
        rw (v.held, at),
        record {
          buckets = set bs i (n ∷ c);
          valid = record {
            held = refl;
            width = length-set bs i (n ∷ c) ∙ v.width;
            power = v.power;
            counted = omega (arith, v.counted, length-flatten_insert bs i c n at);
            placed = set-placed t bs i (n ∷ c) v lt (refl, v.placed i c at);
          };
          mask = refl;
          bag = flatten_insert f bs i c n at;
        },
      )

-- `t'` with buckets `bs'` holds one node less than `t`, as far as `f` sees: `n`, which stood at `pos`.
pub record Removes {ℓ κ} {V : Type ℓ} {B : Type κ} (f : Node V → B) (t : HTab V) (bs : Buckets V)
    (pos : ℕ) (n : Node V) (t' : HTab V) : Type (ℓ ⊔ κ) where
  pub buckets : Buckets V
  pub valid : IsTab t' buckets
  pub mask : t'.mask ≡ t.mask
  pub bag : Perm (map f (flatten bs)) (f n ∷ map f (flatten buckets))
  pub others : (j : ℕ) → pos ≢ j → get_elem? buckets j ≡ get_elem? bs j

module _ {ℓ κ} {V : Type ℓ} {B : Type κ} (unlink_val : V → V) (f : Node V → B) where
  -- `ht_unlink` at a slot that holds a node does not fault, returns this node with its value
  -- unlinked, keeps the table valid, with the same mask and the other buckets as they were, and
  -- takes exactly this node out of the bag of nodes.
  pub ht_unlink-Removes :
      (t : HTab V) (bs : Buckets V) (slot : Slot) (c : List (Node V)) (n : Node V)
      → IsTab t bs
      → get_elem? bs slot.pos ≡ some c
      → get_elem? c slot.depth ≡ some n
      → Returns
          (ht_unlink unlink_val t slot)
          λ r. (r.0 ≡ record n { val = unlink_val n.val }) × Removes f t bs slot.pos n r.1
  unfolding ht_unlink
  ht_unlink-Removes t bs slot c n v at here =
      let lt = get_elem?-lt bs slot.pos at in
      let rest = unlink_at c slot.depth in
      let fewer = length-flatten_unlink bs slot.pos c slot.depth n at here in
      (
        (
          record n { val = unlink_val n.val },
          record t { tab = some (set bs slot.pos rest); size = size_pred t.size },
        ),
        rw (v.held, at, here),
        (
          refl,
          record {
            buckets = set bs slot.pos rest;
            valid = record {
              held = refl;
              width = length-set bs slot.pos rest ∙ v.width;
              power = v.power;
              counted = ground (arith, v.counted, fewer);
              placed = set-placed t bs slot.pos rest v lt (
                  All-unlink_at (λ (m : Node V). bit_and m.hcode t.mask ≡ slot.pos) c slot.depth
                    (v.placed slot.pos c at));
            };
            mask = refl;
            bag = flatten_unlink f bs slot.pos slot.depth c n at here;
            others = λ j ne. ground (arith, get_elem?-set bs slot.pos j rest lt);
          },
        ),
      )
