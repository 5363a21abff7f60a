-- ===== src/DList/Ring.antt =====
-- The rings of src/data_structures/dlist.cpp: a list is the nodes behind its head, and the head is
-- the neighbour of both ends.
use custom_redis.Base.{
  ℕ, ◌≡◌, ◌≢◌, sym, false, List, [], ◌∷◌, ◌++◌, arith, All, ◌==◌, if◌then◌else◌,
}
use custom_redis.DList.{Links, write_prev, write_next, dlist_init, dlist_empty, dlist_insert_before}

abbrev pub Linked : Links → ℕ → ℕ → Type 0
Linked s a b = (s.next a ≡ b) × (s.prev b ≡ a)

-- From `a` over `xs` to `b`.
unfoldable pub Chain : Links → ℕ → List ℕ → ℕ → Type 0
Chain s a [] b = Linked s a b
Chain s a (x ∷ xs) b = Linked s a x × Chain s x xs b

abbrev pub Avoids : ℕ → List ℕ → Type 0
Avoids a xs = All (λ x. x ≢ a) xs

unfoldable pub AreDistinct : List ℕ → Type 0
AreDistinct [] = Unit
AreDistinct (x ∷ xs) = Avoids x xs × AreDistinct xs

-- The ring of `head` holds the nodes `xs`, in this order.
pub record IsRing (s : Links) (head : ℕ) (xs : List ℕ) : Type 0 where
  pub chain : Chain s head xs head
  pub distinct : AreDistinct (head ∷ xs)
  pub non_null : Avoids 0 (head ∷ xs)

-- The node before `b` is one of those on the way.
pub last_of :
    (P : ℕ → Type 0) (s : Links) (a x b : ℕ) (xs : List ℕ)
    → Chain s a (x ∷ xs) b
    → All P (x ∷ xs)
    → P (s.prev b)
unfolding Chain
last_of P s a x b [] (l, (n, p)) (px, tt') = rw p px
last_of P s a x b (y ∷ xs) (l, c) (px, ps) = last_of P s x y b xs c ps

insert_next :
    (s : Links) (b node q : ℕ)
    → s.prev b ≢ 0
    → (dlist_insert_before s b node).next q
      ≡ (if q == s.prev b then node else if q == node then b else s.next q)
unfolding dlist_insert_before write_prev write_next
insert_next s b node q h = ground arith

insert_prev :
    (s : Links) (b node q : ℕ)
    → s.prev b ≢ 0
    → (dlist_insert_before s b node).prev q
      ≡ (if q == node then s.prev b else if q == b then node else s.prev q)
unfolding dlist_insert_before write_prev write_next
insert_prev s b node q h = ground arith

-- The new node stands last, before `b`.
insert-Chain :
    (s : Links) (a b node : ℕ) (xs : List ℕ)
    → Chain s a xs b
    → AreDistinct (a ∷ xs)
    → Avoids b xs
    → Avoids node (a ∷ xs)
    → b ≢ node
    → s.prev b ≢ 0
    → Chain (dlist_insert_before s b node) a (xs ++ (node ∷ [])) b
unfolding Chain AreDistinct
insert-Chain s a b node [] (n, p) d avoid (fresh, tt') ne h =
    let next = insert_next s b node in
    let prev = insert_prev s b node in
    (
      (ground (arith, next a h, p), ground (arith, prev node h, p)),
      (ground (arith, next node h, p), ground (arith, prev b h, p)),
    )
insert-Chain s a b node (x ∷ xs) ((n, p), c) ((apart, d), d') (off, avoid) (fresh, others) ne h =
    let last = last_of (λ q. q ≢ a) s a x b xs ((n, p), c) (apart, d) in
    let next = insert_next s b node a h in
    let prev = insert_prev s b node x h in
    (
      (ground (arith, next, last, n), ground (arith, prev, others.0, p)),
      insert-Chain s x b node xs c d' avoid others ne h,
    )

All-snoc : (P : ℕ → Type 0) (xs : List ℕ) (y : ℕ) → All P xs → P y → All P (xs ++ (y ∷ []))
All-snoc P [] y a p = (p, tt)
All-snoc P (x ∷ xs) y (px, a) p = (px, All-snoc P xs y a p)

AreDistinct-snoc :
    (xs : List ℕ) (y : ℕ) → AreDistinct xs → Avoids y xs → AreDistinct (xs ++ (y ∷ []))
unfolding AreDistinct
AreDistinct-snoc [] y d a = (tt, tt)
AreDistinct-snoc (x ∷ xs) y (off, d) (ne, a) =
    (All-snoc (λ q. q ≢ x) xs y off (λ e. ne (sym e)), AreDistinct-snoc xs y d a)

prev_non_null : (s : Links) (head : ℕ) (xs : List ℕ) → IsRing s head xs → s.prev head ≢ 0
unfolding Chain
prev_non_null s head [] r = let (n, p) = r.chain in rw p r.non_null.0
prev_non_null s head (x ∷ xs) r = last_of (λ q. q ≢ 0) s head x head xs r.chain r.non_null.1

-- `dlist_insert_before` of the head of a ring, with a node that is not NULL and not in the ring,
-- gives the ring with the node behind all others.
pub insert_before-IsRing :
    (s : Links) (head node : ℕ) (xs : List ℕ)
    → IsRing s head xs
    → Avoids node (head ∷ xs)
    → node ≢ 0
    → IsRing (dlist_insert_before s head node) head (xs ++ (node ∷ []))
unfolding AreDistinct
insert_before-IsRing s head node xs r fresh nn = record {
  chain =
      insert-Chain s head head node xs r.chain r.distinct r.distinct.0 fresh fresh.0
        (prev_non_null s head xs r);
  distinct = AreDistinct-snoc (head ∷ xs) node r.distinct fresh;
  non_null = All-snoc (λ q. q ≢ 0) (head ∷ xs) node r.non_null nn;
}

pub init-IsRing : (s : Links) (head : ℕ) → head ≢ 0 → IsRing (dlist_init s head) head []
unfolding dlist_init write_prev write_next Chain AreDistinct
init-IsRing s head nn = record {
  chain = (ground arith, ground arith);
  distinct = (tt, tt);
  non_null = (nn, tt);
}

pub dlist_empty_lem :
    (s : Links) (head x : ℕ) (xs : List ℕ) → IsRing s head (x ∷ xs) → dlist_empty s head ≡ false
unfolding dlist_empty Chain AreDistinct
dlist_empty_lem s head x xs r = ground (arith, r.chain.0.0, r.distinct.0.0)
