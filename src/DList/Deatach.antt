-- ===== src/DList/Deatach.antt =====
-- `dlist_deatach` of src/data_structures/dlist.cpp on a ring.
use custom_redis.Base.{ℕ, ◌≡◌, ◌≢◌, sym, ◌∙◌, List, [], ◌∷◌, ◌++◌, arith, All, ◌==◌, if◌then◌else◌}
use custom_redis.DList.{Links, write_prev, write_next, dlist_deatach}
use custom_redis.DList.Ring.{Chain, Avoids, AreDistinct, IsRing, last_of}

deatach_next :
    (s : Links) (x q : ℕ)
    → s.prev x ≢ 0
    → s.next x ≢ 0
    → (dlist_deatach s x).next q ≡ (if q == s.prev x then s.next x else s.next q)
unfolding dlist_deatach write_prev write_next
deatach_next s x q h h' = ground arith

deatach_prev :
    (s : Links) (x q : ℕ)
    → s.prev x ≢ 0
    → s.next x ≢ 0
    → (dlist_deatach s x).prev q ≡ (if q == s.next x then s.prev x else s.prev q)
unfolding dlist_deatach write_prev write_next
deatach_prev s x q h h' = ground arith

Chain-append :
    (s : Links) (a x b : ℕ) (ys zs : List ℕ)
    → Chain s a (ys ++ (x ∷ zs)) b
    → Chain s a ys x × Chain s x zs b
unfolding Chain
Chain-append s a x b [] zs c = c
Chain-append s a x b (y ∷ ys) zs (l, c) =
    let (c', c'') = Chain-append s y x b ys zs c in ((l, c'), c'')

All-append : (P : ℕ → Type 0) (xs ys : List ℕ) → All P (xs ++ ys) → All P xs × All P ys
All-append P [] ys a = (tt, a)
All-append P (x ∷ xs) ys (p, a) = let (b, c) = All-append P xs ys a in ((p, b), c)

append-All : (P : ℕ → Type 0) (xs ys : List ℕ) → All P xs → All P ys → All P (xs ++ ys)
append-All P [] ys a b = b
append-All P (x ∷ xs) ys (p, a) b = (p, append-All P xs ys a b)

-- The node behind `x` is one of those on the way, or the end.
first_of :
    (P : ℕ → Type 0) (s : Links) (x b : ℕ) (zs : List ℕ)
    → Chain s x zs b
    → All P zs
    → P b
    → P (s.next x)
unfolding Chain
first_of P s x b [] (n, p) a pb = rw n pb
first_of P s x b (z ∷ zs) ((n, p), c) (pz, a) pb = rw n pz

-- Links that are not written stay.
deatach-rest :
    (s : Links) (x a b : ℕ) (xs : List ℕ)
    → s.prev x ≢ 0
    → s.next x ≢ 0
    → Chain s a xs b
    → Avoids (s.prev x) (a ∷ xs)
    → Avoids (s.next x) xs
    → b ≢ s.next x
    → Chain (dlist_deatach s x) a xs b
unfolding Chain
deatach-rest s x a b [] h h' (n, p) off off' ne =
    (ground (arith, deatach_next s x a h h', off.0, n), ground (arith, deatach_prev s x b h h', p))
deatach-rest s x a b (y ∷ xs) h h' ((n, p), c) off off' ne = (
  (
    ground (arith, deatach_next s x a h h', off.0, n),
    ground (arith, deatach_prev s x y h h', off'.0, p),
  ),
  deatach-rest s x y b xs h h' c off.1 off'.1 ne,
)

same_node : (a b : ℕ) (xs : List ℕ) → a ≡ b → Avoids a xs → Avoids b xs
same_node a b [] e off = tt
same_node a b (x ∷ xs) e (ne, off) = ((λ e'. ne (e' ∙ sym e)), same_node a b xs e off)

deatach-Chain :
    (s : Links) (a x b : ℕ) (ys zs : List ℕ)
    → s.prev x ≢ 0
    → s.next x ≢ 0
    → Chain s a (ys ++ (x ∷ zs)) b
    → AreDistinct (a ∷ (ys ++ (x ∷ zs)))
    → Avoids b (ys ++ (x ∷ zs))
    → Chain (dlist_deatach s x) a (ys ++ zs) b
unfolding Chain AreDistinct
deatach-Chain s a x b [] [] h h' ((n, p), (n', p')) d off =
    (ground (arith, deatach_next s x a h h', n', p), ground (arith, deatach_prev s x b h h', n', p))
deatach-Chain s a x b [] (z ∷ zs) h h' ((n, p), ((n', p'), c)) ((apart, d), (w, d'')) off =
    let behind : Avoids (s.prev x) (z ∷ zs) = same_node a (s.prev x) (z ∷ zs) (sym p) d in
    let behind' : Avoids (s.next x) zs = same_node z (s.next x) zs (sym n') d''.0 in
    let ne : b ≢ s.next x = rw n' (λ e. off.1.0 (sym e)) in
    (
      (
        ground (arith, deatach_next s x a h h', n', p),
        ground (arith, deatach_prev s x z h h', n', p),
      ),
      deatach-rest s x z b zs h h' c behind behind' ne,
    )
deatach-Chain s a x b (y ∷ ys) zs h h' ((n, p), c) ((apart, d), d') off =
    let (before, after) = Chain-append s y x b ys zs c in
    let last : s.prev x ≢ a =
      last_of (λ q. q ≢ a) s a y x ys ((n, p), before)
        (apart, (All-append (λ q. q ≢ a) ys (x ∷ zs) d).0) in
    let first : s.next x ≢ y =
      first_of (λ q. q ≢ y) s x b zs after ((All-append (λ q. q ≢ y) ys (x ∷ zs) d'.0).1.1)
        (λ e. off.0 (sym e)) in
    (
      (
        ground (arith, deatach_next s x a h h', last, n),
        ground (arith, deatach_prev s x y h h', first, p),
      ),
      deatach-Chain s y x b ys zs h h' c d' off.1,
    )

AreDistinct-without :
    (ys : List ℕ) (x : ℕ) (zs : List ℕ) → AreDistinct (ys ++ (x ∷ zs)) → AreDistinct (ys ++ zs)
unfolding AreDistinct
AreDistinct-without [] x zs (off, d) = d
AreDistinct-without (y ∷ ys) x zs (off, d) =
    let (a, b) = All-append (λ q. q ≢ y) ys (x ∷ zs) off in
    (append-All (λ q. q ≢ y) ys zs a b.1, AreDistinct-without ys x zs d)

neighbours :
    (s : Links) (a x b : ℕ) (ys zs : List ℕ)
    → Chain s a (ys ++ (x ∷ zs)) b
    → Avoids 0 (a ∷ (ys ++ (x ∷ zs)))
    → b ≢ 0
    → (s.prev x ≢ 0) × (s.next x ≢ 0)
unfolding Chain
neighbours s a x b [] zs ((n, p), c) (na, (nx, nz)) nb =
    (rw p na, first_of (λ q. q ≢ 0) s x b zs c nz nb)
neighbours s a x b (y ∷ ys) zs (l, c) (na, rest) nb = neighbours s y x b ys zs c rest nb

-- `dlist_deatach` of a node of a ring gives the ring without it, the others in the same order.
pub deatach-IsRing :
    (s : Links) (head x : ℕ) (ys zs : List ℕ)
    → IsRing s head (ys ++ (x ∷ zs))
    → IsRing (dlist_deatach s x) head (ys ++ zs)
unfolding AreDistinct
deatach-IsRing s head x ys zs r =
    let (h, h') = neighbours s head x head ys zs r.chain r.non_null r.non_null.0 in
    let (a, b) = All-append (λ q. q ≢ 0) ys (x ∷ zs) r.non_null.1 in
    record {
      chain = deatach-Chain s head x head ys zs h h' r.chain r.distinct r.distinct.0;
      distinct = AreDistinct-without (head ∷ ys) x zs r.distinct;
      non_null = (r.non_null.0, append-All (λ q. q ≢ 0) ys zs a b.1);
    }
