-- ===== src/Hll/Cache.antt =====
-- The cached count in the header of src/data_structures/hyperloglog.cpp.
use native.Mathlib.Nat.{pow-succ', mul_assoc, mul_left_comm, add-mul, two-pow-succ}
use custom_redis.Base.{
  ℕ, zero, suc, ◌+◌, ◌-◌, ◌*◌, ◌/◌, ◌%◌, ◌^◌, ◌≤◌, ◌<◌, ◌≡◌, ◌≢◌, refl, sym, ap, ◌∙◌, ◌⊎◌, inl, inr,
  bit_and, bit_or, ==_iff, true, false, not, ◌∷◌, none, some, arith, ltb, ◌==◌, length, length-set,
  get_elem?, get_elem?-set, get_elem?-lt, set, Returns,
}
use custom_redis.Base.Bits.{bit_or-shifted, holds_below, below-holds}
use custom_redis.Wire.{Bytes, le_bytes}
use custom_redis.Wire.Reads.{length-le_bytes}
use custom_redis.Hll.{
  write_byte, cache_valid, invalidate_cache, store_cache, set_cache, load_cache, get_cache,
}

-- `hll'` is `hll` with these bytes at `i`.
pub record Stores (hll : Bytes) (i : ℕ) (bytes : Bytes) (hll' : Bytes) : Type 0 where
  pub same_length : length hll' ≡ length hll
  pub written : (k : ℕ) → k < length bytes → get_elem? hll' (i + k) ≡ get_elem? bytes k
  pub before : (j : ℕ) → j < i → get_elem? hll' j ≡ get_elem? hll j
  pub behind : (j : ℕ) → i + length bytes ≤ j → get_elem? hll' j ≡ get_elem? hll j

write_byte-in : (buf : Bytes) (i v : ℕ) → i < length buf → write_byte buf i v ≡ some (set buf i v)
unfolding write_byte
write_byte-in buf i v lt = ground arith

written-cons :
    (hll' bytes : Bytes) (i b k : ℕ)
    → get_elem? hll' i ≡ some b
    → ((k : ℕ) → k < length bytes → get_elem? hll' (i + 1 + k) ≡ get_elem? bytes k)
    → k < suc (length bytes)
    → get_elem? hll' (i + k) ≡ get_elem? (b ∷ bytes) k
written-cons hll' bytes i b zero first rest lt = let e : i + 0 ≡ i = omega arith in rw e first
written-cons hll' bytes i b (suc k) first rest lt =
    let e : i + suc k ≡ i + 1 + k = omega arith in rw e (rest k (omega arith))

store_cache-Stores :
    (rounds i value : ℕ) (hll : Bytes)
    → i + rounds ≤ length hll
    → Returns (store_cache rounds i value hll) (Stores hll i (le_bytes rounds value))
unfolding store_cache le_bytes
store_cache-Stores zero i value hll fits = (
  hll,
  refl,
  record {
    same_length = refl;
    written = λ k lt. absurd (omega arith);
    before = λ j lt. refl;
    behind = λ j le. refl;
  },
)
store_cache-Stores (suc rounds) i value hll fits =
    let lt : i < length hll = omega arith in
    let hll₁ = set hll i (value % 256) in
    let size = length-set hll i (value % 256) in
    let (hll', run, s) =
      store_cache-Stores rounds (i + 1) (value / 256) hll₁ (omega (arith, size)) in
    let put = λ (j : ℕ). get_elem?-set hll i j (value % 256) lt in
    let first : get_elem? hll' i ≡ some (value % 256) =
      s.before i (omega arith) ∙ ground (arith, put i) in
    (
      hll',
      rw (write_byte-in hll i (value % 256) lt) run,
      record {
        same_length = s.same_length ∙ size;
        written = λ k.
            written-cons hll' (le_bytes rounds (value / 256)) i (value % 256) k first s.written;
        before = λ j lt'. s.before j (omega arith) ∙ ground (arith, put j);
        behind = λ j le. s.behind j (omega arith) ∙ ground (arith, put j);
      },
    )

-- Eight bits more.
eight_more : (n : ℕ) → 2 ^ (n + 8) ≡ 256 * 2 ^ n
eight_more n =
    let e : n + 8 ≡ suc (suc (suc (suc (suc (suc (suc (suc n))))))) = omega arith in
    rw e (
      omega (
        arith,
        two-pow-succ n,
        two-pow-succ (suc n),
        two-pow-succ (suc (suc n)),
        two-pow-succ (suc (suc (suc n))),
        two-pow-succ (suc (suc (suc (suc n)))),
        two-pow-succ (suc (suc (suc (suc (suc n))))),
        two-pow-succ (suc (suc (suc (suc (suc (suc n)))))),
        two-pow-succ (suc (suc (suc (suc (suc (suc (suc n))))))),
      ))

digit_fits : (d p cache : ℕ) → d < 256 → cache < p → cache + d * p < 256 * p
digit_fits d p cache lt small =
    let e : 256 ≡ d + (256 - d) = omega arith in
    let split : 256 * p ≡ d * p + (256 - d) * p = ap (λ n. n * p) e ∙ add-mul d (256 - d) p in
    let e' : 256 - d ≡ 1 + (255 - d) = omega arith in
    let split' : (256 - d) * p ≡ 1 * p + (255 - d) * p =
      ap (λ n. n * p) e' ∙ add-mul 1 (255 - d) p in
    omega (arith, split, split')

digit_sum : (d q p cache : ℕ) → cache + d * p + q * (256 * p) ≡ cache + (d + 256 * q) * p
digit_sum d q p cache =
    omega (arith, add-mul d (256 * q) p, mul_assoc 256 q p, mul_left_comm q 256 p)

-- The next byte joins those that were read.
load-step :
    (i cache value : ℕ)
    → cache < 2 ^ (8 * i)
    → (bit_or cache (value % 256 * 2 ^ (8 * i)) < 2 ^ (8 * (i + 1)))
      × (bit_or cache (value % 256 * 2 ^ (8 * i)) + value / 256 * 2 ^ (8 * (i + 1))
          ≡ cache + value * 2 ^ (8 * i))
load-step i cache value lt =
    let p = 2 ^ (8 * i) in
    let join : bit_or cache (value % 256 * p) ≡ cache + value % 256 * p =
      bit_or-shifted cache (value % 256) (8 * i) lt in
    let e : 8 * (i + 1) ≡ 8 * i + 8 = omega arith in
    let wide : 2 ^ (8 * (i + 1)) ≡ 256 * p = rw e (eight_more (8 * i)) in
    let digit : value ≡ value % 256 + 256 * (value / 256) = omega arith in
    rw (join, wide)
      (
        digit_fits (value % 256) p cache (omega arith) lt,
        digit_sum (value % 256) (value / 256) p cache ∙ ap (λ v. cache + v * p) (sym digit),
      )

load_cache_lem :
    (rounds i cache value : ℕ) (hll : Bytes)
    → ((k : ℕ) → k < rounds → get_elem? hll (8 + (i + k)) ≡ get_elem? (le_bytes rounds value) k)
    → cache < 2 ^ (8 * i)
    → value < 256 ^ rounds
    → load_cache rounds i cache hll ≡ some (cache + value * 2 ^ (8 * i))
unfolding load_cache le_bytes
load_cache_lem zero i cache value hll bytes small fits =
    let z : value ≡ 0 = omega arith in rw z (ap some (omega arith))
load_cache_lem (suc rounds) i cache value hll bytes small fits =
    let at : get_elem? hll (8 + i) ≡ some (value % 256) =
      let e : 8 + (i + 0) ≡ 8 + i = omega arith in rw e at (bytes 0 (omega arith)) in
    let (small', sum) = load-step i cache value small in
    let ih =
      load_cache_lem rounds (i + 1) (bit_or cache (value % 256 * 2 ^ (8 * i))) (value / 256) hll
        (λ k lt.
          let e : 8 + (i + 1 + k) ≡ 8 + (i + suc k) = omega arith in
          rw e (bytes (suc k) (omega arith)))
        small' (omega (arith, pow-succ' 256 rounds)) in
    rw (at, ih, sum)

-- The flag of an invalid cache is the highest bit.
low_byte : (b : ℕ) → b < 128 → bit_and b 128 ≡ 0
unfolding holds_below
low_byte b lt = (==_iff _ _).0 (below-holds (λ b. bit_and b 128 == 0) 128 b refl lt)

abbrev last_byte : ℕ → ℕ
last_byte value = value / 256 / 256 / 256 / 256 / 256 / 256 / 256 % 256

top_byte : (value : ℕ) → get_elem? (le_bytes 8 value) 7 ≡ some (last_byte value)
unfolding le_bytes
top_byte value = refl

-- With a whole header and a value below 2 ^ 63, `set_cache` stays within the buffer, keeps its
-- length and every byte outside the cache, and leaves a valid cache from which `get_cache` reads
-- the value.
pub get_cache-set_cache :
    (hll : Bytes) (value : ℕ)
    → 16 ≤ length hll
    → value < 2 ^ 63
    → Returns (set_cache hll value) λ hll'.
      (get_cache hll' ≡ some value)
      × (length hll' ≡ length hll)
      × ((j : ℕ) → (j < 8) ⊎ (16 ≤ j) → get_elem? hll' j ≡ get_elem? hll j)
unfolding set_cache get_cache cache_valid
get_cache-set_cache hll value long small =
    let (hll', run, s) = store_cache-Stores 8 8 value hll (omega arith) in
    let size = length-le_bytes 8 value in
    let top : get_elem? hll' 15 ≡ get_elem? (le_bytes 8 value) 7 =
      s.written 7 (omega (arith, size)) in
    let load =
      load_cache_lem 8 0 0 value hll'
        (λ k lt.
          let e : 8 + (0 + k) ≡ 8 + k = omega arith in rw e (s.written k (omega (arith, size))))
        (omega arith) (omega arith) in
    let test : ltb value (2 ^ 63) ≡ true = ground arith in
    let last : get_elem? (le_bytes 8 value) 7 ≡ some (last_byte value) = top_byte value in
    (
      hll',
      rw test run,
      (
        rw (top, last, low_byte (last_byte value) (omega arith), load) (ap some (omega arith)),
        s.same_length,
        λ j side. elim side [ inl lt ↦ s.before j lt | inr le ↦ s.behind j (omega (arith, size)) ],
      ),
    )

high_byte : (b : ℕ) → b < 256 → (bit_and (bit_or b 128) 128 == 0) ≡ false
unfolding holds_below
high_byte b lt =
    let table = below-holds (λ b. not (bit_and (bit_or b 128) 128 == 0)) 256 b refl lt in
    ground (arith, table)

-- `invalidate_cache` on a whole header changes only the last byte of the header, and afterwards
-- the cache is not valid and `get_cache` fails its assertion.
pub get_cache-invalidate_cache :
    (hll : Bytes) (b : ℕ)
    → get_elem? hll 15 ≡ some b
    → b < 256
    → Returns (invalidate_cache hll) λ hll'.
      (cache_valid hll' ≡ some false)
      × (get_cache hll' ≡ none)
      × ((j : ℕ) → j ≢ 15 → get_elem? hll' j ≡ get_elem? hll j)
unfolding invalidate_cache get_cache cache_valid
get_cache-invalidate_cache hll b at byte =
    let lt = get_elem?-lt hll 15 at in
    let hll' = set hll 15 (bit_or b 128) in
    let at' : get_elem? hll' 15 ≡ some (bit_or b 128) =
      ground (arith, get_elem?-set hll 15 15 (bit_or b 128) lt) in
    (
      hll',
      rw at (write_byte-in hll 15 (bit_or b 128) lt),
      (
        rw at' (ap some (high_byte b byte)),
        rw (at', high_byte b byte) refl,
        λ j ne. ground (arith, get_elem?-set hll 15 j (bit_or b 128) lt),
      ),
    )
