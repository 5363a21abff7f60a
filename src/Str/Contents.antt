-- ===== src/Str/Contents.antt =====
-- What the operations of src/data_structures/dstr.cpp do to the characters of a string.
use custom_redis.Base.{
  ℕ, zero, suc, ◌+◌, ◌-◌, ◌%◌, ◌≤◌, ◌<◌, ◌≡◌, inl, inr, refl, true, List, [], ◌∷◌, ◌++◌, some,
  arith, length, take, replicate, get_elem?, length-append, length-take, length-replicate, ltb,
  Bool-cases, if◌then◌else◌, leb, false, not, ◌&&◌, ◌||◌, Returns,
}
use custom_redis.Str.{
  Dstr, Malloc, str_ok, max_str_size, size, size_mod, header_size, grown_len, dstr_cap, dstr_init,
  write_end, is_ok, dstr_append, str_err_too_large, str_err_alloc_fail, StrFuncReturns, write_pad,
  dstr_resize,
}

-- The allocator serves every request.
abbrev pub Serves : Malloc → Type 0
Serves malloc = (n : ℕ) → malloc n ≡ true

pub dstr_init-empty :
    (malloc : Malloc) (len : ℕ)
    → Serves malloc
    → len ≤ max_str_size
    → dstr_init malloc len ≡ (some (record { chars = []; free = len; room = len + 1 }), str_ok)
unfolding dstr_init
dstr_init-empty malloc len m h = ground (arith, m (header_size + len + 1))

-- The characters, the free bytes and the final '\0' fit the allocation.
abbrev pub IsSafe : Dstr → Type 0
IsSafe d = size d + d.free + 1 ≤ d.room

-- On a string whose characters, free bytes and final zero fit its allocation, whatever the
-- allocator does, `dstr_append` writes nothing behind the allocation, reports success just when
-- the sum is within the limit and the bytes fit the free ones or the larger request is served,
-- has then added all bytes and has else left the characters as they were, and the characters and
-- the final zero fit the allocation that the string has afterwards.
pub append-chars :
    (malloc : Malloc) (d : Dstr) (s : List ℕ)
    → IsSafe d
    → Returns (dstr_append malloc d s) λ r.
      (is_ok r.0
        ≡ not (ltb max_str_size ((length s + dstr_cap d) % size_mod))
          && (leb (length s) d.free || malloc (header_size + grown_len d (length s) + 1)))
      × (r.1.chars ≡ (if is_ok r.0 then d.chars ++ s else d.chars))
      × (size r.1 + 1 ≤ r.1.room)
unfolding dstr_append write_end
append-chars malloc d s v =
    let len = length-append d.chars s in
    elim (Bool-cases (ltb max_str_size ((length s + dstr_cap d) % size_mod))) [
      | inl large ↦ ((str_err_too_large, d), rw large refl, (rw large refl, refl, omega arith))
      | inr fits ↦ elim (Bool-cases (ltb d.free (length s))) [
        | inr roomy ↦
            let inside : leb (size d + length s + 1) d.room ≡ true = ground arith in
            let enough : leb (length s) d.free ≡ true = ground arith in
            let le : length s ≤ d.free = ground arith in
            (
              (str_ok, record d { chars = d.chars ++ s; free = d.free - length s }),
              rw (fits, roomy, inside) refl,
              (rw (fits, enough) refl, refl, omega (arith, len, v, le)),
            )
        | inl tight ↦
            let short : leb (length s) d.free ≡ false = ground arith in
            let n = grown_len d (length s) in
            elim (Bool-cases (malloc (header_size + n + 1))) [
              | inl served ↦
                  let inside : leb (size d + length s + 1) (n + 1) ≡ true = ground arith in
                  (
                    (
                      str_ok,
                      record { chars = d.chars ++ s; free = n - d.free - length s; room = n + 1 },
                    ),
                    rw (fits, tight, served, inside) refl,
                    (rw (fits, short, served) refl, refl, omega (arith, len)),
                  )
              | inr refused ↦ (
                (str_err_alloc_fail, record d { free = n - d.free }),
                rw (fits, tight, refused) refl,
                (rw (fits, short, refused) refl, refl, omega (arith, v)),
              )
            ]
      ]
    ]

get_elem?-replicate : (n i pad : ℕ) → i < n → get_elem? (replicate n pad) i ≡ some pad
get_elem?-replicate zero i pad h = absurd (omega arith)
get_elem?-replicate (suc n) zero pad h = refl
get_elem?-replicate (suc n) (suc i) pad h = get_elem?-replicate n i pad (omega arith)

get_elem?_padded :
    (xs : List ℕ) (n pad i : ℕ)
    → i < n
    → get_elem? (take n xs ++ replicate (n - length xs) pad) i
      ≡ (if ltb i (length xs) then get_elem? xs i else some pad)
get_elem?_padded xs zero pad i h = absurd (omega arith)
get_elem?_padded [] (suc n) pad i h =
    ground (arith, get_elem?-replicate (suc n - length {A = ℕ} []) i pad (omega arith))
get_elem?_padded (x ∷ xs) (suc n) pad zero h = ground arith
get_elem?_padded (x ∷ xs) (suc n) pad (suc i) h =
    let e : suc n - length (x ∷ xs) ≡ n - length xs = omega arith in
    rw e (ground (arith, get_elem?_padded xs n pad i (omega arith)))

-- On a safe string with a capacity within the limit, when the allocator serves every request and the
-- length is within the limit, `dstr_resize` writes nothing behind the allocation, reports success and
-- leaves a safe string of exactly that length, which keeps the characters below it and has the padding
-- byte at the new positions.
pub resize_lem :
    (malloc : Malloc) (d : Dstr) (len pad : ℕ)
    → Serves malloc
    → IsSafe d
    → size d + d.free ≤ max_str_size
    → len ≤ max_str_size
    → Returns (dstr_resize malloc d len pad) λ r.
      (r.0 ≡ str_ok)
      × IsSafe r.1
      × (size r.1 ≡ len)
      × ((i : ℕ)
          → i < len
          → get_elem? r.1.chars i ≡ (if ltb i (size d) then get_elem? d.chars i else some pad))
unfolding dstr_resize write_pad
resize_lem malloc d len pad m v b h =
    let cap : dstr_cap d ≡ size d + d.free = omega arith in
    let total : length (take len d.chars ++ replicate (len - size d) pad) ≡ len =
      rw (length-append, length-take, length-replicate) (omega arith) in
    let chars = take len d.chars ++ replicate (len - size d) pad in
    let at = get_elem?_padded d.chars len pad in
    let kept : StrFuncReturns × Dstr =
      (str_ok, record d { chars = chars; free = size d + d.free - len }) in
    let limit : ltb max_str_size len ≡ false = ground arith in
    elim (Bool-cases (ltb (size d) len)) [
      | inl longer ↦ elim (Bool-cases (ltb (size d + d.free) len)) [
        | inl tight ↦
            let inside : leb (len + 1) (len + 1) ≡ true = ground arith in
            (
              (str_ok, record { chars = chars; free = len - len; room = len + 1 }),
              rw (limit, longer, cap, tight, m (header_size + len + 1), inside) refl,
              (refl, omega (arith, total), total, at),
            )
        | inr roomy ↦
            let inside : leb (len + 1) d.room ≡ true = ground arith in
            (
              kept,
              rw (limit, longer, cap, roomy, inside) refl,
              (refl, ground (arith, total), total, at),
            )
      ]
      | inr shorter ↦
          let inside : leb (len + 1) d.room ≡ true = ground arith in
          (kept, rw (limit, shorter, cap, inside) refl, (refl, ground (arith, total), total, at))
    ]
