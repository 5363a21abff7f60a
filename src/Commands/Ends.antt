-- ===== src/Commands/Ends.antt =====
-- Pops of what was pushed, and ranges of lists: `do_push`, `do_pop` and `do_lrange` of
-- src/redis_functions.cpp.
use custom_redis.Base.{
  ◌⊎◌, inl, inr, Bool-cases, ℕ, zero, suc, ◌+◌, ◌-◌, ◌%◌, ◌<◌, ◌≤◌, ◌≡◌, refl, ap, ◌∙◌, true, false,
  List, [], ◌∷◌, ◌++◌, none, some, ltb, leb, min, arith, length, take, drop, ◌>>=◌, Returns,
  length-append, take-length_append, length-drop,
}
use custom_redis.Timers.Places.{get_last}
use custom_redis.Wire.{Bytes, read_bytes, buf_append, buf_append_u8, buf_append_u32}
use custom_redis.Reply.Tags
use custom_redis.Reply.{Conn, out_arr, out_int, out_str}
use custom_redis.Commands.{t_list, Db, success, find_val, find_or_add}
use custom_redis.Commands.Lookups.{same_key_refl, find_val-store}
use custom_redis.Commands.Strings.{out_keys}
use custom_redis.Commands.Lists.{
  Side, left, right, push, push_to, do_push, pop_end, pop_loop, with_list, pop_of, do_pop, begin_at,
  out_vals, lrange_of, do_lrange, from_tail,
}

out_str_whole :
    (conn : Conn) (s : Bytes) → (conn' : Conn) × (out_str conn s (length s) ≡ some conn')
unfolding out_str read_bytes
out_str_whole conn s =
    let le : leb (length s) (length s) ≡ true = ground arith in
    let tagged = buf_append_u32 (buf_append_u8 conn.outgoing Tags.str) (length s) in
    (record conn { outgoing = buf_append tagged (take (length s) s) }, rw le refl)

push-length :
    (side : Side) (value : Bytes) (l : List Bytes) → length (push side value l) ≡ suc (length l)
unfolding push
push-length left value [] = refl
push-length right value [] = refl
push-length left value (v ∷ l) = refl
push-length right value (v ∷ l) = omega (arith, length-append l (value ∷ []))

pop_end-push :
    (side : Side) (value : Bytes) (l : List Bytes)
    → pop_end side (push side value l) ≡ some (value, l)
unfolding pop_end push
pop_end-push left value [] = refl
pop_end-push left value (v ∷ l) = refl
pop_end-push right value [] = refl
pop_end-push right value (v ∷ l) =
    let n : length ((v ∷ l) ++ (value ∷ [])) - 1 ≡ length (v ∷ l) =
      omega (arith, length-append l (value ∷ [])) in
    rw (n, get_last (v ∷ l) value, take-length_append (v ∷ l) (value ∷ [])) refl

-- The argument `n` of LRANGE, with 2 ^ 63 added, names position `i` of a list of `size` elements, from
-- the head or, when it is negative, from the tail.
abbrev pub IsAt : ℕ → ℕ → ℕ → Type 0
IsAt size n i =
    (i < size) × ((n ≡ 9223372036854775808 + i) ⊎ (n + (size - i) ≡ 9223372036854775808))

from_tail_lem :
    (size n i : ℕ)
    → size < 2147483648
    → IsAt size n i
    → from_tail size ((n + 2147483648) % 4294967296) ≡ 2147483648 + i
unfolding from_tail
from_tail_lem size n i small (lt, inl e) =
    let w : (n + 2147483648) % 4294967296 ≡ 2147483648 + i = omega (arith, e) in
    let high : ltb (2147483648 + i) 2147483648 ≡ false = ground arith in rw (w, high) refl
from_tail_lem size n i small (lt, inr e) =
    let w : (n + 2147483648) % 4294967296 ≡ 2147483648 - (size - i) = omega (arith, e) in
    let low : ltb (2147483648 - (size - i)) 2147483648 ≡ true = ground arith in
    rw (w, low) (omega arith)

-- Both ways lead to the node at `i`.
begin_at_lem :
    (elems : List Bytes) (i : ℕ)
    → i < length elems
    → begin_at elems i (length elems - i - 1) ≡ drop i elems
unfolding begin_at
begin_at_lem elems i lt = elim (Bool-cases (ltb i (length elems - i - 1))) [
  | inl near ↦
      let n : length elems - 1 - (length elems - i - 1) ≡ i = omega arith in rw (near, n) refl
  | inr far ↦ rw far refl
]

out_vals_lem :
    (n : ℕ) (conn : Conn) (l : List Bytes)
    → n ≤ length l
    → out_vals n conn l ≡ out_keys conn (take n l)
unfolding out_vals out_keys
out_vals_lem zero conn l le = refl
out_vals_lem (suc n) conn [] le = absurd (omega arith)
out_vals_lem (suc n) conn (v ∷ l) le =
    let (conn', out) = out_str_whole conn v in rw out (out_vals_lem n conn' l (omega arith))

lrange_of-inside :
    (conn : Conn) (db : Db) (start₀ end₀ : ℕ) (l : List Bytes) (a b : ℕ)
    → length l < 2147483648
    → from_tail (length l) start₀ ≡ 2147483648 + a
    → from_tail (length l) end₀ ≡ 2147483648 + b
    → a ≤ b
    → b < length l
    → lrange_of conn db start₀ end₀ l ≡ (
        out_keys (out_arr conn (b + 1 - a)) (take (b + 1 - a) (drop a l)) >>= λ conn.
        some (success, conn, db))
unfolding lrange_of
lrange_of-inside conn db start₀ end₀ l a b small e e' le lt =
    let size : length l % 4294967296 ≡ length l = omega arith in
    let at : (2147483648 + a + 2147483648) % 4294967296 ≡ a = omega arith in
    let count : min (2147483648 + b + 1 - (2147483648 + a)) (length l) ≡ b + 1 - a = ground arith in
    let inside : leb (length l) a ≡ false = ground arith in
    rw (size, e, e', at, count, inside, begin_at_lem l a (omega arith))
      (ap (λ o. o >>= λ conn. some (success, conn, db))
        (out_vals_lem (b + 1 - a) (out_arr conn (b + 1 - a)) (drop a l)
          (omega (arith, length-drop a l))))

out_vals-short : (n : ℕ) (conn : Conn) (l : List Bytes) → length l < n → out_vals n conn l ≡ none
unfolding out_vals
out_vals-short zero conn l lt = absurd (omega arith)
out_vals-short (suc n) conn [] lt = refl
out_vals-short (suc n) conn (v ∷ l) lt =
    let (conn', out) = out_str_whole conn v in rw out (out_vals-short n conn' l (omega arith))

lrange_of-beyond :
    (conn : Conn) (db : Db) (start₀ end₀ : ℕ) (l : List Bytes) (a b : ℕ)
    → length l < 2147483648
    → from_tail (length l) start₀ ≡ 2147483648 + a
    → end₀ ≡ 2147483648 + b
    → 0 < a
    → a < length l
    → length l ≤ b
    → lrange_of conn db start₀ end₀ l ≡ none
unfolding lrange_of from_tail
lrange_of-beyond conn db start₀ end₀ l a b small e e' pos lt le =
    let size : length l % 4294967296 ≡ length l = omega arith in
    let at : (2147483648 + a + 2147483648) % 4294967296 ≡ a = omega arith in
    let inside : leb (length l) a ≡ false = ground arith in
    let high : ltb (2147483648 + b) 2147483648 ≡ false = ground arith in
    let count = min (2147483648 + b + 1 - (2147483648 + a)) (length l) in
    let short : length (drop a l) < count = ground (arith, length-drop a l) in
    rw
      (
        size,
        e,
        e',
        high,
        at,
        inside,
        begin_at_lem l a lt,
        out_vals-short count (out_arr conn count) (drop a l) short,
      )
      refl

module _ (strtol : Bytes → ℕ) where
  -- On a key that holds a list of fewer than 2 ^ 31 - 1 elements, a push to either side replies
  -- with the list's new length, and a pop of one element from the same side afterwards replies
  -- with an array of just the pushed element and leaves the list as it was.
  pub do_pop-push :
      (side : Side) (conn conn' : Conn) (c c' key value count : Bytes) (db : Db) (l : List Bytes)
      → find_val db key ≡ some (some (t_list l))
      → suc (length l) < 2147483648
      → strtol count ≡ 9223372036854775809
      → Returns (do_push side conn (c ∷ key ∷ value ∷ []) db) λ r.
        (r.0 ≡ success)
        × (r.1 ≡ out_int conn (suc (length l)))
        × Returns (do_pop strtol side conn' (c' ∷ key ∷ count ∷ []) r.2) λ r'.
          (r'.0 ≡ success)
          × (out_str (out_arr conn' 1) value (length value) ≡ some r'.1)
          × (find_val r'.2 key ≡ some (some (t_list l)))
  unfolding do_push push_to find_or_add do_pop with_list pop_of pop_loop
  do_pop-push side conn conn' c c' key value count db l there small one =
      let pushed = push side value l in
      let (db', store, reads) = find_val-store db key (t_list l) (t_list pushed) there in
      let again : find_val db' key ≡ some (some (t_list pushed)) =
        reads key ∙ rw (same_key_refl key) refl in
      let (db'', store', reads') = find_val-store db' key (t_list pushed) (t_list l) again in
      let (replied, out) = out_str_whole (out_arr conn' 1) value in
      let size : (length l % 4294967296 + 1) % 4294967296 ≡ suc (length l) = omega arith in
      let count_one : min (strtol count % 4294967296) (length pushed % 4294967296) ≡ 1 =
        ground (arith, one, push-length side value l) in
      (
        (success, out_int conn (suc (length l)), db'),
        rw (there, store, size) refl,
        (
          refl,
          refl,
          (
            (success, replied, db''),
            rw (again, count_one, pop_end-push side value l, out, store') refl,
            (refl, out, reads' key ∙ rw (same_key_refl key) refl),
          ),
        ),
      )

  -- On a key that holds a list of fewer than 2 ^ 31 elements, LRANGE from position a to position
  -- b, each given from the head or as a negative number from the tail, with a at most b and both
  -- in the list, replies with an array of exactly the elements from a to b, whichever end the
  -- walk to a starts from.
  pub do_lrange-inside :
      (conn : Conn) (c key start end : Bytes) (db : Db) (l : List Bytes) (a b : ℕ)
      → find_val db key ≡ some (some (t_list l))
      → length l < 2147483648
      → IsAt (length l) (strtol start) a
      → IsAt (length l) (strtol end) b
      → a ≤ b
      → do_lrange strtol conn (c ∷ key ∷ start ∷ end ∷ []) db ≡ (
          out_keys (out_arr conn (b + 1 - a)) (take (b + 1 - a) (drop a l)) >>= λ conn.
          some (success, conn, db))
  unfolding do_lrange with_list
  do_lrange-inside conn c key start end db l a b there small p q le = rw there (
      lrange_of-inside conn db _ _ l a b small (from_tail_lem (length l) (strtol start) a small p)
        (from_tail_lem (length l) (strtol end) b small q) le q.0)

  -- LRANGE that starts in a list of fewer than 2 ^ 31 elements behind the head and ends behind
  -- the tail, at a position below 2 ^ 31, faults: it takes the range's length from the list's
  -- length and reads past the last node.
  pub do_lrange-beyond :
      (conn : Conn) (c key start end : Bytes) (db : Db) (l : List Bytes) (a b : ℕ)
      → find_val db key ≡ some (some (t_list l))
      → length l < 2147483648
      → IsAt (length l) (strtol start) a
      → strtol end ≡ 9223372036854775808 + b
      → 0 < a
      → length l ≤ b
      → b < 2147483648
      → do_lrange strtol conn (c ∷ key ∷ start ∷ end ∷ []) db ≡ none
  unfolding do_lrange with_list
  do_lrange-beyond conn c key start end db l a b there small p e pos le fits = rw there (
      lrange_of-beyond conn db _ _ l a b small (from_tail_lem (length l) (strtol start) a small p)
        (omega (arith, e)) pos p.0 le)
