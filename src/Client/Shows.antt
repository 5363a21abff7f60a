-- ===== src/Client/Shows.antt =====
-- What the client of src/client.cpp prints of a reply.
use mathlib.Core.List.{append_assoc}
use custom_redis.Base.{
  false, ◌==◌, get_elem?, ℕ, zero, suc, ◌+◌, ◌^◌, ◌≤◌, ◌<◌, ◌≡◌, refl, List, [], ◌∷◌, ◌++◌, some,
  arith, leb, length, length-append, All, take-length_append, drop-length_append,
}
use custom_redis.Str.{Malloc, max_str_size}
use custom_redis.Str.Contents.{Serves, dstr_init-empty}
use custom_redis.Wire.{Bytes, le_bytes, le_value, read_bytes}
use custom_redis.Wire.Reads.{
  length-le_bytes, le_value-le_bytes, read_bytes-append, read_number-le_bytes,
}
use custom_redis.Reply.Tags
use custom_redis.Reply.{max_message_len}
use custom_redis.Reply.Items.{
  Item, int, arr, double, str, error, null, item_bytes, preamble, message, length-preamble,
}
use custom_redis.Client.{
  until_zero, read_str, print_one, print_res, read_all, show_reply, show_read, read_sized,
  handle_read,
}

-- No byte of the text ends it.
abbrev pub HasNoZero : Bytes → Type 0
HasNoZero s = All (λ (c : ℕ). (c == 0) ≡ false) s

-- Fresh memory begins with a zero byte.
abbrev pub BeginsZero : (Bytes → Bytes) → Type 0
BeginsZero behind = (rest : Bytes) → get_elem? (behind rest) 0 ≡ some 0

until_zero-text :
    (s after : Bytes) → HasNoZero s → get_elem? after 0 ≡ some 0 → until_zero (s ++ after) ≡ some s
unfolding until_zero
until_zero-text [] [] a e = cc
until_zero-text [] (x ∷ after) a e =
    let z : some x ≡ some 0 = e in let same : x ≡ 0 = cc in rw same refl
until_zero-text (c ∷ s) after (h, a) e = rw (h, until_zero-text s after a e) refl

-- The numbers of an item fit their bytes, and a text has no zero byte.
unfoldable pub Fits : Item → Type 0
Fits (int n) = n < 2 ^ 32
Fits (arr n) = n < 2 ^ 32
Fits (double x) = x < 2 ^ 64
Fits (str s) = (length s ≤ max_str_size) × HasNoZero s
Fits (error s) = (length s ≤ max_str_size) × HasNoZero s
Fits null = Unit

unfoldable pub items_bytes : List Item → Bytes
items_bytes [] = []
items_bytes (x ∷ xs) = item_bytes x ++ items_bytes xs

module _ (malloc : Malloc) (serves : Serves malloc) (behind : Bytes → Bytes)
    (zeroed : BeginsZero behind) where
  read_str-append :
      (s rest : Bytes)
      → length s ≤ max_str_size
      → HasNoZero s
      → read_str malloc behind ((le_bytes 4 (length s) ++ s) ++ rest) ≡ some (s, rest)
  unfolding read_str
  read_str-append s rest h a = rw (
    append_assoc (le_bytes 4 (length s)) s rest,
    read_number-le_bytes 4 (length s) (s ++ rest) (omega arith),
    dstr_init-empty malloc (length s) serves h,
    read_bytes-append s rest,
    until_zero-text s (behind rest) a (zeroed rest),
  )

  -- One round prints one item.
  print_res-item :
      (fuel : ℕ) (x : Item) (rest : Bytes) (others : List Item)
      → Fits x
      → print_res fuel malloc behind rest ≡ some others
      → print_res (suc fuel) malloc behind (item_bytes x ++ rest) ≡ some (x ∷ others)
  unfolding print_res print_one item_bytes Fits
  print_res-item fuel (int n) rest others h ih = rw (read_number-le_bytes 4 n rest h, ih)
  print_res-item fuel (arr n) rest others h ih = rw (read_number-le_bytes 4 n rest h, ih)
  print_res-item fuel (double n) rest others h ih = rw (read_number-le_bytes 8 n rest h, ih)
  print_res-item fuel (str s) rest others (h, a) ih = rw (read_str-append s rest h a, ih)
  print_res-item fuel (error s) rest others (h, a) ih = rw (read_str-append s rest h a, ih)
  print_res-item fuel null rest others h ih = rw ih

  length-item_bytes : (x : Item) → 1 ≤ length (item_bytes x)
  unfolding item_bytes
  length-item_bytes (int n) = omega arith
  length-item_bytes (arr n) = omega arith
  length-item_bytes (double x) = omega arith
  length-item_bytes (str s) = omega arith
  length-item_bytes (error s) = omega arith
  length-item_bytes null = omega arith

  print_res-nil : (fuel : ℕ) → print_res (suc fuel) malloc behind [] ≡ some []
  unfolding print_res
  print_res-nil fuel = refl

  print_res-items :
      (fuel : ℕ) (xs : List Item)
      → All Fits xs
      → length (items_bytes xs) < fuel
      → print_res fuel malloc behind (items_bytes xs) ≡ some xs
  unfolding items_bytes
  print_res-items zero xs a h = absurd (omega arith)
  print_res-items (suc fuel) [] a h = print_res-nil fuel
  print_res-items (suc fuel) (x ∷ xs) (a, more) h =
      let shorter : length (items_bytes xs) < fuel =
        omega (arith, length-item_bytes x, length-append (item_bytes x) (items_bytes xs)) in
      print_res-item fuel x (items_bytes xs) xs a (print_res-items fuel xs more shorter)

  show_reply-message :
      (header : Bytes) (code : ℕ) (xs : List Item)
      → length header ≡ 4
      → code < 2 ^ 32
      → All Fits xs
      → show_reply malloc behind (header ++ (preamble code ++ items_bytes xs)) ≡ some (code, xs)
  unfolding show_reply preamble
  show_reply-message header code xs h fits a =
      let skipped = header ++ (Tags.arr ∷ (le_bytes 4 2 ++ (Tags.int ∷ []))) in
      let split : header
            ++ ((Tags.arr ∷ (le_bytes 4 2 ++ (Tags.int ∷ le_bytes 4 code))) ++ items_bytes xs)
          ≡ skipped ++ (le_bytes 4 code ++ items_bytes xs) =
        simp append_assoc in
      let len : length skipped ≡ 10 = omega (
        arith,
        h,
        length-append header (Tags.arr ∷ (le_bytes 4 2 ++ (Tags.int ∷ []))),
        length-append (le_bytes 4 2) (Tags.int ∷ []),
        length-le_bytes 4 2,
      ) in
      let front : read_bytes 10 (skipped ++ (le_bytes 4 code ++ items_bytes xs))
          ≡ some (skipped, le_bytes 4 code ++ items_bytes xs) =
        rw len at (read_bytes-append skipped (le_bytes 4 code ++ items_bytes xs)) in
      rw (
        split,
        front,
        read_number-le_bytes 4 code (items_bytes xs) fits,
        print_res-items (length (items_bytes xs) + 1) xs a (omega arith),
      )

  -- The stream has the bytes in front.
  read_all-append : (xs rest : Bytes) → read_all (xs ++ rest) (length xs) ≡ some (xs, rest)
  unfolding read_all
  read_all-append xs rest =
      rw (take-length_append, drop-length_append) (ground (arith, length-append xs rest))

  -- When the allocator serves every request, the client's `handle_read` of a stream that begins
  -- with a message, whose code and items fit their fields and which is within the server's limit,
  -- does not fault and returns the message's status code and all its items in order.
  pub handle_read-message :
      (code : ℕ) (xs : List Item) (after : Bytes)
      → code < 2 ^ 32
      → All Fits xs
      → 10 + length (items_bytes xs) ≤ max_message_len
      → handle_read malloc behind (message code (items_bytes xs) ++ after) ≡ some (some (code, xs))
  unfolding handle_read read_sized show_read message
  handle_read-message code xs after fits a h =
      let n = 10 + length (items_bytes xs) in
      let header = le_bytes 4 n in
      let body = preamble code ++ items_bytes xs in
      let split : (header ++ body) ++ after ≡ header ++ (body ++ after) =
        append_assoc header body after in
      let front : read_all (header ++ (body ++ after)) 4 ≡ some (header, body ++ after) =
        rw (length-le_bytes 4 n) at (read_all-append header (body ++ after)) in
      let len : length body ≡ n =
        omega (arith, length-append (preamble code) (items_bytes xs), length-preamble code) in
      let total : le_value header ≡ n = le_value-le_bytes 4 n (omega arith) in
      let back : read_all (body ++ after) n ≡ some (body, after) =
        rw len at (read_all-append body after) in
      let whole : leb (2 ^ 32) (4 + n) ≡ false = ground arith in
      rw (
        split,
        front,
        total,
        whole,
        back,
        show_reply-message header code xs (length-le_bytes 4 n) fits a,
      )
