-- ===== src/Str/Room.antt =====
-- The allocation behind a string of src/data_structures/dstr.cpp: whether the header's `size` and
-- `free` stay within the bytes that were requested.
use custom_redis.Base.{
  refl, true, false, ltb, leb, ◌++◌, ◌%◌, Returns, ℕ, ◌+◌, ◌-◌, ◌≤◌, ◌<◌, ◌≡◌, ◌↔◌, List, arith,
  length, length-append,
}
use custom_redis.Str.{
  dstr_cap, size_mod, write_end, Dstr, Malloc, str_ok, max_str_size, size, header_size, grown_len,
  dstr_append,
}
use custom_redis.Str.Contents.{Serves, IsSafe}

-- An append that the limit allows, that is served and that has to grow the string does not fault,
-- reports success and leaves the header within the allocation exactly when the old string was at
-- most as long as its free bytes; the header claims more than was requested otherwise.
pub append_grows-IsSafe_iff :
    (malloc : Malloc) (d : Dstr) (s : List ℕ)
    → Serves malloc
    → length s + (size d + d.free) ≤ max_str_size
    → d.free < length s
    → Returns (dstr_append malloc d s) λ r. (r.0 ≡ str_ok) × (IsSafe r.1 ↔ (size d ≤ d.free))
unfolding dstr_append write_end
append_grows-IsSafe_iff malloc d s m h tight =
    let n = grown_len d (length s) in
    let over : ltb max_str_size ((length s + dstr_cap d) % size_mod) ≡ false = ground arith in
    let less : ltb d.free (length s) ≡ true = ground arith in
    let inside : leb (size d + length s + 1) (n + 1) ≡ true = ground arith in
    let len = length-append d.chars s in
    (
      (str_ok, record { chars = d.chars ++ s; free = n - d.free - length s; room = n + 1 }),
      rw (over, less, m (header_size + n + 1), inside) refl,
      (refl, ((λ v. omega (arith, len, v)), (λ le. omega (arith, len)))),
    )
