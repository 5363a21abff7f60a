-- ===== src/Str.antt =====
-- Dynamic strings: src/data_structures/dstr.h and src/data_structures/dstr.cpp.
-- A `dstr` is the header fields and the bytes that follow it. `chars` are the first `size` bytes of
-- `buf` (what stands behind them is never read before it is written), `free` is the header's field,
-- and `room` is the number of bytes of the allocation that stand behind the header.
-- The allocator is a parameter: `malloc n` says whether a request of `n` bytes is served.
pub mod Contents
pub mod Room
mod Tests
use custom_redis.Base.{
  ℕ, ◌+◌, ◌-◌, ◌*◌, ◌%◌, ◌^◌, ◌≤◌, min, Bool, true, false, List, [], ◌++◌, Option, none, some, ltb,
  leb, if◌then◌else◌, length, take, replicate, ◌>>=◌,
}

pub record Dstr : Type 0 where
  pub chars : List ℕ
  pub free : ℕ
  pub room : ℕ

abbrev pub Malloc : Type 0
Malloc = ℕ → Bool

abbrev pub max_str_prealoc : ℕ
max_str_prealoc = 1024 * 1024

abbrev pub max_str_size : ℕ
max_str_size = 2 ^ 30

-- Arithmetic on `size_t`.
abbrev pub size_mod : ℕ
size_mod = 2 ^ 64

-- `sizeof(dstr)`: two words.
abbrev pub header_size : ℕ
header_size = 16

pub data StrFuncReturns : Type 0 where
  str_ok str_err_too_large str_err_alloc_fail : StrFuncReturns

abbrev pub is_ok : StrFuncReturns → Bool
is_ok str_ok = true
is_ok _ = false

abbrev pub size : Dstr → ℕ
size d = length d.chars

unfoldable pub dstr_cap : Dstr → ℕ
dstr_cap d = (d.free + size d) % size_mod

-- The error is what `errno` holds when the function returns NULL.
unfoldable pub dstr_init : Malloc → ℕ → Option Dstr × StrFuncReturns
dstr_init malloc len =
    if ltb max_str_size len
    then (none, str_err_too_large)
    else if malloc (header_size + len + 1)
    then (some (record { chars = []; free = len; room = len + 1 }), str_ok)
    else (none, str_err_alloc_fail)

-- `newlen` of a string that grows to take `toadd_s` more bytes.
abbrev pub grown_len : Dstr → ℕ → ℕ
grown_len d toadd_s = let newlen = size d + d.free + toadd_s in newlen + min max_str_prealoc newlen

-- `memcpy` to the end, and the final zero byte; a write behind the allocation is a fault.
unfoldable pub write_end : Dstr → List ℕ → Option Dstr
write_end d toadd =
    if leb (size d + length toadd + 1) d.room
    then some (record d { chars = d.chars ++ toadd; free = d.free - length toadd })
    else none

-- The header's `free` is written before `realloc` is called, so a refused request leaves it changed.
unfoldable pub dstr_append : Malloc → Dstr → List ℕ → Option (StrFuncReturns × Dstr)
unfolding dstr_cap write_end
dstr_append malloc d toadd =
    let toadd_s = length toadd in
    let newlen = grown_len d toadd_s in
    let grown = record d { free = newlen - d.free; room = newlen + 1 } in
    if ltb max_str_size ((toadd_s + dstr_cap d) % size_mod)
    then some (str_err_too_large, d)
    else if ltb d.free toadd_s
    then if malloc (header_size + newlen + 1)
      then (write_end grown toadd >>= λ d. some (str_ok, d))
      else some (str_err_alloc_fail, record d { free = newlen - d.free })
    else (write_end d toadd >>= λ d. some (str_ok, d))

-- `dstr_assign` builds the new string beside the old one, and gives up the old one at the end.
assign_to : Malloc → Dstr → List ℕ → Option Dstr × StrFuncReturns → Option (StrFuncReturns × Dstr)
unfolding dstr_append
assign_to malloc d toadd (none, errno) = some (errno, d)
assign_to malloc d toadd (some tmp, errno) =
    dstr_append malloc tmp toadd >>= λ (err, new). some (err, (if is_ok err then new else d))

unfoldable pub dstr_assign : Malloc → Dstr → List ℕ → Option (StrFuncReturns × Dstr)
unfolding assign_to dstr_init dstr_cap
dstr_assign malloc d toadd = assign_to malloc d toadd (dstr_init malloc (dstr_cap d))

-- `memset` from the old end, and the final zero byte; a write behind the allocation is a fault.
unfoldable pub write_pad : Dstr → ℕ → ℕ → ℕ → Option Dstr
write_pad d cap len pad =
    if leb (len + 1) d.room
    then some
        (record d { chars = take len d.chars ++ replicate (len - size d) pad; free = cap - len })
    else none

unfoldable pub dstr_resize : Malloc → Dstr → ℕ → ℕ → Option (StrFuncReturns × Dstr)
unfolding dstr_cap write_pad
dstr_resize malloc d len pad =
    let cap = dstr_cap d in
    if ltb max_str_size len
    then some (str_err_too_large, d)
    else if ltb (size d) len
    then if ltb cap len
      then if malloc (header_size + len + 1)
        then (write_pad (record d { room = len + 1 }) len len pad >>= λ d. some (str_ok, d))
        else some (str_err_alloc_fail, d)
      else (write_pad d cap len pad >>= λ d. some (str_ok, d))
    else (write_pad d cap len pad >>= λ d. some (str_ok, d))

-- The request leaves out the header, and its result is not tested.
unfoldable pub dstr_reserve : Malloc → Dstr → ℕ → Option (StrFuncReturns × Dstr)
dstr_reserve malloc d add =
    if ltb max_str_size ((size d + add) % size_mod)
    then some (str_err_too_large, d)
    else if leb add d.free
    then some (str_ok, d)
    else if malloc (size d + add + 1)
    then some (str_ok, record d { free = add; room = size d + add + 1 - header_size })
    else none
