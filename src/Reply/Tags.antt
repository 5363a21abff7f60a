-- ===== src/Reply/Tags.antt =====
-- The tags of src/out_helpers.h, which src/client.cpp declares again.
use Prim.Native.Nat.{ℕ}

abbrev pub int : ℕ
int = 0

abbrev pub str : ℕ
str = 1

abbrev pub arr : ℕ
arr = 2

abbrev pub null : ℕ
null = 3

abbrev pub error : ℕ
error = 4

abbrev pub double : ℕ
double = 5
