-- ===== src/Str/Tests.antt =====
-- The theorems on src/data_structures/dstr.cpp at concrete strings.
use custom_redis.Base.{
  ℕ, ◌≤◌, ◌≡◌, ◌↔◌, refl, true, ltb, leb, not, ◌&&◌, ◌||◌, ◌%◌, ◌+◌, if◌then◌else◌, length, Returns,
  List, [], ◌∷◌, ◌++◌, arith, false,
}
use custom_redis.Str.{
  Dstr, Malloc, str_ok, size, is_ok, dstr_cap, max_str_size, size_mod, header_size, grown_len,
  dstr_append,
}
use custom_redis.Str.Contents.{IsSafe, append-chars}
use custom_redis.Str.Room.{append_grows-IsSafe_iff}

-- "hi", with room for three more characters.
abbrev hi : Dstr
hi = record { chars = 104 ∷ 105 ∷ []; free = 3; room = 6 }

abbrev word : List ℕ
word = 97 ∷ 98 ∷ 99 ∷ 100 ∷ []

abbrev serving : Malloc
serving n = true

abbrev refusing : Malloc
refusing n = false

append-chars_example : Returns (dstr_append refusing hi word) λ r.
    (is_ok r.0
      ≡ not (ltb max_str_size ((length word + dstr_cap hi) % size_mod))
        && (leb (length word) hi.free || refusing (header_size + grown_len hi (length word) + 1)))
    × (r.1.chars ≡ (if is_ok r.0 then hi.chars ++ word else hi.chars))
    × (size r.1 + 1 ≤ r.1.room)
append-chars_example = append-chars refusing hi word (omega arith)

append_grows-IsSafe_iff_example :
    Returns (dstr_append serving hi word) λ r. (r.0 ≡ str_ok) × (IsSafe r.1 ↔ (size hi ≤ hi.free))
append_grows-IsSafe_iff_example =
    append_grows-IsSafe_iff serving hi word (λ n. refl) (omega arith) (omega arith)
