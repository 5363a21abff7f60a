-- ===== src/Base/Perms.antt =====
-- A permutation keeps the native length.
use Prim.Native.Nat.{ℕ, suc}
use mathlib.Core.Path.{◌≡◌, refl, sym, ap, ◌∙◌}
use mathlib.Core.List.{List, [], ◌∷◌, Perm, length as length_unary}
use mathlib.Core.List.Perm
use mathlib.Core.Nat.{ℕ as ℕᵘ, zero as zeroᵘ, suc as sucᵘ}
use custom_redis.Base.Lists.{length}

-- The native number that a unary one stands for.
native_of : ℕᵘ → ℕ
native_of zeroᵘ = 0
native_of (sucᵘ n) = suc (native_of n)

module _ {ℓ} {A : Type ℓ} where
  native_of-length : (xs : List A) → native_of (length_unary xs) ≡ length xs
  unfolding native_of length_unary
  native_of-length [] = refl
  native_of-length (x ∷ xs) = ap suc (native_of-length xs)

  pub length-perm : {xs ys : List A} → Perm xs ys → length xs ≡ length ys
  length-perm {xs} {ys} p =
      sym (native_of-length xs) ∙ ap native_of (Perm.length-eq p) ∙ native_of-length ys
