-- ===== src/Prelude/Int.antt =====
-- Whole numbers that can go below zero, for a gauge that counts up and down.
use Prim.Native.Nat.{ℕ, zero, suc}
use mathlib.Core.Path.{◌≡◌, refl}

-- `negsuc n` is -(n + 1).
pub data ℤ : Type 0 where
  pos : ℕ → ℤ
  negsuc : ℕ → ℤ

abbrev pub add_one : ℤ → ℤ
add_one (pos n) = pos (suc n)
add_one (negsuc zero) = pos 0
add_one (negsuc (suc n)) = negsuc n

abbrev pub sub_one : ℤ → ℤ
sub_one (pos zero) = negsuc 0
sub_one (pos (suc n)) = pos n
sub_one (negsuc n) = negsuc (suc n)

pub sub_one-add_one : (a : ℤ) → sub_one (add_one a) ≡ a
sub_one-add_one (pos n) = refl
sub_one-add_one (negsuc zero) = refl
sub_one-add_one (negsuc (suc n)) = refl
