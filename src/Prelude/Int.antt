-- ===== src/Prelude/Int.antt =====
-- Python's integers over the native numbers: `negsuc n` is -(n + 1).
use vista_authen.Prelude.Tests.{leb, if◌then◌else◌}
use Prim.Native.Nat.{ℕ, zero, suc, ◌+◌, ◌-◌}

pub data ℤ : Type 0 where
  pos : ℕ → ℤ
  negsuc : ℕ → ℤ

-- -n
abbrev pub neg_ℕ : ℕ → ℤ
neg_ℕ zero = pos zero
neg_ℕ (suc n) = negsuc n

-- |n - z|, for a number `n` that is not negative
abbrev pub abs_diff : ℕ → ℤ → ℕ
abs_diff n (pos m) = if leb m n then n - m else m - n
abs_diff n (negsuc m) = n + suc m
