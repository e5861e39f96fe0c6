-- ===== src/Prelude/Int.antt =====
-- C++ `int` values by their sign; the source only compares them.
use Prim.Native.Nat.{ℕ}
use mathlib.Core.Bool.{Bool, true, false}
use high_performance_server.Prelude.Tests.{leb}

-- `negsuc n` is -(n + 1).
pub data ℤ : Type 0 where
  pos : ℕ → ℤ
  negsuc : ℕ → ℤ

-- `lo <= i && i <= hi`
abbrev pub between : ℕ → ℕ → ℤ → Bool
between lo hi (pos n) = elim (leb lo n) [ true ↦ leb n hi | false ↦ false ]
between lo hi (negsuc n) = false
