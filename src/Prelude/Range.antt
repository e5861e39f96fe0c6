-- ===== src/Prelude/Range.antt =====
-- Pieces of a text between two positions, as the iterator constructor of std::string takes them.
use Prim.Native.Nat.{ℕ, ◌+◌, ◌-◌, ◌≤◌}
use mathlib.Core.Path.{◌≡◌, refl}
use mathlib.Core.Option.{Option, none, some}
use mathlib.Core.Bool.{true, ◌&&◌}
use mathlib.Core.List.{◌++◌}
use native.Mathlib.Omega.{arith}
use high_performance_server.Prelude.Tests.{leb, if◌then◌else◌}
use high_performance_server.Prelude.Lists.{length, take, drop, length-append}
use high_performance_server.Prelude.Text.{Bytes, take-append, drop-append}

-- `std::string(s.begin() + a, s.begin() + b)`; `none` is a position that was never set, and the
-- result `none` is undefined behaviour: no valid range of the text.
unfoldable pub range : Bytes → Option ℕ → Option ℕ → Option Bytes
range s none b = none
range s (some a) none = none
range s (some a) (some b) =
    if leb a b && leb b (length s) then some (take (b - a) (drop a s)) else none

-- A range inside the text is defined.
pub range_defined :
    (s : Bytes) (a b : ℕ)
    → a ≤ b
    → b ≤ length s
    → (t : Bytes) × (range s (some a) (some b) ≡ some t)
unfolding range
range_defined s a b h k = (take (b - a) (drop a s), ground arith)

-- The range that a piece takes up in its text is that piece.
pub range-piece :
    (before t after : Bytes) {a b : ℕ}
    → a ≡ length before
    → b ≡ length before + length t
    → range (before ++ (t ++ after)) (some a) (some b) ≡ some t
unfolding range
range-piece before t after {a} {b} ea eb =
    rw (ea, eb, inside, exact, drop-append before (t ++ after), take-append t after)
  where
    inside :
        (leb (length before) (length before + length t)
          && leb (length before + length t) (length (before ++ (t ++ after))))
        ≡ true
    inside = ground (arith, length-append before (t ++ after), length-append t after)

    exact : length before + length t - length before ≡ length t
    exact = omega arith

pub range_unset : (s : Bytes) (b : Option ℕ) → range s none b ≡ none
unfolding range
range_unset s b = refl
