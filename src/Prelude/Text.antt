-- ===== src/Prelude/Text.antt =====
-- std::string as a list of bytes: `find`, `substr`, `==`, and texts of the source as bytes.
-- A position is `none` where the source holds `npos` (or the -1 that it becomes in an `int`).
use Prim.Native.Nat.{ℕ, suc, ◌+◌, ◌<◌}
use Prim.Native.Char.{code}
use Prim.Native.String.{String}
use mathlib.Core.Path.{◌≡◌, refl, ap, ◌∙◌}
use mathlib.Core.Logic.{◌↔◌, inl, inr}
use mathlib.Core.Bool.{Bool, true, false, ◌&&◌}
use mathlib.Core.Option.{Option, none, some}
use mathlib.Core.List.{List, [], ◌∷◌, ◌++◌}
use native.Mathlib.Omega.{arith}
use high_performance_server.Prelude.Tests.{◌==◌, if◌then◌else◌, Bool-cases}
use high_performance_server.Prelude.Lists.{length, take, drop}

abbrev pub Bytes : Type 0
Bytes = List ℕ

-- The bytes of an ASCII text.
abbrev pub codes : String → Bytes
codes String.[] = []
codes (String.◌∷◌ c s) = code c ∷ codes s

abbrev pub later : Option ℕ → Option ℕ
later none = none
later (some i) = some (suc i)

-- `s.find(c)`
unfoldable pub find_byte : ℕ → Bytes → Option ℕ
find_byte c [] = none
find_byte c (x ∷ xs) = if x == c then some 0 else later (find_byte c xs)

abbrev pub shift : ℕ → Option ℕ → Option ℕ
shift n none = none
shift n (some i) = some (n + i)

-- `s.find(c, from)`; a start behind the end finds nothing
abbrev pub find_from : ℕ → Bytes → ℕ → Option ℕ
find_from c s from = shift from (find_byte c (drop from s))

-- `s.substr(0, pos)`
abbrev pub until : Option ℕ → Bytes → Bytes
until none s = s
until (some p) s = take p s

-- `s.substr(pos + 1)`, where -1 + 1 is 0
abbrev pub past : Option ℕ → Bytes → Bytes
past none s = s
past (some p) s = drop (p + 1) s

-- `s == t`
unfoldable pub same : Bytes → Bytes → Bool
same [] [] = true
same (x ∷ xs) (y ∷ ys) = x == y && same xs ys
same _ _ = false

pub same_iff : (a b : Bytes) → (same a b ≡ true) ↔ (a ≡ b)
unfolding same
same_iff (x ∷ a) (y ∷ b) = ground (arith, same_iff a b)
same_iff _ _ = ground arith

-- The byte `c` stands nowhere in the text.
abbrev pub Avoids : ℕ → Bytes → Type 0
Avoids c [] = Unit
Avoids c (x ∷ xs) = ((x == c) ≡ false) × Avoids c xs

pub find_byte-append :
    (c : ℕ) (xs ys : Bytes) → Avoids c xs → find_byte c (xs ++ c ∷ ys) ≡ some (length xs)
unfolding find_byte
find_byte-append c [] ys h = ground arith
find_byte-append c (x ∷ xs) ys h = ground (arith, find_byte-append c xs ys h.1)

pub find_byte-Avoids : (c : ℕ) (xs : Bytes) → Avoids c xs → find_byte c xs ≡ none
unfolding find_byte
find_byte-Avoids c [] h = refl
find_byte-Avoids c (x ∷ xs) h = ground (arith, find_byte-Avoids c xs h.1)

pub Avoids-of_find_byte : (c : ℕ) (xs : Bytes) → find_byte c xs ≡ none → Avoids c xs
unfolding find_byte
Avoids-of_find_byte c [] h = tt
Avoids-of_find_byte c (x ∷ xs) h = (ground arith, Avoids-of_find_byte c xs (ground arith))

later-lt : {o : Option ℕ} {n p : ℕ} → ((q : ℕ) → o ≡ some q → q < n) → later o ≡ some p → p < suc n
later-lt {o = none} f h = cc
later-lt {o = some q} f h = ground (arith, f q refl)

-- A position that `find` returns is inside the text.
pub find_byte-lt : (c : ℕ) (xs : Bytes) (p : ℕ) → find_byte c xs ≡ some p → p < length xs
unfolding find_byte
find_byte-lt c [] p h = cc
find_byte-lt c (x ∷ xs) p h = elim (Bool-cases (x == c)) [
  | inl e ↦ ground arith
  | inr e ↦ later-lt (find_byte-lt c xs) (rw e at h)
]

pub Avoids-append : (c : ℕ) (xs ys : Bytes) → Avoids c xs → Avoids c ys → Avoids c (xs ++ ys)
Avoids-append c [] ys h k = k
Avoids-append c (x ∷ xs) ys h k = (h.0, Avoids-append c xs ys h.1 k)

module _ {ℓ} {A : Type ℓ} where
  pub take-append : (xs ys : List A) → take (length xs) (xs ++ ys) ≡ xs
  take-append [] ys = refl
  take-append (x ∷ xs) ys = ap (◌∷◌ x) (take-append xs ys)

  pub drop-append : (xs ys : List A) → drop (length xs) (xs ++ ys) ≡ ys
  drop-append [] ys = refl
  drop-append (x ∷ xs) ys = drop-append xs ys

  pub drop-append_cons : (xs ys : List A) (y : A) → drop (length xs + 1) (xs ++ y ∷ ys) ≡ ys
  drop-append_cons [] ys y = refl
  drop-append_cons (x ∷ xs) ys y =
      ap (λ n. drop n (x ∷ xs ++ y ∷ ys)) {y = suc (length xs + 1)} (omega arith)
      ∙ drop-append_cons xs ys y
