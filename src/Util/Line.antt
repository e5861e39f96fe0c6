-- ===== src/Util/Line.antt =====
-- `get_line` of src/this_util.cpp. `recv` is the kernel's: with the flag set it shows the next byte
-- (MSG_PEEK), otherwise it takes it; `none` is a result that is not positive.
use high_performance_server.Prelude.{
  ℕ, zero, suc, ◌+◌, ◌-◌, ◌<◌, ◌==◌, ltb, if◌then◌else◌, Bool, true, false, not, ◌&&◌, Option, none,
  some, [], ◌∷◌, ◌++◌, Bytes, length, ◌≡◌, refl, arith, ◌⊎◌, inl, inr, Bool-cases,
}

abbrev pub or_else : Option ℕ → ℕ → ℕ
or_else none d = d
or_else (some c) d = c

module _ {S : Type 0} (recv : Bool → S → Option ℕ × S) where
  -- Behind a '\r': the byte in `c`, which is '\n' unless the kernel takes another byte than it has
  -- shown.
  unfoldable pub end_of_line : Option ℕ × S → ℕ × S
  end_of_line (none, s) = (b'\n', s)
  end_of_line (some p, s) =
      if p == b'\n' then (or_else (recv false s).0 p, (recv false s).1) else (b'\n', s)

  -- One round of the loop: the bytes stored, `c`, and the kernel. Only behind a '\r' is a byte
  -- stored.
  unfoldable pub read_byte : Option ℕ × S → Bytes × ℕ × S
  unfolding end_of_line
  read_byte (none, s) = ([], b'\n', s)
  read_byte (some c, s) =
      if c == b'\r'
      then (let (x, s') = end_of_line (recv true s) in (x ∷ [], x, s'))
      else ([], c, s)

  unfoldable pub get_line_loop : ℕ → ℕ → Bytes → ℕ → S → Option (Bytes × S)
  unfolding read_byte
  get_line_loop zero size buf c s = none
  get_line_loop (suc fuel) size buf c s = elim (ltb (length buf) (size - 1) && not (c == b'\n')) [
    | false ↦ some (buf, s)
    | true ↦
        let (stored, c', s') = read_byte (recv false s) in
        get_line_loop fuel size (buf ++ stored) c' s'
  ]

  -- `get_line`: what stands in the buffer in front of the closing zero
  unfoldable pub get_line : ℕ → ℕ → S → Option (Bytes × S)
  unfolding get_line_loop
  get_line fuel size s = get_line_loop fuel size [] 0 s

  -- The kernel takes the byte that it has shown, and a byte that is taken is gone.
  pub record IsStream (measure : S → ℕ) : Type 0 where
    pub shown : (s : S) (p : ℕ) → (recv true s).0 ≡ some p → (recv false (recv true s).1).0 ≡ some p
    pub taken_lt : (s s' : S) (c : ℕ) → recv false s ≡ (some c, s') → measure s' < measure s

  end_of_line_lem :
      (s : S) (o : Option ℕ × S)
      → ((p : ℕ) → o.0 ≡ some p → (recv false o.1).0 ≡ some p)
      → (end_of_line o).0 ≡ b'\n'
  unfolding end_of_line
  end_of_line_lem s (none, t) h = refl
  end_of_line_lem s (some p, t) h = elim (Bool-cases (p == b'\n')) [
    | inl newline ↦ ground (arith, h p refl)
    | inr other ↦ ground arith
  ]

  ended :
      (fuel size : ℕ) (buf : Bytes) (s : S)
      → get_line_loop (suc fuel) size buf b'\n' s ≡ some (buf, s)
  unfolding get_line_loop
  ended fuel size buf s = ground arith

  abbrev pub IsShortLine : Option (Bytes × S) → Type 0
  IsShortLine o =
      (line : Bytes) × (s' : S) × (o ≡ some (line, s')) × ((line ≡ []) ⊎ (line ≡ b'\n' ∷ []))

  -- a round and what follows it
  round :
      (measure : S → ℕ) (fuel size : ℕ) (s : S) (t : Option ℕ × S)
      → IsStream measure
      → recv false s ≡ t
      → ((c : ℕ) (s' : S)
          → measure s' < measure s
          → IsShortLine (get_line_loop (suc fuel) size [] c s'))
      → let (stored, c', s') = read_byte t in
        IsShortLine (get_line_loop (suc fuel) size stored c' s')
  unfolding read_byte
  round measure fuel size s (none, s') h e ih = ([], s', ended fuel size [] s', inl refl)
  round measure fuel size s (some c, s') h e ih = elim (Bool-cases (c == b'\r')) [
    | inr other ↦ rw (other, read_byte) (ih c s' (h.taken_lt s s' c e))
    | inl carriage ↦
        let (x, s'') = end_of_line (recv true s') in
        let newline : x ≡ b'\n' = end_of_line_lem s' (recv true s') (h.shown s') in
        rw (carriage, read_byte, newline)
          (b'\n' ∷ [], s'', ended fuel size (b'\n' ∷ []) s'', inr refl)
  ]

  get_line_loop-IsShortLine :
      (measure : S → ℕ) (fuel size c : ℕ) (s : S)
      → IsStream measure
      → 1 < size
      → measure s + 1 < fuel
      → IsShortLine (get_line_loop fuel size [] c s)
  unfolding get_line_loop
  get_line_loop-IsShortLine measure zero size c s h l m = absurd (omega arith)
  get_line_loop-IsShortLine measure (suc zero) size c s h l m = absurd (omega arith)
  get_line_loop-IsShortLine measure (suc (suc fuel)) size c s h l m =
      elim (Bool-cases (c == b'\n')) [
        | inl newline ↦ ([], s, ground arith, inl refl)
        | inr other ↦
            let room : (ltb 0 (size - 1) && not (c == b'\n')) ≡ true = ground arith in
            rw (room, get_line_loop)
              (round measure fuel size s (recv false s) h refl (λ c' s' lt.
                get_line_loop-IsShortLine measure (suc fuel) size c' s' h l (omega arith)))
      ]

  -- `get_line` returns, and what it stores is nothing or one '\n', whatever the line is: a byte is
  -- stored only in the branch of a '\r'. The kernel takes the byte that it has shown, and the bytes
  -- to come are finitely many.
  pub get_line_lem :
      (measure : S → ℕ) (fuel size : ℕ) (s : S)
      → IsStream measure
      → 1 < size
      → measure s + 1 < fuel
      → (line : Bytes) × (s' : S) × (get_line fuel size s ≡ some (line, s'))
        × ((line ≡ []) ⊎ (line ≡ b'\n' ∷ []))
  unfolding get_line
  get_line_lem measure fuel size s h l m = get_line_loop-IsShortLine measure fuel size 0 s h l m
