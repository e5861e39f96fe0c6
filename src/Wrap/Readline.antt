-- ===== src/Wrap/Readline.antt =====
-- `Readline` against a plain definition of the next line of a stream.
use mathlib.Core.List.{append_assoc, append-nil}
use mathlib.Core.Path.{subst}
use high_performance_server.Prelude.{
  ℕ, zero, suc, ◌+◌, ◌-◌, ◌≤◌, ◌<◌, ◌==◌, if◌then◌else◌, Bool, true, false, Option, none, some, [],
  ◌∷◌, ◌++◌, Bytes, length, length-append, ◌≡◌, ◌≢◌, refl, ap, ◌∙◌, arith, inl, inr, Bool-cases,
}
use high_performance_server.Util.{ReadResult}
use high_performance_server.Wrap.{
  OneByte, byte, at_end, read_error, refill, my_read, read_line, readline,
}

-- The next line of a stream: up to and with its '\n', but `room` bytes at most; what follows it; and
-- whether the room was used up without a '\n'.
abbrev pub next_line : ℕ → Bytes → Bytes × Bytes × Bool
next_line zero xs = ([], xs, true)
next_line (suc room) [] = ([], [], false)
next_line (suc room) (c ∷ cs) = elim (c == b'\n') [
  | true ↦ (c ∷ [], cs, false)
  | false ↦ (c ∷ (next_line room cs).0, (next_line room cs).1, (next_line room cs).2)
]

module _ {S : Type 0} (read : ℕ → S → ReadResult × S) where
  -- A blocking stream: `pending` is what is still to be read, a call delivers a front part of it,
  -- and nothing only at its end; it does not fail, and is not interrupted for ever.
  pub record IsSource (pending : S → Bytes) (measure : S → ℕ) : Type 0 where
    pub got :
        (s s' : S) (b : ℕ) (bs : Bytes)
        → read 100 s ≡ (ReadResult.got (b ∷ bs), s')
        → (pending s ≡ b ∷ bs ++ pending s') × (measure s' ≤ measure s)
    pub ended :
        (s s' : S)
        → read 100 s ≡ (ReadResult.got [], s')
        → (pending s ≡ []) × (pending s' ≡ []) × (measure s' ≤ measure s)
    pub interrupted :
        (s s' : S)
        → read 100 s ≡ (ReadResult.interrupted, s')
        → (pending s' ≡ pending s) × (measure s' < measure s)
    pub blocks : (s : S) → (read 100 s).0 ≢ ReadResult.would_block
    pub breaks : (s : S) → (read 100 s).0 ≢ ReadResult.broken

  abbrev Matches : OneByte → Bytes → Bytes → Type 0
  Matches (byte c) xs ys = xs ≡ c ∷ ys
  Matches at_end xs ys = (xs ≡ []) × (ys ≡ [])
  Matches read_error xs ys = ⊥

  abbrev Delivers : (S → Bytes) → (S → ℕ) → Bytes → S → Option (OneByte × Bytes × S) → Type 0
  Delivers pending measure xs s res =
      (o : OneByte) × (buf : Bytes) × (s' : S) × (res ≡ some (o, buf, s'))
      × (measure s' ≤ measure s)
      × Matches o xs (buf ++ pending s')

  -- the branches of a refill; `again` is the call behind an interruption
  refilled :
      (pending : S → Bytes) (measure : S → ℕ) (s : S) (t : ReadResult × S)
      → IsSource pending measure
      → read 100 s ≡ t
      → (again : Option (OneByte × Bytes × S))
      → (measure t.1 < measure s → Delivers pending measure (pending t.1) t.1 again)
      → Delivers pending measure (pending s) s (elim t.0 [
        | ReadResult.got [] ↦ some (at_end, [], t.1)
        | ReadResult.got (b ∷ bs) ↦ some (byte b, bs, t.1)
        | ReadResult.interrupted ↦ again
        | ReadResult.would_block ↦ some (read_error, [], t.1)
        | ReadResult.broken ↦ some (read_error, [], t.1)
      ])
  refilled pending measure s (ReadResult.got [], s') h e again next =
      let (empty, after, le) = h.ended s s' e in (at_end, [], s', refl, le, (empty, after))
  refilled pending measure s (ReadResult.got (b ∷ bs), s') h e again next =
      let (front, le) = h.got s s' b bs e in (byte b, bs, s', refl, le, front)
  refilled pending measure s (ReadResult.interrupted, s') h e again next =
      let (same, lt) = h.interrupted s s' e in
      let (o, buf, s'', done, le, m) = next lt in
      (o, buf, s'', done, omega arith, subst (λ xs. Matches o xs (buf ++ pending s'')) same m)
  refilled pending measure s (ReadResult.would_block, s') h e again next =
      absurd (h.blocks s (ap (λ p. p.0) e))
  refilled pending measure s (ReadResult.broken, s') h e again next =
      absurd (h.breaks s (ap (λ p. p.0) e))

  refill-Delivers :
      (pending : S → Bytes) (measure : S → ℕ) (fuel : ℕ) (s : S)
      → IsSource pending measure
      → measure s < fuel
      → Delivers pending measure (pending s) s (refill read fuel s)
  unfolding refill
  refill-Delivers pending measure zero s h m = absurd (omega arith)
  refill-Delivers pending measure (suc fuel) s h m =
      refilled pending measure s (read 100 s) h refl (refill read fuel (read 100 s).1)
        (λ lt. refill-Delivers pending measure fuel (read 100 s).1 h (omega arith))

  my_read-Delivers :
      (pending : S → Bytes) (measure : S → ℕ) (fuel : ℕ) (buf : Bytes) (s : S)
      → IsSource pending measure
      → measure s < fuel
      → Delivers pending measure (buf ++ pending s) s (my_read read fuel buf s)
  unfolding my_read
  my_read-Delivers pending measure fuel [] s h m = refill-Delivers pending measure fuel s h m
  my_read-Delivers pending measure fuel (b ∷ bs) s h m = (byte b, bs, s, refl, omega arith, refl)

  -- the result of a line, read into an array that holds `acc` already
  abbrev IsLine : (S → Bytes) → ℕ → Bytes → Bytes → Option (Option ℕ × Bytes × Bytes × S) → Type 0
  IsLine pending room acc xs res =
      let (line, rest, full) = next_line room xs in
      (buf : Bytes) × (s' : S) × (res
        ≡ some (some (length (acc ++ line) + (if full then 1 else 0)), acc ++ line, buf, s'))
      × (buf ++ pending s' ≡ rest)

  -- a round of the loop on what `my_read` returned
  abbrev behind : ℕ → ℕ → Bytes → OneByte → Bytes → S → Option (Option ℕ × Bytes × Bytes × S)
  behind fuel room acc (byte c) buf s = elim (c == b'\n') [
    | true ↦ some (some (length acc + 1), acc ++ c ∷ [], buf, s)
    | false ↦ read_line read fuel room (acc ++ c ∷ []) buf s
  ]
  behind fuel room acc at_end buf s = some (some (length acc), acc, buf, s)
  behind fuel room acc read_error buf s = some (none, acc, buf, s)

  read_line_step :
      (fuel room : ℕ) (acc buf : Bytes) (s : S) (o : OneByte) (buf' : Bytes) (s' : S)
      → my_read read fuel buf s ≡ some (o, buf', s')
      → read_line read fuel (suc room) acc buf s ≡ behind fuel room acc o buf' s'
  unfolding read_line
  read_line_step fuel room acc buf s (byte c) buf' s' e = rw (e, read_line) refl
  read_line_step fuel room acc buf s at_end buf' s' e = rw (e, read_line) refl
  read_line_step fuel room acc buf s read_error buf' s' e = rw (e, read_line) refl

  behind-IsLine :
      (pending : S → Bytes) (fuel room : ℕ) (acc xs : Bytes) (o : OneByte) (buf : Bytes) (s : S)
      → Matches o xs (buf ++ pending s)
      → ((c : ℕ)
          → IsLine pending room
              (acc ++ c ∷ [])
              (buf ++ pending s)
              (read_line read fuel room (acc ++ c ∷ []) buf s))
      → IsLine pending (suc room) acc xs (behind fuel room acc o buf s)
  behind-IsLine pending fuel room acc xs at_end buf s (empty, after) ih =
      rw (empty, append-nil acc) (buf, s, (ground arith), after)
  behind-IsLine pending fuel room acc xs read_error buf s fits ih = elim fits [ ]
  behind-IsLine pending fuel room acc xs (byte c) buf s fits ih = elim (Bool-cases (c == b'\n')) [
    | inl newline ↦
        rw (fits, newline, behind, next_line)
          (
            buf,
            s,
            ap (λ n. some (some n, acc ++ c ∷ [], buf, s))
                (omega (arith, length-append acc (c ∷ []))),
            refl,
          )
    | inr other ↦
        let (buf', s', done, rest) = ih c in
        let (line, _, full) = next_line room (buf ++ pending s) in
        rw (fits, other, behind, next_line)
          (
            buf',
            s',
            done
                ∙ ap (λ l. some (some (length l + (if full then 1 else 0)), l, buf', s'))
                    (append_assoc acc (c ∷ []) line),
            rest,
          )
  ]

  read_line-IsLine :
      (pending : S → Bytes) (measure : S → ℕ) (fuel room : ℕ) (acc buf : Bytes) (s : S)
      → IsSource pending measure
      → measure s < fuel
      → IsLine pending room acc (buf ++ pending s) (read_line read fuel room acc buf s)
  unfolding read_line
  read_line-IsLine pending measure fuel zero acc buf s h m =
      (buf, s, rw (append-nil acc) refl, refl)
  read_line-IsLine pending measure fuel (suc room) acc buf s h m =
      let (o, buf', s', done, le, fits) = my_read-Delivers pending measure fuel buf s h m in
      rw (read_line_step fuel room acc buf s o buf' s' done) (
        behind-IsLine pending fuel room acc (buf ++ pending s) o buf' s' fits
          (λ c. read_line-IsLine pending measure fuel room (acc ++ c ∷ []) buf' s' h (omega arith)))

  -- On a blocking stream `Readline` returns, and stores the next line of the stream, however the
  -- kernel and the static buffer have cut the stream into pieces: up to and with its '\n', but
  -- `maxlen - 1` bytes at most. What it has not stored is still to come. The number returned is the
  -- number stored, and one more where the array is full and no '\n' was met.
  pub readline_lem :
      (pending : S → Bytes) (measure : S → ℕ) (fuel maxlen : ℕ) (buf : Bytes) (s : S)
      → IsSource pending measure
      → measure s < fuel
      → let (line, rest, full) = next_line (maxlen - 1) (buf ++ pending s) in
        (buf' : Bytes) × (s' : S) × (readline read fuel maxlen buf s
          ≡ some (some (length line + (if full then 1 else 0)), line, buf', s'))
        × (buf' ++ pending s' ≡ rest)
  unfolding readline
  readline_lem pending measure fuel maxlen buf s h m =
      read_line-IsLine pending measure fuel (maxlen - 1) [] buf s h m
