-- ===== src/Request/Head/Safe.antt =====
-- A scan that starts afresh never makes a string from positions outside the content.
use high_performance_server.Prelude.{
  ℕ, ◌+◌, ◌≤◌, ◌<◌, Option, none, some, [], ◌∷◌, Bytes, length, drop, ◌≡◌, refl, inl, inr, arith,
  Bool-cases, range, range_defined,
}
use high_performance_server.Request.{
  Request, HeadersState, h_start, h_key, h_colon, h_spaces_after_colon, h_value, h_cr, h_lf,
}
use high_performance_server.Request.Head.{
  HeadFlag, Scan, Step, running, failed, undefined, store, step_in, scan, start, finish_head,
  parse_request_head,
}

-- The position is set and lies below `n`.
abbrev Below : Option ℕ → ℕ → Type 0
Below none n = ⊥
Below (some a) n = a < n

abbrev Ordered : Option ℕ → Option ℕ → Type 0
Ordered (some a) (some b) = a ≤ b
Ordered _ _ = ⊥

-- What each state knows of the positions when the byte at index `i` comes.
abbrev Positions : HeadersState → ℕ → Scan → Type 0
Positions h_key i s = Below s.key_start i
Positions h_colon i s = Ordered s.key_start s.key_end × Below s.key_end i
Positions h_spaces_after_colon i s = Ordered s.key_start s.key_end × Below s.key_end i
Positions h_value i s = Ordered s.key_start s.key_end × Below s.key_end i × Below s.value_start i
Positions h_cr i s =
    Ordered s.key_start s.key_end
    × Below s.key_end i
    × Ordered s.value_start s.value_end
    × Below s.value_end i
Positions _ i s = Unit

range-IsSome :
    (str : Bytes) (a b : Option ℕ) (i : ℕ)
    → Ordered a b
    → Below b i
    → i ≤ length str
    → (t : Bytes) × (range str a b ≡ some t)
range-IsSome str none b i o h l = absurd o
range-IsSome str (some a) none i o h l = absurd h
range-IsSome str (some a) (some b) i o h l = range_defined str a b o (omega arith)

-- the result of one round, seen from the next index
abbrev Fine : ℕ → Step → Type 0
Fine i (running s) = Positions s.h_state i s
Fine i (failed s) = Unit
Fine i undefined = ⊥

step_in-Fine :
    (h : HeadersState) (str : Bytes) (i c : ℕ) (s : Scan)
    → s.h_state ≡ h
    → i < length str
    → Positions h i s
    → Fine (i + 1) (step_in h str i c s)
unfolding step_in
step_in-Fine h_cr str i c s e l (ko, kb, vo, vb) =
    let (k, ek) = range-IsSome str s.key_start s.key_end i ko kb (omega arith) in
    let (v, ev) = range-IsSome str s.value_start s.value_end i vo vb (omega arith) in ground arith
step_in-Fine _ str i c s e l p = ground arith

abbrev Defined : Bytes → Step → Type 0
Defined str (running s) = s.now_read_line_begin ≤ length str
Defined str (failed s) = Unit
Defined str undefined = ⊥

-- no round moves the line's beginning behind the byte that it reads
abbrev Begins : ℕ → Step → Type 0
Begins i (running s) = s.now_read_line_begin ≤ i
Begins i _ = Unit

step_in-Begins :
    (h : HeadersState) (str : Bytes) (i c : ℕ) (s : Scan)
    → s.now_read_line_begin ≤ i
    → Begins i (step_in h str i c s)
unfolding step_in
step_in-Begins h_cr str i c s l = ground (
  arith,
  store-Begins (range str s.key_start s.key_end) (range str s.value_start s.value_end) i
      (record s { h_state = h_lf }),
)
  where
    store-Begins : (a b : Option Bytes) (i : ℕ) (s : Scan) → Begins i (store a b i s)
    store-Begins a b i s = ground arith
step_in-Begins _ str i c s l = ground arith

scan-Defined :
    (str cs : Bytes) (i : ℕ) (s : Scan)
    → i + length cs ≡ length str
    → s.now_read_line_begin ≤ i
    → Positions s.h_state i s
    → Defined str (scan str cs i s)
unfolding scan
scan-Defined str [] i s l b p = omega arith
scan-Defined str (c ∷ cs) i s l b p = elim (Bool-cases s.not_finish) [
  | inl e ↦
      rw (e, scan)
        (go (step_in s.h_state str i c s) (step_in-Fine s.h_state str i c s refl (omega arith) p)
          (step_in-Begins s.h_state str i c s b)
          (λ s'. scan-Defined str cs (i + 1) s' (omega arith)))
  | inr e ↦ rw (e, scan) (omega arith)
]
  where
    go :
        (t : Step)
        → Fine (i + 1) t
        → Begins i t
        → ((s' : Scan)
            → s'.now_read_line_begin ≤ i + 1
            → Positions s'.h_state (i + 1) s'
            → Defined str (scan str cs (i + 1) s'))
        → Defined str (elim t [
          | running s' ↦ scan str cs (i + 1) s'
          | failed s' ↦ failed s'
          | undefined ↦ undefined
        ])
    go (running s') f b k = k s' (omega arith) f
    go (failed s') f b k = tt
    go undefined f b k = f

-- A header scan that starts in its first state returns a flag, whatever the bytes are: it makes
-- no string from positions outside the content. The new content is the old one from a position
-- inside it on, so the final `substr` does not throw.
pub parse_request_head_safe :
    (r : Request)
    → r.h_state ≡ h_start
    → (flag : HeadFlag) × (r' : Request) × (n : ℕ) × (parse_request_head r ≡ some (flag, r'))
      × (n ≤ length r.content)
      × (r'.content ≡ drop n r.content)
unfolding parse_request_head finish_head
parse_request_head_safe r e = finished (scan r.content r.content 0 (start r.h_state r.headers)) (
    scan-Defined r.content r.content 0 (start r.h_state r.headers) (omega arith) (omega arith)
      (rw e tt))
  where
    finished :
        (t : Step)
        → Defined r.content t
        → (flag : HeadFlag) × (r' : Request) × (n : ℕ) × (finish_head t r ≡ some (flag, r'))
          × (n ≤ length r.content)
          × (r'.content ≡ drop n r.content)
    finished (running s) d = (_, _, s.now_read_line_begin, refl, d, refl)
    finished (failed s) d = (_, _, 0, refl, omega arith, refl)
    finished undefined d = absurd d
