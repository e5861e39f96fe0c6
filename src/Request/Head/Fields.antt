-- ===== src/Request/Head/Fields.antt =====
-- The scanner's run over one header field, from the first byte of its name to its '\n'.
use mathlib.Core.List.{append_assoc}
use high_performance_server.Prelude.{
  ℕ, ◌+◌, ◌-◌, ◌≤◌, ◌<◌, Bool, true, false, some, [], ◌∷◌, ◌++◌, ltb, ◌==◌, if◌then◌else◌, Bytes,
  length, ◌≡◌, refl, ap, ◌∙◌, arith, Avoids, length-append, range, range-piece,
}
use high_performance_server.Request.{
  HeadersState, h_start, h_key, h_colon, h_spaces_after_colon, h_value, h_cr, h_lf, assign,
}
use high_performance_server.Request.Head.{
  Scan, running, failed, undefined, is_newline, step_in, scan,
}

-- No byte of the name ends it or is refused in it.
abbrev pub IsName : Bytes → Type 0
IsName [] = Unit
IsName (c ∷ cs) = ((c == b':') ≡ false) × (is_newline c ≡ false) × IsName cs

abbrev pub in_state : HeadersState → Scan → Scan
in_state h s = record s { h_state = h; not_finish = true }

-- One round that goes on, one that fails and one that is undefined.
pub scan_step :
    (str cs : Bytes) (i c : ℕ) (s t : Scan) {j : ℕ}
    → s.not_finish ≡ true
    → i + 1 ≡ j
    → step_in s.h_state str i c s ≡ running t
    → scan str (c ∷ cs) i s ≡ scan str cs j t
unfolding scan
scan_step str cs i c s t e at f = rw (← at) (ground arith)

pub scan_step_failed :
    (str cs : Bytes) (i c : ℕ) (s t : Scan)
    → s.not_finish ≡ true
    → step_in s.h_state str i c s ≡ failed t
    → scan str (c ∷ cs) i s ≡ failed t
unfolding scan
scan_step_failed str cs i c s t e f = ground arith

pub scan_step_undefined :
    (str cs : Bytes) (i c : ℕ) (s : Scan)
    → s.not_finish ≡ true
    → step_in s.h_state str i c s ≡ undefined
    → scan str (c ∷ cs) i s ≡ undefined
unfolding scan
scan_step_undefined str cs i c s e f = ground arith

-- A name is read up to its end, a value too.
pub scan_name :
    (str k rest : Bytes) (i : ℕ) (s : Scan) {j : ℕ}
    → IsName k
    → i + length k ≡ j
    → scan str (k ++ rest) i (in_state h_key s) ≡ scan str rest j (in_state h_key s)
scan_name str [] rest i s h e = ap (λ n. scan str rest n (in_state h_key s)) (omega arith)
scan_name str (c ∷ k) rest i s (colon, newline, h) e =
    scan_step str (k ++ rest) i c (in_state h_key s) (in_state h_key s) refl refl
      (unfold step_in in ground arith)
    ∙ scan_name str k rest (i + 1) s h (omega arith)

pub scan_value :
    (str v rest : Bytes) (a i : ℕ) (s : Scan) {j : ℕ}
    → s.value_start ≡ some a
    → Avoids b'\r' v
    → i + length v ≤ a + 256
    → i + length v ≡ j
    → scan str (v ++ rest) i (in_state h_value s) ≡ scan str rest j (in_state h_value s)
scan_value str [] rest a i s from h l e =
    ap (λ n. scan str rest n (in_state h_value s)) (omega arith)
scan_value str (c ∷ v) rest a i s from (other, h) l e =
    scan_step str (v ++ rest) i c (in_state h_value s) (in_state h_value s) refl refl
      (unfold step_in in rw (other, from, room))
    ∙ scan_value str v rest a (i + 1) s from h (omega arith) (omega arith)
  where
    room : ltb 255 (i - a) ≡ false
    room = ground arith

-- the rest of a field behind its name
abbrev pub tail_of : Bytes → Bytes → Bytes
tail_of v rest = b':' ∷ b' ' ∷ (v ++ b'\r' ∷ b'\n' ∷ rest)

-- the length of a field
abbrev pub width : Bytes → Bytes → ℕ
width k v = length k + length v + 4

-- the scanner behind a field that begins at index `i`
abbrev pub behind : ℕ → Bytes → Bytes → Scan → Scan
behind i k v s = record s {
  key_start = some i;
  key_end = some (i + length k);
  value_start = some (i + length k + 2);
  value_end = some (i + length k + 2 + length v);
  now_read_line_begin = i + length k + length v + 3;
  not_finish = true;
  h_state = h_lf;
  headers = assign k v s.headers;
}

value_range_lem :
    (before k v rest : Bytes)
    → let p = length before + length k in
      range (before ++ (k ++ tail_of v rest)) (some (p + 2)) (some (p + 2 + length v)) ≡ some v
value_range_lem before k v rest = rw regroup (
    range-piece (before ++ (k ++ b':' ∷ b' ' ∷ [])) v (b'\r' ∷ b'\n' ∷ rest)
      (omega
        (arith, length-append before (k ++ b':' ∷ b' ' ∷ []), length-append k (b':' ∷ b' ' ∷ [])))
      (omega
        (arith, length-append before (k ++ b':' ∷ b' ' ∷ []), length-append k (b':' ∷ b' ' ∷ []))))
  where
    regroup :
        before ++ (k ++ tail_of v rest)
        ≡ (before ++ (k ++ b':' ∷ b' ' ∷ [])) ++ (v ++ b'\r' ∷ b'\n' ∷ rest)
    regroup = simp append_assoc

-- From the colon on, with the name's start known.
pub scan_tail :
    (before k v rest : Bytes) (y : ℕ) (s : Scan)
    → let i = length before in
      let str = before ++ (k ++ tail_of (y ∷ v) rest) in
      s.key_start ≡ some i
      → 0 < length k
      → Avoids b'\r' (y ∷ v)
      → length v < 256
      → scan str (tail_of (y ∷ v) rest) (i + length k) (in_state h_key s)
        ≡ scan str rest (i + width k (y ∷ v)) (behind i k (y ∷ v) s)
scan_tail before k v rest y s from name value short =
    scan_step str _ p b':' (in_state h_key s) s₁ refl refl (unfold step_in in ground arith)
    ∙ scan_step str _ (p + 1) b' ' s₁ s₂ {j = p + 2} refl (omega arith) (unfold step_in in refl)
    ∙ scan_step str _ (p + 2) y s₂ s₃ {j = p + 3} refl (omega arith) (unfold step_in in refl)
    ∙ scan_value str v _ (p + 2) (p + 3) s₃ {j = p + 2 + length (y ∷ v)} refl value.1 (omega arith)
        (omega arith)
    ∙ scan_step str _ (p + 2 + length (y ∷ v)) b'\r' s₃ s₄ refl refl
        (unfold step_in in ground arith)
    ∙ scan_step str rest (p + 2 + length (y ∷ v) + 1) b'\n' s₄ (behind i k (y ∷ v) s) refl
        (omega arith) (unfold step_in in ground (arith, key_range, value_range))
  where
    i : ℕ
    i = length before

    p : ℕ
    p = i + length k

    str : Bytes
    str = before ++ (k ++ tail_of (y ∷ v) rest)

    s₁ : Scan
    s₁ = in_state h_colon (record s { key_end = some p })

    s₂ : Scan
    s₂ = in_state h_spaces_after_colon s₁

    s₃ : Scan
    s₃ = in_state h_value (record s₂ { value_start = some (p + 2) })

    s₄ : Scan
    s₄ = in_state h_cr (record s₃ { value_end = some (p + 2 + length (y ∷ v)) })

    key_range : range str s.key_start (some p) ≡ some k
    key_range = rw from (range-piece before k (tail_of (y ∷ v) rest) refl refl)

    value_range : range str (some (p + 2)) (some (p + 2 + length (y ∷ v))) ≡ some (y ∷ v)
    value_range = value_range_lem before k (y ∷ v) rest

-- A header field that the scanner takes: a name of at least one byte, and one up to 256 bytes of
-- value on one line.
pub record IsField (k v : Bytes) : Type 0 where
  pub name : IsName k
  pub name_pos : 0 < length k
  pub value : Avoids b'\r' v
  pub value_pos : 0 < length v
  pub value_short : length v ≤ 256

-- the state in front of the first field, and of a later one
abbrev pub entry : Bool → HeadersState
entry first = if first then h_start else h_lf

-- A whole field, from its first byte on.
pub scan_field :
    (first : Bool) (before k v rest : Bytes) (s : Scan)
    → let str = before ++ (k ++ tail_of v rest) in
      IsField k v
      → scan str (k ++ tail_of v rest) (length before) (in_state (entry first) s)
        ≡ scan str rest (length before + width k v) (behind (length before) k v s)
scan_field first before [] v rest s f = absurd (omega (arith, f.name_pos))
scan_field first before (x ∷ k) [] rest s f = absurd (omega (arith, f.value_pos))
scan_field first before (x ∷ k) (y ∷ v) rest s f =
    scan_step str _ i x (in_state (entry first) s) (in_state h_key (s₁ first)) refl refl
      (opens first)
    ∙ scan_name str k _ (i + 1) (s₁ first) {j = i + length (x ∷ k)} f.name.2 (omega arith)
    ∙ scan_tail before (x ∷ k) v rest y (s₁ first) refl f.name_pos f.value
        (omega (arith, f.value_short))
  where
    i : ℕ
    i = length before

    str : Bytes
    str = before ++ (x ∷ k ++ tail_of (y ∷ v) rest)

    s₁ : Bool → Scan
    s₁ b = record s {
      key_start = some i;
      now_read_line_begin = if b then i else s.now_read_line_begin;
    }

    newline : is_newline x ≡ false
    newline = f.name.1

    opens :
        (b : Bool)
        → step_in (entry b) str i x (in_state (entry b) s) ≡ running (in_state h_key (s₁ b))
    opens true = unfold step_in in ground arith
    opens false = unfold step_in in ground arith
