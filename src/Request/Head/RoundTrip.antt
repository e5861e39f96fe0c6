-- ===== src/Request/Head/RoundTrip.antt =====
-- The scanner reads back a rendered header block.
use mathlib.Core.List.{append_assoc}
use high_performance_server.Prelude.{
  ℕ, ◌+◌, true, false, some, [], ◌∷◌, ◌++◌, Bytes, length, drop, ◌≡◌, refl, sym, ap, ◌∙◌, arith,
  drop-append, length-append,
}
use high_performance_server.Request.{Request, h_start, h_lf, h_end_cr, h_end_lf, Table, assign}
use high_performance_server.Request.Head.{
  header_success, Scan, running, is_newline, step_in, scan, start, finish_head, parse_request_head,
}
use high_performance_server.Request.Head.Fields.{
  in_state, scan_step, tail_of, width, behind, scan_field, IsField,
}

-- The fields of a header block in front of `rest`.
abbrev pub fields : Table → Bytes → Bytes
fields [] rest = rest
fields ((k, v) ∷ fs) rest = k ++ tail_of v (fields fs rest)

-- A header block: the fields, the empty line, and what follows.
abbrev pub render : Table → Bytes → Bytes
render fs rest = fields fs (b'\r' ∷ b'\n' ∷ rest)

abbrev pub AreFields : Table → Type 0
AreFields [] = Unit
AreFields ((k, v) ∷ fs) = IsField k v × AreFields fs

-- `headers[key] = value` for each field in order
abbrev pub assign_all : Table → Table → Table
assign_all [] t = t
assign_all ((k, v) ∷ fs) t = assign_all fs (assign k v t)

abbrev pub total : Table → ℕ
total [] = 0
total ((k, v) ∷ fs) = width k v + total fs

abbrev pub after_fields : ℕ → Table → Scan → Scan
after_fields i [] s = s
after_fields i ((k, v) ∷ fs) s = after_fields (i + width k v) fs (behind i k v s)

pub headers-after_fields :
    (i : ℕ) (fs : Table) (s : Scan) → (after_fields i fs s).headers ≡ assign_all fs s.headers
headers-after_fields i [] s = refl
headers-after_fields i ((k, v) ∷ fs) s = headers-after_fields (i + width k v) fs (behind i k v s)

-- behind a field the line begins at the '\n' before it
pub line_begin-after_fields :
    (i : ℕ) (fs : Table) (s : Scan)
    → s.now_read_line_begin + 1 ≡ i
    → (after_fields i fs s).now_read_line_begin + 1 ≡ i + total fs
line_begin-after_fields i [] s e = omega arith
line_begin-after_fields i ((k, v) ∷ fs) s e =
    omega (arith, line_begin-after_fields (i + width k v) fs (behind i k v s) (omega arith))

length-tail_of : (v rest : Bytes) → length (tail_of v rest) ≡ length v + 4 + length rest
length-tail_of v rest = omega (arith, length-append v (b'\r' ∷ b'\n' ∷ rest))

-- All fields but the first, with the text behind them left.
pub scan_later :
    (fs : Table) (before str rest : Bytes) (s : Scan) {i : ℕ}
    → AreFields fs
    → str ≡ before ++ fields fs rest
    → i ≡ length before
    → scan str (fields fs rest) i (in_state h_lf s)
      ≡ scan str rest (i + total fs) (in_state h_lf (after_fields i fs s))
scan_later [] before str rest s {i} a e at =
    ap (λ n. scan str rest n (in_state h_lf s)) (omega arith)
scan_later ((k, v) ∷ fs) before str rest s {i} a e at =
    rw (e, at)
      (scan_field false before k v (fields fs rest) s a.0
        ∙ scan_later fs (before ++ (k ++ tail_of v [])) _ rest (behind (length before) k v s)
            {i = length before + width k v} a.1 regroup moved
        ∙ ap
            (λ n. scan (before ++ (k ++ tail_of v (fields fs rest))) rest n (
              in_state h_lf
                (after_fields (length before + width k v) fs (behind (length before) k v s))))
            (omega arith))
  where
    regroup :
        before ++ (k ++ tail_of v (fields fs rest))
        ≡ (before ++ (k ++ tail_of v [])) ++ fields fs rest
    regroup = simp append_assoc

    moved : length before + width k v ≡ length (before ++ (k ++ tail_of v []))
    moved = omega (
      arith,
      length-append before (k ++ tail_of v []),
      length-append k (tail_of v []),
      length-tail_of v [],
    )

-- The empty line, and the first byte of what follows it.
abbrev ended : ℕ → Bytes → Scan → Scan
ended i [] s = record s { h_state = h_end_lf; not_finish = true }
ended i (c ∷ cs) s = record s {
  h_state = h_end_lf;
  not_finish = false;
  key_start = some (i + 2);
  now_read_line_begin = i + 2;
}

scan_stopped :
    (str cs : Bytes) (i : ℕ) (s : Scan) → s.not_finish ≡ false → scan str cs i s ≡ running s
unfolding scan
scan_stopped str [] i s e = refl
scan_stopped str (c ∷ cs) i s e = ground arith

scan_end :
    (str rest : Bytes) (i : ℕ) (s : Scan)
    → scan str (b'\r' ∷ b'\n' ∷ rest) i (in_state h_lf s) ≡ running (ended i rest s)
scan_end str rest i s =
    scan_step str _ i b'\r' (in_state h_lf s) (in_state h_end_cr s) {j = i + 1} refl refl
      (unfold step_in in refl)
    ∙ scan_step str _ (i + 1) b'\n' (in_state h_end_cr s) (in_state h_end_lf s) {j = i + 2} refl
        (omega arith) (unfold step_in in refl)
    ∙ stop rest
  where
    stop : (rest : Bytes) → scan str rest (i + 2) (in_state h_end_lf s) ≡ running (ended i rest s)
    stop [] = unfold scan in refl
    stop (c ∷ cs) =
        scan_step str cs (i + 2) c (in_state h_end_lf s) (ended i (c ∷ cs) s) {j = i + 3} refl
          (omega arith) (unfold step_in in refl)
        ∙ scan_stopped str cs (i + 3) (ended i (c ∷ cs) s) refl

-- Bytes '\r' and '\n' in front of the first field are passed over.
abbrev pub AreNewlines : Bytes → Type 0
AreNewlines [] = Unit
AreNewlines (c ∷ cs) = (is_newline c ≡ true) × AreNewlines cs

pub scan_newlines :
    (str nl rest : Bytes) (i : ℕ) (s : Scan) {j : ℕ}
    → AreNewlines nl
    → i + length nl ≡ j
    → scan str (nl ++ rest) i (in_state h_start s) ≡ scan str rest j (in_state h_start s)
scan_newlines str [] rest i s h e = ap (λ n. scan str rest n (in_state h_start s)) (omega arith)
scan_newlines str (c ∷ nl) rest i s h e =
    scan_step str (nl ++ rest) i c (in_state h_start s) (in_state h_start s) refl refl
      (unfold step_in in rw h.0)
    ∙ scan_newlines str nl rest (i + 1) s h.1 (omega arith)

-- What is left as content: the bytes behind the empty line, or, where there are none yet, the
-- '\n' of the last field with the empty line.
abbrev pub left_over : Bytes → Bytes
left_over [] = b'\n' ∷ b'\r' ∷ b'\n' ∷ []
left_over (c ∷ cs) = c ∷ cs

-- the text of the first field and all that stands before it, as a new `before`
abbrev pub past_field : Bytes → Bytes → Bytes → Bytes
past_field before k v = before ++ (k ++ tail_of v [])

pub length-past_field :
    (before k v : Bytes) → length (past_field before k v) ≡ length before + width k v
length-past_field before k v = omega (
  arith,
  length-append before (k ++ tail_of v []),
  length-append k (tail_of v []),
  length-tail_of v [],
)

pub past_field-append :
    (before k v rest : Bytes) → before ++ (k ++ tail_of v rest) ≡ past_field before k v ++ rest
past_field-append before k v rest = simp append_assoc

-- Everything in front of the last '\n' of a block of fields.
pub last_line :
    (fs : Table) (before k v rest : Bytes)
    → (front : Bytes) × (before ++ fields ((k, v) ∷ fs) rest ≡ front ++ b'\n' ∷ rest)
      × (length front + 1 ≡ length before + total ((k, v) ∷ fs))
last_line [] before k v rest =
    (before ++ (k ++ b':' ∷ b' ' ∷ (v ++ b'\r' ∷ [])), simp append_assoc, measured)
  where
    measured :
        length (before ++ (k ++ b':' ∷ b' ' ∷ (v ++ b'\r' ∷ []))) + 1
        ≡ length before + (width k v + 0)
    measured = omega (
      arith,
      length-append before (k ++ b':' ∷ b' ' ∷ (v ++ b'\r' ∷ [])),
      length-append k (b':' ∷ b' ' ∷ (v ++ b'\r' ∷ [])),
      length-append v (b'\r' ∷ []),
    )
last_line ((k', v') ∷ fs) before k v rest =
    let (front, e, n) = last_line fs (past_field before k v) k' v' rest in
    (
      front,
      past_field-append before k v (fields ((k', v') ∷ fs) rest) ∙ e,
      omega (arith, length-past_field before k v),
    )

left-drop :
    (rest str front : Bytes) (i : ℕ) (s : Scan)
    → str ≡ front ++ b'\n' ∷ b'\r' ∷ b'\n' ∷ rest
    → length front + 1 ≡ i
    → s.now_read_line_begin + 1 ≡ i
    → drop (ended i rest s).now_read_line_begin str ≡ left_over rest
left-drop [] str front i s e n b =
    let at : s.now_read_line_begin ≡ length front = omega arith in
    rw (e, at) (drop-append front (b'\n' ∷ b'\r' ∷ b'\n' ∷ []))
left-drop (c ∷ cs) str front i s e n b =
    let at : i + 2 ≡ length (front ++ b'\n' ∷ b'\r' ∷ b'\n' ∷ []) =
      omega (arith, length-append front (b'\n' ∷ b'\r' ∷ b'\n' ∷ [])) in
    rw (at, e, ← append_assoc front (b'\n' ∷ b'\r' ∷ b'\n' ∷ []) (c ∷ cs))
      (drop-append (front ++ b'\n' ∷ b'\r' ∷ b'\n' ∷ []) (c ∷ cs))

-- The scan up to the end of the fields, in front of any text.
pub scan-fields :
    (nl k v rest : Bytes) (fs headers : Table)
    → AreNewlines nl
    → AreFields ((k, v) ∷ fs)
    → let str = nl ++ fields ((k, v) ∷ fs) rest in
      let i = length nl in
      scan str str 0 (start h_start headers)
      ≡ scan str rest
          (i + width k v + total fs)
          (in_state h_lf (after_fields i ((k, v) ∷ fs) (start h_start headers)))
scan-fields nl k v rest fs headers n a =
    scan_newlines str nl (fields ((k, v) ∷ fs) rest) 0 (start h_start headers) {j = length nl} n
      (omega arith)
    ∙ scan_field true nl k v (fields fs rest) (start h_start headers) a.0
    ∙ scan_later fs (past_field nl k v) str rest s {i = length nl + width k v} a.1
        (past_field-append nl k v (fields fs rest)) (sym (length-past_field nl k v))
  where
    str : Bytes
    str = nl ++ fields ((k, v) ∷ fs) rest

    s : Scan
    s = behind (length nl) k v (start h_start headers)

scan-render :
    (nl k v rest : Bytes) (fs headers : Table)
    → AreNewlines nl
    → AreFields ((k, v) ∷ fs)
    → let str = nl ++ render ((k, v) ∷ fs) rest in
      let i = length nl in
      scan str str 0 (start h_start headers)
      ≡ running (
          ended
            (i + width k v + total fs)
            rest
            (after_fields i ((k, v) ∷ fs) (start h_start headers)))
scan-render nl k v rest fs headers n a =
    scan-fields nl k v (b'\r' ∷ b'\n' ∷ rest) fs headers n a
    ∙ scan_end (nl ++ render ((k, v) ∷ fs) rest) rest (length nl + width k v + total fs)
        (after_fields (length nl) ((k, v) ∷ fs) (start h_start headers))

finish-ended :
    (r : Request) (i : ℕ) (rest : Bytes) (s : Scan)
    → finish_head (running (ended i rest s)) r
      ≡ some (
        header_success,
        record r {
          h_state = h_end_lf;
          headers = s.headers;
          content = drop (ended i rest s).now_read_line_begin r.content;
        },
      )
unfolding finish_head
finish-ended r i [] s = refl
finish-ended r i (c ∷ cs) s = refl

-- A header block of at least one field, behind any newlines, is taken in one call: the headers
-- are assigned in order, and the content keeps what follows the empty line (`left_over`).
pub parse_request_head-render :
    (r : Request) (nl k v rest : Bytes) (fs : Table)
    → r.h_state ≡ h_start
    → AreNewlines nl
    → AreFields ((k, v) ∷ fs)
    → r.content ≡ nl ++ render ((k, v) ∷ fs) rest
    → parse_request_head r
      ≡ some (
        header_success,
        record r {
          h_state = h_end_lf;
          headers = assign_all ((k, v) ∷ fs) r.headers;
          content = left_over rest;
        },
      )
unfolding parse_request_head
parse_request_head-render r nl k v rest fs h n a e =
    rw (scanned, finish-ended) (ground (arith, left, headers))
  where
    s : Scan
    s = after_fields (length nl) ((k, v) ∷ fs) (start h_start r.headers)

    i : ℕ
    i = length nl + width k v + total fs

    scanned : scan r.content r.content 0 (start r.h_state r.headers) ≡ running (ended i rest s)
    scanned = rw (h, e) (scan-render nl k v rest fs r.headers n a)

    front :
        (f : Bytes) × (nl ++ render ((k, v) ∷ fs) rest ≡ f ++ b'\n' ∷ b'\r' ∷ b'\n' ∷ rest)
        × (length f + 1 ≡ length nl + total ((k, v) ∷ fs))
    front = last_line fs nl k v (b'\r' ∷ b'\n' ∷ rest)

    left : drop (ended i rest s).now_read_line_begin r.content ≡ left_over rest
    left = left-drop rest r.content front.0 i s (e ∙ front.1) (omega (arith, front.2)) (
        line_begin-after_fields (length nl + width k v) fs
          (behind (length nl) k v (start h_start r.headers)) (omega arith))

    headers : s.headers ≡ assign_all ((k, v) ∷ fs) r.headers
    headers = headers-after_fields (length nl) ((k, v) ∷ fs) (start h_start r.headers)
