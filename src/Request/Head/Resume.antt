-- ===== src/Request/Head/Resume.antt =====
-- A header block that arrives in two reads. The first call keeps the scanner's state and the bytes
-- from the line's beginning on, and loses the positions.
use mathlib.Core.List.{append-nil}
use high_performance_server.Prelude.{
  ℕ, ◌+◌, ◌<◌, false, none, some, [], ◌∷◌, ◌++◌, Bytes, length, drop, ◌≡◌, refl, sym, ap, ◌∙◌,
  arith, Avoids, drop-append, range_unset,
}
use high_performance_server.Request.{
  Request, h_start, h_key, h_colon, h_spaces_after_colon, h_value, h_cr, h_lf, Table,
}
use high_performance_server.Request.Head.{
  header_again, header_error, Scan, running, failed, undefined, is_newline, step_in, scan, start,
  finish_head, parse_request_head,
}
use high_performance_server.Request.Head.Fields.{
  IsName, in_state, scan_step, scan_step_failed, scan_step_undefined, scan_name, scan_value,
  tail_of, width, behind,
}
use high_performance_server.Request.Head.RoundTrip.{
  fields, AreFields, assign_all, AreNewlines, scan_newlines, after_fields, total, last_line,
  headers-after_fields, line_begin-after_fields, scan-fields,
}

-- the request as the first call leaves it inside a name
abbrev pub in_name : Request → Table → Bytes → Request
in_name r headers content = record r { h_state = h_key; headers = headers; content = content }

-- In a name, a '\n' is refused.
refused :
    (r : Request) (cs : Bytes)
    → r.h_state ≡ h_key
    → r.content ≡ b'\n' ∷ cs
    → parse_request_head r ≡ some (header_error, r)
unfolding parse_request_head finish_head
refused r cs h e = rw (failed_scan, finish_head) (ground arith)
  where
    s : Scan
    s = start h_key r.headers

    failed_scan : scan r.content r.content 0 (start r.h_state r.headers) ≡ failed s
    failed_scan =
        rw (h, e) (scan_step_failed (b'\n' ∷ cs) cs 0 b'\n' s s refl (unfold step_in in refl))

-- the first call, which stops inside the name of a later field
stops_in_name :
    (r : Request) (nl k v p : Bytes) (x : ℕ) (fs : Table)
    → r.h_state ≡ h_start
    → AreNewlines nl
    → AreFields ((k, v) ∷ fs)
    → IsName (x ∷ p)
    → r.content ≡ nl ++ fields ((k, v) ∷ fs) (x ∷ p)
    → parse_request_head r
      ≡ some (header_again, in_name r (assign_all ((k, v) ∷ fs) r.headers) (b'\n' ∷ x ∷ p))
unfolding parse_request_head finish_head
stops_in_name r nl k v p x fs h n a name e =
    rw (scanned, finish_head) (ground (arith, left, headers))
  where
    s : Scan
    s = after_fields (length nl) ((k, v) ∷ fs) (start h_start r.headers)

    i : ℕ
    i = length nl + width k v + total fs

    s' : Scan
    s' = in_state h_key (record s { key_start = some i })

    newline : is_newline x ≡ false
    newline = name.1

    inside : (str : Bytes) → scan str (x ∷ p) i (in_state h_lf s) ≡ running s'
    inside str =
        scan_step str p i x (in_state h_lf s) s' refl refl (unfold step_in in ground arith)
        ∙ ap (λ t. scan str t (i + 1) s') (sym (append-nil p))
        ∙ scan_name str p [] (i + 1) (record s { key_start = some i }) name.2 refl
        ∙ unfold scan in refl

    scanned : scan r.content r.content 0 (start r.h_state r.headers) ≡ running s'
    scanned = rw (h, e) (scan-fields nl k v (x ∷ p) fs r.headers n a ∙ inside _)

    front :
        (f : Bytes) × (nl ++ fields ((k, v) ∷ fs) (x ∷ p) ≡ f ++ b'\n' ∷ x ∷ p)
        × (length f + 1 ≡ length nl + total ((k, v) ∷ fs))
    front = last_line fs nl k v (x ∷ p)

    at : s.now_read_line_begin ≡ length front.0
    at = omega (
      arith,
      front.2,
      line_begin-after_fields (length nl + width k v) fs
          (behind (length nl) k v (start h_start r.headers)) (omega arith),
    )

    left : drop s.now_read_line_begin r.content ≡ b'\n' ∷ x ∷ p
    left = rw (at, e, front.1) (drop-append front.0 (b'\n' ∷ x ∷ p))

    headers : s.headers ≡ assign_all ((k, v) ∷ fs) r.headers
    headers = headers-after_fields (length nl) ((k, v) ∷ fs) (start h_start r.headers)

-- A header block whose bytes end, for the time being, inside the name of a field behind the
-- first: the call asks for more, and the next call refuses the request, whatever bytes follow.
pub parse_request_head_split :
    (r : Request) (nl k v p more : Bytes) (x : ℕ) (fs : Table)
    → r.h_state ≡ h_start
    → AreNewlines nl
    → AreFields ((k, v) ∷ fs)
    → IsName (x ∷ p)
    → r.content ≡ nl ++ fields ((k, v) ∷ fs) (x ∷ p)
    → let headers = assign_all ((k, v) ∷ fs) r.headers in
      let r' = in_name r headers (b'\n' ∷ x ∷ p ++ more) in
      (parse_request_head r ≡ some (header_again, in_name r headers (b'\n' ∷ x ∷ p)))
      × (parse_request_head r' ≡ some (header_error, r'))
parse_request_head_split r nl k v p more x fs h n a name e = (
  stops_in_name r nl k v p x fs h n a name e,
  refused (in_name r (assign_all ((k, v) ∷ fs) r.headers) (b'\n' ∷ x ∷ p ++ more)) (x ∷ p ++ more)
      refl refl,
)

-- From inside a name whose start is not known, a field ends in undefined behaviour.
undefined_tail :
    (str k v rest : Bytes) (y i : ℕ) (s : Scan)
    → s.key_start ≡ none
    → IsName k
    → Avoids b'\r' (y ∷ v)
    → length v < 256
    → scan str (k ++ tail_of (y ∷ v) rest) i (in_state h_key s) ≡ undefined
undefined_tail str k v rest y i s from name value short =
    scan_name str k _ i s {j = p} name refl
    ∙ scan_step str _ p b':' (in_state h_key s) s₁ refl refl (unfold step_in in ground arith)
    ∙ scan_step str _ (p + 1) b' ' s₁ s₂ {j = p + 2} refl (omega arith) (unfold step_in in refl)
    ∙ scan_step str _ (p + 2) y s₂ s₃ {j = p + 3} refl (omega arith) (unfold step_in in refl)
    ∙ scan_value str v _ (p + 2) (p + 3) s₃ {j = p + 3 + length v} refl value.1 (omega arith) refl
    ∙ scan_step str _ (p + 3 + length v) b'\r' s₃ s₄ refl refl (unfold step_in in ground arith)
    ∙ scan_step_undefined str rest (p + 3 + length v + 1) b'\n' s₄ refl
        (unfold step_in in rw (from, range_unset))
  where
    p : ℕ
    p = i + length k

    s₁ : Scan
    s₁ = in_state h_colon (record s { key_end = some p })

    s₂ : Scan
    s₂ = in_state h_spaces_after_colon s₁

    s₃ : Scan
    s₃ = in_state h_value (record s₂ { value_start = some (p + 2) })

    s₄ : Scan
    s₄ = in_state h_cr (record s₃ { value_end = some (p + 3 + length v) })

-- the first call, which stops inside the name of the first field
stops_at_start :
    (r : Request) (nl p : Bytes) (x : ℕ)
    → r.h_state ≡ h_start
    → AreNewlines nl
    → IsName (x ∷ p)
    → r.content ≡ nl ++ x ∷ p
    → parse_request_head r ≡ some (header_again, in_name r r.headers (x ∷ p))
unfolding parse_request_head finish_head
stops_at_start r nl p x h n name e = rw (scanned, finish_head) (ground (arith, left))
  where
    s : Scan
    s = start h_start r.headers

    i : ℕ
    i = length nl

    s' : Scan
    s' = in_state h_key (record s { key_start = some i; now_read_line_begin = i })

    newline : is_newline x ≡ false
    newline = name.1

    inside : (str : Bytes) → scan str (x ∷ p) i (in_state h_start s) ≡ running s'
    inside str =
        scan_step str p i x (in_state h_start s) s' refl refl (unfold step_in in ground arith)
        ∙ ap (λ t. scan str t (i + 1) s') (sym (append-nil p))
        ∙ scan_name str p [] (i + 1) (record s { key_start = some i; now_read_line_begin = i })
            name.2 refl
        ∙ unfold scan in refl

    scanned : scan r.content r.content 0 (start r.h_state r.headers) ≡ running s'
    scanned = rw (h, e) (scan_newlines _ nl (x ∷ p) 0 s {j = i} n (omega arith) ∙ inside _)

    left : drop i r.content ≡ x ∷ p
    left = rw e (drop-append nl (x ∷ p))

-- A header block whose bytes end, for the time being, inside the name of the first field: the
-- call asks for more, and when the rest of that field has come the next call makes a string from
-- a position that was never set, which is undefined behaviour.
pub parse_request_head_split_first :
    (r : Request) (nl p q v rest : Bytes) (x y : ℕ)
    → r.h_state ≡ h_start
    → AreNewlines nl
    → IsName (x ∷ p)
    → IsName q
    → Avoids b'\r' (y ∷ v)
    → length v < 256
    → r.content ≡ nl ++ x ∷ p
    → let more = q ++ tail_of (y ∷ v) rest in
      (parse_request_head r ≡ some (header_again, in_name r r.headers (x ∷ p)))
      × (parse_request_head (in_name r r.headers ((x ∷ p) ++ more)) ≡ none)
unfolding parse_request_head finish_head
parse_request_head_split_first r nl p q v rest x y h n name name' value short e =
    (stops_at_start r nl p x h n name e, rw (scanned, finish_head))
  where
    str : Bytes
    str = (x ∷ p) ++ (q ++ tail_of (y ∷ v) rest)

    scanned : scan str str 0 (start h_key r.headers) ≡ undefined
    scanned =
        scan_name str (x ∷ p) (q ++ tail_of (y ∷ v) rest) 0 (start h_key r.headers)
          {j = length (x ∷ p)} name (omega arith)
        ∙ undefined_tail str q v rest y (length (x ∷ p)) (start h_key r.headers) refl name' value
            short
