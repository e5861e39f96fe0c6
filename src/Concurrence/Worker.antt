-- ===== src/Concurrence/Worker.antt =====
-- The thread of multi_thread_server, `do_work`.
use mathlib.Core.List.{append_assoc, append-nil}
use high_performance_server.Prelude.{
  ℕ, zero, suc, ◌*◌, ◌≤◌, ◌<◌, Option, none, some, List, [], ◌∷◌, ◌++◌, Bytes, length,
  length-append, drop, length-drop, ◌≡◌, refl, sym, ap, ◌∙◌, arith,
}
use high_performance_server.Util.{ReadResult}
use high_performance_server.Wrap.{or_exit, read_once, write_once}
use high_performance_server.Concurrence.{
  Kernel, Served, serving, exits, served, upper, Worked, goes_on, ends, wrote, work_round, do_work,
}
use high_performance_server.Concurrence.Network.{
  Same, IsNetwork, Same-trans, Delivers, read_once-Delivers, write_once-Written,
}

length-upper : (xs : Bytes) → length (upper xs) ≡ length xs
unfolding upper
length-upper [] = refl
length-upper (x ∷ xs) = rw (length-upper xs) refl

abbrev after : {S : Type 0} → Served S → S
after (serving s) = s
after (exits s) = s

after_call : {S : Type 0} (o : Option ℕ × S) → after (served (or_exit o)) ≡ o.1
after_call (none, s) = refl
after_call (some n, s) = refl

-- the array with the capitals of what was read over its front; nothing read leaves it
abbrev pub overlay : Bytes → Bytes → Bytes
overlay piece buf = upper piece ++ drop (length piece) buf

-- the arrays of the rounds that have read these pieces, one behind the other
abbrev pub overlays : Bytes → List Bytes → Bytes
overlays buf [] = []
overlays buf (p ∷ ps) = overlay p buf ++ overlays (overlay p buf) ps

-- the array that they leave
abbrev pub last_array : Bytes → List Bytes → Bytes
last_array buf [] = buf
last_array buf (p ∷ ps) = last_array (overlay p buf) ps

abbrev pub concat : List Bytes → Bytes
concat [] = []
concat (p ∷ ps) = p ++ concat ps

module _ {S : Type 0} (pending sent : ℕ → S → Bytes) (measure : S → ℕ) (k : Kernel S)
    (w : IsNetwork k pending sent measure) (fd fuel : ℕ) where
  -- What so many rounds have come to: the pieces that were read one by one, and the arrays that
  -- were written. A thread that ends has written in fewer of them.
  abbrev pub Sent128 : ℕ → Bytes → S → Worked S → Type 0
  Sent128 rounds buf s (goes_on buf' s') =
      (length buf' ≡ 128)
      × (measure s' ≤ measure s)
      × (ps : List Bytes) × (length ps ≡ rounds)
      × (pending fd s ≡ concat ps ++ pending fd s')
      × (sent fd s' ≡ sent fd s ++ overlays buf ps)
      × (length (overlays buf ps) ≡ 128 * rounds)
      × (buf' ≡ last_array buf ps)
  Sent128 rounds buf s (ends out) =
      (pending fd (after out) ≡ [])
      × (ps : List Bytes) × (length ps < rounds)
      × (pending fd s ≡ concat ps)
      × (sent fd (after out) ≡ sent fd s ++ overlays buf ps)
      × (length (overlays buf ps) ≡ 128 * length ps)

  -- one round
  abbrev Sends : Bytes → S → Worked S → Type 0
  Sends buf s (goes_on buf' s') =
      (length buf' ≡ 128)
      × (measure s' ≤ measure s)
      × (p : Bytes) × (buf' ≡ overlay p buf)
      × (pending fd s ≡ p ++ pending fd s')
      × (sent fd s' ≡ sent fd s ++ buf')
  Sends buf s (ends out) =
      (pending fd (after out) ≡ []) × (pending fd s ≡ []) × (sent fd (after out) ≡ sent fd s)

  -- the whole array is written, whatever has been read
  wrote_all :
      (old p : Bytes) (s s' : S)
      → length (overlay p old) ≡ 128
      → measure s' ≤ measure s
      → pending fd s ≡ p ++ pending fd s'
      → sent fd s' ≡ sent fd s
      → measure s < fuel
      → let buf = overlay p old in
        (out : Worked S) × (wrote k fd buf (write_once (k.write fd) fuel buf s') ≡ some out)
        × Sends old s out
  unfolding wrote
  wrote_all old p s s' len m front same f =
      let buf = overlay p old in
      let (n, t, done, j) =
        write_once-Written k pending sent measure fuel fd buf s' w (omega (arith, m)) in
      (
        goes_on buf t,
        rw (done, wrote) refl,
        (
          len,
          omega (arith, m, j.measure_le),
          p,
          refl,
          front ∙ ap (λ xs. p ++ xs) (sym (j.pending_same fd)),
          j.sent_more ∙ ap (λ xs. xs ++ buf) same,
        ),
      )

  closed_lem :
      (buf : Bytes) (s s' : S)
      → pending fd s ≡ []
      → Same k pending sent measure s s'
      → Sends buf s (ends (served (or_exit (k.close fd s'))))
  closed_lem buf s s' empty i =
      let j = Same-trans k pending sent measure s s' _ i (w.closed fd s') in
      let e = after_call (k.close fd s') in
      (ap (pending fd) e ∙ j.pending_same fd ∙ empty, empty, ap (sent fd) e ∙ j.sent_same fd)

  -- the array behind a read of no more than its length
  overwritten_length :
      (bs buf : Bytes)
      → length buf ≡ 128
      → length bs ≤ 128
      → length (upper bs ++ drop (length bs) buf) ≡ 128
  overwritten_length bs buf len le =
      length-append (upper bs) (drop (length bs) buf)
      ∙ omega (arith, length-upper bs, length-drop (length bs) buf, len, le)

  module _
      (short : (t : S) (b : Bytes) → (k.read fd 128 t).0 ≡ ReadResult.got b → length b ≤ 128) where
    read_length :
        (n : ℕ) (s : S) (b : Bytes) (s' : S)
        → read_once (k.read fd) n 128 s ≡ some (some b, s')
        → length b ≤ 128
    unfolding read_once
    read_length zero s b s' e = absurd (cc)
    read_length (suc n) s b s' e =
        by_result (k.read fd 128 s).0 refl (read_length n (k.read fd 128 s).1 b s')
      where
        by_result :
            (r : ReadResult)
            → (k.read fd 128 s).0 ≡ r
            → (read_once (k.read fd) n 128 (k.read fd 128 s).1 ≡ some (some b, s') → length b ≤ 128)
            → length b ≤ 128
        by_result (ReadResult.got c) q later =
            let read : read_once (k.read fd) (suc n) 128 s ≡ some (some c, (k.read fd 128 s).1) =
              rw (q, read_once) refl in
            let same : c ≡ b = cc in rw (sym same) (short s c q)
        by_result ReadResult.interrupted q later =
            let again : read_once (k.read fd) (suc n) 128 s
                ≡ read_once (k.read fd) n 128 (k.read fd 128 s).1 =
              rw (q, read_once) refl in
            later (sym again ∙ e)
        by_result ReadResult.would_block q later =
            let none_read : read_once (k.read fd) (suc n) 128 s ≡ some (none, (k.read fd 128 s).1) =
              rw (q, read_once) refl in
            absurd (cc)
        by_result ReadResult.broken q later =
            let none_read : read_once (k.read fd) (suc n) 128 s ≡ some (none, (k.read fd 128 s).1) =
              rw (q, read_once) refl in
            absurd (cc)

    work_round_lem :
        (buf : Bytes) (s : S)
        → length buf ≡ 128
        → measure s < fuel
        → (out : Worked S) × (work_round k fd fuel buf s ≡ some out) × Sends buf s out
    unfolding work_round upper
    work_round_lem buf s len f =
        let (res, done, d) = read_once-Delivers k pending sent measure fuel fd 127 s w f in
        by_result res done d
      where
        by_result :
            (res : Option Bytes × S)
            → read_once (k.read fd) fuel 128 s ≡ some res
            → Delivers k pending sent measure fd s res
            → (out : Worked S) × (work_round k fd fuel buf s ≡ some out) × Sends buf s out
        by_result (none, s') done (empty, i) =
            let (out, wrote, h) =
              wrote_all buf [] s s' len i.measure_le (sym (i.pending_same fd)) (i.sent_same fd) f in
            (out, rw (done, work_round) wrote, h)
        by_result (some [], s') done (empty, i) = (
          ends (served (or_exit (k.close fd s'))),
          rw (done, work_round) refl,
          closed_lem buf s s' empty i,
        )
        by_result (some (b ∷ bs), s') done i =
            let (out, wrote, h) =
              wrote_all buf (b ∷ bs) s s'
                (overwritten_length (b ∷ bs) buf len (read_length fuel s (b ∷ bs) s' done))
                i.measure_le i.front (i.sent_same fd) f in
            (out, rw (done, work_round) wrote, h)

    sent_then :
        (s s' : S) (out p buf buf' : Bytes) (ps : List Bytes)
        → buf' ≡ overlay p buf
        → sent fd s' ≡ sent fd s ++ buf'
        → out ≡ sent fd s' ++ overlays buf' ps
        → out ≡ sent fd s ++ overlays buf (p ∷ ps)
    sent_then s s' out p buf buf' ps shape first rest =
        rest
        ∙ ap (λ xs. xs ++ overlays buf' ps) first
        ∙ append_assoc (sent fd s) buf' (overlays buf' ps)
        ∙ ap (λ b. sent fd s ++ (b ++ overlays b ps)) shape

    length-overlays_next :
        (p buf buf' : Bytes) (ps : List Bytes) (n : ℕ)
        → buf' ≡ overlay p buf
        → length buf' ≡ 128
        → length (overlays buf' ps) ≡ 128 * n
        → length (overlays buf (p ∷ ps)) ≡ 128 * suc n
    length-overlays_next p buf buf' ps n shape len rest =
        ap (λ b. length (b ++ overlays b ps)) (sym shape)
        ∙ length-append buf' (overlays buf' ps)
        ∙ omega (arith, len, rest)

    then-Sent128 :
        (rounds : ℕ) (buf buf' : Bytes) (s s' : S) (out : Worked S)
        → Sends buf s (goes_on buf' s')
        → Sent128 rounds buf' s' out
        → Sent128 (suc rounds) buf s out
    then-Sent128 rounds buf buf' s s' (goes_on buf'' t) (len, m, p, shape, front, first)
          (len', m', ps, n, front', rest, size, last) =
        (
          len',
          omega (arith, m, m'),
          p ∷ ps,
          ap suc n,
          front ∙ ap (λ xs. p ++ xs) front' ∙ sym (append_assoc p (concat ps) (pending fd t)),
          sent_then s s' (sent fd t) p buf buf' ps shape first rest,
          length-overlays_next p buf buf' ps rounds shape len size,
          last ∙ ap (λ b. last_array b ps) shape,
        )
    then-Sent128 rounds buf buf' s s' (ends out) (len, m, p, shape, front, first)
          (empty, ps, lt, front', rest, size) =
        (
          empty,
          p ∷ ps,
          omega (arith, lt),
          front ∙ ap (λ xs. p ++ xs) front',
          sent_then s s' (sent fd (after out)) p buf buf' ps shape first rest,
          length-overlays_next p buf buf' ps (length ps) shape len size,
        )

    -- The bytes of a client are read in pieces, of which one that fails is empty. Each round of
    -- `do_work` that does not end the thread lays the capitals of its piece over the front of the
    -- array of 128 bytes that the round before has left, and writes the whole array, with what
    -- earlier rounds have left in it. The thread ends only where nothing can be read of the client,
    -- and then all its bytes have been read in the rounds before. All this on a kernel whose clients
    -- stay, which reads no more than it is asked for.
    pub do_work_lem :
        (rounds : ℕ) (buf : Bytes) (s : S)
        → length buf ≡ 128
        → measure s < fuel
        → (out : Worked S) × (do_work k fd fuel rounds buf s ≡ some out) × Sent128 rounds buf s out
    unfolding do_work
    do_work_lem zero buf s len f = (
      goes_on buf s,
      refl,
      (len, omega arith, [], refl, refl, sym (append-nil (sent fd s)), refl, refl),
    )
    do_work_lem (suc rounds) buf s len f =
        let (out, done, h) = work_round_lem buf s len f in
        by_round out done h (λ buf' s' len' f'. do_work_lem rounds buf' s' len' f')
      where
        by_round :
            (out : Worked S)
            → work_round k fd fuel buf s ≡ some out
            → Sends buf s out
            → ((buf' : Bytes) (s' : S)
                → length buf' ≡ 128
                → measure s' < fuel
                → (out : Worked S) × (do_work k fd fuel rounds buf' s' ≡ some out)
                  × Sent128 rounds buf' s' out)
            → (out : Worked S) × (do_work k fd fuel (suc rounds) buf s ≡ some out)
              × Sent128 (suc rounds) buf s out
        by_round (goes_on buf' s') done h rest =
            let (out, done', h') = rest buf' s' h.0 (omega (arith, h.1)) in
            (out, rw (done, do_work) done', then-Sent128 rounds buf buf' s s' out h h')
        by_round (ends out) done (empty, none_left, same) rest = (
          ends out,
          rw (done, do_work) refl,
          (empty, [], omega arith, none_left, same ∙ sym (append-nil (sent fd s)), refl),
        )
