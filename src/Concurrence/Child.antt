-- ===== src/Concurrence/Child.antt =====
-- The loops that serve one client: the child of multi_progress_server, and epoll_unblock/server.cpp.
use mathlib.Core.List.{append_assoc, append-nil}
use high_performance_server.Prelude.{
  ℕ, zero, suc, ◌+◌, ◌<◌, Option, none, some, [], ◌∷◌, ◌++◌, Bytes, length, length-append, ◌≡◌, ◌≢◌,
  refl, ap, ◌∙◌, arith,
}
use high_performance_server.Util.{WriteResult}
use high_performance_server.Wrap.{read_once}
use high_performance_server.Concurrence.{
  Kernel, Ended, returns_0, exits_1, upper, serve_child, drain,
}
use high_performance_server.Concurrence.Network.{
  Same, Read, Written, IsNetwork, Same-trans, Delivers, read_once-Delivers, write_once-Written,
}
use high_performance_server.Concurrence.Streams.{upper-append}

module _ {S : Type 0} (pending sent : ℕ → S → Bytes) (measure : S → ℕ) (k : Kernel S)
    (w : IsNetwork k pending sent measure) where
  -- All that the client at `fd` has sent has been read and written to `out`.
  pub record Passed (fd out : ℕ) (f : Bytes → Bytes) (s s' : S) : Type 0 where
    pub all_sent : sent out s' ≡ sent out s ++ f (pending fd s)
    pub all_read : pending fd s' ≡ []

  same-Passed :
      (fd out : ℕ) (f : Bytes → Bytes) (s s' : S)
      → f [] ≡ []
      → pending fd s ≡ []
      → Same k pending sent measure s s'
      → Passed fd out f s s'
  same-Passed fd out f s s' f_empty empty i = record {
    all_sent = rw (i.sent_same out, empty, f_empty, append-nil (sent out s)) refl;
    all_read = i.pending_same fd ∙ empty;
  }

  -- a piece is read and written, and the rest is passed on
  then-Passed :
      (fd out : ℕ) (f : Bytes → Bytes) (b : Bytes) (s s' s'' t : S)
      → ((xs ys : Bytes) → f (xs ++ ys) ≡ f xs ++ f ys)
      → Read k pending sent measure fd b s s'
      → Written k pending sent measure out (f b) s' s''
      → Passed fd out f s'' t
      → Passed fd out f s t
  then-Passed fd out f b s s' s'' t f-append i j p = record {
    all_sent =
        rw
          (
            p.all_sent,
            j.sent_more,
            i.sent_same out,
            j.pending_same fd,
            i.front,
            f-append b (pending fd s'),
          )
          (append_assoc (sent out s) (f b) (f (pending fd s')));
    all_read = p.all_read;
  }

  -- there is less to do behind a piece
  room_behind :
      (fd out fuel : ℕ) (b : ℕ) (bs c : Bytes) (s s' s'' : S)
      → measure s + length (pending fd s) < suc fuel
      → Read k pending sent measure fd (b ∷ bs) s s'
      → Written k pending sent measure out c s' s''
      → measure s'' + length (pending fd s'') < fuel
  room_behind fd out fuel b bs c s s' s'' lt i j =
      let e : length (pending fd s) ≡ suc (length bs) + length (pending fd s') =
        ap length i.front ∙ length-append (b ∷ bs) (pending fd s') in
      omega (arith, ap length (j.pending_same fd), i.measure_le, j.measure_le)

  -- a plain `write` that no signal interrupts
  write-Written :
      (fd : ℕ) (b : Bytes) (s : S)
      → (k.write fd b s).0 ≢ WriteResult.interrupted
      → Written k pending sent measure fd b s (k.write fd b s).1
  write-Written fd b s calm = by_result (k.write fd b s).0 refl
    where
      by_result :
          (r : WriteResult)
          → (k.write fd b s).0 ≡ r
          → Written k pending sent measure fd b s (k.write fd b s).1
      by_result (WriteResult.took n) e = w.took fd n b s e
      by_result WriteResult.interrupted e = absurd (calm e)
      by_result WriteResult.would_block e = absurd (w.write_blocks fd b s e)
      by_result WriteResult.broken e = absurd (w.write_breaks fd b s e)

  abbrev pub last_state : Ended S → S
  last_state (returns_0 s) = s
  last_state (exits_1 s) = s

  -- The child of multi_progress_server ends, after answering all that its client has sent, in
  -- capitals and in order, on a kernel whose clients stay, if no signal interrupts its plain `write`.
  pub serve_child_lem :
      (fd fuel : ℕ) (s : S)
      → ((b : Bytes) (t : S) → (k.write fd b t).0 ≢ WriteResult.interrupted)
      → measure s + length (pending fd s) < fuel
      → (out : Ended S) × (serve_child k fd fuel s ≡ some out)
        × Passed fd fd upper s (last_state out)
  unfolding serve_child upper
  serve_child_lem fd zero s calm f = absurd (omega arith)
  serve_child_lem fd (suc fuel) s calm f =
      let (res, done, d) =
        read_once-Delivers k pending sent measure (suc fuel) fd 127 s w (omega arith) in
      by_result res done d (λ t lt. serve_child_lem fd fuel t calm lt)
    where
      by_result :
          (res : Option Bytes × S)
          → read_once (k.read fd) (suc fuel) 128 s ≡ some res
          → Delivers k pending sent measure fd s res
          → ((t : S)
              → measure t + length (pending fd t) < fuel
              → (out : Ended S) × (serve_child k fd fuel t ≡ some out)
                × Passed fd fd upper t (last_state out))
          → (out : Ended S) × (serve_child k fd (suc fuel) s ≡ some out)
            × Passed fd fd upper s (last_state out)
      by_result (none, s') done (empty, i) rest =
          (exits_1 s', rw (done, serve_child) refl, same-Passed fd fd upper s s' refl empty i)
      by_result (some [], s') done (empty, i) rest = (
        returns_0 (k.close fd s').1,
        rw (done, serve_child) refl,
        same-Passed fd fd upper s _ refl empty
            (Same-trans k pending sent measure s s' _ i (w.closed fd s')),
      )
      by_result (some (b ∷ bs), s') done i rest =
          let c = upper (b ∷ bs) in
          let s'' = (k.write fd c s').1 in
          let j = write-Written fd c s' (calm c s') in
          let (out, done', p) = rest s'' (room_behind fd fd fuel b bs c s s' s'' f i j) in
          (
            out,
            rw (done, serve_child) done',
            then-Passed fd fd upper (b ∷ bs) s s' s'' (last_state out) upper-append i j p,
          )

  -- The loop of epoll_unblock/server.cpp over one client's event ends, after copying all that the
  -- client has sent to the standard output in order, four bytes at most at a time.
  pub drain_lem :
      (fd fuel : ℕ) (s : S)
      → measure s + length (pending fd s) < fuel
      → (s' : S) × (drain k fd fuel s ≡ some s') × Passed fd 1 (λ b. b) s s'
  unfolding drain
  drain_lem fd zero s f = absurd (omega arith)
  drain_lem fd (suc fuel) s f =
      let (res, done, d) =
        read_once-Delivers k pending sent measure (suc fuel) fd 3 s w (omega arith) in
      by_result res done d (λ t lt. drain_lem fd fuel t lt)
    where
      by_result :
          (res : Option Bytes × S)
          → read_once (k.read fd) (suc fuel) 4 s ≡ some res
          → Delivers k pending sent measure fd s res
          → ((t : S)
              → measure t + length (pending fd t) < fuel
              → (s' : S) × (drain k fd fuel t ≡ some s') × Passed fd 1 (λ b. b) t s')
          → (s' : S) × (drain k fd (suc fuel) s ≡ some s') × Passed fd 1 (λ b. b) s s'
      by_result (none, s') done (empty, i) rest =
          (s', rw (done, drain) refl, same-Passed fd 1 (λ b. b) s s' refl empty i)
      by_result (some [], s') done (empty, i) rest =
          (s', rw (done, drain) refl, same-Passed fd 1 (λ b. b) s s' refl empty i)
      by_result (some (b ∷ bs), s') done i rest =
          let (n, s'', wrote, j) =
            write_once-Written k pending sent measure (suc fuel) 1 (b ∷ bs) s' w
              (omega (arith, i.measure_le)) in
          let (t, done', p) = rest s'' (room_behind fd 1 fuel b bs (b ∷ bs) s s' s'' f i j) in
          (
            t,
            rw (done, wrote, drain) done',
            then-Passed fd 1 (λ b. b) (b ∷ bs) s s' s'' t (λ xs ys. refl) i j p,
          )
