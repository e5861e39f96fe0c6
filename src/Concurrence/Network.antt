-- ===== src/Concurrence/Network.antt =====
-- What the servers of Concurrence rely on in the kernel, and what `Read`, `Write` and `Accept` do
-- on it.
use high_performance_server.Prelude.{
  ℕ, zero, suc, ◌==◌, ◌≤◌, ◌<◌, false, Option, none, some, [], ◌∷◌, ◌++◌, Bytes, ◌≡◌, ◌≢◌, refl,
  sym, ap, ◌∙◌, arith,
}
use high_performance_server.Util.{ReadResult, WriteResult}
use high_performance_server.Wrap.{
  Accepted, Called, accepted, aborted, interrupted, failed, try_accept, read_once, write_once,
}
use high_performance_server.Concurrence.{Kernel}

-- `pending g s` is what the client at the descriptor `g` has sent and nobody has read, `sent g s`
-- what has been written to it, and `measure s` bounds the calls that are interrupted from here on.
module _ {S : Type 0} (k : Kernel S) (pending sent : ℕ → S → Bytes) (measure : S → ℕ) where
  -- no byte is moved
  pub record Same (s s' : S) : Type 0 where
    pub pending_same : (g : ℕ) → pending g s' ≡ pending g s
    pub sent_same : (g : ℕ) → sent g s' ≡ sent g s
    pub measure_le : measure s' ≤ measure s

  -- the bytes `b` have been read from `fd`
  pub record Read (fd : ℕ) (b : Bytes) (s s' : S) : Type 0 where
    pub front : pending fd s ≡ b ++ pending fd s'
    pub others : (g : ℕ) → (g == fd) ≡ false → pending g s' ≡ pending g s
    pub sent_same : (g : ℕ) → sent g s' ≡ sent g s
    pub measure_le : measure s' ≤ measure s

  -- the bytes `b` have been written to `fd`
  pub record Written (fd : ℕ) (b : Bytes) (s s' : S) : Type 0 where
    pub sent_more : sent fd s' ≡ sent fd s ++ b
    pub others : (g : ℕ) → (g == fd) ≡ false → sent g s' ≡ sent g s
    pub pending_same : (g : ℕ) → pending g s' ≡ pending g s
    pub measure_le : measure s' ≤ measure s

  -- A kernel whose clients stay: `read` has nothing, or fails, only where nothing is pending; a
  -- blocking `write` takes all that it is offered. Interruptions and aborted connections are allowed,
  -- not for ever.
  pub record IsNetwork : Type 0 where
    pub got :
        (fd n : ℕ) (s : S) (b : ℕ) (bs : Bytes)
        → (k.read fd (suc n) s).0 ≡ ReadResult.got (b ∷ bs)
        → Read fd (b ∷ bs) s (k.read fd (suc n) s).1
    pub ended :
        (fd n : ℕ) (s : S)
        → (k.read fd (suc n) s).0 ≡ ReadResult.got []
        → (pending fd s ≡ []) × Same s (k.read fd (suc n) s).1
    pub read_blocked :
        (fd n : ℕ) (s : S)
        → (k.read fd n s).0 ≡ ReadResult.would_block
        → (pending fd s ≡ []) × Same s (k.read fd n s).1
    pub read_failed :
        (fd n : ℕ) (s : S)
        → (k.read fd n s).0 ≡ ReadResult.broken
        → (pending fd s ≡ []) × Same s (k.read fd n s).1
    pub read_interrupted :
        (fd n : ℕ) (s : S)
        → (k.read fd n s).0 ≡ ReadResult.interrupted
        → Same s (k.read fd n s).1 × (measure (k.read fd n s).1 < measure s)
    pub took :
        (fd n : ℕ) (b : Bytes) (s : S)
        → (k.write fd b s).0 ≡ WriteResult.took n
        → Written fd b s (k.write fd b s).1
    pub write_interrupted :
        (fd : ℕ) (b : Bytes) (s : S)
        → (k.write fd b s).0 ≡ WriteResult.interrupted
        → Same s (k.write fd b s).1 × (measure (k.write fd b s).1 < measure s)
    pub write_blocks : (fd : ℕ) (b : Bytes) (s : S) → (k.write fd b s).0 ≢ WriteResult.would_block
    pub write_breaks : (fd : ℕ) (b : Bytes) (s : S) → (k.write fd b s).0 ≢ WriteResult.broken
    pub accept_done : (s : S) → Same s (k.accept s).1
    pub accept_aborted : (s : S) → (k.accept s).0 ≡ aborted → measure (k.accept s).1 < measure s
    pub accept_interrupted :
        (s : S) → (k.accept s).0 ≡ interrupted → measure (k.accept s).1 < measure s
    pub registered : (fd : ℕ) (s : S) → Same s (k.register fd s).1
    pub unregistered : (fd : ℕ) (s : S) → Same s (k.unregister fd s).1
    pub closed : (fd : ℕ) (s : S) → Same s (k.close fd s).1

  pub Same-refl : (s : S) → Same s s
  Same-refl s = record { pending_same = λ g. refl; sent_same = λ g. refl; measure_le = omega arith }

  pub Same-trans : (s s' s'' : S) → Same s s' → Same s' s'' → Same s s''
  Same-trans s s' s'' p q = record {
    pending_same = λ g. q.pending_same g ∙ p.pending_same g;
    sent_same = λ g. q.sent_same g ∙ p.sent_same g;
    measure_le = omega (arith, p.measure_le, q.measure_le);
  }

  -- what `Read` leaves: bytes, or nothing and then nothing was pending
  abbrev pub Delivers : ℕ → S → Option Bytes × S → Type 0
  Delivers fd s (none, s') = (pending fd s ≡ []) × Same s s'
  Delivers fd s (some [], s') = (pending fd s ≡ []) × Same s s'
  Delivers fd s (some (b ∷ bs), s') = Read fd (b ∷ bs) s s'

  -- a call that moves no byte, whether it returns or not
  abbrev pub AfterCall : S → Called S → Type 0
  AfterCall s (Called.returns n s') = Same s s'
  AfterCall s (Called.exits s') = Same s s'

  after_later : (s s' : S) (c : Called S) → Same s s' → AfterCall s' c → AfterCall s c
  after_later s s' (Called.returns n t) i j = Same-trans s s' t i j
  after_later s s' (Called.exits t) i j = Same-trans s s' t i j

  abbrev Reads : ℕ → ℕ → ℕ → S → Type 0
  Reads fuel fd n s =
      (res : Option Bytes × S) × (read_once (k.read fd) fuel (suc n) s ≡ some res)
      × Delivers fd s res

  after_same :
      (fd : ℕ) (s s' : S) (res : Option Bytes × S)
      → Same s s'
      → Delivers fd s' res
      → Delivers fd s res
  after_same fd s s' (none, t) i (e, j) = (sym (i.pending_same fd) ∙ e, Same-trans s s' t i j)
  after_same fd s s' (some [], t) i (e, j) = (sym (i.pending_same fd) ∙ e, Same-trans s s' t i j)
  after_same fd s s' (some (b ∷ bs), t) i j = record {
    front = sym (i.pending_same fd) ∙ j.front;
    others = λ g o. j.others g o ∙ i.pending_same g;
    sent_same = λ g. j.sent_same g ∙ i.sent_same g;
    measure_le = omega (arith, i.measure_le, j.measure_le);
  }

  -- `Read` returns, with bytes that were pending, or with nothing where nothing was.
  pub read_once-Delivers :
      (fuel fd n : ℕ) (s : S) → IsNetwork → measure s < fuel → Reads fuel fd n s
  unfolding read_once
  read_once-Delivers zero fd n s w f = absurd (omega arith)
  read_once-Delivers (suc fuel) fd n s w f =
      by_result (k.read fd (suc n) s).0 refl (λ lt. read_once-Delivers fuel fd n _ w (omega arith))
    where
      by_result :
          (r : ReadResult)
          → (k.read fd (suc n) s).0 ≡ r
          → (measure (k.read fd (suc n) s).1 < measure s → Reads fuel fd n (k.read fd (suc n) s).1)
          → Reads (suc fuel) fd n s
      by_result (ReadResult.got []) e again =
          ((some [], (k.read fd (suc n) s).1), rw (e, read_once) refl, w.ended fd n s e)
      by_result (ReadResult.got (b ∷ bs)) e again =
          ((some (b ∷ bs), (k.read fd (suc n) s).1), rw (e, read_once) refl, w.got fd n s b bs e)
      by_result ReadResult.interrupted e again =
          let (i, lt) = w.read_interrupted fd (suc n) s e in
          let (res, done, d) = again lt in
          (res, rw (e, read_once) done, after_same fd s (k.read fd (suc n) s).1 res i d)
      by_result ReadResult.would_block e again =
          ((none, (k.read fd (suc n) s).1), rw (e, read_once) refl, w.read_blocked fd (suc n) s e)
      by_result ReadResult.broken e again =
          ((none, (k.read fd (suc n) s).1), rw (e, read_once) refl, w.read_failed fd (suc n) s e)

  abbrev Writes : ℕ → ℕ → Bytes → S → Type 0
  Writes fuel fd b s =
      (n : ℕ) × (s' : S) × (write_once (k.write fd) fuel b s ≡ some (some n, s'))
      × Written fd b s s'

  write_after_same :
      (fd : ℕ) (b : Bytes) (s s' s'' : S) → Same s s' → Written fd b s' s'' → Written fd b s s''
  write_after_same fd b s s' s'' i d = record {
    sent_more = d.sent_more ∙ ap (λ xs. xs ++ b) (i.sent_same fd);
    others = λ g o. d.others g o ∙ i.sent_same g;
    pending_same = λ g. d.pending_same g ∙ i.pending_same g;
    measure_le = omega (arith, i.measure_le, d.measure_le);
  }

  -- `Write` returns, with all the bytes written.
  pub write_once-Written :
      (fuel fd : ℕ) (b : Bytes) (s : S) → IsNetwork → measure s < fuel → Writes fuel fd b s
  unfolding write_once
  write_once-Written zero fd b s w f = absurd (omega arith)
  write_once-Written (suc fuel) fd b s w f =
      by_result (k.write fd b s).0 refl (λ lt. write_once-Written fuel fd b _ w (omega arith))
    where
      by_result :
          (r : WriteResult)
          → (k.write fd b s).0 ≡ r
          → (measure (k.write fd b s).1 < measure s → Writes fuel fd b (k.write fd b s).1)
          → Writes (suc fuel) fd b s
      by_result (WriteResult.took n) e again =
          (n, (k.write fd b s).1, rw (e, write_once) refl, w.took fd n b s e)
      by_result WriteResult.interrupted e again =
          let (i, lt) = w.write_interrupted fd b s e in
          let (n, t, done, d) = again lt in
          (n, t, rw (e, write_once) done, write_after_same fd b s (k.write fd b s).1 t i d)
      by_result WriteResult.would_block e again = absurd (w.write_blocks fd b s e)
      by_result WriteResult.broken e again = absurd (w.write_breaks fd b s e)

  abbrev Accepts : ℕ → S → Type 0
  Accepts fuel s = (c : Called S) × (try_accept k.accept fuel s ≡ some c) × AfterCall s c

  -- `Accept` returns, or ends the process.
  pub try_accept-Accepts : (fuel : ℕ) (s : S) → IsNetwork → measure s < fuel → Accepts fuel s
  unfolding try_accept
  try_accept-Accepts zero s w f = absurd (omega arith)
  try_accept-Accepts (suc fuel) s w f =
      by_result (k.accept s).0 refl (λ lt. try_accept-Accepts fuel (k.accept s).1 w (omega arith))
    where
      again_from :
          measure (k.accept s).1 < measure s
          → (measure (k.accept s).1 < measure s → Accepts fuel (k.accept s).1)
          → (c : Called S) × (try_accept k.accept fuel (k.accept s).1 ≡ some c) × AfterCall s c
      again_from lt again =
          let (c, done, i) = again lt in
          (c, done, after_later s (k.accept s).1 c (w.accept_done s) i)

      by_result :
          (a : Accepted)
          → (k.accept s).0 ≡ a
          → (measure (k.accept s).1 < measure s → Accepts fuel (k.accept s).1)
          → Accepts (suc fuel) s
      by_result (accepted fd) e again =
          (Called.returns fd (k.accept s).1, rw (e, try_accept) refl, w.accept_done s)
      by_result failed e again =
          (Called.exits (k.accept s).1, rw (e, try_accept) refl, w.accept_done s)
      by_result aborted e again =
          let (c, done, i) = again_from (w.accept_aborted s e) again in
          (c, rw (e, try_accept) done, i)
      by_result interrupted e again =
          let (c, done, i) = again_from (w.accept_interrupted s e) again in
          (c, rw (e, try_accept) done, i)
