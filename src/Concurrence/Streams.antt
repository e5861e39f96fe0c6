-- ===== src/Concurrence/Streams.antt =====
-- The streams of answered bytes, and what a served event does to them.
use mathlib.Core.List.{append_assoc}
use high_performance_server.Prelude.{
  ℕ, suc, ◌+◌, ◌-◌, ◌==◌, ◌≤◌, if◌then◌else◌, true, ◌&&◌, Bool-cases, Option, none, some, List, [],
  ◌∷◌, ◌++◌, Bytes, length, length-append, ◌≡◌, refl, ap, ◌∙◌, inl, inr, arith,
}
use high_performance_server.Wrap.{or_exit}
use high_performance_server.Concurrence.{Kernel, Event, Served, serving, exits, served, upper}
use high_performance_server.Concurrence.Network.{Same, Read, Written}

pub upper-append : (xs ys : Bytes) → upper (xs ++ ys) ≡ upper xs ++ upper ys
unfolding upper
upper-append [] ys = refl
upper-append (x ∷ xs) ys = rw (upper-append xs ys) refl

module _ {S : Type 0} (pending sent : ℕ → S → Bytes) (measure : S → ℕ) (k : Kernel S) where
  -- what has been written to a client, and what will be for the bytes that it has sent
  abbrev pub stream : ℕ → S → Bytes
  stream g s = sent g s ++ upper (pending g s)

  pub record Kept (s s' : S) : Type 0 where
    pub streams : (g : ℕ) → stream g s' ≡ stream g s
    pub shrinks : (g : ℕ) → length (pending g s') ≤ length (pending g s)
    pub measure_le : measure s' ≤ measure s

  pub same-Kept : (s s' : S) → Same k pending sent measure s s' → Kept s s'
  same-Kept s s' i = record {
    streams = λ g. rw (i.sent_same g, i.pending_same g) refl;
    shrinks = λ g. rw (i.pending_same g) (omega arith);
    measure_le = i.measure_le;
  }

  Kept-trans : (s s' s'' : S) → Kept s s' → Kept s' s'' → Kept s s''
  Kept-trans s s' s'' i j = record {
    streams = λ g. j.streams g ∙ i.streams g;
    shrinks = λ g. omega (arith, i.shrinks g, j.shrinks g);
    measure_le = omega (arith, i.measure_le, j.measure_le);
  }

  -- bytes are read from a client and answered
  answered_stream :
      (fd : ℕ) (b : Bytes) (s s' s'' : S)
      → Read k pending sent measure fd b s s'
      → Written k pending sent measure fd (upper b) s' s''
      → stream fd s'' ≡ stream fd s
  answered_stream fd b s s' s'' i j =
      rw (j.sent_more, i.sent_same fd, j.pending_same fd, i.front, upper-append b (pending fd s'))
        (append_assoc (sent fd s) (upper b) (upper (pending fd s')))

  answered_length :
      (fd : ℕ) (b : Bytes) (s s' s'' : S)
      → Read k pending sent measure fd b s s'
      → Written k pending sent measure fd (upper b) s' s''
      → length (pending fd s) ≡ length b + length (pending fd s'')
  answered_length fd b s s' s'' i j =
      rw (j.pending_same fd, i.front) (length-append b (pending fd s'))

  pub answered-Kept :
      (fd : ℕ) (b : Bytes) (s s' s'' : S)
      → Read k pending sent measure fd b s s'
      → Written k pending sent measure fd (upper b) s' s''
      → Kept s s''
  answered-Kept fd b s s' s'' i j = record {
    streams = λ g. elim (Bool-cases (g == fd)) [
      | inl same ↦
          let e : g ≡ fd = ground (arith, same) in rw (e) (answered_stream fd b s s' s'' i j)
      | inr other ↦ rw (j.others g other, i.sent_same g, j.pending_same g, i.others g other) refl
    ];
    shrinks = λ g. elim (Bool-cases (g == fd)) [
      | inl same ↦
          let e : g ≡ fd = ground (arith, same) in
          rw (e) (omega (arith, answered_length fd b s s' s'' i j))
      | inr other ↦ rw (j.pending_same g, i.others g other) (omega arith)
    ];
    measure_le = omega (arith, i.measure_le, j.measure_le);
  }

  -- How often the events let a client be read.
  abbrev pub reads : ℕ → List Event → ℕ
  reads g [] = 0
  reads g (e ∷ es) = (if e.readable && (g == e.fd) then 1 else 0) + reads g es

  -- The descriptor `g` has at least a byte less to be read for each of its events, or none at all.
  abbrev pub Answers : ℕ → List Event → S → Served S → Type 0
  Answers g es s (serving s') =
      Kept s s' × (length (pending g s') ≤ length (pending g s) - reads g es)
  Answers g es s (exits s') = Kept s s'

  abbrev pub KeptBy : S → Served S → Type 0
  KeptBy s (serving s') = Kept s s'
  KeptBy s (exits s') = Kept s s'

  pub or_exit-KeptBy :
      (s : S) (o : Option ℕ × S) → Same k pending sent measure s o.1 → KeptBy s (served (or_exit o))
  or_exit-KeptBy s (none, s') i = same-Kept s s' i
  or_exit-KeptBy s (some n, s') i = same-Kept s s' i

  -- an event that answers nobody, since nothing can be read of the client
  pub idle-Answers :
      (g : ℕ) (e : Event) (s : S) (out : Served S)
      → KeptBy s out
      → ((e.readable && (g == e.fd)) ≡ true → pending g s ≡ [])
      → Answers g (e ∷ []) s out
  idle-Answers g e s (exits s') i none_left = i
  idle-Answers g e s (serving s') i none_left = (
    i,
    elim (Bool-cases (e.readable && (g == e.fd))) [
      | inl it ↦ omega (arith, i.shrinks g, ap length (none_left it))
      | inr not_it ↦ rw (not_it) (omega (arith, i.shrinks g))
    ],
  )

  pub nothing_left :
      (e : Event) (s : S)
      → pending e.fd s ≡ []
      → (g : ℕ) → (e.readable && (g == e.fd)) ≡ true
      → pending g s ≡ []
  nothing_left e s empty g it = let same : g ≡ e.fd = ground (arith, it) in rw (same) empty

  pub answered-Answers :
      (g : ℕ) (e : Event) (b : ℕ) (bs : Bytes) (s s' s'' : S)
      → Read k pending sent measure e.fd (b ∷ bs) s s'
      → Written k pending sent measure e.fd (upper (b ∷ bs)) s' s''
      → Answers g (e ∷ []) s (serving s'')
  answered-Answers g e b bs s s' s'' i j =
      let kept = answered-Kept e.fd (b ∷ bs) s s' s'' i j in
      let fewer : length (pending e.fd s) ≡ suc (length bs) + length (pending e.fd s'') =
        answered_length e.fd (b ∷ bs) s s' s'' i j in
      (
        kept,
        elim (Bool-cases (e.readable && (g == e.fd))) [
          | inl it ↦
              let same : g ≡ e.fd = ground (arith, it) in rw (it) (rw (same) (omega (arith, fewer)))
          | inr not_it ↦ rw (not_it) (omega (arith, kept.shrinks g))
        ],
      )

  pub then-Answers :
      (g : ℕ) (e : Event) (es : List Event) (s s' : S) (out : Served S)
      → Answers g (e ∷ []) s (serving s')
      → Answers g es s' out
      → Answers g (e ∷ es) s out
  then-Answers g e es s s' (exits t) (i, first) j = Kept-trans s s' t i j
  then-Answers g e es s s' (serving t) (i, first) (j, rest) =
      (Kept-trans s s' t i j, omega (arith, first, rest))

  abbrev pub Responds : ℕ → List Event → S → Option (Served S) → Type 0
  Responds g es s o = (out : Served S) × (o ≡ some out) × Answers g es s out
