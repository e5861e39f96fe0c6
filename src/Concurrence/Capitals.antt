-- ===== src/Concurrence/Capitals.antt =====
-- What the epoll servers of Concurrence answer.
use high_performance_server.Prelude.{
  ℕ, ◌==◌, ◌<◌, true, false, Bool-cases, Option-cases, Option, none, some, List, [], ◌∷◌, Bytes,
  ◌≡◌, refl, ◌∙◌, inl, inr, arith,
}
use high_performance_server.Wrap.{Called, or_exit, try_accept, read_once}
use high_performance_server.Concurrence.{
  Kernel, Event, Served, serving, exits, served, upper, forget_client, answer_client, serve_client,
  accept_client, serve_event, serve_events,
}
use high_performance_server.Concurrence.Network.{
  Same, IsNetwork, Same-trans, Same-refl, Delivers, AfterCall, read_once-Delivers,
  write_once-Written, try_accept-Accepts,
}
use high_performance_server.Concurrence.Streams.{
  Answers, same-Kept, KeptBy, or_exit-KeptBy, idle-Answers, nothing_left, answered-Answers,
  then-Answers, Responds,
}

module _ {S : Type 0} (pending sent : ℕ → S → Bytes) (measure : S → ℕ) (k : Kernel S)
    (w : IsNetwork k pending sent measure) (fuel listen_fd g : ℕ)
    (apart : (g == listen_fd) ≡ false) where
  -- `Close`, behind calls that have moved nothing
  close-KeptBy :
      (fd : ℕ) (s s' : S)
      → Same k pending sent measure s s'
      → KeptBy pending sent measure k s (served (or_exit (k.close fd s')))
  close-KeptBy fd s s' i =
      or_exit-KeptBy pending sent measure k s (k.close fd s')
        (Same-trans k pending sent measure s s' _ i (w.closed fd s'))

  forget_client-KeptBy :
      (fd : ℕ) (s s' : S)
      → Same k pending sent measure s s'
      → KeptBy pending sent measure k s (forget_client k fd s')
  unfolding forget_client
  forget_client-KeptBy fd s s' i = elim (Option-cases (k.unregister fd s').0) [
    | inl refused ↦ rw (refused, forget_client) (same-Kept pending sent measure k s _ gone)
    | inr (n, done) ↦ rw (done, forget_client) (close-KeptBy fd s _ gone)
  ]
    where
      gone : Same k pending sent measure s (k.unregister fd s').1
      gone = Same-trans k pending sent measure s s' _ i (w.unregistered fd s')

  accept_client_lem :
      (e : Event) (s : S)
      → (e.fd == listen_fd) ≡ true
      → measure s < fuel
      → Responds pending sent measure k g (e ∷ []) s (accept_client k fuel s)
  unfolding accept_client
  accept_client_lem e s is_listener f =
      let (c, done, i) = try_accept-Accepts k pending sent measure fuel s w f in by_call c done i
    where
      by_call :
          (c : Called S)
          → try_accept k.accept fuel s ≡ some c
          → AfterCall k pending sent measure s c
          → Responds pending sent measure k g (e ∷ []) s (accept_client k fuel s)
      by_call (Called.exits s') done i =
          (exits s', rw (done, accept_client) refl, same-Kept pending sent measure k s s' i)
      by_call (Called.returns fd s') done i = (
        served (or_exit (k.register fd s')),
        rw (done, accept_client) refl,
        idle-Answers pending sent measure k g e s _
            (or_exit-KeptBy pending sent measure k s (k.register fd s')
              (Same-trans k pending sent measure s s' _ i (w.registered fd s')))
            (λ it. absurd (ground (arith, apart, it, is_listener))),
      )

  answer_client_lem :
      (e : Event) (s : S) (res : Option Bytes × S)
      → measure s < fuel
      → Delivers k pending sent measure e.fd s res
      → Responds pending sent measure k g (e ∷ []) s (answer_client k fuel e.fd res)
  unfolding answer_client
  answer_client_lem e s (none, s') f (empty, i) = (
    served (or_exit (k.close e.fd (k.unregister e.fd s').1)),
    refl,
    idle-Answers pending sent measure k g e s _
        (close-KeptBy e.fd s _
          (Same-trans k pending sent measure s s' _ i (w.unregistered e.fd s')))
        (nothing_left pending sent measure k e s empty g),
  )
  answer_client_lem e s (some [], s') f (empty, i) = (
    forget_client k e.fd s',
    refl,
    idle-Answers pending sent measure k g e s _ (forget_client-KeptBy e.fd s s' i)
        (nothing_left pending sent measure k e s empty g),
  )
  answer_client_lem e s (some (b ∷ bs), s') f i =
      let (n, t, done, j) =
        write_once-Written k pending sent measure fuel e.fd (upper (b ∷ bs)) s' w
          (omega (arith, i.measure_le)) in
      (
        serving t,
        rw (done, answer_client) refl,
        answered-Answers pending sent measure k g e b bs s s' t i j,
      )

  at_listener :
      (e : Event) (s : S)
      → e.readable ≡ true
      → (e.fd == listen_fd) ≡ true
      → serve_event k fuel listen_fd e s ≡ accept_client k fuel s
  unfolding serve_event
  at_listener e s readable listener = rw (readable, listener, serve_event) refl

  at_client :
      (e : Event) (s : S) (res : Option Bytes × S)
      → e.readable ≡ true
      → (e.fd == listen_fd) ≡ false
      → read_once (k.read e.fd) fuel 8192 s ≡ some res
      → serve_event k fuel listen_fd e s ≡ answer_client k fuel e.fd res
  unfolding serve_event serve_client
  at_client e s res readable client read =
      rw (readable, client, serve_event, serve_client, read) refl

  serve_event_lem :
      (e : Event) (s : S)
      → measure s < fuel
      → Responds pending sent measure k g (e ∷ []) s (serve_event k fuel listen_fd e s)
  unfolding serve_event serve_client
  serve_event_lem e s f = elim (Bool-cases e.readable) [
    | inr other ↦ (
      serving s,
      rw (other, serve_event) refl,
      idle-Answers pending sent measure k g e s (serving s)
          (same-Kept pending sent measure k s s (Same-refl k pending sent measure s))
          (λ it. absurd (ground (arith, it, other))),
    )
    | inl readable ↦ elim (Bool-cases (e.fd == listen_fd)) [
      | inl listener ↦
          let (out, done, i) = accept_client_lem e s listener f in
          (out, at_listener e s readable listener ∙ done, i)
      | inr client ↦
          let (res, read, d) = read_once-Delivers k pending sent measure fuel e.fd 8191 s w f in
          let (out, done, i) = answer_client_lem e s res f d in
          (out, at_client e s res readable client read ∙ done, i)
    ]
  ]

  -- On a kernel whose clients stay, the servers' loop over the events of an `epoll_wait` returns,
  -- or ends the process. Either way what has been written to each client, followed by the capitals
  -- of what is still to be read of it, is what it was: every byte is answered in order, and to the
  -- client that has sent it. Where the loop returns, the events of the client at `g` have taken at
  -- least one byte each, as long as any was to be read of it: as many bytes as it had events, or all.
  pub serve_events_lem :
      (es : List Event) (s : S)
      → measure s < fuel
      → (out : Served S) × (serve_events k fuel listen_fd es s ≡ some out)
        × Answers pending sent measure k g es s out
  unfolding serve_events
  serve_events_lem [] s f = (
    serving s,
    refl,
    (same-Kept pending sent measure k s s (Same-refl k pending sent measure s), omega arith),
  )
  serve_events_lem (e ∷ es) s f =
      let (out, done, i) = serve_event_lem e s f in
      by_first out done i (λ s' lt. serve_events_lem es s' lt)
    where
      by_first :
          (out : Served S)
          → serve_event k fuel listen_fd e s ≡ some out
          → Answers pending sent measure k g (e ∷ []) s out
          → ((s' : S)
              → measure s' < fuel
              → Responds pending sent measure k g es s' (serve_events k fuel listen_fd es s'))
          → Responds pending sent measure k g (e ∷ es) s (serve_events k fuel listen_fd (e ∷ es) s)
      by_first (exits s') done i rest = (exits s', rw (done, serve_events) refl, i)
      by_first (serving s') done i rest =
          let (out, done', j) = rest s' (omega (arith, f, i.0.measure_le)) in
          (
            out,
            rw (done, serve_events) done',
            then-Answers pending sent measure k g e es s s' out i j,
          )
