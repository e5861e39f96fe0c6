-- ===== src/EchoLoop/Running.antt =====
-- What holds of the table in all rounds of the loop.
use high_performance_server.Prelude.{
  ℕ, zero, suc, ◌+◌, ◌≤◌, ◌<◌, ◌&&◌, Bool-cases, Option, Option-cases, none, some, List, [], ◌∷◌,
  length, length-set, get_elem?, set, refl, ◌∙◌, inl, inr, arith,
}
use high_performance_server.EchoLoop.{
  Kernel, Slot, Table, Outcome, returned, exited, undefined, and_then, wrap_pos, find_free,
  event_set, event_add, check_slot, scan, add_client, accept_connection, dispatch,
  dispatch_listener, is_in,
}
use high_performance_server.EchoLoop.Safe.{IsReady, dispatch-IsReady}
use high_performance_server.EchoLoop.Loop.{
  Sockets, or_exit, server_port, init_listen_socket, echo_start, Touched, Round, serve_slot,
  serve_place, serve_touched, echo_round, echo_rounds, echo_main,
}
use high_performance_server.EchoLoop.Ready.{
  get_elem?-AreReady, set-AreReady, get_elem?-some, zero_slots-AreReady, length-zero_slots, IsTable,
  IsScanned, IsRunning, Has, and_then-Has, Keeps-Has, check_slot-Has,
}

module _ {K : Type 0} (kernel : Kernel K) (open_max : ℕ) (some_slots : 0 < open_max) where
  wrap_pos-lt : (pos : ℕ) → pos ≤ open_max → wrap_pos open_max pos < open_max
  wrap_pos-lt pos h = ground (arith, some_slots, h)

  scan-Has :
      (n now : ℕ) (ss : List Slot) (pos : ℕ) (k : K)
      → IsScanned open_max (ss, pos)
      → Has kernel (IsScanned open_max) (scan kernel n now ss pos k)
  unfolding scan
  scan-Has zero now ss pos k h = h
  scan-Has (suc n) now ss pos k (ready, len, le) =
      let lt : wrap_pos (length ss) pos < length ss = rw (len) (wrap_pos-lt pos le) in
      let (s, there) = get_elem?-some ss (wrap_pos (length ss) pos) lt in
      rw (there, scan)
        (by_check s (check_slot kernel now s k)
          (check_slot-Has kernel now s k (get_elem?-AreReady ss _ s ready there)) lt
          (λ ss' pos' k' h'. scan-Has n now ss' pos' k' h'))
    where
      by_check :
          (s : Slot) (o : Outcome Slot K)
          → Has kernel IsReady o
          → wrap_pos (length ss) pos < length ss
          → ((ss' : List Slot) (pos' : ℕ) (k' : K)
              → IsScanned open_max (ss', pos')
              → Has kernel (IsScanned open_max) (scan kernel n now ss' pos' k'))
          → Has kernel (IsScanned open_max) (elim o [
            | returned s' k' ↦
                scan kernel n now
                  (set ss (wrap_pos (length ss) pos) s')
                  (wrap_pos (length ss) pos + 1)
                  k'
            | exited k' ↦ exited k'
            | undefined ↦ undefined
          ])
      by_check s (returned s' k') r lt again = again _ _ k' (
        set-AreReady ss (wrap_pos (length ss) pos) s' ready r,
        length-set ss (wrap_pos (length ss) pos) s' ∙ len,
        omega (arith, lt, len),
      )
      by_check s (exited k') r lt again = tt
      by_check s undefined r lt again = r

  -- the place of an entry
  abbrev pub IsPlace : Option ℕ → Type 0
  IsPlace none = Unit
  IsPlace (some i) = i < open_max

  abbrev pub ArePlaces : List Touched → Type 0
  ArePlaces [] = Unit
  ArePlaces (e ∷ es) = IsPlace e.place × ArePlaces es

  -- `epoll_wait` reports entries of the table alone
  abbrev pub Reports : List Round → Type 0
  Reports [] = Unit
  Reports (r ∷ rs) = ArePlaces r.touched × Reports rs

  set-IsTable :
      (t : Table) (i : ℕ) (s : Slot)
      → IsTable open_max t
      → IsReady s
      → IsTable open_max (record t { clients = set t.clients i s })
  set-IsTable t i s (ready, len) r =
      (set-AreReady t.clients i s ready r, length-set t.clients i s ∙ len)

  add_client-IsTable :
      (now fd : ℕ) (t : Table) (k : K)
      → IsTable open_max t
      → IsTable open_max (add_client kernel now fd t k).0
  unfolding add_client event_add event_set
  add_client-IsTable now fd t k h =
      elim (Option-cases (get_elem? t.clients (find_free t.clients))) [
        | inl full ↦ rw (full, add_client) h
        | inr (s, free) ↦
            rw (free, add_client) (set-IsTable t (find_free t.clients) _ h (inr (inl (refl, refl))))
      ]

  accept_connection-IsTable :
      (now lfd : ℕ) (t : Table) (k : K)
      → IsTable open_max t
      → IsTable open_max (accept_connection kernel now lfd t k).0
  unfolding accept_connection
  accept_connection-IsTable now lfd t k h = elim (Option-cases (kernel.accept lfd k).0) [
    | inl refused ↦ rw (refused, accept_connection) h
    | inr (fd, taken) ↦ rw (taken, accept_connection) (add_client-IsTable now fd t _ h)
  ]

  serve_place-Has :
      (e : Touched) (place : Option ℕ) (t : Table) (k : K)
      → IsPlace place
      → IsTable open_max t
      → Has kernel (IsTable open_max) (serve_place kernel e place t k)
  unfolding serve_place serve_slot dispatch_listener
  serve_place-Has e none t k known h = elim (Bool-cases (e.readable && is_in t.listener.events)) [
    | inl ready ↦
        rw (ready, serve_place, dispatch_listener)
          (accept_connection-IsTable e.at t.listener.fd t k h)
    | inr other ↦ rw (other, serve_place, dispatch_listener) h
  ]
  serve_place-Has e (some i) t k known h =
      let (s, there) = get_elem?-some t.clients i (omega (arith, known, h.1)) in
      rw (there, serve_place, serve_slot)
        (and_then-Has kernel IsReady (IsTable open_max)
          (dispatch kernel e.at e.readable e.writable s k) _
          (Keeps-Has kernel _ (
            dispatch-IsReady kernel e.at e.readable e.writable s k
              (get_elem?-AreReady t.clients i s h.0 there)))
          (λ s' k' r. set-IsTable t i s' h r))

  serve_touched-Has :
      (es : List Touched) (t : Table) (k : K)
      → ArePlaces es
      → IsTable open_max t
      → Has kernel (IsTable open_max) (serve_touched kernel es t k)
  unfolding serve_touched
  serve_touched-Has [] t k known h = h
  serve_touched-Has (e ∷ es) t k known h =
      and_then-Has kernel (IsTable open_max) (IsTable open_max) (serve_place kernel e e.place t k)
        (serve_touched kernel es) (serve_place-Has e e.place t k known.0 h)
        (λ t' k' h'. serve_touched-Has es t' k' known.1 h')

  echo_round-Has :
      (r : Round) (t : Table) (pos : ℕ) (k : K)
      → ArePlaces r.touched
      → IsRunning open_max (t, pos)
      → Has kernel (IsRunning open_max) (echo_round kernel r (t, pos) k)
  unfolding echo_round
  echo_round-Has r t pos k known (h, le) =
      and_then-Has kernel (IsScanned open_max) (IsRunning open_max)
        (scan kernel 100 r.time t.clients pos k) _
        (scan-Has 100 r.time t.clients pos k (h.0, h.1, le))
        (λ found k' (ready, len, le').
          and_then-Has kernel (IsTable open_max) (IsRunning open_max)
            (serve_touched kernel r.touched (record t { clients = found.0 }) k') _
            (serve_touched-Has r.touched (record t { clients = found.0 }) k' known (ready, len))
            (λ t' k'' h'. (h', le')))

  echo_rounds-Has :
      (rs : List Round) (t : Table) (pos : ℕ) (k : K)
      → Reports rs
      → IsRunning open_max (t, pos)
      → Has kernel (IsRunning open_max) (echo_rounds kernel rs (t, pos) k)
  unfolding echo_rounds
  echo_rounds-Has [] t pos k known h = h
  echo_rounds-Has (r ∷ rs) t pos k known h =
      and_then-Has kernel (IsRunning open_max) (IsRunning open_max) (echo_round kernel r (t, pos) k)
        (echo_rounds kernel rs) (echo_round-Has r t pos k known.0 h)
        (λ (t', pos') k' h'. echo_rounds-Has rs t' pos' k' known.1 h')

  or_exit-Has :
      {B : Type 0} (Q : B → Type 0) (a : Option ℕ × K) (f : ℕ → K → Outcome B K)
      → ((n : ℕ) (k : K) → Has kernel Q (f n k))
      → Has kernel Q (and_then (or_exit a) f)
  or_exit-Has Q (none, k) f h = tt
  or_exit-Has Q (some n, k) f h = h n k

  abbrev IsAny : ℕ → Type 0
  IsAny n = Unit

  init_listen_socket-Has :
      (sockets : Sockets K) (port : ℕ) (k : K)
      → Has kernel IsAny (init_listen_socket sockets open_max port k)
  unfolding init_listen_socket
  init_listen_socket-Has sockets port k = or_exit-Has IsAny (sockets.socket k) _ (λ fd k₁.
      let k₂ = sockets.set_reuse fd (sockets.set_non_blocking fd k₁) in
      or_exit-Has IsAny (sockets.bind fd server_port k₂) _
        (λ _ k₃. or_exit-Has IsAny (sockets.listen fd (open_max + 1) k₃) _ (λ _ k₄. tt)))

  echo_start-Has :
      (sockets : Sockets K) (now : ℕ) (k : K)
      → Has kernel (IsTable open_max) (echo_start sockets kernel open_max now k)
  unfolding echo_start
  echo_start-Has sockets now k =
      or_exit-Has (IsTable open_max) (sockets.epoll_create (open_max + 1) k) _ (λ _ k₁.
        and_then-Has kernel IsAny (IsTable open_max)
          (init_listen_socket sockets open_max server_port k₁) _
          (init_listen_socket-Has sockets server_port k₁)
          (λ fd k₂ _. (zero_slots-AreReady open_max, length-zero_slots open_max)))

  -- From the start of `main` and for any number of rounds of its loop, where `epoll_wait` reports
  -- entries of the table alone: each entry waits for nothing, for bytes, or to send what its buffer
  -- holds, with the handler that does it, and the scan stays within the table. Else the
  -- process has exited, or a `recv` that has filled the whole buffer has led to the one access out of
  -- bounds.
  pub echo_main-IsRunning :
      (sockets : Sockets K) (now : ℕ) (rs : List Round) (k : K)
      → Reports rs
      → Has kernel (IsRunning open_max) (echo_main sockets kernel open_max now rs k)
  unfolding echo_main
  echo_main-IsRunning sockets now rs k known =
      and_then-Has kernel (IsTable open_max) (IsRunning open_max)
        (echo_start sockets kernel open_max now k) _ (echo_start-Has sockets now k)
        (λ t k' h. echo_rounds-Has rs t 0 k' known (h, omega arith))
