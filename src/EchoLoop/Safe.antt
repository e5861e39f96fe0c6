-- ===== src/EchoLoop/Safe.antt =====
-- What every dispatch keeps of an entry.
use high_performance_server.Prelude.{
  ℕ, zero, suc, ◌≤◌, ◌<◌, leb, ◌&&◌, if◌then◌else◌, Bool, true, false, Option, none, some, [], ◌∷◌,
  Bytes, length, take, ◌≡◌, refl, arith, ◌⊎◌, inl, inr, Bool-cases,
}
use high_performance_server.EchoLoop.{
  Kernel, Slot, receives, sends, Interest, no_events, epoll_in, epoll_out, bufsiz, Arrived, arrived,
  recv_error, Outcome, returned, exited, undefined, and_then, checked, event_set, event_add,
  event_remove, keep_data, received_data, receive_data, sent_data, send_data, call_client, dispatch,
  is_in, is_out, remove,
}

-- An entry that waits for nothing, for bytes, or for the time to send what its buffer holds.
abbrev pub IsReady : Slot → Type 0
IsReady s =
    (s.events ≡ no_events)
    ⊎ (((s.events ≡ epoll_in) × (s.call_back ≡ receives))
        ⊎ ((s.events ≡ epoll_out)
            × (s.call_back ≡ sends)
            × (0 < s.buf_len)
            × (s.buf_len ≡ length s.buf)
            × (s.buf_len < bufsiz)))

module _ {K : Type 0} (kernel : Kernel K) where
  -- a call of `recv` that fills the whole buffer
  abbrev pub Fills : Type 0
  Fills =
      (fd : ℕ) × (k : K) × (b : Bytes) × ((kernel.recv fd bufsiz k).0 ≡ arrived b)
      × (bufsiz ≤ length b)

  abbrev pub Keeps : Outcome Slot K → Type 0
  Keeps (returned s k) = IsReady s
  Keeps (exited k) = Unit
  Keeps undefined = Fills

  and_then-Keeps :
      (o : Outcome Slot K) (f : Slot → K → Outcome Slot K)
      → Keeps o
      → ((s : Slot) (k : K) → IsReady s → Keeps (f s k))
      → Keeps (and_then o f)
  and_then-Keeps (returned s k) f h g = g s k h
  and_then-Keeps (exited k) f h g = tt
  and_then-Keeps undefined f h g = h

  checked-Keeps : (s : Slot) (a : Bool × K) → IsReady s → Keeps (checked s a)
  checked-Keeps s (true, k) h = h
  checked-Keeps s (false, k) h = tt

  event_remove-Keeps : (s : Slot) (k : K) → IsReady s → Keeps (event_remove kernel s k)
  unfolding event_remove
  event_remove-Keeps s k h = elim (Bool-cases s.in_tree) [
    | inl there ↦
        rw (there, event_remove)
          (checked-Keeps (record s { in_tree = false }) (kernel.epoll_ctl (remove s.fd) k) h)
    | inr out ↦ rw (out, event_remove) h
  ]

  received_data-Keeps :
      (now fd : ℕ) (got : Arrived) (k₀ : K)
      → (kernel.recv fd bufsiz k₀).0 ≡ got
      → (s : Slot) (k : K) → IsReady s
      → Keeps (received_data kernel now fd got s k)
  unfolding received_data keep_data event_add event_set
  received_data-Keeps now fd (arrived []) k₀ e s k h = h
  received_data-Keeps now fd (arrived (b ∷ bs)) k₀ e s k h =
      elim (Bool-cases (leb bufsiz (length (b ∷ bs)))) [
        | inl full ↦ rw (full, received_data, keep_data) (fd, k₀, b ∷ bs, e, ground arith)
        | inr fits ↦
            rw (fits, received_data, keep_data)
              (inr (inr (refl, refl, omega arith, refl, ground arith)))
      ]
  received_data-Keeps now fd recv_error k₀ e s k h = checked-Keeps s (kernel.close s.fd k) h

  receive_data-Keeps :
      (now fd : ℕ) (s : Slot) (k : K) → IsReady s → Keeps (receive_data kernel now fd s k)
  unfolding receive_data
  receive_data-Keeps now fd s k h =
      let k₁ = (kernel.recv fd bufsiz k).1 in
      and_then-Keeps (event_remove kernel s k₁) _ (event_remove-Keeps s k₁ h)
        (received_data-Keeps now fd (kernel.recv fd bufsiz k).0 k refl)

  sent_data-Keeps :
      (now fd : ℕ) (sent : Option ℕ) (s : Slot) (k : K)
      → IsReady s
      → Keeps (sent_data kernel now fd sent s k)
  unfolding sent_data event_add event_set
  sent_data-Keeps now fd none s k h = event_remove-Keeps s k h
  sent_data-Keeps now fd (some zero) s k h = h
  sent_data-Keeps now fd (some (suc n)) s k h =
      and_then-Keeps (event_remove kernel s k) _ (event_remove-Keeps s k h)
        (λ s' k' h'. inr (inl (refl, refl)))

  call_client-Keeps :
      (now : ℕ) (s : Slot) (k : K)
      → IsReady s
      → (s.events ≡ epoll_in) ⊎ (s.events ≡ epoll_out)
      → Keeps (call_client kernel now s k)
  unfolding call_client send_data
  call_client-Keeps now s k (inl none_left) e = ground arith
  call_client-Keeps now s k (inr (inl (ev, call))) e =
      rw (call, call_client) (receive_data-Keeps now s.fd s k (inr (inl (ev, call))))
  call_client-Keeps now s k (inr (inr (ev, call, some_len, same_len, fits))) e =
      let (sent, k₁) = kernel.send s.fd (take s.buf_len s.buf) k in
      rw (call, call_client)
        (sent_data-Keeps now s.fd sent s k₁ (inr (inr (ev, call, some_len, same_len, fits))))

  is_in-eq : (i : Interest) → is_in i ≡ true → i ≡ epoll_in
  is_in-eq epoll_in e = refl
  is_in-eq no_events e = cc
  is_in-eq epoll_out e = cc

  is_out-eq : (i : Interest) → is_out i ≡ true → i ≡ epoll_out
  is_out-eq epoll_out e = refl
  is_out-eq no_events e = cc
  is_out-eq epoll_in e = cc

  call_if-Keeps :
      (now : ℕ) (test : Bool) (s : Slot) (k : K)
      → IsReady s
      → (test ≡ true → (s.events ≡ epoll_in) ⊎ (s.events ≡ epoll_out))
      → Keeps (if test then call_client kernel now s k else returned s k)
  call_if-Keeps now true s k h e = call_client-Keeps now s k h (e refl)
  call_if-Keeps now false s k h e = h

  -- An event on a client's entry that waits for nothing, for bytes, or to send what its buffer
  -- holds: if the handlers return, the entry is such an entry again, so that no null pointer and no
  -- handler of the other direction is ever called. They run into undefined behaviour only where
  -- `recv` has filled the whole buffer.
  pub dispatch-IsReady :
      (now : ℕ) (readable writable : Bool) (s : Slot) (k : K)
      → IsReady s
      → Keeps (dispatch kernel now readable writable s k)
  unfolding dispatch
  dispatch-IsReady now readable writable s k h =
      and_then-Keeps
        (if readable && is_in s.events then call_client kernel now s k else returned s k) _
        (call_if-Keeps now (readable && is_in s.events) s k h
          (λ e. inl (is_in-eq s.events (ground arith))))
        (λ s' k' h'.
          call_if-Keeps now (writable && is_out s'.events) s' k' h'
            (λ e. inr (is_out-eq s'.events (ground arith))))
