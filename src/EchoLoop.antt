-- ===== src/EchoLoop.antt =====
-- The server of history_version/epoll_loop: `event_set`, `event_add` and `event_remove` of
-- include/epoll_tool.cpp, and the handlers, the dispatch and the timeout scan of server.cpp. The
-- system calls are a parameter; its state is `K`.
pub mod Safe
pub mod Echo
pub mod Scan
pub mod Loop
pub mod Ready
pub mod Running
mod Tests
use high_performance_server.Prelude.{
  ℕ, zero, suc, ◌+◌, ◌-◌, ◌==◌, ltb, leb, if◌then◌else◌, Bool, true, false, not, ◌&&◌, Option, none,
  some, List, [], ◌∷◌, Bytes, length, get_elem?, set, take,
}

-- What `call_back` points to.
pub data CallBack : Type 0 where
  no_call accepts receives sends : CallBack

-- EPOLLIN and EPOLLOUT, and the 0 of `event_set`
pub data Interest : Type 0 where
  no_events epoll_in epoll_out : Interest

-- `my_event_t`: `in_tree` is the status IN_EPOLL_TREE, `buf` holds the bytes written into the
-- buffer, `self` is the entry that the callback is given.
pub record Slot : Type 0 where
  pub fd : ℕ
  pub events : Interest
  pub in_tree : Bool
  pub buf : Bytes
  pub buf_len : ℕ
  pub last_active : ℕ
  pub call_back : CallBack
  pub self : ℕ

-- BUFSIZ
abbrev pub bufsiz : ℕ
bufsiz = 8192

-- The calls of `epoll_ctl`: EPOLL_CTL_ADD, EPOLL_CTL_MOD and EPOLL_CTL_DEL of a descriptor.
pub data Control : Type 0 where
  add modify : ℕ → Interest → Control
  remove : ℕ → Control

-- What `recv` returns: bytes, or -1.
pub data Arrived : Type 0 where
  arrived : Bytes → Arrived
  recv_error : Arrived

-- The system calls: a flag is false for -1, a number `none`.
pub record Kernel (K : Type 0) : Type 0 where
  pub epoll_ctl : Control → K → Bool × K
  pub close : ℕ → K → Bool × K
  pub recv : ℕ → ℕ → K → Arrived × K
  pub send : ℕ → Bytes → K → Option ℕ × K
  pub accept : ℕ → K → Option ℕ × K
  pub set_non_blocking : ℕ → K → K

-- How a call ends: it returns, the process exits, or the behaviour is undefined.
pub data Outcome (A K : Type 0) : Type 0 where
  returned : A → K → Outcome A K
  exited : K → Outcome A K
  undefined : Outcome A K

abbrev pub and_then : {A B K : Type 0} → Outcome A K → (A → K → Outcome B K) → Outcome B K
and_then (returned a k) f = f a k
and_then (exited k) f = exited k
and_then undefined f = undefined

-- `Epoll_ctl` and `Close`: the process exits where the call fails.
abbrev pub checked : {A K : Type 0} → A → Bool × K → Outcome A K
checked a (true, k) = returned a k
checked a (false, k) = exited k

-- `event_set`
unfoldable pub event_set : ℕ → ℕ → CallBack → ℕ → Slot → Slot
event_set now fd call_back arg s = record s {
  fd = fd;
  call_back = call_back;
  events = no_events;
  in_tree = false;
  self = arg;
  last_active = now;
}

-- the table `g_events`: the entries below OPEN_MAX, and the one at OPEN_MAX for the listening socket
pub record Table : Type 0 where
  pub clients : List Slot
  pub listener : Slot

-- the first entry that is not in the tree; the number of entries where all are
unfoldable pub find_free : List Slot → ℕ
find_free [] = 0
find_free (s ∷ ss) = let rest = find_free ss in if s.in_tree then suc rest else 0

abbrev pub is_in : Interest → Bool
is_in epoll_in = true
is_in _ = false

abbrev pub is_out : Interest → Bool
is_out epoll_out = true
is_out _ = false

abbrev pub wrap_pos : ℕ → ℕ → ℕ
wrap_pos open_max pos = if pos == open_max then 0 else pos

module _ {K : Type 0} (kernel : Kernel K) where
  -- `event_add`, which goes on where `epoll_ctl` fails
  unfoldable pub event_add : ℕ → Interest → Slot → K → Slot × K
  event_add now events s k =
      let s' = record s { events = events; last_active = now; in_tree = true } in
      let call = if s.in_tree then modify s.fd events else add s.fd events in
      (s', (kernel.epoll_ctl call k).1)

  -- `event_remove`
  unfoldable pub event_remove : Slot → K → Outcome Slot K
  event_remove s k =
      if not s.in_tree
      then returned s k
      else checked (record s { in_tree = false }) (kernel.epoll_ctl (remove s.fd) k)

  -- `my_event->buf[len] = 0`, which is out of bounds for a full buffer, and the rest of the branch
  -- of `receive_data` for bytes that have come
  unfoldable pub keep_data : ℕ → ℕ → Bytes → Slot → K → Outcome Slot K
  unfolding event_add event_set
  keep_data now fd bytes s k =
      if leb bufsiz (length bytes)
      then undefined
      else let s₁ = record s { buf = bytes; buf_len = length bytes } in
        let (s₂, k₂) = event_add now epoll_out (event_set now fd sends s.self s₁) k in
        returned s₂ k₂

  -- the branches of `receive_data` on what `recv` returned
  unfoldable pub received_data : ℕ → ℕ → Arrived → Slot → K → Outcome Slot K
  unfolding keep_data
  received_data now fd (arrived []) s k = returned s k
  received_data now fd (arrived (b ∷ bs)) s k = keep_data now fd (b ∷ bs) s k
  received_data now fd recv_error s k = checked s (kernel.close s.fd k)

  unfoldable pub receive_data : ℕ → ℕ → Slot → K → Outcome Slot K
  unfolding event_remove received_data
  receive_data now fd s k =
      let (got, k₁) = kernel.recv fd bufsiz k in
      and_then (event_remove s k₁) (received_data now fd got)

  -- the branches of `send_data` on what `send` returned
  unfoldable pub sent_data : ℕ → ℕ → Option ℕ → Slot → K → Outcome Slot K
  unfolding event_remove event_add event_set
  sent_data now fd none s k = event_remove s k
  sent_data now fd (some zero) s k = returned s k
  sent_data now fd (some (suc len)) s k = and_then (event_remove s k) (λ s' k'.
      let (s₂, k₂) = event_add now epoll_in (event_set now fd receives s'.self s') k' in
      returned s₂ k₂)

  unfoldable pub send_data : ℕ → ℕ → Slot → K → Outcome Slot K
  unfolding sent_data
  send_data now fd s k =
      let (sent, k₁) = kernel.send fd (take s.buf_len s.buf) k in sent_data now fd sent s k₁

  -- the branch of `accept_connection` for a new descriptor
  unfoldable pub add_client : ℕ → ℕ → Table → K → Table × K
  unfolding find_free event_add event_set
  add_client now cfd t k =
      let i = find_free t.clients in
      elim (get_elem? t.clients i) [
        | none ↦ (t, k)
        | some s ↦
            let (s', k') =
              event_add now epoll_in (event_set now cfd receives i s)
                (kernel.set_non_blocking cfd k) in
            (record t { clients = set t.clients i s' }, k')
      ]

  unfoldable pub accept_connection : ℕ → ℕ → Table → K → Table × K
  unfolding add_client
  accept_connection now lfd t k =
      let (cfd, k') = kernel.accept lfd k in
      elim cfd [ none ↦ (t, k') | some fd ↦ add_client now fd t k' ]

  -- `call_back(fd, events, self)` of a client's entry, which `self` names
  unfoldable pub call_client : ℕ → Slot → K → Outcome Slot K
  unfolding receive_data send_data
  call_client now s k = elim s.call_back [
    | receives ↦ receive_data now s.fd s k
    | sends ↦ send_data now s.fd s k
    | accepts ↦ undefined
    | no_call ↦ undefined
  ]

  -- One ready entry of the loop in main: what `epoll_wait` reports, and the entry.
  unfoldable pub dispatch : ℕ → Bool → Bool → Slot → K → Outcome Slot K
  unfolding call_client
  dispatch now readable writable s k =
      and_then (if readable && is_in s.events then call_client now s k else returned s k)
        (λ s' k'. if writable && is_out s'.events then call_client now s' k' else returned s' k')

  -- the same for the listening socket
  unfoldable pub dispatch_listener : ℕ → Bool → Table → K → Table × K
  unfolding accept_connection
  dispatch_listener now readable t k =
      if readable && is_in t.listener.events
      then accept_connection now t.listener.fd t k
      else (t, k)

  -- One round of the timeout scan at `check_pos`, which is set back at the end of the table.
  unfoldable pub check_slot : ℕ → Slot → K → Outcome Slot K
  unfolding event_remove
  check_slot now s k =
      if not s.in_tree
      then returned s k
      else if leb 60 (now - s.last_active)
      then and_then (checked s (kernel.close s.fd k)) event_remove
      else returned s k

  -- `n` rounds of the scan; it reads only entries of the table
  unfoldable pub scan : ℕ → ℕ → List Slot → ℕ → K → Outcome (List Slot × ℕ) K
  unfolding check_slot
  scan zero now ss pos k = returned (ss, pos) k
  scan (suc n) now ss pos k =
      let at = wrap_pos (length ss) pos in
      elim (get_elem? ss at) [
        | none ↦ undefined
        | some s ↦ elim (check_slot now s k) [
          | returned s' k' ↦ scan n now (set ss at s') (at + 1) k'
          | exited k' ↦ exited k'
          | undefined ↦ undefined
        ]
      ]
