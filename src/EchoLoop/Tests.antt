-- ===== src/EchoLoop/Tests.antt =====
-- The echo server with two entries, on a kernel that keeps the open and the watched descriptors.
use mathlib.Core.Path.{subst}
use high_performance_server.Prelude.{
  List, ℕ, ◌==◌, Bool, true, false, not, Option, none, some, [], ◌∷◌, Bytes, codes, length, ◌≡◌,
  refl, ap, arith,
}
use high_performance_server.EchoLoop.{
  Kernel, Slot, receives, no_call, no_events, epoll_in, arrived, Control, add, modify, remove,
  Table, exited, scan,
}
use high_performance_server.EchoLoop.Loop.{Sockets, Round, echo_main}
use high_performance_server.EchoLoop.Ready.{Has, IsRunning}
use high_performance_server.EchoLoop.Running.{echo_main-IsRunning}
use high_performance_server.EchoLoop.Scan.{Forgets, scan_exits}

-- what the kernel remembers: the bytes sent, and the last descriptor closed
record Wire : Type 0 where
  sent : Bytes
  closed : Option ℕ

abbrev is_closed : Option ℕ → ℕ → Bool
is_closed none fd = false
is_closed (some c) fd = c == fd

abbrev control : Control → Option ℕ → Bool
control (add fd _) closed = not (is_closed closed fd)
control (modify fd _) closed = not (is_closed closed fd)
control (remove fd) closed = not (is_closed closed fd)

abbrev kernel : Kernel Wire
kernel = record {
  epoll_ctl = λ c w. (control c w.closed, w);
  close = λ fd w. (true, record w { closed = some fd });
  recv = λ fd n w. (arrived (codes "ping"), w);
  send = λ fd bytes w. (some (length bytes), record w { sent = bytes });
  accept = λ fd w. (some 9, w);
  set_non_blocking = λ fd w. w;
}

abbrev quiet : Wire
quiet = record { sent = []; closed = none }

abbrev client : Slot
client = record {
  fd = 7;
  events = epoll_in;
  in_tree = true;
  buf = [];
  buf_len = 0;
  last_active = 100;
  call_back = receives;
  self = 0;
}

abbrev empty_slot : Slot
empty_slot = record client { fd = 0; events = no_events; in_tree = false; call_back = no_call }

abbrev table : Table
table = record { clients = client ∷ empty_slot ∷ []; listener = record client { fd = 5 } }

kernel-Forgets : Forgets kernel
kernel-Forgets = record {
  closed = λ fd k k' e.
      subst (λ o. not (is_closed o fd) ≡ false) (ap (λ (p : Bool × Wire). p.1.closed) e)
        (ground arith);
}

scan_exits_example : (k' : Wire) × (scan kernel 2 160 table.clients 1 quiet ≡ exited k')
scan_exits_example =
    scan_exits kernel 160 table.clients 1 0 client quiet kernel-Forgets (omega arith) refl refl

-- every call of the start works; the listening socket is 5
abbrev sockets : Sockets Wire
sockets = record {
  epoll_create = λ n w. (some 3, w);
  socket = λ w. (some 5, w);
  set_non_blocking = λ fd w. w;
  set_reuse = λ fd w. w;
  bind = λ fd port w. (some 0, w);
  listen = λ fd n w. (some 0, w);
}

-- a client connects, sends bytes, and can be sent bytes; then the scan passes
abbrev two_rounds : List Round
two_rounds =
    record {
      time = 100;
      touched =
          record { place = none; readable = true; writable = false; at = 100 }
          ∷ record { place = some 0; readable = true; writable = true; at = 101 }
          ∷ [];
    }
    ∷ record { time = 120; touched = [] }
    ∷ []

echo_main-IsRunning_example :
    Has kernel (IsRunning 2) (echo_main sockets kernel 2 90 two_rounds quiet)
echo_main-IsRunning_example =
    echo_main-IsRunning kernel 2 (omega arith) sockets 90 two_rounds quiet
      ((tt, (omega arith, tt)), (tt, tt))
