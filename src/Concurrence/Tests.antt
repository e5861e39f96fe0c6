-- ===== src/Concurrence/Tests.antt =====
-- A network of two clients without interruptions, and children.
use high_performance_server.Prelude.{
  ℕ, zero, suc, ◌+◌, ◌==◌, ◌≤◌, ◌<◌, true, false, none, some, List, [], ◌∷◌, ◌++◌, Bytes, codes,
  length, length-take, take, drop, take-append-drop, ◌≡◌, refl, sym, ap, ◌∙◌, ◌⊎◌, arith,
}
use high_performance_server.Util.{ReadResult, WriteResult}
use high_performance_server.Wrap.{accepted}
use high_performance_server.Timers.{put}
use high_performance_server.Concurrence.{
  Kernel, Event, Served, serve_events, upper, Ended, serve_child, Waited, reaped, none_ended,
  no_child, wait_child, Worked, do_work,
}
use high_performance_server.Concurrence.Network.{Same, IsNetwork}
use high_performance_server.Concurrence.Streams.{Answers}
use high_performance_server.Concurrence.Capitals.{serve_events_lem}
use high_performance_server.Concurrence.Child.{Passed, last_state, serve_child_lem}
use high_performance_server.Concurrence.Reaped.{IsWaiting, wait_child_lem}
use high_performance_server.Concurrence.Worker.{Sent128, do_work_lem}

pub record Wire : Type 0 where
  pub inbox : ℕ → Bytes
  pub outbox : ℕ → Bytes

abbrev wire_read : ℕ → ℕ → Wire → ReadResult × Wire
wire_read fd n s = (
  ReadResult.got (take n (s.inbox fd)),
  record s { inbox = put s.inbox fd (drop n (s.inbox fd)) },
)

abbrev wire_write : ℕ → Bytes → Wire → WriteResult × Wire
wire_write fd b s =
    (WriteResult.took (length b), record s { outbox = put s.outbox fd (s.outbox fd ++ b) })

abbrev wires : Kernel Wire
wires = record {
  read = wire_read;
  write = wire_write;
  accept = λ s. (accepted 6, s);
  register = λ fd s. (some 0, s);
  unregister = λ fd s. (some 0, s);
  close = λ fd s. (some 0, s);
}

abbrev inbox_of : ℕ → Wire → Bytes
inbox_of g s = s.inbox g

abbrev outbox_of : ℕ → Wire → Bytes
outbox_of g s = s.outbox g

abbrev calm : Wire → ℕ
calm s = 0

same_wire : (s : Wire) → Same wires inbox_of outbox_of calm s s
same_wire s = record { pending_same = λ g. refl; sent_same = λ g. refl; measure_le = omega arith }

taken : (xs ys : Bytes) → ReadResult.got xs ≡ ReadResult.got ys → xs ≡ ys
taken xs ys e = cc

put_self : (m : ℕ → Bytes) (a : ℕ) (v : Bytes) → put m a v a ≡ v
unfolding put
put_self m a v = ground arith

put_other : (m : ℕ → Bytes) (a b : ℕ) (v : Bytes) → (b == a) ≡ false → put m a v b ≡ m b
unfolding put
put_other m a b v e = ground arith

nothing_taken : (n : ℕ) (xs : Bytes) → take (suc n) xs ≡ [] → xs ≡ []
nothing_taken n [] e = refl
nothing_taken n (x ∷ xs) e = absurd (cc)

unchanged :
    (s : Wire) (fd : ℕ) (v : Bytes)
    → v ≡ s.inbox fd
    → Same wires inbox_of outbox_of calm s (record s { inbox = put s.inbox fd v })
unfolding put
unchanged s fd v e = record {
  pending_same = λ g. ground (arith, e);
  sent_same = λ g. refl;
  measure_le = omega arith;
}

wires-IsNetwork : IsNetwork wires inbox_of outbox_of calm
wires-IsNetwork = record {
  got = λ fd n s b bs e. record {
    front =
        sym (take-append-drop (suc n) (s.inbox fd))
        ∙ ap (λ xs. xs ++ drop (suc n) (s.inbox fd)) (taken _ _ e)
        ∙ ap (λ xs. b ∷ bs ++ xs) (sym (put_self s.inbox fd (drop (suc n) (s.inbox fd))));
    others = λ g o. put_other s.inbox fd g _ o;
    sent_same = λ g. refl;
    measure_le = omega arith;
  };
  ended = λ fd n s e.
      let empty = nothing_taken n (s.inbox fd) (taken _ _ e) in
      (empty, unchanged s fd (drop (suc n) (s.inbox fd)) (rw (empty) refl));
  read_blocked = λ fd n s e. absurd (cc);
  read_failed = λ fd n s e. absurd (cc);
  read_interrupted = λ fd n s e. absurd (cc);
  took = λ fd n b s e. record {
    sent_more = put_self s.outbox fd (s.outbox fd ++ b);
    others = λ g o. put_other s.outbox fd g _ o;
    pending_same = λ g. refl;
    measure_le = omega arith;
  };
  write_interrupted = λ fd b s e. absurd (cc);
  write_blocks = λ fd b s e. absurd (cc);
  write_breaks = λ fd b s e. absurd (cc);
  accept_done = same_wire;
  accept_aborted = λ s e. absurd (cc);
  accept_interrupted = λ s e. absurd (cc);
  registered = λ fd s. same_wire s;
  unregistered = λ fd s. same_wire s;
  closed = λ fd s. same_wire s;
}

-- client 6 has sent `ab`, client 7 `x`
abbrev two_clients : Wire
two_clients = record { inbox = put (put (λ g. []) 6 (codes "ab")) 7 (codes "x"); outbox = λ g. [] }

abbrev some_events : List Event
some_events =
    record { fd = 3; readable = true }
    ∷ record { fd = 6; readable = true }
    ∷ record { fd = 7; readable = false }
    ∷ record { fd = 6; readable = true }
    ∷ []

serve_events_lem_example :
    (out : Served Wire) × (serve_events wires 1 3 some_events two_clients ≡ some out)
    × Answers inbox_of outbox_of calm wires 6 some_events two_clients out
serve_events_lem_example =
    serve_events_lem inbox_of outbox_of calm wires wires-IsNetwork 1 3 6 refl some_events
      two_clients (omega arith)

two_unread : calm two_clients + length (inbox_of 6 two_clients) < 9
unfolding put
two_unread = omega arith

serve_child_lem_example :
    (out : Ended Wire) × (serve_child wires 6 9 two_clients ≡ some out)
    × Passed inbox_of outbox_of calm wires wires-IsNetwork 6 6 upper two_clients
        (last_state inbox_of outbox_of calm wires wires-IsNetwork out)
serve_child_lem_example =
    serve_child_lem inbox_of outbox_of calm wires wires-IsNetwork 6 9 two_clients
      (λ b t e. absurd (cc)) two_unread

abbrev zeros : ℕ → Bytes
zeros zero = []
zeros (suc n) = 0 ∷ zeros n

length-zeros : (n : ℕ) → length (zeros n) ≡ n
length-zeros zero = refl
length-zeros (suc n) = omega (arith, length-zeros n)

reads_short : (t : Wire) (b : Bytes) → (wire_read 6 128 t).0 ≡ ReadResult.got b → length b ≤ 128
reads_short t b e =
    let same : take 128 (t.inbox 6) ≡ b = taken _ _ e in
    rw (sym same) (omega (arith, length-take 128 (t.inbox 6)))

do_work_lem_example :
    (out : Worked Wire) × (do_work wires 6 1 2 (zeros 128) two_clients ≡ some out)
    × Sent128 inbox_of outbox_of calm wires wires-IsNetwork 6 1 2 (zeros 128) two_clients out
do_work_lem_example =
    do_work_lem inbox_of outbox_of calm wires wires-IsNetwork 6 1 reads_short 2 (zeros 128)
      two_clients (length-zeros 128) (omega arith)

-- `waitpid` on the numbers of the children that have ended and of those that run
abbrev children : ℕ × ℕ → Waited × (ℕ × ℕ)
children (suc n, m) = (reaped, (n, m))
children (zero, suc m) = (none_ended, (zero, suc m))
children (zero, zero) = (no_child, (zero, zero))

abbrev ended_of : ℕ × ℕ → ℕ
ended_of s = s.0

abbrev running_of : ℕ × ℕ → ℕ
running_of s = s.1

children-IsWaiting : IsWaiting children ended_of running_of
children-IsWaiting = record { takes = takes; waits = waits; lacks = lacks }
  where
    takes :
        (s : ℕ × ℕ) (n : ℕ)
        → s.0 ≡ suc n
        → ((children s).0 ≡ reaped) × ((children s).1.0 ≡ n) × ((children s).1.1 ≡ s.1)
    takes (zero, m) n e = absurd (omega (arith, e))
    takes (suc k, m) n e = (refl, omega (arith, e), refl)

    waits : (s : ℕ × ℕ) (n : ℕ) → s.0 ≡ 0 → s.1 ≡ suc n → (children s).0 ≡ none_ended
    waits (suc k, m) n e r = absurd (omega (arith, e))
    waits (zero, zero) n e r = absurd (omega (arith, r))
    waits (zero, suc m) n e r = refl

    lacks :
        (s : ℕ × ℕ)
        → s.0 ≡ 0
        → s.1 ≡ 0
        → ((children s).0 ≡ no_child) × ((children s).1.0 ≡ 0) × ((children s).1.1 ≡ 0)
    lacks (suc k, m) e r = absurd (omega (arith, e))
    lacks (zero, suc m) e r = absurd (omega (arith, r))
    lacks (zero, zero) e r = (refl, refl, refl)

wait_child_lem_example :
    ((0 < running_of (2, 0)) × (s' : ℕ × ℕ) × (wait_child children 3 (2, 0) ≡ some s'))
    ⊎ ((running_of (2, 0) ≡ 0) × ((fuel' : ℕ) → wait_child children fuel' (2, 0) ≡ none))
wait_child_lem_example =
    wait_child_lem children ended_of running_of (2, 0) 3 children-IsWaiting (omega arith)
