-- ===== src/Timers/Runs.antt =====
-- Sequences of the event loop's rounds, sweeps, and the ends of the workers' calls.
use mathlib.Core.Path.{subst}
use high_performance_server.Prelude.{
  ℕ, ◌==◌, ◌||◌, not, Bool, true, false, Option, Option-cases, none, some, List, [], ◌∷◌, ◌≡◌, refl,
  ap, ◌∙◌, arith, Bool-cases, inl, inr, Bytes,
}
use high_performance_server.Request.{Request, get_fd}
use high_performance_server.Timers.{
  Heap, Arrival, Event, put, accept_connection, start_timer, rearm_request, handle_event,
  delete_request, handle_expired_event,
}
use high_performance_server.Timers.Owner.{delete_request-Detaches, separate_timer-Detaches}
use high_performance_server.Timers.Sweep.{sweep-Swept}
use high_performance_server.Timers.Loop.{
  IsSound, rearm_request-IsSound, accept_connection-IsSound, detached-IsSound,
}

-- the heap, and the requests that are queued in the thread pool or handled by a worker
pub record System : Type 0 where
  pub heap : Heap
  pub busy : ℕ → Bool

pub data Action : Type 0 where
  event : Event → Arrival → Action
  sweeps : (ℕ → ℕ) → Action
  rearms : ℕ → ℕ → ℕ → Action
  deletes : ℕ → Action

abbrev pub mark : List ℕ → (ℕ → Bool) → ℕ → Bool
mark [] busy = busy
mark (a ∷ l) busy = put (mark l busy) a true

abbrev pub with_heap : (ℕ → Bool) → Option Heap → Option System
with_heap busy none = none
with_heap busy (some h) = some (record { heap = h; busy = busy })

abbrev pub with_handed : (ℕ → Bool) → Option (List ℕ × Heap) → Option System
with_handed busy none = none
with_handed busy (some (handed, h)) = some (record { heap = h; busy = mark handed busy })

pub record IsOpen (s : System) : Type 0 where
  pub sound : IsSound s.heap
  pub idle :
      (b : ℕ) → s.busy b ≡ true → (r : Request) × (s.heap.requests b ≡ some r) × (r.timer ≡ none)

-- What the program's surroundings guarantee: an event is for a request that lives and, since its
-- socket is registered with EPOLLONESHOT, is not with a worker; new objects come at free addresses;
-- a worker ends a call only for a request that it has.
abbrev pub IsAllowed : Action → System → Type 0
IsAllowed (event e env) s =
    ((r : Request) × (s.heap.requests e.request ≡ some r))
    × (s.busy e.request ≡ false)
    × (s.heap.requests env.request ≡ none)
    × (s.heap.timers env.timer ≡ none)
IsAllowed (sweeps clock) s = Unit
IsAllowed (rearms now t a) s = (s.busy a ≡ true) × (s.heap.timers t ≡ none)
IsAllowed (deletes a) s = s.busy a ≡ true

-- a predicate of the system behind an action that can be taken
abbrev pub Behind : (System → Type 0) → Option System → Type 0
Behind P none = Unit
Behind P (some s) = P s

other_request :
    (now t a b : ℕ) (h h' : Heap)
    → rearm_request now t a h ≡ some h'
    → (b == a) ≡ false
    → h'.requests b ≡ h.requests b
unfolding rearm_request start_timer put
other_request now t a b h h' e n = elim (Option-cases (h.requests a)) [
  | inl gone ↦ ground arith
  | inr (r, here) ↦ ground arith
]

accepted_request :
    (epoll_fd : ℕ) (path : Bytes) (env : Arrival) (h : Heap) (b : ℕ) (r : Request)
    → h.requests env.request ≡ none
    → h.requests b ≡ some r
    → (accept_connection epoll_fd path env h).requests b ≡ some r
unfolding accept_connection start_timer put
accepted_request epoll_fd path env h b r e here = ground arith

module _ (epoll_fd listen_fd : ℕ) (path : Bytes) where
  unfoldable pub act : Action → System → Option System
  act (event e env) s = with_handed s.busy (handle_event epoll_fd listen_fd path e env s.heap)
  act (sweeps clock) s = with_heap s.busy (handle_expired_event clock s.heap)
  act (rearms now t a) s = with_heap (put s.busy a false) (rearm_request now t a s.heap)
  act (deletes a) s = with_heap (put s.busy a false) (delete_request a s.heap)

  abbrev pub Acts : Option System → Type 0
  Acts res = (s' : System) × (res ≡ some s') × IsOpen s'

  pub sweeps-Acts : (clock : ℕ → ℕ) (s : System) → IsOpen s → Acts (act (sweeps clock) s)
  unfolding act handle_expired_event
  sweeps-Acts clock s w =
      let (h', swept, owned, all, fresh, stays) =
        sweep-Swept clock 0 s.heap.queue s.heap w.sound.owned w.sound.queued in
      (
        record { heap = h'; busy = s.busy },
        ap (with_heap s.busy) swept,
        record {
          sound = record { owned = owned; queued = all };
          idle =
              λ b k. let (r, here, no_timer) = w.idle b k in (r, stays b r here no_timer, no_timer);
        },
      )

  pub rearms-Acts :
      (now t a : ℕ) (s : System)
      → IsOpen s
      → IsAllowed (rearms now t a) s
      → Acts (act (rearms now t a) s)
  unfolding act
  rearms-Acts now t a s w k =
      let (r, here, no_timer) = w.idle a k.0 in
      let (h', done, sound, there) =
        rearm_request-IsSound now t a s.heap r w.sound here no_timer k.1 in
      (
        record { heap = h'; busy = put s.busy a false },
        ap (with_heap _) done,
        record {
          sound = sound;
          idle = λ b j. elim (Bool-cases (b == a)) [
            | inl same ↦ unfold put in ground arith
            | inr other ↦
                let (q, there, idle) = w.idle b (unfold put in ground arith) in
                (q, other_request now t a b s.heap h' done other ∙ there, idle)
          ];
        },
      )

  pub deletes-Acts :
      (a : ℕ) (s : System) → IsOpen s → IsAllowed (deletes a) s → Acts (act (deletes a) s)
  unfolding act
  deletes-Acts a s w k =
      let (r, here, no_timer) = w.idle a k in
      let (h', done, d) = delete_request-Detaches s.heap a r w.sound.owned here in
      (
        record { heap = h'; busy = put s.busy a false },
        ap (with_heap _) done,
        record {
          sound = detached-IsSound s.heap h' a none w.sound d;
          idle = λ b j. elim (Bool-cases (b == a)) [
            | inl same ↦ unfold put in ground arith
            | inr other ↦
                let (q, there, idle) = w.idle b (unfold put in ground arith) in
                (q, ap (λ m. m b) d.requests ∙ unfold put in ground arith, idle)
          ];
        },
      )

  pub event-Acts :
      (e : Event) (env : Arrival) (s : System)
      → IsOpen s
      → IsAllowed (event e env) s
      → Acts (act (event e env) s)
  unfolding act handle_event
  event-Acts e env s w ((r, here), apart, free, free_timer) =
      elim (Bool-cases (get_fd r == listen_fd)) [
        | inl listening ↦ (
          record { heap = accept_connection epoll_fd path env s.heap; busy = s.busy },
          rw (here, listening, handle_event) refl,
          record {
            sound = accept_connection-IsSound epoll_fd path env s.heap w.sound free free_timer;
            idle = λ b k.
                let (q, there, no_timer) = w.idle b k in
                (q, accepted_request epoll_fd path env s.heap b q free there, no_timer);
          },
        )
        | inr client ↦ elim (Bool-cases (e.err || e.hup || not e.readable)) [
          | inl bad ↦
              let (h', done, d) = delete_request-Detaches s.heap e.request r w.sound.owned here in
              (
                record { heap = h'; busy = s.busy },
                rw (here, client, bad, handle_event, done) refl,
                record {
                  sound = detached-IsSound s.heap h' e.request none w.sound d;
                  idle = λ b k.
                      let (q, there, no_timer) = w.idle b k in
                      (q, ap (λ m. m b) d.requests ∙ unfold put in ground arith, no_timer);
                },
              )
          | inr good ↦
              let (h', done, d) = separate_timer-Detaches s.heap e.request r w.sound.owned here in
              (
                record { heap = h'; busy = put s.busy e.request true },
                rw (here, client, good, handle_event, done) refl,
                record {
                  sound =
                      detached-IsSound s.heap h' e.request (some (record r { timer = none }))
                        w.sound d;
                  idle = λ b k. elim (Bool-cases (b == e.request)) [
                    | inl same ↦ (
                      record r { timer = none },
                      ap (λ m. m b) d.requests ∙ unfold put in ground arith,
                      refl,
                    )
                    | inr other ↦
                        let (q, there, no_timer) = w.idle b (unfold put in ground arith) in
                        (q, ap (λ m. m b) d.requests ∙ unfold put in ground arith, no_timer)
                  ];
                },
              )
        ]
      ]

  pub act-Acts : (x : Action) (s : System) → IsOpen s → IsAllowed x s → Acts (act x s)
  act-Acts (event e env) s w k = event-Acts e env s w k
  act-Acts (sweeps clock) s w k = sweeps-Acts clock s w
  act-Acts (rearms now t a) s w k = rearms-Acts now t a s w k
  act-Acts (deletes a) s w k = deletes-Acts a s w k

  -- The actions one behind the other, and that each is allowed when its turn comes.
  unfoldable pub run : List Action → System → Option System
  unfolding act
  run [] s = some s
  run (x ∷ xs) s = elim (act x s) [ none ↦ none | some s' ↦ run xs s' ]

  abbrev pub AreAllowed : List Action → System → Type 0
  AreAllowed [] s = Unit
  AreAllowed (x ∷ xs) s = IsAllowed x s × Behind (AreAllowed xs) (act x s)

  -- In any sequence of allowed actions, events, sweeps and ends of the workers' calls in any
  -- order, no deleted request or timer is used or deleted again. Behind it requests and timers
  -- name each other, the queued timers live, and every request that is with the thread pool lives
  -- and has no timer.
  pub run-IsOpen :
      (xs : List Action) (s : System)
      → IsOpen s
      → AreAllowed xs s
      → (s' : System) × (run xs s ≡ some s') × IsOpen s'
  unfolding run
  run-IsOpen [] s w k = (s, refl, w)
  run-IsOpen (x ∷ xs) s w (k, ks) =
      let (s₁, done, w₁) = act-Acts x s w k in
      let (s₂, rest, w₂) = run-IsOpen xs s₁ w₁ (subst (Behind (AreAllowed xs)) done ks) in
      (s₂, rw (done, run) rest, w₂)
