-- ===== src/Timers/Loop.antt =====
-- New connections and the end of `handleRequest` keep requests, timers and queue in order.
use high_performance_server.Prelude.{
  ℕ, ◌==◌, leb, true, false, Option, Option-cases, none, some, List, [], ◌∷◌, ◌≡◌, refl, ◌∙◌, arith,
  Bool-cases, inl, inr, Avoids, Bytes,
}
use high_performance_server.Request.{Request, create, add_timer}
use high_performance_server.Timers.{
  Timer, Heap, Arrival, put, push, expiry, start_timer, accept_connection, rearm_request,
}
use high_performance_server.Timers.Owner.{IsOwned, naming, is_live, IsDetached}
use high_performance_server.Timers.Sweep.{AreQueued, AreQueued-move}

-- the invariant between the rounds
pub record IsSound (h : Heap) : Type 0 where
  pub owned : IsOwned h
  pub queued : AreQueued h h.queue

-- A dead timer is in no queue of living ones, and `push` puts it in.
dead-Avoids : (h : Heap) (t : ℕ) (ts : List ℕ) → h.timers t ≡ none → AreQueued h ts → Avoids t ts
dead-Avoids h t [] e q = tt
dead-Avoids h t (u ∷ us) e q = (ground arith, dead-Avoids h t us e q.2)

push-Avoids :
    (timers : ℕ → Option Timer) (t u : ℕ) (ts : List ℕ)
    → (t == u) ≡ false
    → Avoids u ts
    → Avoids u (push timers t ts)
unfolding push
push-Avoids timers t u [] n a = (n, tt)
push-Avoids timers t u (v ∷ vs) n a = elim (Bool-cases (leb (expiry timers v) (expiry timers t))) [
  | inl earlier ↦ ground (arith, push-Avoids timers t u vs n a.1)
  | inr later ↦ ground arith
]

push-AreQueued :
    (h : Heap) (t : ℕ) (ts : List ℕ)
    → is_live (h.timers t) ≡ true
    → Avoids t ts
    → AreQueued h ts
    → AreQueued h (push h.timers t ts)
unfolding push
push-AreQueued h t [] live out q = (live, tt, tt)
push-AreQueued h t (u ∷ us) live out q =
    elim (Bool-cases (leb (expiry h.timers u) (expiry h.timers t))) [
      | inl earlier ↦ rw earlier (
        q.0,
        push-Avoids h.timers t u us (ground arith) q.1,
        push-AreQueued h t us live out.1 q.2,
      )
      | inr later ↦ rw later (live, out, q)
    ]

-- A request without a timer, or a new one, gets a new timer.
start_timer-IsOwned :
    (h : Heap) (a t now : ℕ) (r : Request)
    → IsOwned h
    → naming (h.requests a) ≡ none
    → h.timers t ≡ none
    → r.timer ≡ some t
    → IsOwned (start_timer now t a (record h { requests = put h.requests a (some r) }))
unfolding start_timer put
start_timer-IsOwned h a t now r w e n m = record {
  forth = λ b u k. elim (Bool-cases (b == a)) [
    | inl same ↦ ground arith
    | inr other ↦ ground (arith, w.forth b u)
  ];
  back = λ b u k. elim (Bool-cases (u == t)) [
    | inl same ↦ ground arith
    | inr other ↦ elim (Bool-cases (b == a)) [
      | inl same ↦ ground (arith, w.back b u)
      | inr apart ↦ ground (arith, w.back b u)
    ]
  ];
}

start_timer-IsSound :
    (h : Heap) (a t now : ℕ) (r : Request)
    → IsSound h
    → naming (h.requests a) ≡ none
    → h.timers t ≡ none
    → r.timer ≡ some t
    → IsSound (start_timer now t a (record h { requests = put h.requests a (some r) }))
start_timer-IsSound h a t now r w e n m = record {
  owned = start_timer-IsOwned h a t now r w.owned e n m;
  queued =
      let out = dead-Avoids h t h.queue n w.queued in
      let h₁ = start_timer now t a (record h { requests = put h.requests a (some r) }) in
      let old =
        AreQueued-move h h₁ t h.queue (λ u apart. unfold start_timer put in ground arith) out
          w.queued in
      unfold start_timer put in
      push-AreQueued h₁ t h.queue (unfold start_timer put in ground arith) out old;
}

-- A request that a worker gives back to the loop was alive and had no timer, and the new timer's
-- address is free: nothing dead is used, requests and timers name each other, the queued timers
-- live, and the request has the new timer.
pub rearm_request-IsSound :
    (now t a : ℕ) (h : Heap) (r : Request)
    → IsSound h
    → h.requests a ≡ some r
    → r.timer ≡ none
    → h.timers t ≡ none
    → (h' : Heap) × (rearm_request now t a h ≡ some h')
      × IsSound h'
      × (h'.requests a ≡ some (record r { timer = some t }))
unfolding rearm_request
rearm_request-IsSound now t a h r w e idle n =
    let r' = record r { timer = some t } in
    (
      start_timer now t a (record h { requests = put h.requests a (some r') }),
      rw (e, rearm_request) refl,
      start_timer-IsSound h a t now r' w (rw e idle) n refl,
      unfold start_timer put in ground arith,
    )

pub accept_connection-IsSound :
    (epoll_fd : ℕ) (path : Bytes) (env : Arrival) (h : Heap)
    → IsSound h
    → h.requests env.request ≡ none
    → h.timers env.timer ≡ none
    → IsSound (accept_connection epoll_fd path env h)
unfolding accept_connection
accept_connection-IsSound epoll_fd path env h w e n = elim (Option-cases env.accept_fd) [
  | inl refused ↦ rw (refused, accept_connection) w
  | inr (fd, k) ↦ elim (Bool-cases env.non_blocking) [
    | inr blocking ↦ rw (k, blocking, accept_connection) w
    | inl ok ↦
        rw (k, ok, accept_connection)
          (start_timer-IsSound h env.request env.timer env.now
            (add_timer env.timer (create epoll_fd fd path)) w (rw e refl) n
            (unfold add_timer create in refl))
  ]
]

pub detached-IsSound :
    (h h' : Heap) (a : ℕ) (o : Option Request) → IsSound h → IsDetached h a o h' → IsSound h'
detached-IsSound h h' a o w d = record {
  owned = d.owned;
  queued = rw d.queue (moved h.queue w.queued);
}
  where
    moved : (ts : List ℕ) → AreQueued h ts → AreQueued h' ts
    moved [] q = tt
    moved (u ∷ us) q = (d.live u ∙ q.0, q.1, moved us q.2)
