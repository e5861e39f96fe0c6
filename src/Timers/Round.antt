-- ===== src/Timers/Round.antt =====
-- One round of the loop in `main`: all the events that `epoll_wait` reports, and the sweep.
use mathlib.Core.Option.{some-injective}
use high_performance_server.Prelude.{
  ℕ, Option, none, some, List, [], ◌∷◌, ◌++◌, Bytes, ◌≡◌, refl, sym, ap, ◌∙◌,
}
use high_performance_server.Timers.{
  Heap, Event, Arrival, handle_event, handle_events, handle_expired_event, handing, main_round,
}
use high_performance_server.Timers.Runs.{
  System, Action, event, sweeps, mark, with_heap, with_handed, act, run, IsOpen, AreAllowed,
  run-IsOpen,
}

-- the actions of a round
abbrev events_then : List (Event × Arrival) → List Action → List Action
events_then [] xs = xs
events_then ((e, env) ∷ es) xs = event e env ∷ events_then es xs

abbrev pub actions : Option (List (Event × Arrival)) → (ℕ → ℕ) → List Action
actions none clock = sweeps clock ∷ []
actions (some []) clock = []
actions (some (e ∷ es)) clock = events_then (e ∷ es) (sweeps clock ∷ [])

abbrev heap_of : Option System → Option Heap
heap_of none = none
heap_of (some s) = some s.heap

abbrev heap_behind : Option (List ℕ × Heap) → Option Heap
heap_behind none = none
heap_behind (some (handed, h)) = some h

abbrev sweep_behind : (ℕ → ℕ) → Option (List ℕ × Heap) → Option (List ℕ × Heap)
sweep_behind clock none = none
sweep_behind clock (some (handed, h)) = handing handed (handle_expired_event clock h)

abbrev more_handed : List ℕ → Option (List ℕ × Heap) → Option (List ℕ × Heap)
more_handed handed none = none
more_handed handed (some (more, h)) = some (handed ++ more, h)

heap_behind-handing : (handed : List ℕ) (o : Option Heap) → heap_behind (handing handed o) ≡ o
heap_behind-handing handed none = refl
heap_behind-handing handed (some h) = refl

heap_behind-sweep :
    (clock : ℕ → ℕ) (handed : List ℕ) (o : Option (List ℕ × Heap))
    → heap_behind (sweep_behind clock (more_handed handed o)) ≡ heap_behind (sweep_behind clock o)
heap_behind-sweep clock handed none = refl
heap_behind-sweep clock handed (some (more, h)) =
    heap_behind-handing (handed ++ more) (handle_expired_event clock h)
    ∙ sym (heap_behind-handing more (handle_expired_event clock h))

module _ (epoll_fd listen_fd : ℕ) (path : Bytes) (clock : ℕ → ℕ) where
  run-sweeps :
      (s : System)
      → heap_of (run epoll_fd listen_fd path (sweeps clock ∷ []) s)
        ≡ handle_expired_event clock s.heap
  unfolding run act
  run-sweeps s = swept (handle_expired_event clock s.heap)
    where
      swept :
          (o : Option Heap)
          → heap_of (elim (with_heap s.busy o) [ none ↦ none | some s' ↦ some s' ]) ≡ o
      swept none = refl
      swept (some h) = refl

  run-events :
      (es : List (Event × Arrival)) (s : System)
      → heap_of (run epoll_fd listen_fd path (events_then es (sweeps clock ∷ [])) s)
        ≡ heap_behind (sweep_behind clock (handle_events epoll_fd listen_fd path es s.heap))
  unfolding run act handle_events
  run-events [] s = run-sweeps s ∙ sym (heap_behind-handing [] (handle_expired_event clock s.heap))
  run-events ((e, env) ∷ es) s =
      taken (handle_event epoll_fd listen_fd path e env s.heap) (run-events es)
    where
      taken :
          (o : Option (List ℕ × Heap))
          → ((s : System)
              → heap_of (run epoll_fd listen_fd path (events_then es (sweeps clock ∷ [])) s)
                ≡ heap_behind
                    (sweep_behind clock (handle_events epoll_fd listen_fd path es s.heap)))
          → heap_of (elim (with_handed s.busy o) [
            | none ↦ none
            | some s' ↦ run epoll_fd listen_fd path (events_then es (sweeps clock ∷ [])) s'
          ])
            ≡ heap_behind (
                sweep_behind clock (elim o [
                  | none ↦ none
                  | some (handed, h') ↦ elim (handle_events epoll_fd listen_fd path es h') [
                    | none ↦ none
                    | some (more, h'') ↦ some (handed ++ more, h'')
                  ]
                ]))
      taken none ih = refl
      taken (some (handed, h')) ih =
          ih (record { heap = h'; busy = mark handed s.busy })
          ∙ sym (heap_behind-sweep clock handed (handle_events epoll_fd listen_fd path es h'))

  run-main_round :
      (polled : Option (List (Event × Arrival))) (s : System)
      → heap_of (run epoll_fd listen_fd path (actions polled clock) s)
        ≡ heap_behind (main_round epoll_fd listen_fd path polled clock s.heap)
  unfolding main_round run
  run-main_round none s = run-events [] s
  run-main_round (some []) s = refl
  run-main_round (some (e ∷ es)) s =
      run-events (e ∷ es) s ∙ swept (handle_events epoll_fd listen_fd path (e ∷ es) s.heap)
    where
      swept :
          (o : Option (List ℕ × Heap))
          → heap_behind (sweep_behind clock o)
            ≡ heap_behind (elim o [
              | none ↦ none
              | some (handed, h') ↦ handing handed (handle_expired_event clock h')
            ])
      swept none = refl
      swept (some (handed, h')) = refl

  ended :
      (o : Option (List ℕ × Heap)) {h : Heap}
      → some h ≡ heap_behind o
      → (handed : List ℕ) × (o ≡ some (handed, h))
  ended none e = cc
  ended (some (handed, h')) e = (handed, ap (λ x. some (handed, x)) (sym (some-injective _ _ e)))

  -- A round of the loop in `main`, from a system in which requests, timers and queue are in order
  -- and whose requests at the workers have no timer, with the events and the sweep allowed when
  -- their turn comes: the round uses and deletes nothing that is deleted, and its heap is that of
  -- the sequence of the events and the sweep, behind which the system is in order again.
  pub main_round-IsOpen :
      (polled : Option (List (Event × Arrival))) (s : System)
      → IsOpen s
      → AreAllowed epoll_fd listen_fd path (actions polled clock) s
      → (s' : System) × (handed : List ℕ) × (main_round epoll_fd listen_fd path polled clock s.heap
          ≡ some (handed, s'.heap))
        × (run epoll_fd listen_fd path (actions polled clock) s ≡ some s')
        × IsOpen s'
  main_round-IsOpen polled s w allowed =
      let (s', done, w') = run-IsOpen epoll_fd listen_fd path (actions polled clock) s w allowed in
      let (handed, e) =
        ended (main_round epoll_fd listen_fd path polled clock s.heap)
          (sym (ap heap_of done) ∙ run-main_round polled s) in
      (s', handed, e, done, w')
