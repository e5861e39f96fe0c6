-- ===== src/Pool/Shut.antt =====
-- The C-style pool while it shuts down.
use mathlib.Core.List.{append-nil}
use high_performance_server.Prelude.{
  ℕ, zero, suc, ◌+◌, ◌-◌, ◌<◌, true, some, List, [], ◌++◌, ◌≡◌, refl, sym, ap, ◌∙◌, arith,
  replicate,
}
use high_performance_server.TaskQueue.{grab_task, contents, collect, slot}
use high_performance_server.TaskQueue.Laws.{IsValid, contents-grab_task}
use high_performance_server.Pool.{
  thread_failure, shut_down, graceful_shutdown, Pool, Teardown, mode_of, threadpool_destroy, leaves,
  decide_round, thread_round,
}
use high_performance_server.Pool.Fifo.{Action, round, act, run, act-IsFifo, run-IsFifo}

-- A round on a pool that shuts down gracefully with `n` tasks more than one takes one of them.
drain_one :
    (p : Pool)
    → p.shutdown ≡ graceful_shutdown
    → IsValid p.queue
    → 0 < p.queue.count
    → ((act round p).2.queue.count + 1 ≡ p.queue.count)
      × ((act round p).2.shutdown ≡ graceful_shutdown)
      × ((act round p).0 ≡ [])
unfolding act thread_round decide_round grab_task
drain_one p s v l = let (t, taken, rest) = contents-grab_task v l in ground arith

drain :
    (n : ℕ) (p : Pool)
    → p.shutdown ≡ graceful_shutdown
    → IsValid p.queue
    → p.queue.count ≡ n
    → ((run (replicate n round) p).2.queue.count ≡ 0)
      × ((run (replicate n round) p).2.shutdown ≡ graceful_shutdown)
      × ((run (replicate n round) p).0 ≡ [])
unfolding run
drain zero p s v e = (e, s, refl)
drain (suc n) p s v e =
    let (less, still, none_added) = drain_one p s v (omega arith) in
    let (done, shut, none_later) =
      drain n (act round p).2 still (act-IsFifo round p v).0 (omega arith) in
    (done, shut, rw (none_added, none_later))

-- After a graceful shutdown the workers still grab every pending task, in the order in which the
-- tasks were added: as many rounds as tasks are pending empty the queue, and only then does a
-- worker's round leave the loop.
pub graceful_drain :
    (p : Pool)
    → p.shutdown ≡ graceful_shutdown
    → IsValid p.queue
    → let (more, grabbed, p') = run (replicate p.queue.count round) p in
      (grabbed ≡ contents p.queue)
      × (contents p'.queue ≡ [])
      × (thread_round p' ≡ leaves (record p' { active_thread_num = p'.active_thread_num - 1 }))
graceful_drain p s v = (sym all_grabbed, nothing_left, gone)
  where
    rounds : List Action
    rounds = replicate p.queue.count round

    p' : Pool
    p' = (run rounds p).2

    drained : (p'.queue.count ≡ 0) × (p'.shutdown ≡ graceful_shutdown) × ((run rounds p).0 ≡ [])
    drained = drain p.queue.count p s v refl

    nothing_left : contents p'.queue ≡ []
    nothing_left = ap (λ n. collect n (slot p'.queue)) drained.0

    all_grabbed : contents p.queue ≡ (run rounds p).1
    all_grabbed =
        sym (append-nil (contents p.queue))
        ∙ sym (ap (λ l. contents p.queue ++ l) drained.2)
        ∙ (run-IsFifo rounds p v).1
        ∙ ap (λ l. (run rounds p).1 ++ l) nothing_left
        ∙ append-nil ((run rounds p).1)

    gone : thread_round p' ≡ leaves (record p' { active_thread_num = p'.active_thread_num - 1 })
    gone = unfold thread_round decide_round in ground (arith, drained)

-- A pool whose threads could not all be joined stays, shut down, and every later call of
-- `threadpool_destroy` that gets the lock returns THREADPOOL_SHUTDOWN and still holds it. (What
-- the workers do meanwhile does not take back the shutdown.)
pub threadpool_destroy_twice :
    (first second : Teardown) (p : Pool) (flags again : ℕ) {p' : Pool}
    → ((q : Pool) → (first.meanwhile q).shutdown ≡ q.shutdown)
    → threadpool_destroy first (some p) flags ≡ (thread_failure, some p')
    → second.lock ≡ true
    → threadpool_destroy second (some p') again ≡ (shut_down, some (record p' { locked = true }))
unfolding threadpool_destroy
threadpool_destroy_twice first second p flags again {p'} keep h l =
    ground (arith, keep (record p { shutdown = mode_of flags }))
