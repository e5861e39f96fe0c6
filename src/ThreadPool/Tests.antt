-- ===== src/ThreadPool/Tests.antt =====
-- The class `ThreadPool` on concrete calls, and the theorems there.
use high_performance_server.Prelude.{
  ℕ, zero, suc, ◌+◌, ◌<◌, List, [], ◌∷◌, none, some, true, false, ◌≡◌, refl, arith,
}
use high_performance_server.TaskQueue.{Task, no_task, add_task, grab_task}
use high_performance_server.ThreadPool.{
  running, ThreadPool, must_wait, finish_add, takes, thread_round,
}
use high_performance_server.ThreadPool.Steps.{
  System, call, block, wake, take, Run, done, more, Inv, Run-IsFifo, IsFifo,
}
use high_performance_server.ThreadPool.Overrun.{overrun, spurious_wakeup}
use high_performance_server.ThreadPool.Shut.{about_to_wait, asleep, step, step_at, steps, destruct}
use high_performance_server.ThreadPool.Shut.Lost.{is_among, none_about, destruct_lem}

abbrev task : ℕ → Task
task n = record { function = 1; argument = n }

-- a pool with room for one task
abbrev pool_of : List Task → ℕ → ThreadPool
pool_of slots count = record {
  queue = record { slots = slots; size = 1; front = 0; rear = 0; count = count };
  thread_count = 1;
  active_thread_count = 1;
  status = running;
}

abbrev empty_pool : ThreadPool
empty_pool = pool_of (no_task ∷ []) 0

abbrev full_pool : ThreadPool
full_pool = pool_of (task 7 ∷ []) 1

abbrev at_start : System
at_start = record { pool = empty_pool; blocked = none; notified = false }

at_start-Inv : Inv at_start
at_start-Inv = record { valid = omega arith; spare = λ t b n. cc }

abbrev at_end : System
at_end = record { pool = pool_of (task 8 ∷ []) 1; blocked = none; notified = false }

-- One task is added, the next waits, a worker takes the first, and the wait ends.
script : Run at_start (task 7 ∷ task 8 ∷ []) (task 7 ∷ []) at_end
unfolding must_wait finish_add thread_round add_task grab_task
script = more (call (task 7) refl refl) (
    more (block (task 8) refl refl)
      (more (take (task 7) (pool_of (task 7 ∷ []) 0) refl) (more (wake (task 8) refl) done)))

Run-IsFifo_example : IsFifo at_start (task 7 ∷ task 8 ∷ []) (task 7 ∷ []) at_end
unfolding script
Run-IsFifo_example = Run-IsFifo at_start-Inv script (tt, (tt, (tt, (refl, tt))))

taken : thread_round full_pool ≡ takes (some (task 7)) (pool_of (task 7 ∷ []) 0)
unfolding thread_round grab_task
taken = refl

waiting : must_wait full_pool ≡ true
unfolding must_wait
waiting = refl

-- with a full queue, and no worker that takes a task
spurious_wakeup_example :
    (p' : ThreadPool) × Run
      (record { pool = full_pool; blocked = none; notified = false })
      (task 8 ∷ [])
      []
      (record { pool = p'; blocked = none; notified = false })
    × (p'.queue.count ≡ p'.queue.size + 1)
    × ((grab_task p'.queue).0 ≡ some (task 8))
spurious_wakeup_example = spurious_wakeup full_pool (task 8) (omega arith) waiting

overrun_example :
    let p'' = finish_add (task 8) (finish_add (task 9) (pool_of (task 7 ∷ []) 0)) in
    (must_wait (pool_of (task 7 ∷ []) 0) ≡ false)
    × (p''.queue.count ≡ p''.queue.size + 1)
    × ((grab_task p''.queue).0 ≡ some (task 8))
overrun_example =
    overrun full_pool (pool_of (task 7 ∷ []) 0) (some (task 7)) (task 8) (task 9) (omega arith)
      waiting taken

every : (i : ℕ) → i < 2 → is_among i (1 ∷ 0 ∷ 1 ∷ []) ≡ true
unfolding is_among
every zero h = refl
every (suc zero) h = refl
every (suc (suc i)) h = absurd (omega arith)

-- One worker sleeps already; the other has tested and does not get to its wait in time.
destruct_lem_example :
    destruct empty_pool (0 ∷ []) (1 ∷ 0 ∷ 1 ∷ []) (asleep ∷ about_to_wait ∷ [])
    ≡ none_about (asleep ∷ about_to_wait ∷ [])
unfolding steps step_at step
destruct_lem_example =
    destruct_lem empty_pool (0 ∷ []) (1 ∷ 0 ∷ 1 ∷ []) (asleep ∷ about_to_wait ∷ []) every

destruct_hangs : destruct empty_pool (0 ∷ []) (1 ∷ 0 ∷ 1 ∷ []) (asleep ∷ about_to_wait ∷ []) ≡ false
unfolding none_about steps step_at step
destruct_hangs =
    destruct_lem empty_pool (0 ∷ []) (1 ∷ 0 ∷ 1 ∷ []) (asleep ∷ about_to_wait ∷ []) every
