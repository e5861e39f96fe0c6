-- ===== src/Pool.antt =====
-- The C-style pool of src/threadpool.cpp and src/threadpool.h: `threadpool_create`,
-- `threadpool_add`, `threadpool_destroy`, `threadpool_free` and the body of `threadpool_thread`.
-- What the allocator and the pthread calls answer is passed in. A worker's or client's stretch
-- between locking and unlocking the mutex is one step.
pub mod Create
pub mod Fifo
pub mod Shut
mod Tests
use Prim.Native.Nat.{bit_and}
use high_performance_server.Prelude.{
  ℕ, zero, suc, ◌+◌, ◌-◌, ◌==◌, ltb, if◌then◌else◌, Bool, true, false, not, ◌&&◌, ◌||◌, Option,
  none, some, List, [], ◌∷◌,
}
use high_performance_server.Prelude.Int.{ℤ, between, pos, negsuc}
use high_performance_server.TaskQueue.{Task, Ring, add_task, grab_task}

-- THREADPOOL_INVALID up to THREADPOOL_THREAD_FAILURE, and 0.
pub data Code : Type 0 where
  success invalid lock_failure queue_full shut_down thread_failure : Code

-- `threadpool_shutdown_t`, and the 0 of a pool that runs.
pub data Shutdown : Type 0 where
  running immediate_shutdown graceful_shutdown : Shutdown

abbrev pub max_threads : ℕ
max_threads = 1024

abbrev pub max_queue : ℕ
max_queue = 65535

-- `threadpool_t`; `locked` says whether `lock` is held by a caller that has returned.
pub record Pool : Type 0 where
  pub queue : Ring
  pub thread_count_in_pool : ℕ
  pub shutdown : Shutdown
  pub active_thread_num : ℕ
  pub locked : Bool

-- What `malloc`, the initialisers and `pthread_create` answer: `true` for success.
pub record Startup : Type 0 where
  pub allocated : Bool
  pub initialised : Bool
  pub started : ℕ → Bool
  pub memory : ℕ → List Task

-- "Initialize"
abbrev pub initial : List Task → ℕ → Pool
initial slots queue_size = record {
  queue = record { slots = slots; size = queue_size; front = 0; rear = 0; count = 0 };
  thread_count_in_pool = 0;
  shutdown = running;
  active_thread_num = 0;
  locked = false;
}

-- "Start worker threads", `n` of them from index `i` on; `none` after a failure, which destroys
-- the pool.
unfoldable pub start_threads : (ℕ → Bool) → ℕ → ℕ → Pool → Option Pool
start_threads started zero i p = some p
start_threads started (suc n) i p = elim (started i) [
  | false ↦ none
  | true ↦ start_threads started n (i + 1) (record p {
    thread_count_in_pool = p.thread_count_in_pool + 1;
    active_thread_num = p.active_thread_num + 1;
  })
]

-- the sizes that pass the range tests
unfoldable pub create_checked : Startup → ℕ → ℕ → Option Pool
unfolding start_threads
create_checked env thread_num queue_size =
    if not env.allocated
    then none
    else if not env.initialised
    then none
    else start_threads env.started thread_num 0 (initial (env.memory queue_size) queue_size)

abbrev pub magnitude : ℤ → ℕ
magnitude (pos n) = n
magnitude (negsuc n) = suc n

unfoldable pub threadpool_create : Startup → ℤ → ℤ → Option Pool
threadpool_create env thread_num queue_size =
    if between 1 max_threads thread_num && between 1 max_queue queue_size
    then create_checked env (magnitude thread_num) (magnitude queue_size)
    else none

-- What the calls on the mutex and the condition variable answer: `true` for 0.
pub record Locking : Type 0 where
  pub lock : Bool
  pub signal : Bool
  pub unlock : Bool

abbrev pub is_running : Shutdown → Bool
is_running running = true
is_running _ = false

-- the body of `threadpool_add` under the lock
unfoldable pub add_locked : Locking → Task → Pool → Code × Pool
add_locked env t p =
    if p.queue.count == p.queue.size
    then (queue_full, p)
    else if not (is_running p.shutdown)
    then (shut_down, p)
    else (if env.signal then success else lock_failure, record p { queue = add_task t p.queue })

-- `pthread_mutex_unlock` and its error
abbrev pub unlock_after : Locking → Code × Pool → Code × Pool
unlock_after env (err, p) =
    if env.unlock
    then (err, record p { locked = false })
    else (lock_failure, record p { locked = true })

-- `pool` and `function` are pointers, `none` where they are null.
unfoldable pub threadpool_add : Locking → Option Pool → Option ℕ → ℕ → Code × Option Pool
threadpool_add env none function argument = (invalid, none)
threadpool_add env (some p) none argument = (invalid, some p)
threadpool_add env (some p) (some f) argument =
    if not env.lock
    then (lock_failure, some p)
    else let (err, p') =
        unlock_after env (add_locked env (record { function = f; argument = argument }) p) in
      (err, some p')

-- `threadpool_free`: whether it frees (and returns 0).
unfoldable pub threadpool_free : Pool → Bool
threadpool_free p = not (ltb 0 p.active_thread_num)

-- What the calls of `threadpool_destroy` answer, and what the workers make of the pool before they
-- are joined.
pub record Teardown : Type 0 where
  pub lock : Bool
  pub broadcast : Bool
  pub unlock : Bool
  pub joins : ℕ → Bool
  pub meanwhile : Pool → Pool

-- "Join all worker thread": the loop over the threads from index `i` on
unfoldable pub join_all : (ℕ → Bool) → ℕ → ℕ → Code → Code
join_all joins zero i err = err
join_all joins (suc n) i err = join_all joins n (i + 1) (if joins i then err else thread_failure)

-- THREADPOOL_GRACEFUL is bit 0 of the flags.
abbrev pub mode_of : ℕ → Shutdown
mode_of flags = if bit_and flags 1 == 0 then immediate_shutdown else graceful_shutdown

-- the end of `threadpool_destroy`; the pool is `none` once it is freed
unfoldable pub free_on_success : Code → Pool → Code × Option Pool
unfolding threadpool_free
free_on_success success p = (success, if threadpool_free p then none else some p)
free_on_success err p = (err, some p)

unfoldable pub threadpool_destroy : Teardown → Option Pool → ℕ → Code × Option Pool
unfolding free_on_success join_all
threadpool_destroy env none flags = (invalid, none)
threadpool_destroy env (some p) flags =
    if not env.lock
    then (lock_failure, some p)
    else if not (is_running p.shutdown)
    then (shut_down, some (record p { locked = true }))
    else if not env.broadcast || not env.unlock
    then (lock_failure, some (record p { shutdown = mode_of flags; locked = true }))
    else let p' = env.meanwhile (record p { shutdown = mode_of flags }) in
      free_on_success (join_all env.joins p'.thread_count_in_pool 0 success) p'

-- One round of `threadpool_thread` under the lock: it waits on `notify`, leaves the loop (and
-- counts itself out), or grabs a task and unlocks.
pub data Round : Type 0 where
  waits : Round
  leaves : Pool → Round
  grabs : Option Task → Pool → Round

-- the pool's mode and whether no task is pending
unfoldable pub decide_round : Shutdown → Bool → Pool → Round
decide_round running true p = waits
decide_round immediate_shutdown _ p =
    leaves (record p { active_thread_num = p.active_thread_num - 1 })
decide_round graceful_shutdown true p =
    leaves (record p { active_thread_num = p.active_thread_num - 1 })
decide_round _ _ p = let (t, q) = grab_task p.queue in grabs t (record p { queue = q })

unfoldable pub thread_round : Pool → Round
unfolding decide_round
thread_round p = decide_round p.shutdown (p.queue.count == 0) p
