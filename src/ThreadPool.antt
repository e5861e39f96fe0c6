-- ===== src/ThreadPool.antt =====
-- The class `ThreadPool` of src/threadpool.cpp and src/threadpool.h. A stretch under `lock` is one
-- step; a wait on a condition variable ends the stretch and begins another one.
pub mod Create
pub mod Steps
pub mod Overrun
pub mod Shut
mod Tests
use high_performance_server.Prelude.{
  ℕ, zero, suc, ◌+◌, ◌-◌, ◌%◌, ◌^◌, ◌==◌, ltb, if◌then◌else◌, Bool, true, false, not, ◌&&◌, ◌||◌,
  Option, none, some, List, [], ◌∷◌, replicate,
}
use high_performance_server.TaskQueue.{Task, no_task, Ring, add_task, grab_task}

-- RUNNING and SHUTDOWN
pub data Status : Type 0 where
  running shutdown : Status

abbrev pub max_threads : ℕ
max_threads = 1024

abbrev pub max_queue : ℕ
max_queue = 65535

-- The members but for the locks; the queue's size is `queue_size`, its count `waiting_task_num`.
pub record ThreadPool : Type 0 where
  pub queue : Ring
  pub thread_count : ℕ
  pub active_thread_count : ℕ
  pub status : Status

-- `std::min((int) n, limit)`, stored in an unsigned member of `width` bits: a value from 2^31 on
-- is negative as an `int`, and wraps round in the member.
unfoldable pub clamp : ℕ → ℕ → ℕ → ℕ
clamp width limit n =
    if ltb n (2 ^ 31) then if ltb limit n then limit else n else 2 ^ width - (2 ^ 32 - n)

-- The loop that starts the threads, `n` of them from index `i` on; the flag is false for -1.
unfoldable pub start_threads : (ℕ → Bool) → ℕ → ℕ → ThreadPool → Bool × ThreadPool
start_threads started zero i p = (true, p)
start_threads started (suc n) i p = elim (started i) [
  | false ↦ (false, p)
  | true ↦ start_threads started n (i + 1) (record p {
    thread_count = p.thread_count + 1;
    active_thread_count = p.active_thread_count + 1;
  })
]

-- The running pool with its array, before a thread is started. The array has `queue_capacity`
-- slots, which is the capacity before the clamp.
unfoldable pub made : ℕ → ThreadPool
made queue_capacity = record {
  queue = record {
    slots = replicate queue_capacity no_task;
    size = clamp 64 max_queue queue_capacity;
    front = 0;
    rear = 0;
    count = 0;
  };
  thread_count = 0;
  active_thread_count = 0;
  status = running;
}

-- `create` behind the default
unfoldable pub create_sized : (ℕ → Bool) → ℕ → ℕ → Bool × ThreadPool
create_sized started thread_num queue_capacity =
    start_threads started (clamp 32 max_threads thread_num) 0 (made queue_capacity)

-- `ThreadPool::create` on an object as its constructor leaves it
unfoldable pub create : (ℕ → Bool) → ℕ → ℕ → Bool × ThreadPool
create started thread_num queue_capacity =
    if thread_num == 0 || queue_capacity == 0
    then create_sized started 3 3
    else create_sized started thread_num queue_capacity

abbrev pub is_running : Status → Bool
is_running running = true
is_running shutdown = false

-- The test before the wait of `add`: whether the caller waits on `queue_has_spare`.
unfoldable pub must_wait : ThreadPool → Bool
must_wait p = is_running p.status && p.queue.size == p.queue.count

-- The rest of `add`, at once or when the wait is over: nothing is tested again but the status.
unfoldable pub finish_add : Task → ThreadPool → ThreadPool
finish_add t p = if is_running p.status then record p { queue = add_task t p.queue } else p

-- One round of `do_thread` under `lock`: it waits on `queue_has_task`, exits, or takes a task and
-- notifies `queue_has_spare`.
pub data Round : Type 0 where
  waits exits : Round
  takes : Option Task → ThreadPool → Round

unfoldable pub thread_round : ThreadPool → Round
thread_round p =
    if is_running p.status && p.queue.count == 0
    then waits
    else if not (is_running p.status)
    then exits
    else let (t, q) = grab_task p.queue in takes t (record p { queue = q })

-- The two stretches under `active_thread_count_lock`, before and behind the task's call.
unfoldable pub begin_task : ThreadPool → ThreadPool
begin_task p = record p { active_thread_count = p.active_thread_count + 1 }

unfoldable pub end_task : ThreadPool → ThreadPool
end_task p = record p { active_thread_count = p.active_thread_count - 1 }

-- the first statement of `~ThreadPool`
unfoldable pub shut : ThreadPool → ThreadPool
shut p = record p { status = shutdown }
