-- ===== src/ThreadPool/Create.antt =====
-- What `ThreadPool::create` makes of the sizes asked for.
use high_performance_server.Prelude.{
  ℕ, zero, suc, ◌+◌, ◌≤◌, ◌<◌, ◌^◌, ◌==◌, Bool, true, false, ◌||◌, [], length, length-replicate,
  ◌≡◌, arith,
}
use high_performance_server.TaskQueue.{no_task, contents}
use high_performance_server.TaskQueue.Laws.{IsValid}
use high_performance_server.ThreadPool.{
  running, max_threads, max_queue, ThreadPool, clamp, made, start_threads, create_sized, create,
}

-- the started threads are counted, and nothing else changes
start_threads_counts :
    (started : ℕ → Bool) (n i : ℕ) (p : ThreadPool)
    → let p' = (start_threads started n i p).1 in
      (p'.queue ≡ p.queue)
      × (p'.status ≡ p.status)
      × (p.thread_count ≤ p'.thread_count)
      × (p'.thread_count ≤ p.thread_count + n)
      × (p'.active_thread_count + p.thread_count ≡ p'.thread_count + p.active_thread_count)
      × ((start_threads started n i p).0 ≡ true → p'.thread_count ≡ p.thread_count + n)
unfolding start_threads
start_threads_counts started zero i p = ground arith
start_threads_counts started (suc n) i p = ground (
  arith,
  start_threads_counts started n (i + 1) (record p {
    thread_count = p.thread_count + 1;
    active_thread_count = p.active_thread_count + 1;
  }),
)

-- What `create` promises of its result.
abbrev pub IsCreated : Bool × ThreadPool → Type 0
IsCreated (done, p) =
    IsValid p.queue
    × (contents p.queue ≡ [])
    × (p.queue.size ≤ max_queue)
    × (p.status ≡ running)
    × (p.thread_count ≤ max_threads)
    × (p.active_thread_count ≡ p.thread_count)
    × (done ≡ true → 0 < p.thread_count)

-- From 2^31 on the capacity is negative as an `int`: the size that indices are taken modulo is
-- then larger than the array.
pub create_huge :
    (started : ℕ → Bool) (thread_num queue_capacity : ℕ)
    → 0 < thread_num
    → 2 ^ 31 ≤ queue_capacity
    → queue_capacity < 2 ^ 32
    → let p = (create started thread_num queue_capacity).1 in length p.queue.slots < p.queue.size
unfolding create create_sized
create_huge started n c hn lo hi =
    rw given (rw queue (unfold made clamp in ground (arith, length-replicate c no_task)))
  where
    given : (n == 0 || c == 0) ≡ false
    given = ground arith

    queue : (start_threads started (clamp 32 max_threads n) 0 (made c)).1.queue ≡ (made c).queue
    queue = (start_threads_counts started (clamp 32 max_threads n) 0 (made c)).0
