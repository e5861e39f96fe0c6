-- ===== src/ThreadPool/Shut.antt =====
-- `ThreadPool::~ThreadPool` and the workers of a pool with no pending task: `do_thread` up to its
-- exit. The destructor writes `status` without the lock, so it may come between a worker's test and
-- the wait behind it. No worker wakes up but for a notification.
pub mod Lost
use high_performance_server.Prelude.{ℕ, zero, suc, Bool, true, false, ◌&&◌, List, [], ◌∷◌}
use high_performance_server.ThreadPool.{ThreadPool, shut, Round, waits, exits, takes, thread_round}

-- Where a worker stands: in front of the test, behind a test that told it to wait, in the wait, or
-- behind `pthread_exit`.
pub data Place : Type 0 where
  testing about_to_wait asleep gone : Place

abbrev pub next_place : Round → Place
next_place waits = about_to_wait
next_place exits = gone
next_place (takes t p) = testing

-- a worker's next step
unfoldable pub step : ThreadPool → Place → Place
unfolding thread_round
step p testing = next_place (thread_round p)
step p about_to_wait = asleep
step p asleep = asleep
step p gone = gone

-- the step of the worker at an index
unfoldable pub step_at : ThreadPool → ℕ → List Place → List Place
unfolding step
step_at p i [] = []
step_at p zero (w ∷ ws) = step p w ∷ ws
step_at p (suc i) (w ∷ ws) = w ∷ step_at p i ws

unfoldable pub steps : ThreadPool → List ℕ → List Place → List Place
unfolding step_at
steps p [] ws = ws
steps p (i ∷ is) ws = steps p is (step_at p i ws)

-- `queue_has_task.notifyAll()`
abbrev pub woken : Place → Place
woken asleep = testing
woken w = w

unfoldable pub notify_all : List Place → List Place
notify_all [] = []
notify_all (w ∷ ws) = woken w ∷ notify_all ws

abbrev pub is_gone : Place → Bool
is_gone gone = true
is_gone _ = false

-- Whether every `pthread_join` of the destructor has returned.
unfoldable pub joined : List Place → Bool
joined [] = true
joined (w ∷ ws) = is_gone w && joined ws

-- The destructor with the workers: their steps between its first two statements, and those behind
-- the second one.
unfoldable pub destruct : ThreadPool → List ℕ → List ℕ → List Place → Bool
unfolding shut steps notify_all joined
destruct p early later ws = joined (steps (shut p) later (notify_all (steps (shut p) early ws)))
