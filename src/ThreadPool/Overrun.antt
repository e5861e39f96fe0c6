-- ===== src/ThreadPool/Overrun.antt =====
-- The wait of `add` is not repeated. With two adding threads, a call that overtakes the waiting
-- thread fills the slot that it was notified of; with one, a spurious wakeup finds the queue full.
use mathlib.Core.Path.{subst}
use native.Mathlib.Nat.{add-mod_right, mod-eq_of_lt}
use high_performance_server.Prelude.{
  ◌+◌, ◌<◌, true, false, Option, none, some, [], ◌∷◌, ◌++◌, ◌≡◌, refl, ◌∙◌, arith,
  get_elem?-set_self,
}
use high_performance_server.TaskQueue.{Task, Ring, add_task, grab_task}
use high_performance_server.TaskQueue.Laws.{IsValid, add_task-IsValid, grab_task-IsValid}
use high_performance_server.ThreadPool.Steps.{Run, done, more, block, wake, added}
use high_performance_server.ThreadPool.{
  running, ThreadPool, must_wait, finish_add, takes, thread_round,
}

-- A ring that is full writes over its oldest task.
add_task_full :
    {q : Ring} (t : Task)
    → IsValid q
    → q.count ≡ q.size
    → ((add_task t q).count ≡ q.size + 1) × ((grab_task (add_task t q)).0 ≡ some t)
unfolding add_task grab_task
add_task_full {q} t v full =
    (omega arith, rw at (get_elem?-set_self q.slots q.front t (omega (arith, v.room, v.front_lt))))
  where
    at : q.rear ≡ q.front
    at = v.rear_eq ∙ rw full (add-mod_right q.front q.size ∙ mod-eq_of_lt v.front_lt)

-- what the waiting thread and the worker saw
seen :
    (p p' : ThreadPool) (t : Option Task)
    → must_wait p ≡ true
    → thread_round p ≡ takes t p'
    → (p.status ≡ running)
      × (p.queue.count ≡ p.queue.size)
      × (p' ≡ record p { queue = (grab_task p.queue).1 })
unfolding must_wait thread_round
seen p p' t w e = ground arith

finish_add-running :
    (t : Task) (p : ThreadPool)
    → p.status ≡ running
    → finish_add t p ≡ record p { queue = add_task t p.queue }
unfolding finish_add
finish_add-running t p e = ground arith

-- In a running pool that is full: one thread waits in `add` with `mine`, a worker takes a task,
-- and before the waiting thread runs again another thread calls `add` with `other`, which does not
-- wait. When the first thread then goes on, the pool holds more tasks than it has room for, and
-- the next task grabbed is `mine`, written over the oldest pending one.
pub overrun :
    (p p' : ThreadPool) (t : Option Task) (mine other : Task)
    → IsValid p.queue
    → must_wait p ≡ true
    → thread_round p ≡ takes t p'
    → let p'' = finish_add mine (finish_add other p') in
      (must_wait p' ≡ false)
      × (p''.queue.count ≡ p''.queue.size + 1)
      × ((grab_task p''.queue).0 ≡ some mine)
overrun p p' t mine other v w e = rw (shape, added, added_again) (waits_not, counted, read)
  where
    known :
        (p.status ≡ running)
        × (p.queue.count ≡ p.queue.size)
        × (p' ≡ record p { queue = (grab_task p.queue).1 })
    known = seen p p' t w e

    shape : p' ≡ record p { queue = (grab_task p.queue).1 }
    shape = known.2

    q₁ : Ring
    q₁ = (grab_task p.queue).1

    q₂ : Ring
    q₂ = add_task other q₁

    p₂ : ThreadPool
    p₂ = record p { queue = q₂ }

    added : finish_add other (record p { queue = q₁ }) ≡ p₂
    added = finish_add-running other (record p { queue = q₁ }) known.0

    added_again : finish_add mine p₂ ≡ record p { queue = add_task mine q₂ }
    added_again = finish_add-running mine p₂ known.0

    pos : 0 < p.queue.count
    pos = omega (arith, v.size_pos, known.1)

    room : q₁.count < q₁.size
    room = unfold grab_task in omega (arith, known.1, pos)

    v₂ : IsValid q₂
    v₂ = add_task-IsValid other (grab_task-IsValid v pos) room

    full : q₂.count ≡ q₂.size
    full = unfold grab_task add_task in omega (arith, known.1, pos)

    waits_not : must_wait (record p { queue = q₁ }) ≡ false
    waits_not = unfold must_wait in ground (arith, room)

    counted : (add_task mine q₂).count ≡ (add_task mine q₂).size + 1
    counted = (add_task_full mine v₂ full).0 ∙ (unfold add_task in refl)

    read : (grab_task (add_task mine q₂)).0 ≡ some mine
    read = (add_task_full mine v₂ full).1

-- In a running pool that is full, with one adding thread and no worker that takes a task: the thread
-- waits in `add`, and if its wait ends with no notification, as `pthread_cond_wait` allows, it adds
-- its task. The pool then holds more tasks than it has room for, and the next task grabbed is that
-- task, written over the oldest pending one.
pub spurious_wakeup :
    (p : ThreadPool) (t : Task)
    → IsValid p.queue
    → must_wait p ≡ true
    → (p' : ThreadPool) × Run
        (record { pool = p; blocked = none; notified = false })
        (t ∷ [])
        []
        (record { pool = p'; blocked = none; notified = false })
      × (p'.queue.count ≡ p'.queue.size + 1)
      × ((grab_task p'.queue).0 ≡ some t)
unfolding add_task
spurious_wakeup p t v w = (
  finish_add t p,
  subst
      (λ new.
        Run (record { pool = p; blocked = none; notified = false }) new []
          (record { pool = finish_add t p; blocked = none; notified = false }))
      adds (more (block t refl w) (more (wake t refl) done)),
  rw shape full.0,
  rw shape full.1,
)
  where
    known : (p.status ≡ running) × (p.queue.count ≡ p.queue.size)
    known = unfold must_wait in (ground (arith, w), ground (arith, w))

    adds : added t p ++ [] ≡ t ∷ []
    adds = rw known.0 refl

    shape : finish_add t p ≡ record p { queue = add_task t p.queue }
    shape = finish_add-running t p known.0

    full :
        ((add_task t p.queue).count ≡ p.queue.size + 1)
        × ((grab_task (add_task t p.queue)).0 ≡ some t)
    full = add_task_full t v known.1
