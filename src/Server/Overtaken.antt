-- ===== src/Server/Overtaken.antt =====
-- What the main thread can do between the new timer of `handleRequest` and its `epoll_mod`.
use high_performance_server.Prelude.{
  ℕ, ◌+◌, ◌≤◌, Bool, true, false, not, ◌||◌, none, some, [], ◌∷◌, ◌≡◌, refl, ap, ◌∙◌, arith,
}
use high_performance_server.Request.{Request}
use high_performance_server.Timers.{
  Heap, Timer, new_timer, put, push, clear_timer, clear_req, is_valid, tested, delete_request,
  delete_timer, sweep, handle_expired_event, start_timer, rearm_request,
}
use high_performance_server.Timers.Sweep.{popped, next_round}
use high_performance_server.Server.{dangles, registered}

put_self : {A : Type 0} (m : ℕ → A) (a : ℕ) (v : A) → put m a v a ≡ v
unfolding put
put_self m a v = ground arith

tested_late :
    (now : ℕ) (τ : Timer)
    → τ.deleted ≡ false
    → τ.expired_time ≤ now
    → ((τ.deleted || not (is_valid now τ).0) ≡ true) × (tested now τ ≡ record τ { deleted = true })
unfolding tested is_valid
tested_late now τ fresh late = (ground (arith, fresh, late), ground (arith, fresh, late))

-- the timer of a request takes the request with it
delete_timer_owner :
    (t a : ℕ) (σ : Timer) (r : Request) (h : Heap)
    → h.timers t ≡ some σ
    → σ.request_data ≡ some a
    → h.requests a ≡ some r
    → r.timer ≡ some t
    → delete_timer t h
      ≡ some (record {
        requests = put h.requests a none;
        timers = put (put h.timers t (some (clear_req σ))) t none;
        queue = h.queue;
      })
unfolding delete_timer delete_request clear_timer
delete_timer_owner t a σ r h there owner here named =
    rw (there, delete_timer, owner, here, delete_request, named, clear_timer, there) refl

-- the expired timer of a live request, alone in the queue
swept_alone :
    (clock : ℕ → ℕ) (t a : ℕ) (τ : Timer) (r : Request) (h : Heap)
    → h.timers t ≡ some τ
    → τ.deleted ≡ false
    → τ.request_data ≡ some a
    → τ.expired_time ≤ clock 0
    → h.requests a ≡ some r
    → r.timer ≡ some t
    → (h'' : Heap) × (sweep clock 0 (t ∷ []) h ≡ some h'') × (h''.requests a ≡ none)
unfolding sweep
swept_alone clock t a τ r h queued fresh owner late here named =
    let (out, test) = tested_late (clock 0) τ fresh late in
    let old = tested (clock 0) τ in
    let gone =
      delete_timer_owner t a old r (popped (clock 0) t τ [] h) (put_self h.timers t (some old))
        (ap (λ σ. σ.request_data) test ∙ owner) here named in
    (
      record {
        requests = put h.requests a none;
        timers = put (put (put h.timers t (some old)) t (some (clear_req old))) t none;
        queue = [];
      },
      next_round clock 0 t τ [] h _ queued out gone ∙ refl,
      put_self h.requests a none,
    )

-- Between the new timer of a call of `handleRequest` and its `epoll_mod` the main thread may
-- sweep. If the timer is the only one queued and has expired by then, the sweep deletes the request;
-- where `epoll_mod` then fails, the call deletes it again.
pub rearm_request_overtaken :
    {S : Type 0} (now t a : ℕ) (clock : ℕ → ℕ) (r : Request) (h : Heap) (busy : ℕ → Bool) (w : S)
    → h.requests a ≡ some r
    → h.queue ≡ []
    → now + 500 ≤ clock 0
    → (h' h'' : Heap) × (rearm_request now t a h ≡ some h')
      × (handle_expired_event clock h' ≡ some h'')
      × (h''.requests a ≡ none)
      × (registered false a (record { heap = h''; busy = busy }) w ≡ dangles)
unfolding rearm_request start_timer push handle_expired_event registered
rearm_request_overtaken now t a clock r h busy w here alone late =
    let h' : Heap = record {
      requests = put h.requests a (some (record r { timer = some t }));
      timers = put h.timers t (some (new_timer now 500 a));
      queue = t ∷ [];
    } in
    let (h'', swept, gone) =
      swept_alone clock t a (new_timer now 500 a) (record r { timer = some t }) h'
        (put_self h.timers t (some (new_timer now 500 a))) refl refl late
        (put_self h.requests a (some (record r { timer = some t }))) refl in
    (h', h'', rw (here, rearm_request, alone) refl, swept, gone, rw (gone, registered) refl)
