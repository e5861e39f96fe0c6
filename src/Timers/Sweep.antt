-- ===== src/Timers/Sweep.antt =====
-- `handle_expired_event`: which timers and requests a sweep deletes, and which it leaves.
use high_performance_server.Prelude.{
  ℕ, ◌+◌, ◌==◌, ◌<◌, ◌||◌, not, true, false, Option, Option-cases, none, some, List, [], ◌∷◌, ◌≡◌,
  refl, ap, ◌∙◌, arith, Bool-cases, inl, inr, ◌⊎◌, Avoids,
}
use high_performance_server.Request.{Request}
use high_performance_server.Timers.{
  Timer, Heap, put, is_valid, delete_timer, sweep, tested, handle_expired_event,
}
use high_performance_server.Timers.Owner.{IsOwned, is_live, delete_timer-IsRid}

-- Every queued timer lives, and stands in the queue once.
abbrev pub AreQueued : Heap → List ℕ → Type 0
AreQueued h [] = Unit
AreQueued h (t ∷ ts) = (is_live (h.timers t) ≡ true) × Avoids t ts × AreQueued h ts

-- The next timer, if there is one, was neither deleted nor expired when the clock was read.
abbrev pub IsFresh : (ℕ → ℕ) → Heap → Type 0
IsFresh clock h =
    (h.queue ≡ [])
    ⊎ ((t : ℕ) × (ts : List ℕ) × (τ : Timer) × (n : ℕ) × (h.queue ≡ t ∷ ts)
        × (h.timers t ≡ some τ)
        × (τ.deleted ≡ false)
        × (clock n < τ.expired_time))

pub AreQueued-move :
    (h h' : Heap) (t : ℕ) (ts : List ℕ)
    → ((u : ℕ) → (u == t) ≡ false → is_live (h'.timers u) ≡ is_live (h.timers u))
    → Avoids t ts
    → AreQueued h ts
    → AreQueued h' ts
AreQueued-move h h' t [] live out q = tt
AreQueued-move h h' t (u ∷ us) live out q =
    (live u out.0 ∙ q.0, q.1, AreQueued-move h h' t us live out.1 q.2)

-- A timer is marked; it names the same request.
mark-IsOwned :
    (h : Heap) (t : ℕ) (τ τ' : Timer)
    → IsOwned h
    → h.timers t ≡ some τ
    → τ'.request_data ≡ τ.request_data
    → IsOwned (record h { timers = put h.timers t (some τ') })
unfolding put
mark-IsOwned h t τ τ' w e n = record {
  forth = λ a u k. elim (Bool-cases (u == t)) [
    | inl same ↦ ground (arith, w.forth a u k)
    | inr other ↦ ground (arith, w.forth a u k)
  ];
  back = λ a u k. elim (Bool-cases (u == t)) [
    | inl same ↦ ground (arith, w.back a u)
    | inr other ↦ ground (arith, w.back a u)
  ];
}

-- A heap with what a sweep keeps; requests without a timer stay.
abbrev pub Swept : (ℕ → ℕ) → Heap → Option Heap → Type 0
Swept clock h res =
    (h' : Heap) × (res ≡ some h')
    × IsOwned h'
    × AreQueued h' h'.queue
    × IsFresh clock h'
    × ((b : ℕ) (r : Request) → h.requests b ≡ some r → r.timer ≡ none → h'.requests b ≡ some r)

tested-request_data : (now : ℕ) (τ : Timer) → (tested now τ).request_data ≡ τ.request_data
unfolding tested is_valid
tested-request_data now τ = ground arith

put_self : {A : Type 0} (m : ℕ → A) (a : ℕ) (v : A) → put m a v a ≡ v
unfolding put
put_self m a v = ground arith

put_other : {A : Type 0} (m : ℕ → A) (a b : ℕ) (v : A) → (b == a) ≡ false → put m a v b ≡ m b
unfolding put
put_other m a b v e = ground arith

-- the heap in which the loop deletes the timer `t`
abbrev pub popped : ℕ → ℕ → Timer → List ℕ → Heap → Heap
popped now t τ ts h = record h { queue = ts; timers = put h.timers t (some (tested now τ)) }

popped-IsOwned :
    (now t : ℕ) (τ : Timer) (ts : List ℕ) (h : Heap)
    → IsOwned h
    → h.timers t ≡ some τ
    → IsOwned (popped now t τ ts h)
popped-IsOwned now t τ ts h w e =
    let marked = mark-IsOwned h t τ (tested now τ) w e (tested-request_data now τ) in
    record { forth = marked.forth; back = marked.back }

pub next_round :
    (clock : ℕ → ℕ) (i t : ℕ) (τ : Timer) (ts : List ℕ) (h h' : Heap)
    → h.timers t ≡ some τ
    → (τ.deleted || not (is_valid (clock i) τ).0) ≡ true
    → delete_timer t (popped (clock i) t τ ts h) ≡ some h'
    → sweep clock i (t ∷ ts) h ≡ sweep clock (i + 1) ts h'
unfolding sweep
next_round clock i t τ ts h h' e ends done = rw (e, ends, done, sweep) refl

pub sweep-Swept :
    (clock : ℕ → ℕ) (i : ℕ) (ts : List ℕ) (h : Heap)
    → IsOwned h
    → AreQueued h ts
    → Swept clock h (sweep clock i ts h)
unfolding sweep
sweep-Swept clock i [] h w q = (
  record h { queue = [] },
  refl,
  record { forth = w.forth; back = w.back },
  tt,
  inl refl,
  λ b r here idle. here,
)
sweep-Swept clock i (t ∷ ts) h w q = elim (Option-cases (h.timers t)) [
  | inl gone ↦ ground arith
  | inr (τ, e) ↦ elim (Bool-cases (τ.deleted || not (is_valid (clock i) τ).0)) [
    | inr stays ↦ (
      record h { queue = t ∷ ts },
      ground arith,
      record { forth = w.forth; back = w.back },
      q,
      inr (t, ts, τ, i, refl, e, ground arith, unfold is_valid in ground arith),
      λ b r here idle. here,
    )
    | inl ends ↦
        let (h', done, d) =
          delete_timer-IsRid (popped (clock i) t τ ts h) t (tested (clock i) τ)
            (popped-IsOwned (clock i) t τ ts h w e) (put_self h.timers t _) in
        let queued =
          AreQueued-move h h' t ts
            (λ u apart. d.live u apart ∙ ap is_live (put_other h.timers t u _ apart)) q.1 q.2 in
        let (h'', swept, owned, all, fresh, stays) =
          sweep-Swept clock (i + 1) ts h' d.owned queued in
        (
          h'',
          next_round clock i t τ ts h h' e ends done ∙ swept,
          owned,
          all,
          fresh,
          λ b r here idle. stays b r (d.same b r here idle) idle,
        )
  ]
]

-- In a heap where requests and timers name each other and the queued timers live, a sweep deletes
-- no object twice and uses no deleted one, whatever the clock says. Requests and timers still
-- name each other and the queued timers live; the next timer, if there is one, was neither deleted
-- nor expired. A request without a timer, which is one that a worker handles, stays as it is.
pub handle_expired_event_safe :
    (clock : ℕ → ℕ) (h : Heap) (b : ℕ) (r : Request)
    → IsOwned h
    → AreQueued h h.queue
    → h.requests b ≡ some r
    → r.timer ≡ none
    → (h' : Heap) × (handle_expired_event clock h ≡ some h')
      × IsOwned h'
      × AreQueued h' h'.queue
      × IsFresh clock h'
      × (h'.requests b ≡ some r)
unfolding handle_expired_event
handle_expired_event_safe clock h b r w q here idle =
    let (h', swept, owned, all, fresh, stays) = sweep-Swept clock 0 h.queue h w q in
    (h', swept, owned, all, fresh, stays b r here idle)
