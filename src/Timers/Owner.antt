-- ===== src/Timers/Owner.antt =====
-- A request and its timer name each other, through every deletion and separation.
use high_performance_server.Prelude.{
  ℕ, ◌==◌, Bool, true, false, Option, Option-cases, none, some, ◌≡◌, refl, ap, ◌∙◌, arith,
  Bool-cases, inl, inr,
}
use high_performance_server.Request.{Request}
use high_performance_server.Timers.{
  Timer, Heap, put, clear_req, clear_timer, delete_request, separate_timer, delete_timer,
  forget_timer, delete_owner,
}

-- the request that the timer at `t` names, and the timer that the request at `a` names
abbrev pub named_by : Option Timer → Option ℕ
named_by none = none
named_by (some τ) = τ.request_data

abbrev pub naming : Option Request → Option ℕ
naming none = none
naming (some r) = r.timer

pub record IsOwned (h : Heap) : Type 0 where
  pub forth : (a t : ℕ) → naming (h.requests a) ≡ some t → named_by (h.timers t) ≡ some a
  pub back : (a t : ℕ) → named_by (h.timers t) ≡ some a → naming (h.requests a) ≡ some t

put_self : {A : Type 0} (m : ℕ → A) (a : ℕ) (v : A) → put m a v a ≡ v
unfolding put
put_self m a v = ground arith

put_other : {A : Type 0} (m : ℕ → A) (a b : ℕ) (v : A) → (b == a) ≡ false → put m a v b ≡ m b
unfolding put
put_other m a b v e = ground arith

-- A timer that names no request is changed, or taken out.
pub put_timer-IsOwned :
    (h : Heap) (t : ℕ) (v : Option Timer)
    → IsOwned h
    → named_by (h.timers t) ≡ none
    → named_by v ≡ none
    → IsOwned (record h { timers = put h.timers t v })
unfolding put
put_timer-IsOwned h t v w e n = record {
  forth = λ a u k. elim (Bool-cases (u == t)) [
    | inl same ↦ ground (arith, w.forth a u k)
    | inr other ↦ ground (arith, w.forth a u k)
  ];
  back = λ a u k. elim (Bool-cases (u == t)) [
    | inl same ↦ ground arith
    | inr other ↦ ground (arith, w.back a u)
  ];
}

-- A request with no timer is changed, or taken out.
pub put_request-IsOwned :
    (h : Heap) (a : ℕ) (o : Option Request)
    → IsOwned h
    → naming (h.requests a) ≡ none
    → naming o ≡ none
    → IsOwned (record h { requests = put h.requests a o })
unfolding put
put_request-IsOwned h a o w e n = record {
  forth = λ b u k. elim (Bool-cases (b == a)) [
    | inl same ↦ ground arith
    | inr other ↦ ground (arith, w.forth b u)
  ];
  back = λ b u k. elim (Bool-cases (b == a)) [
    | inl same ↦ ground (arith, w.back b u k)
    | inr other ↦ ground (arith, w.back b u k)
  ];
}

-- A request loses its timer, and the timer its request.
pub put_both-IsOwned :
    (h : Heap) (a t : ℕ) (o : Option Request) (v : Option Timer)
    → IsOwned h
    → naming (h.requests a) ≡ some t
    → naming o ≡ none
    → named_by v ≡ none
    → IsOwned (record h { requests = put h.requests a o; timers = put h.timers t v })
unfolding put
put_both-IsOwned h a t o v w e n m = record {
  forth = λ b u k. elim (Bool-cases (b == a)) [
    | inl same ↦ ground arith
    | inr other ↦ elim (Bool-cases (u == t)) [
      | inl same ↦ ground (arith, w.forth b u, w.forth a t e)
      | inr apart ↦ ground (arith, w.forth b u)
    ]
  ];
  back = λ b u k. elim (Bool-cases (u == t)) [
    | inl same ↦ ground arith
    | inr other ↦ elim (Bool-cases (b == a)) [
      | inl same ↦ ground (arith, w.back b u)
      | inr apart ↦ ground (arith, w.back b u)
    ]
  ];
}

abbrev pub is_live : Option Timer → Bool
is_live none = false
is_live (some τ) = true

-- a heap in which the request at `a` has become `o`, and in which the same timers live
pub record IsDetached (h : Heap) (a : ℕ) (o : Option Request) (h' : Heap) : Type 0 where
  pub owned : IsOwned h'
  pub requests : h'.requests ≡ put h.requests a o
  pub queue : h'.queue ≡ h.queue
  pub live : (u : ℕ) → is_live (h'.timers u) ≡ is_live (h.timers u)

abbrev pub Detaches : Heap → ℕ → Option Request → Option Heap → Type 0
Detaches h a o res = (h' : Heap) × (res ≡ some h') × IsDetached h a o h'

clear_timer-Detaches :
    (h : Heap) (a : ℕ) (o : Option Request) (t : Option ℕ)
    → IsOwned h
    → naming (h.requests a) ≡ t
    → naming o ≡ none
    → Detaches h a o (clear_timer t (record h { requests = put h.requests a o }))
unfolding clear_timer clear_req
clear_timer-Detaches h a o none w e n = (
  _,
  refl,
  record {
    owned = put_request-IsOwned h a o w e n;
    requests = refl;
    queue = refl;
    live = λ u. refl;
  },
)
clear_timer-Detaches h a o (some t) w e n = elim (Option-cases (h.timers t)) [
  | inl gone ↦ ground (arith, w.forth a t e)
  | inr (τ, here) ↦ (
    record h { requests = put h.requests a o; timers = put h.timers t (some (clear_req τ)) },
    ground arith,
    record {
      owned = put_both-IsOwned h a t o (some (clear_req τ)) w e n refl;
      requests = refl;
      queue = refl;
      live = λ u. unfold put in ground arith;
    },
  )
]

pub delete_request-Detaches :
    (h : Heap) (a : ℕ) (r : Request)
    → IsOwned h
    → h.requests a ≡ some r
    → Detaches h a none (delete_request a h)
unfolding delete_request
delete_request-Detaches h a r w e =
    rw (e, delete_request) (clear_timer-Detaches h a none r.timer w (rw e refl) refl)

pub separate_timer-Detaches :
    (h : Heap) (a : ℕ) (r : Request)
    → IsOwned h
    → h.requests a ≡ some r
    → Detaches h a (some (record r { timer = none })) (separate_timer a h)
unfolding separate_timer
separate_timer-Detaches h a r w e =
    rw (e, separate_timer)
      (clear_timer-Detaches h a (some (record r { timer = none })) r.timer w (rw e refl) refl)

-- a heap in which the timer at `t` is gone, with the request that it names, and no other object
pub record IsRid (h : Heap) (t : ℕ) (h' : Heap) : Type 0 where
  pub owned : IsOwned h'
  pub queue : h'.queue ≡ h.queue
  pub live : (u : ℕ) → (u == t) ≡ false → is_live (h'.timers u) ≡ is_live (h.timers u)
  pub same : (b : ℕ) (r : Request) → h.requests b ≡ some r → r.timer ≡ none → h'.requests b ≡ some r

-- the timer of a deleted request names nothing
unnamed :
    (h h' : Heap) (a t : ℕ)
    → IsOwned h
    → named_by (h.timers t) ≡ some a
    → IsDetached h a none h'
    → named_by (h'.timers t) ≡ none
unfolding put
unnamed h h' a t w e d = elim (Option-cases (named_by (h'.timers t))) [
  | inl none_left ↦ none_left
  | inr (c, k) ↦ elim (Bool-cases (c == a)) [
    | inl same ↦ ground (arith, d.owned.back c t k, ap (λ m. m c) d.requests)
    | inr other ↦ ground (arith, d.owned.back c t k, ap (λ m. m c) d.requests, w.forth c t)
  ]
]

-- the deletion of the request that the timer names
delete_owner-IsRid :
    (h : Heap) (t : ℕ) (o : Option ℕ)
    → IsOwned h
    → named_by (h.timers t) ≡ o
    → (h' : Heap) × (forget_timer t (delete_owner o h) ≡ some h') × IsRid h t h'
unfolding put
delete_owner-IsRid h t none w e = (
  record h { timers = put h.timers t none },
  refl,
  record {
    owned = put_timer-IsOwned h t none w e refl;
    queue = refl;
    live = λ u apart. ground arith;
    same = λ b r here idle. here;
  },
)
delete_owner-IsRid h t (some a) w e = elim (Option-cases (h.requests a)) [
  | inl gone ↦ ground (arith, w.back a t e)
  | inr (r, here) ↦
      let (h', done, d) = delete_request-Detaches h a r w here in
      (
        record h' { timers = put h'.timers t none },
        ap (forget_timer t) done,
        record {
          owned = put_timer-IsOwned h' t none d.owned (unnamed h h' a t w e d) refl;
          queue = d.queue;
          live = λ u apart. ground (arith, d.live u);
          same = λ b r there idle. elim (Bool-cases (b == a)) [
            | inl same ↦ ground (arith, w.back a t e)
            | inr other ↦ ap (λ m. m b) d.requests ∙ ground arith
          ];
        },
      )
]

pub delete_timer-IsRid :
    (h : Heap) (t : ℕ) (τ : Timer)
    → IsOwned h
    → h.timers t ≡ some τ
    → (h' : Heap) × (delete_timer t h ≡ some h') × IsRid h t h'
unfolding delete_timer
delete_timer-IsRid h t τ w e =
    rw (e, delete_timer) (delete_owner-IsRid h t τ.request_data w (rw e refl))
