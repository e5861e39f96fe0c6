-- ===== src/Failed/Spin.antt =====
-- A body that does not come.
use high_performance_server.Prelude.{
  ℕ, zero, suc, ◌+◌, ltb, length, Bool, true, false, Option, none, some, [], Bytes, codes, ◌≡◌,
  refl, arith, inl, inr, Bool-cases,
}
use high_performance_server.Prelude.Int.{ℤ}
use high_performance_server.Request.{Request, recv_body, find}
use high_performance_server.Request.Response.{Files}
use high_performance_server.Request.Handle.{
  Errno, max_read_times, then_stage, body_stage, is_shorter, stoi,
}
use high_performance_server.Util.{Received, received}
use high_performance_server.Failed.{
  take_read, uri_stage, old_head_stage, parse_pass, body_pass, pass, loop, settle, handle_request,
  again_pass,
}

-- a request that waits for the rest of its body
pub record IsShort (r : Request) : Type 0 where
  pub state : r.state ≡ recv_body
  pub field :
      (v : Bytes) × (n : ℤ) × (find (codes "Content-length") r.headers ≡ some v)
      × (stoi v ≡ some n)
      × (is_shorter (length r.content) n ≡ true)

module _ {S : Type 0} (readn : S → Received × S) (errno : S → Errno)
    (send : Bytes → S → Option ℕ × S) (files : Files) where
  body_again :
      (e : Bool) (r : Request) (s : S)
      → IsShort r
      → body_pass readn errno send files (body_stage r.state r) e s ≡ again_pass e r s
  unfolding body_stage body_pass
  body_again e r s h = let (v, n, found, number, short) = h.field in ground (arith, h.state)

  stuck :
      (e : Bool) (r : Request) (s : S)
      → IsShort r
      → parse_pass readn errno send files
          (then_stage (uri_stage r.state r) (λ q. old_head_stage q.state q))
          e
          s
        ≡ again_pass e r s
  unfolding uri_stage old_head_stage parse_pass
  stuck e r s h = ground (arith, h.state, body_again e r s h)

  waiting_pass :
      (e : Bool) (r : Request) (s : S)
      → IsShort r
      → (readn s).0 ≡ received [] true
      → (e' : Bool) × (r' : Request) × (pass readn errno send files e r s
          ≡ again_pass e' r' (readn s).1)
        × IsShort r'
  unfolding pass take_read
  waiting_pass e r s h silent = elim (Bool-cases (ltb max_read_times r.read_times)) [
    | inl much ↦ (true, r, ground (arith, stuck true r (readn s).1 h), h)
    | inr few ↦
        let r' = record r { read_times = r.read_times + 1 } in
        let h' : IsShort r' = record { state = h.state; field = h.field } in
        (e, r', ground (arith, stuck e r' (readn s).1 h'), h')
  ]

  spins :
      (fuel : ℕ) (e : Bool) (r : Request) (s : S)
      → ((t : S) → (readn t).0 ≡ received [] true)
      → IsShort r
      → loop readn errno send files fuel e r s ≡ none
  unfolding loop
  spins zero e r s silent h = refl
  spins (suc fuel) e r s silent h =
      let (e', r', next, h') = waiting_pass e r s h (silent s) in
      rw (next, loop) (spins fuel e' r' (readn s).1 silent h')

  -- While the rest of a body has not come and the socket has no bytes, the old `handle_request`
  -- never returns, whatever fuel its loop is given: the limit of the empty reads sets `is_error`
  -- and does not leave the loop, so that one silent client holds a worker for ever.
  pub handle_request_spins :
      (fuel timer : ℕ) (modified : Bool) (r : Request) (s : S)
      → ((t : S) → (readn t).0 ≡ received [] true)
      → IsShort r
      → handle_request readn errno send files fuel timer modified r s ≡ none
  unfolding handle_request settle
  handle_request_spins fuel timer modified r s silent h =
      rw (spins fuel false r s silent h, handle_request) refl
