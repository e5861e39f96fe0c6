-- ===== src/Concurrence/Reaped.antt =====
-- The handler of SIGCHLD of multi_progress_server.
use high_performance_server.Prelude.{
  ℕ, zero, suc, ◌<◌, none, some, ◌≡◌, refl, ◌∙◌, ◌⊎◌, inl, inr, arith,
}
use high_performance_server.Concurrence.{Waited, reaped, none_ended, no_child, wait_child}

module _ {S : Type 0} (waitpid : S → Waited × S) (ended running : S → ℕ) where
  -- `waitpid` with WNOHANG: `ended s` children have ended and are not yet waited for, `running s` run.
  -- It takes one of the former; where there is none it returns 0, and -1 where there is no child.
  pub record IsWaiting : Type 0 where
    pub takes :
        (s : S) (n : ℕ)
        → ended s ≡ suc n
        → ((waitpid s).0 ≡ reaped) × (ended (waitpid s).1 ≡ n) × (running (waitpid s).1 ≡ running s)
    pub waits : (s : S) (n : ℕ) → ended s ≡ 0 → running s ≡ suc n → (waitpid s).0 ≡ none_ended
    pub lacks :
        (s : S)
        → ended s ≡ 0
        → running s ≡ 0
        → ((waitpid s).0 ≡ no_child) × (ended (waitpid s).1 ≡ 0) × (running (waitpid s).1 ≡ 0)

  without_child :
      (s : S) (fuel : ℕ)
      → IsWaiting
      → ended s ≡ 0
      → running s ≡ 0
      → wait_child waitpid fuel s ≡ none
  unfolding wait_child
  without_child s zero w e r = refl
  without_child s (suc fuel) w e r =
      let (res, e', r') = w.lacks s e r in
      rw (res, wait_child) (without_child (waitpid s).1 fuel w e' r')

  returns_by :
      (s : S) (n m fuel : ℕ)
      → IsWaiting
      → ended s ≡ n
      → running s ≡ suc m
      → n < fuel
      → (s' : S) × (wait_child waitpid fuel s ≡ some s')
  unfolding wait_child
  returns_by s n m zero w e r f = absurd (omega arith)
  returns_by s zero m (suc fuel) w e r f = ((waitpid s).1, rw (w.waits s m e r, wait_child) refl)
  returns_by s (suc n) m (suc fuel) w e r f =
      let (res, e', r') = w.takes s n e in
      let (s', done) = returns_by (waitpid s).1 n m fuel w e' (r' ∙ r) (omega arith) in
      (s', rw (res, wait_child) done)

  never_by :
      (s : S) (n fuel : ℕ)
      → IsWaiting
      → ended s ≡ n
      → running s ≡ 0
      → wait_child waitpid fuel s ≡ none
  unfolding wait_child
  never_by s n zero w e r = refl
  never_by s zero (suc fuel) w e r = without_child s (suc fuel) w e r
  never_by s (suc n) (suc fuel) w e r =
      let (res, e', r') = w.takes s n e in
      rw (res, wait_child) (never_by (waitpid s).1 n fuel w e' (r' ∙ r))

  -- With as many rounds as children have ended and one more, `wait_child` returns where a child
  -- still runs. Where no child runs it never returns, since the loop takes the -1 of `waitpid` for
  -- a child: the parent stays in the handler once its last child has ended.
  pub wait_child_lem :
      (s : S) (fuel : ℕ)
      → IsWaiting
      → ended s < fuel
      → ((0 < running s) × (s' : S) × (wait_child waitpid fuel s ≡ some s'))
        ⊎ ((running s ≡ 0) × ((fuel' : ℕ) → wait_child waitpid fuel' s ≡ none))
  wait_child_lem s fuel w f = by_running (running s) refl
    where
      by_running :
          (m : ℕ)
          → running s ≡ m
          → ((0 < running s) × (s' : S) × (wait_child waitpid fuel s ≡ some s'))
            ⊎ ((running s ≡ 0) × ((fuel' : ℕ) → wait_child waitpid fuel' s ≡ none))
      by_running zero r = inr (r, λ fuel'. never_by s (ended s) fuel' w refl r)
      by_running (suc m) r =
          let (s', done) = returns_by s (ended s) m fuel w refl r f in
          inl (omega (arith, r), s', done)
