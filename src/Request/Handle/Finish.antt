-- ===== src/Request/Handle/Finish.antt =====
-- The end of `handleRequest` for an answer that was sent.
use high_performance_server.Prelude.{
  ℕ, Bool, true, false, some, Bytes, inl, inr, Bool-cases, ◌≡◌, refl, ap, arith,
}
use high_performance_server.Request.{Request, analysis, reset}
use high_performance_server.Request.Response.{
  Files, answers, AnalysisFlag, analysis_error, analysis_success, analysis_undefined,
  wants_keep_alive, answer, note_keep_alive, analysis_request,
}
use high_performance_server.Request.Handle.{Verdict, deleted, crashed, rearm, conclude, analyse}
use high_performance_server.Util.{WriteResult}

-- The request is kept only where the headers asked for it: then it is reset and armed again.
abbrev pub kept : Bool → ℕ → Bool → Request → Verdict
kept true timer modified r = rearm timer modified (reset r)
kept false timer modified r = deleted

pub note_keep_alive-answers :
    (r : Request)
    → answers r.method ≡ true
    → r.keep_alive ≡ false
    → note_keep_alive r ≡ record r { keep_alive = wants_keep_alive r.headers }
unfolding note_keep_alive
note_keep_alive-answers r m off = elim (Bool-cases (wants_keep_alive r.headers)) [
  | inl e ↦ rw e (ground (arith, m, e))
  | inr e ↦ rw e (ground (arith, m, e, off))
]

module _ {S : Type 0} (write : Bytes → S → WriteResult × S) (fuel : ℕ) (files : Files) where
  -- what `analysisRequest` returns, from what it sends
  pub analysis_request_lem :
      (r : Request) (flag : AnalysisFlag) (s s' : S)
      → answers r.method ≡ true
      → r.keep_alive ≡ false
      → answer write fuel files r.method r s ≡ some (flag, s')
      → analysis_request write fuel files r s
        ≡ some (flag, record r { keep_alive = wants_keep_alive r.headers }, s')
  unfolding analysis_request
  analysis_request_lem r flag s s' m off e =
      rw (e, analysis_request) (ap (λ q. some (flag, q, s')) (note_keep_alive-answers r m off))

  pub analyse_sent :
      (timer : ℕ) (modified keep : Bool) (r : Request) (s s' : S)
      → analysis_request write fuel files r s
        ≡ some (analysis_success, record r { keep_alive = keep }, s')
      → analyse write fuel files timer modified analysis r s ≡ some (kept keep timer modified r, s')
  unfolding analyse conclude reset
  analyse_sent timer modified true r s s' e = rw (e, analyse) refl
  analyse_sent timer modified false r s s' e = rw (e, analyse) refl

  pub analyse_refused :
      (timer : ℕ) (modified : Bool) (r r' : Request) (s s' : S)
      → analysis_request write fuel files r s ≡ some (analysis_error, r', s')
      → analyse write fuel files timer modified analysis r s ≡ some (deleted, s')
  unfolding analyse
  analyse_refused timer modified r r' s s' e = rw (e, analyse) refl

  pub analyse_undefined :
      (timer : ℕ) (modified : Bool) (r r' : Request) (s s' : S)
      → analysis_request write fuel files r s ≡ some (analysis_undefined, r', s')
      → analyse write fuel files timer modified analysis r s ≡ some (crashed, s')
  unfolding analyse
  analyse_undefined timer modified r r' s s' e = rw (e, analyse) refl
