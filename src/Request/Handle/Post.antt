-- ===== src/Request/Handle/Post.antt =====
-- `handleRequest` on a POST: the read that brings its head, and a later one for its body.
use high_performance_server.Prelude.{
  ℕ, ◌+◌, ◌<◌, if◌then◌else◌, Bool, true, false, some, [], ◌∷◌, ◌++◌, Bytes, codes, length, inl,
  inr, Bool-cases, ◌≡◌, refl, ap, ◌∙◌,
}
use high_performance_server.Prelude.Int.{ℤ}
use high_performance_server.Request.{Request, get, post, recv_body, find, Table, analysis, reset}
use high_performance_server.Request.Head.RoundTrip.{assign_all, left_over}
use high_performance_server.Request.Response.{
  Files, answers, post_header, send_content, analysis_success, wants_keep_alive, answer,
}
use high_performance_server.Request.Handle.{
  Errno, going, paused, stoi, is_shorter, body_verdict, then_stage, line_stage, head_stage,
  body_stage, parse_stages, read_stage, Verdict, rearm, conclude, analyse, settle, handle_request,
}
use high_performance_server.Util.{WriteResult, received}
use high_performance_server.Util.Write.{Writes, stop}
use high_performance_server.Request.Handle.Finish.{kept, analysis_request_lem, analyse_sent}
use high_performance_server.Request.Handle.Whole.{
  IsNew, Ask, IsAsk, text, all_fields, parsed, parse_stages-text,
}
use high_performance_server.Request.Response.Sent.{Serves, send_both_all}

abbrev pub post_reply : Bool → Bytes
post_reply keep = post_header keep ++ send_content

-- A request whose body is short of the length that it announces waits for the rest.
abbrev pub verdict_of : Bool → Bool → ℕ → Bool → Request → Verdict
verdict_of short keep timer modified r =
    if short then rearm timer modified r else kept keep timer modified r

-- The header fields that announce a body of `n` bytes.
pub record Announces (headers : Table) (n : ℤ) : Type 0 where
  pub field : Bytes
  pub found : find (codes "Content-length") headers ≡ some field
  pub number : stoi field ≡ some n

-- A request that waits for the rest of its body.
pub record IsWaiting (r : Request) : Type 0 where
  pub state : r.state ≡ recv_body
  pub method : r.method ≡ post
  pub keep_alive : r.keep_alive ≡ false

body_stage_lem :
    (r : Request) (n : ℤ)
    → Announces r.headers n
    → body_stage recv_body r ≡ (
        if is_shorter (length r.content) n then paused r else going (record r { state = analysis }))
unfolding body_stage
body_stage_lem r n a = rw (a.found, body_stage) (ap (λ o. body_verdict o r) a.number)

parse_waiting : (r : Request) → r.state ≡ recv_body → parse_stages r ≡ body_stage recv_body r
unfolding parse_stages line_stage head_stage
parse_waiting r e =
    ap
      (λ st.
        then_stage (line_stage st r)
          (λ r. then_stage (head_stage r.state r) (λ r. body_stage r.state r)))
      e
    ∙ ap (λ st. then_stage (head_stage st r) (λ r. body_stage r.state r)) e
    ∙ ap (λ st. body_stage st r) e

-- the reset forgets the state
kept_state :
    (keep : Bool) (timer : ℕ) (modified : Bool) (r : Request)
    → kept keep timer modified (record r { state = analysis }) ≡ kept keep timer modified r
unfolding reset
kept_state true timer modified r = refl
kept_state false timer modified r = refl

module _ {S : Type 0} (write : Bytes → S → WriteResult × S) (measure : S → ℕ)
    (k : Serves write measure) (files : Files) where
  analyse_post :
      (fuel timer : ℕ) (modified : Bool) (r : Request) (s : S)
      → r.method ≡ post
      → r.keep_alive ≡ false
      → let keep = wants_keep_alive r.headers in
        length (post_reply keep) + measure s < fuel
        → (s' : S) × (analyse write fuel files timer modified analysis r s
            ≡ some (kept keep timer modified r, s'))
          × Writes write s (post_reply keep) s'
  unfolding answer
  analyse_post fuel timer modified r s m off f =
      let keep = wants_keep_alive r.headers in
      let (s', e, ws) = send_both_all write measure k fuel (post_header keep) send_content s f in
      let answered = ap (λ m. answer write fuel files m r s) m ∙ e in
      let done =
        analysis_request_lem write fuel files r analysis_success s s' (ap answers m) off answered in
      (s', analyse_sent write fuel files timer modified keep r s s' done, ws)

  settle_body :
      (fuel timer : ℕ) (modified : Bool) (r : Request) (n : ℤ) (s : S)
      → IsWaiting r
      → Announces r.headers n
      → let keep = wants_keep_alive r.headers in
        let short = is_shorter (length r.content) n in
        length (post_reply keep) + measure s < fuel
        → (s' : S) × (settle write fuel files timer modified (body_stage recv_body r) s
            ≡ some (verdict_of short keep timer modified r, s'))
          × Writes write s (if short then [] else post_reply keep) s'
  unfolding settle conclude
  settle_body fuel timer modified r n s w a f =
      elim (Bool-cases (is_shorter (length r.content) n)) [
        | inl e ↦ (
          s,
          rw (body_stage_lem r n a, e) (ap (λ st. some (conclude st timer modified r, s)) w.state),
          rw e stop,
        )
        | inr e ↦
            let keep = wants_keep_alive r.headers in
            let (s', done, ws) =
              analyse_post fuel timer modified (record r { state = analysis }) s w.method
                w.keep_alive f in
            (
              s',
              rw (body_stage_lem r n a, e)
                  (done ∙ ap (λ q. some (q, s')) (kept_state keep timer modified r)),
              rw e ws,
            )
      ]

  -- A new request, of which one read delivers the whole head of a POST, with a target of at most
  -- four bytes, a header block of at least one field and a length that `stoi` reads, and some of its
  -- body. On a kernel that takes all the bytes in the end, the call returns. What the parsers leave in
  -- the content counts, which is the body's bytes, or "\n\r\n" where none has come. Where that is
  -- shorter than the length, nothing is written and the request is armed again
  -- with the parsed head; else the whole answer has been written, and only if the headers ask for it
  -- the request is reset and armed again. To arm it, `epoll_mod` must succeed.
  pub handle_request_post :
      (fuel timer : ℕ) (modified blocked : Bool) (errno : Errno) (r : Request) (a : Ask) (n : ℤ)
      (s : S)
      → IsNew r
      → IsAsk a
      → a.posts ≡ true
      → let headers = assign_all (all_fields a) r.headers in
        let keep = wants_keep_alive headers in
        let short = is_shorter (length (left_over a.rest)) n in
        Announces headers n
        → length (post_reply keep) + measure s < fuel
        → (s' : S) × (handle_request write fuel files
              (received (text a) blocked)
              errno
              timer
              modified
              r
              s
            ≡ some (verdict_of short keep timer modified (parsed r a), s'))
          × Writes write s (if short then [] else post_reply keep) s'
  unfolding handle_request
  handle_request_post fuel timer modified blocked errno r a n s new h posts announced f =
      let waits : IsWaiting (parsed r a) = record {
        state = ap (λ b. if b then recv_body else analysis) posts;
        method = ap (λ b. if b then post else get) posts;
        keep_alive = new.keep_alive;
      } in
      let (s', e, ws) = settle_body fuel timer modified (parsed r a) n s waits announced f in
      (
        s',
        ap (λ st. settle write fuel files timer modified st s)
              (parse_stages-text r a errno blocked new h)
            ∙ ap
                (λ b.
                  settle write fuel files timer modified
                    (body_stage (if b then recv_body else analysis) (parsed r a)) s)
                posts
            ∙ e,
        ws,
      )

  -- A request that waits for its body, and some more bytes of it: while the content is still short
  -- of the length announced, nothing is written and the request is armed again with the bytes
  -- added; else the whole answer has been written, and the request is kept only if the headers ask
  -- for it. The kernel takes all the bytes in the end.
  pub handle_request_body :
      (fuel timer : ℕ) (modified blocked : Bool) (errno : Errno) (r : Request) (b : ℕ) (bs : Bytes)
      (n : ℤ) (s : S)
      → IsWaiting r
      → Announces r.headers n
      → let keep = wants_keep_alive r.headers in
        let longer = record r { content = r.content ++ b ∷ bs } in
        let short = is_shorter (length longer.content) n in
        length (post_reply keep) + measure s < fuel
        → (s' : S) × (handle_request write fuel files
              (received (b ∷ bs) blocked)
              errno
              timer
              modified
              r
              s
            ≡ some (verdict_of short keep timer modified longer, s'))
          × Writes write s (if short then [] else post_reply keep) s'
  unfolding handle_request read_stage
  handle_request_body fuel timer modified blocked errno r b bs n s w announced f =
      let longer = record r { content = r.content ++ b ∷ bs } in
      let waits : IsWaiting longer = record {
        state = w.state;
        method = w.method;
        keep_alive = w.keep_alive;
      } in
      let (s', e, ws) = settle_body fuel timer modified longer n s waits announced f in
      (
        s',
        ap (λ st. settle write fuel files timer modified st s) (parse_waiting longer w.state) ∙ e,
        ws,
      )
