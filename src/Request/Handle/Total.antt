-- ===== src/Request/Handle/Total.antt =====
-- `handleRequest` returns.
use high_performance_server.Prelude.{
  ℕ, zero, suc, ltb, Bool-cases, ◌+◌, ◌≤◌, ◌<◌, ◌==◌, Bool, true, false, Option, Option-cases, none,
  some, [], Bytes, codes, length, ◌≡◌, refl, arith, inl, inr,
}
use high_performance_server.Request.{
  Request, MethodCode, State, parse_uri, parse_headers, recv_body, analysis, finish, not_defined,
  post, get, unknown,
}
use high_performance_server.Request.Response.{
  Files, AnalysisFlag, analysis_error, analysis_success, analysis_undefined, send, send_both,
  send_failing, send_mapped, send_fitting, answer_found, read_memory, max_buff, send_content,
  post_header, get_header, error_header, wants_keep_alive, handle_error, answer_get, answer,
  note_keep_alive, analysis_request,
}
use high_performance_server.Request.Response.Bounds.{headers_fit, length-read_memory}
use high_performance_server.Request.Handle.{
  Errno, Stage, going, paused, broken, thrown, undefined, then_stage, read_stage, parse_stages,
  Verdict, deleted, crashed, conclude, analyse, settle, handle_request,
}
use high_performance_server.Util.{WriteResult, Received, writen}
use high_performance_server.Util.Write.{AtMost, Settles, IsSent, writen_total, measure-Writes}

module _ {S : Type 0} (write : Bytes → S → WriteResult × S) (measure : S → ℕ) (m : AtMost write)
    (e : Settles write measure) (fuel : ℕ) (files : Files) where
  abbrev Returns : {A : Type 0} → Option (A × S) → Type 0
  Returns {A} o = (a : A) × (s' : S) × (o ≡ some (a, s'))

  send_returns :
      (text : Bytes) (s : S)
      → length text + measure s < fuel
      → (b : Bool) × (s' : S) × (send write fuel text s ≡ some (b, s'))
        × (b ≡ true → measure s' ≤ measure s)
  unfolding send
  send_returns text s f =
      let (out, done, sent) = writen_total write measure fuel text s m e f in
      by_result out done sent
    where
      by_result :
          (out : Option ℕ × S)
          → writen write fuel text s ≡ some out
          → IsSent write text 0 s out
          → (b : Bool) × (s' : S) × (send write fuel text s ≡ some (b, s'))
            × (b ≡ true → measure s' ≤ measure s)
      by_result (some n, s') done (count, ws) =
          (n == length text, s', rw (done, send) refl, λ b. measure-Writes write measure e ws)
      by_result (none, s') done sent = (false, s', rw (done, send) refl, λ b. cc)

  send_both-Returns :
      (header body : Bytes) (s : S)
      → length header + length body + measure s < fuel
      → Returns (send_both write fuel header body s)
  unfolding send_both
  send_both-Returns header body s f =
      let (b, s', done, kept) = send_returns header s (omega arith) in next b s' done kept
    where
      last :
          (b : Bool) (s' s'' : S)
          → send write fuel header s ≡ some (true, s')
          → send write fuel body s' ≡ some (b, s'')
          → Returns (send_both write fuel header body s)
      last true s' s'' d d' = (analysis_success, s'', rw (d, d', send_both) refl)
      last false s' s'' d d' = (analysis_error, s'', rw (d, d', send_both) refl)

      next :
          (b : Bool) (s' : S)
          → send write fuel header s ≡ some (b, s')
          → (b ≡ true → measure s' ≤ measure s)
          → Returns (send_both write fuel header body s)
      next false s' d kept = (analysis_error, s', rw (d, send_both) refl)
      next true s' d kept =
          let (b, s'', d', _) = send_returns body s' (omega (arith, kept refl)) in
          last b s' s'' d d'

  send_failing-Returns :
      (text : Bytes) (s : S)
      → length text + measure s < fuel
      → Returns (send_failing write fuel text s)
  unfolding send_failing
  send_failing-Returns text s f =
      let (b, s', d, _) = send_returns text s f in (analysis_error, s', rw (d, send_failing) refl)

  handle_error-Returns :
      (s : S)
      → max_buff + measure s < fuel
      → Returns (handle_error write fuel 404 (codes "Not Found!") s)
  unfolding handle_error
  handle_error-Returns s f =
      send_failing-Returns (error_header 404 (codes "Not Found!")) s
        (omega (arith, (headers_fit true [] 0 (omega arith)).3))

  -- Fuel for the largest answer: a header of MAX_BUFF bytes and st_size bytes, or the text of a POST.
  pub record HasRoom (s : S) : Type 0 where
    pub text : max_buff + length send_content + measure s < fuel
    pub file :
        (name : Bytes) (size : ℕ) → files.stat name ≡ some size → max_buff + size + measure s < fuel

  send_mapped-Returns :
      (header : Bytes) (size : ℕ) (memory : Option (ℕ → ℕ)) (s : S)
      → length header + size + measure s < fuel
      → Returns (send_mapped write fuel header size memory s)
  unfolding send_mapped
  send_mapped-Returns header size (some memory) s f =
      send_both-Returns header (read_memory size memory) s
        (omega (arith, length-read_memory size memory))
  send_mapped-Returns header zero none s f = send_both-Returns header [] s (omega arith)
  send_mapped-Returns header (suc size) none s f = send_failing-Returns header s (omega arith)

  answer_found-Returns :
      (keep : Bool) (size : ℕ) (filetype : Option Bytes) (memory : Option (ℕ → ℕ)) (s : S)
      → max_buff + size + measure s < fuel
      → Returns (answer_found write fuel keep size filetype memory s)
  unfolding answer_found send_fitting
  answer_found-Returns keep size none memory s f = (analysis_undefined, s, refl)
  answer_found-Returns keep size (some filetype) memory s f =
      let header = get_header keep filetype size in
      elim (Bool-cases (ltb (length header) max_buff)) [
        | inl fits ↦
            rw (fits, answer_found, send_fitting)
              (send_mapped-Returns header size memory s (ground (arith, fits)))
        | inr over ↦ rw (over, answer_found, send_fitting) (analysis_undefined, s, refl)
      ]

  answer_get-Returns :
      (keep : Bool) (name : Bytes) (s : S)
      → HasRoom s
      → Returns (answer_get write fuel files keep name (files.stat name) s)
  unfolding answer_get
  answer_get-Returns keep name s room = elim (Option-cases (files.stat name)) [
    | inl gone ↦ rw (gone, answer_get) (handle_error-Returns s (omega (arith, room.text)))
    | inr (size, there) ↦
        rw (there, answer_get)
          (answer_found-Returns keep size (files.read_type name) (files.mapped name size) s
            (room.file name size there))
  ]

  answer-Returns :
      (method : MethodCode) (r : Request) (s : S)
      → HasRoom s
      → Returns (answer write fuel files method r s)
  unfolding answer
  answer-Returns post r s room =
      let keep = wants_keep_alive r.headers in
      send_both-Returns (post_header keep) send_content s
        (omega (arith, room.text, (headers_fit keep [] 0 (omega arith)).2))
  answer-Returns get r s room = answer_get-Returns (wants_keep_alive r.headers) r.file_name s room
  answer-Returns not_defined r s room = (analysis_error, s, refl)
  answer-Returns unknown r s room = (analysis_error, s, refl)

  analysis_request_returns :
      (r : Request) (s : S)
      → HasRoom s
      → (flag : AnalysisFlag) × (s' : S) × (analysis_request write fuel files r s
          ≡ some (flag, note_keep_alive r, s'))
  unfolding analysis_request
  analysis_request_returns r s room =
      let (flag, s', d) = answer-Returns r.method r s room in
      (flag, s', rw (d, analysis_request) refl)

  analyse-Returns :
      (timer : ℕ) (modified : Bool) (st : State) (r : Request) (s : S)
      → HasRoom s
      → Returns (analyse write fuel files timer modified st r s)
  unfolding analyse
  analyse-Returns timer modified analysis r s room =
      let (flag, s', d) = analysis_request_returns r s room in by_flag flag s' d
    where
      by_flag :
          (flag : AnalysisFlag) (s' : S)
          → analysis_request write fuel files r s ≡ some (flag, note_keep_alive r, s')
          → Returns (analyse write fuel files timer modified analysis r s)
      by_flag analysis_error s' d = (deleted, s', rw (d, analyse) refl)
      by_flag analysis_undefined s' d = (crashed, s', rw (d, analyse) refl)
      by_flag analysis_success s' d = (
        conclude finish timer modified (record (note_keep_alive r) { state = finish }),
        s',
        rw (d, analyse) refl,
      )
  analyse-Returns timer modified parse_uri r s room = (_, s, refl)
  analyse-Returns timer modified parse_headers r s room = (_, s, refl)
  analyse-Returns timer modified recv_body r s room = (_, s, refl)
  analyse-Returns timer modified finish r s room = (_, s, refl)

  settle-Returns :
      (timer : ℕ) (modified : Bool) (st : Stage) (s : S)
      → HasRoom s
      → Returns (settle write fuel files timer modified st s)
  unfolding settle
  settle-Returns timer modified (going r) s room = analyse-Returns timer modified r.state r s room
  settle-Returns timer modified (paused r) s room = (_, s, refl)
  settle-Returns timer modified (broken r) s room = (_, s, refl)
  settle-Returns timer modified thrown s room = (_, s, refl)
  settle-Returns timer modified undefined s room = (_, s, refl)

  -- `handleRequest` comes to a verdict for every request, whatever it has read and in whatever state
  -- it is: the request is deleted, it is kept, or the call crashes. This holds on a kernel that takes
  -- no more than it is offered and does not hold the calls of `write` up for ever, with fuel for the
  -- largest answer.
  pub handle_request_total :
      (read : Received) (errno : Errno) (timer : ℕ) (modified : Bool) (r : Request) (s : S)
      → HasRoom s
      → (v : Verdict) × (s' : S) × (handle_request write fuel files read errno timer modified r s
          ≡ some (v, s'))
  unfolding handle_request
  handle_request_total read errno timer modified r s room =
      settle-Returns timer modified (then_stage (read_stage read errno r) parse_stages) s room
