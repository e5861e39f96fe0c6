-- ===== src/Request/Handle.antt =====
-- `requestData::handleRequest` of src/requestData.cpp, as the stages of its do-while(false) body.
-- `Received` is what `readn` returned; `errno` is what it holds if `readn` met no EAGAIN, left by
-- an earlier call. `epoll_mod` and the new timer's address are passed in.
pub mod Progress
pub mod Whole
pub mod Finish
pub mod Get
pub mod Post
pub mod Session
pub mod Total
mod Tests
mod Runs
use high_performance_server.Prelude.{
  ℕ, zero, suc, ◌+◌, ◌*◌, ◌-◌, ◌==◌, ltb, leb, if◌then◌else◌, Bool, true, false, ◌&&◌, ◌||◌, Option,
  none, some, List, [], ◌∷◌, ◌++◌, Bytes, codes, length,
}
use high_performance_server.Prelude.Int.{ℤ, pos, negsuc}
use high_performance_server.Request.{
  Request, MethodCode, post, State, parse_uri, parse_headers, recv_body, analysis, finish, Table,
  find, reset,
}
use high_performance_server.Request.Line.{
  LineFlag, uri_again, uri_error, uri_success, parse_request_line,
}
use high_performance_server.Request.Head.{
  HeadFlag, header_again, header_error, header_success, parse_request_head,
}
use high_performance_server.Request.Response.{
  AnalysisFlag, analysis_error, analysis_success, analysis_undefined, Files, analysis_request,
}
use high_performance_server.Util.{Received, received, failed, WriteResult}

abbrev pub max_read_times : ℕ
max_read_times = 200

-- The values of `errno` that the code tells apart.
pub data Errno : Type 0 where
  no_error again other : Errno

-- Where a stage leaves the body: it goes on, it leaves by `break` or `continue` with no error, it
-- leaves with `is_error` set, `stoi` throws, or the behaviour is undefined.
pub data Stage : Type 0 where
  going paused broken : Request → Stage
  thrown undefined : Stage

abbrev pub then_stage : Stage → (Request → Stage) → Stage
then_stage (going r) next = next r
then_stage (paused r) next = paused r
then_stage (broken r) next = broken r
then_stage thrown next = thrown
then_stage undefined next = undefined

-- nothing was read: `errno` decides
unfoldable pub read_nothing : Errno → Request → Stage
read_nothing again r =
    if ltb max_read_times r.read_times
    then broken r
    else paused (record r { read_times = r.read_times + 1 })
read_nothing other r = broken r
read_nothing no_error r = paused r

unfoldable pub read_stage : Received → Errno → Request → Stage
unfolding read_nothing
read_stage failed errno r = broken r
read_stage (received [] true) errno r = read_nothing again r
read_stage (received [] false) errno r = read_nothing errno r
read_stage (received (b ∷ bs) _) errno r = going (record r { content = r.content ++ b ∷ bs })

abbrev pub line_verdict : LineFlag × Request → Stage
line_verdict (uri_again, r) = paused r
line_verdict (uri_error, r) = broken r
line_verdict (uri_success, r) = going r

abbrev pub head_verdict : Option (HeadFlag × Request) → Stage
head_verdict none = undefined
head_verdict (some (header_again, r)) = paused r
head_verdict (some (header_error, r)) = broken r
head_verdict (some (header_success, r)) = going r

abbrev pub is_post : MethodCode → Bool
is_post post = true
is_post _ = false

unfoldable pub line_stage : State → Request → Stage
line_stage parse_uri r = line_verdict (parse_request_line r)
line_stage _ r = going r

unfoldable pub head_stage : State → Request → Stage
head_stage parse_headers r =
    then_stage (head_verdict (parse_request_head r))
      (λ r. going (record r { state = if is_post r.method then recv_body else analysis }))
head_stage _ r = going r

-- `std::stoi`: blanks, a sign and digits; `none` is an exception.
unfoldable pub digits_value : ℕ → Bytes → ℕ
digits_value n [] = n
digits_value n (c ∷ cs) =
    let rest = digits_value (n * 10 + (c - b'0')) cs in if leb b'0' c && leb c b'9' then rest else n

abbrev pub starts_digit : Bytes → Bool
starts_digit [] = false
starts_digit (c ∷ cs) = leb b'0' c && leb c b'9'

abbrev pub negate : ℕ → ℤ
negate zero = pos 0
negate (suc n) = negsuc n

unfoldable pub unsigned_value : Bytes → Option ℕ
unfolding digits_value
unsigned_value s = if starts_digit s then some (digits_value 0 s) else none

unfoldable pub signed_value : Bytes → Option ℤ
unfolding unsigned_value
signed_value s = elim (unsigned_value s) [
  | none ↦ none
  | some n ↦ if ltb n 2147483648 then some (pos n) else none
]

unfoldable pub negative_value : Bytes → Option ℤ
unfolding unsigned_value
negative_value s = elim (unsigned_value s) [
  | none ↦ none
  | some n ↦ if ltb 2147483648 n then none else some (negate n)
]

abbrev pub is_space : ℕ → Bool
is_space c = c == b' ' || (leb 9 c && leb c 13)

unfoldable pub stoi : Bytes → Option ℤ
unfolding signed_value negative_value
stoi [] = none
stoi (c ∷ cs) =
    let rest = stoi cs in
    if is_space c
    then rest
    else if c == b'-'
    then negative_value cs
    else if c == b'+'
    then signed_value cs
    else signed_value (c ∷ cs)

-- `content.size() < content_length`, where a negative length becomes a great `size_t`
abbrev pub is_shorter : ℕ → ℤ → Bool
is_shorter size (pos n) = ltb size n
is_shorter size (negsuc n) = true

abbrev pub body_verdict : Option ℤ → Request → Stage
body_verdict none r = thrown
body_verdict (some n) r =
    if is_shorter (length r.content) n then paused r else going (record r { state = analysis })

unfoldable pub body_stage : State → Request → Stage
unfolding find
body_stage recv_body r = elim (find (codes "Content-length") r.headers) [
  | none ↦ broken r
  | some v ↦ body_verdict (stoi v) r
]
body_stage _ r = going r

-- the stages that only parse
unfoldable pub parse_stages : Request → Stage
unfolding line_stage head_stage body_stage
parse_stages r =
    then_stage (line_stage r.state r)
      (λ r. then_stage (head_stage r.state r) (λ r. body_stage r.state r))

-- How the call ends: the request is destroyed, it stays and waits for its next event, or the
-- behaviour is that of an exception nobody catches or undefined.
pub data Verdict : Type 0 where
  deleted : Verdict
  rearmed : Request → Verdict
  crashed : Verdict

-- The end of the function for a request that is kept: its new timer, and `epoll_mod`.
unfoldable pub rearm : ℕ → Bool → Request → Verdict
rearm timer modified r = if modified then rearmed (record r { timer = some timer }) else deleted

-- "if (state == STATE_FINISH)"
unfoldable pub conclude : State → ℕ → Bool → Request → Verdict
unfolding rearm
conclude finish timer modified r = if r.keep_alive then rearm timer modified (reset r) else deleted
conclude _ timer modified r = rearm timer modified r

module _ {S : Type 0} (write : Bytes → S → WriteResult × S) (fuel : ℕ) (files : Files) where
  -- the analysis and what follows the body
  unfoldable pub analyse : ℕ → Bool → State → Request → S → Option (Verdict × S)
  unfolding conclude
  analyse timer modified analysis r s = elim (analysis_request write fuel files r s) [
    | none ↦ none
    | some (analysis_error, r', s') ↦ some (deleted, s')
    | some (analysis_undefined, r', s') ↦ some (crashed, s')
    | some (analysis_success, r', s') ↦
        some (conclude finish timer modified (record r' { state = finish }), s')
  ]
  analyse timer modified state r s = some (conclude state timer modified r, s)

  unfoldable pub settle : ℕ → Bool → Stage → S → Option (Verdict × S)
  unfolding analyse
  settle timer modified (going r) s = analyse timer modified r.state r s
  settle timer modified (paused r) s = some (conclude r.state timer modified r, s)
  settle timer modified (broken r) s = some (deleted, s)
  settle timer modified thrown s = some (crashed, s)
  settle timer modified undefined s = some (crashed, s)

  unfoldable pub handle_request : Received → Errno → ℕ → Bool → Request → S → Option (Verdict × S)
  unfolding settle read_stage parse_stages
  handle_request read errno timer modified r s =
      settle timer modified (then_stage (read_stage read errno r) parse_stages) s
