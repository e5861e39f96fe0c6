-- ===== src/Request/Handle/Progress.antt =====
-- In which states a request waits for its next event.
use mathlib.Core.Path.{subst}
use high_performance_server.Prelude.{
  ℕ, ◌+◌, ◌≤◌, ltb, if◌then◌else◌, Bool, true, false, Option, none, some, [], ◌∷◌, ◌++◌, Bytes,
  codes, length, ◌≡◌, refl, ◌∙◌, ◌⊎◌, inl, inr, arith, Bool-cases,
}
use high_performance_server.Prelude.Int.{ℤ}
use high_performance_server.Request.{
  Request, State, parse_uri, parse_headers, recv_body, analysis, finish, h_start, find, reset,
}
use high_performance_server.Request.Line.{
  LineFlag, uri_again, uri_error, uri_success, parse_request_line,
}
use high_performance_server.Request.Line.Outcome.{Outcome, parse_request_line-Outcome}
use high_performance_server.Request.Head.{
  HeadFlag, header_again, header_error, header_success, finish_head, parse_request_head,
}
use high_performance_server.Request.Response.{
  AnalysisFlag, analysis_error, analysis_success, analysis_undefined, Files, analysis_request,
}
use high_performance_server.Request.Handle.{
  max_read_times, Errno, again, other, no_error, Stage, going, paused, broken, thrown, then_stage,
  read_nothing, read_stage, line_verdict, head_verdict, is_post, line_stage, head_stage, stoi,
  body_verdict, body_stage, is_shorter, parse_stages, Verdict, crashed, deleted, rearmed, rearm,
  conclude, analyse, settle, handle_request,
}
use high_performance_server.Util.{Received, received, WriteResult}

abbrev pub IsWaiting : State → Type 0
IsWaiting parse_uri = Unit
IsWaiting parse_headers = Unit
IsWaiting recv_body = Unit
IsWaiting _ = ⊥

-- A request between two events: its state is one that waits for bytes, the header scanner has not
-- begun before the request line is read, and the empty reads are counted up to one past the limit.
pub record IsReady (r : Request) : Type 0 where
  pub waiting : IsWaiting r.state
  pub scan_fresh : r.state ≡ parse_uri → r.h_state ≡ h_start
  pub read_times_le : r.read_times ≤ max_read_times + 1

abbrev BehindLine : State → Type 0
BehindLine parse_headers = Unit
BehindLine recv_body = Unit
BehindLine _ = ⊥

abbrev BehindHead : State → Type 0
BehindHead recv_body = Unit
BehindHead analysis = Unit
BehindHead _ = ⊥

-- What a stage leaves: a request that goes on is in one of the states `P`.
abbrev Goes : (State → Type 0) → Stage → Type 0
Goes P (going r) = P r.state × (r.read_times ≤ max_read_times + 1)
Goes P (paused r) = IsReady r
Goes P _ = Unit

line_verdict-Goes :
    (r : Request)
    → IsReady r
    → r.state ≡ parse_uri
    → Goes BehindLine (line_verdict (parse_request_line r))
line_verdict-Goes r i e = cases (parse_request_line r) (parse_request_line-Outcome r).0
  where
    cases : (t : LineFlag × Request) → Outcome t.0 r t.1 → Goes BehindLine (line_verdict t)
    cases (uri_again, r') o = rw o i
    cases (uri_error, r') o = tt
    cases (uri_success, r') o = (rw o.0 tt, omega (arith, o.2, i.read_times_le))

line_stage-Goes :
    (st : State) (r : Request) → IsReady r → r.state ≡ st → Goes BehindLine (line_stage st r)
unfolding line_stage
line_stage-Goes parse_uri r i e = line_verdict-Goes r i e
line_stage-Goes parse_headers r i e = (rw e tt, i.read_times_le)
line_stage-Goes recv_body r i e = (rw e tt, i.read_times_le)
line_stage-Goes analysis r i e = absurd (rw e at i.waiting)
line_stage-Goes finish r i e = absurd (rw e at i.waiting)

-- The header scanner writes neither the state nor the count of reads.
parse_request_head_keeps :
    (r r' : Request) (f : HeadFlag)
    → parse_request_head r ≡ some (f, r')
    → (r'.state ≡ r.state) × (r'.read_times ≡ r.read_times)
unfolding parse_request_head finish_head
parse_request_head_keeps r r' f h = ground arith

IsReady-behind :
    (r : Request)
    → (r.state ≡ parse_headers) ⊎ (r.state ≡ recv_body)
    → r.read_times ≤ max_read_times + 1
    → IsReady r
IsReady-behind r (inl e) l = record { waiting = rw e tt; scan_fresh = λ u. cc; read_times_le = l }
IsReady-behind r (inr e) l = record { waiting = rw e tt; scan_fresh = λ u. cc; read_times_le = l }

head_stage-Goes :
    (st : State) (r : Request)
    → BehindLine r.state
    → r.read_times ≤ max_read_times + 1
    → r.state ≡ st
    → Goes BehindHead (head_stage st r)
unfolding head_stage
head_stage-Goes parse_uri r b l e = absurd (rw e at b)
head_stage-Goes parse_headers r b l e = cases (parse_request_head r) refl
  where
    next : (b : Bool) → BehindHead (if b then recv_body else analysis)
    next true = tt
    next false = tt

    cases :
        (o : Option (HeadFlag × Request))
        → parse_request_head r ≡ o
        → Goes BehindHead (
            then_stage
              (head_verdict o)
              (λ r. going (record r { state = if is_post r.method then recv_body else analysis })))
    cases none h = tt
    cases (some (header_again, r')) h =
        let (st, n) = parse_request_head_keeps r r' header_again h in
        IsReady-behind r' (inl (st ∙ e)) (omega arith)
    cases (some (header_error, r')) h = tt
    cases (some (header_success, r')) h =
        (next (is_post r'.method), omega (arith, parse_request_head_keeps r r' header_success h))
head_stage-Goes recv_body r b l e = (rw e tt, l)
head_stage-Goes analysis r b l e = absurd (rw e at b)
head_stage-Goes finish r b l e = absurd (rw e at b)

abbrev IsAnalysis : State → Type 0
IsAnalysis analysis = Unit
IsAnalysis _ = ⊥

body_verdict-Goes :
    (n : Option ℤ) (r : Request)
    → r.state ≡ recv_body
    → r.read_times ≤ max_read_times + 1
    → Goes IsAnalysis (body_verdict n r)
body_verdict-Goes none r e l = tt
body_verdict-Goes (some n) r e l = elim (Bool-cases (is_shorter (length r.content) n)) [
  | inl short ↦ rw short (IsReady-behind r (inr e) l)
  | inr long ↦ rw long (tt, l)
]

body_stage-Goes :
    (st : State) (r : Request)
    → BehindHead r.state
    → r.read_times ≤ max_read_times + 1
    → r.state ≡ st
    → Goes IsAnalysis (body_stage st r)
unfolding body_stage
body_stage-Goes parse_uri r b l e = absurd (rw e at b)
body_stage-Goes parse_headers r b l e = absurd (rw e at b)
body_stage-Goes recv_body r b l e = cases (find (codes "Content-length") r.headers)
  where
    cases :
        (o : Option Bytes)
        → Goes IsAnalysis (elim o [ none ↦ broken r | some v ↦ body_verdict (stoi v) r ])
    cases none = tt
    cases (some v) = body_verdict-Goes (stoi v) r e l
body_stage-Goes analysis r b l e = (rw e tt, l)
body_stage-Goes finish r b l e = absurd (rw e at b)

then_stage-Goes :
    (P Q : State → Type 0) (g : Stage) (next : Request → Stage)
    → Goes P g
    → ((r : Request) → P r.state → r.read_times ≤ max_read_times + 1 → Goes Q (next r))
    → Goes Q (then_stage g next)
then_stage-Goes P Q (going r) next g h = h r g.0 g.1
then_stage-Goes P Q (paused r) next g h = g
then_stage-Goes P Q (broken r) next g h = tt
then_stage-Goes P Q thrown next g h = tt
then_stage-Goes P Q Stage.undefined next g h = tt

parse_stages-Goes : (r : Request) → IsReady r → Goes IsAnalysis (parse_stages r)
unfolding parse_stages
parse_stages-Goes r i =
    then_stage-Goes BehindLine IsAnalysis (line_stage r.state r) _
      (line_stage-Goes r.state r i refl)
      λ r b l.
        then_stage-Goes BehindHead IsAnalysis (head_stage r.state r) _
          (head_stage-Goes r.state r b l refl) λ r b l. body_stage-Goes r.state r b l refl

empty_read-Goes :
    (errno : Errno) (r : Request)
    → IsReady r
    → Goes IsAnalysis (then_stage (read_nothing errno r) parse_stages)
unfolding read_nothing
empty_read-Goes again r i = elim (Bool-cases (ltb max_read_times r.read_times)) [
  | inl over ↦ rw over tt
  | inr under ↦
      rw under
        (record { waiting = i.waiting; scan_fresh = i.scan_fresh; read_times_le = ground arith })
]
empty_read-Goes other r i = tt
empty_read-Goes no_error r i = i

read_stage-Goes :
    (read : Received) (errno : Errno) (r : Request)
    → IsReady r
    → Goes IsAnalysis (then_stage (read_stage read errno r) parse_stages)
unfolding read_stage
read_stage-Goes Received.failed errno r i = tt
read_stage-Goes (received [] true) errno r i = empty_read-Goes again r i
read_stage-Goes (received [] false) errno r i = empty_read-Goes errno r i
read_stage-Goes (received (b ∷ bs) flag) errno r i =
    parse_stages-Goes (record r { content = r.content ++ b ∷ bs })
      (record { waiting = i.waiting; scan_fresh = i.scan_fresh; read_times_le = i.read_times_le })

-- What a verdict says of a request that stays.
abbrev Kept : ℕ → Bool → Verdict → Type 0
Kept timer modified (rearmed r) = IsReady r × (r.timer ≡ some timer) × (modified ≡ true)
Kept timer modified _ = Unit

rearm-Kept :
    (timer : ℕ) (modified : Bool) (r : Request)
    → IsReady r
    → Kept timer modified (rearm timer modified r)
unfolding rearm
rearm-Kept timer true r i = (
  record { waiting = i.waiting; scan_fresh = i.scan_fresh; read_times_le = i.read_times_le },
  refl,
  refl,
)
rearm-Kept timer false r i = tt

reset-IsReady : (r : Request) → IsReady (reset r)
unfolding reset
reset-IsReady r = record { waiting = tt; scan_fresh = λ _. refl; read_times_le = omega arith }

finish-Kept :
    (timer : ℕ) (modified : Bool) (r : Request)
    → Kept timer modified (conclude finish timer modified r)
unfolding conclude reset
finish-Kept timer modified r = elim (Bool-cases r.keep_alive) [
  | inl keep ↦ rw (keep, conclude) (rearm-Kept timer modified (reset r) (reset-IsReady r))
  | inr drop ↦ rw (drop, conclude) tt
]

conclude-Kept :
    (st : State) (timer : ℕ) (modified : Bool) (r : Request)
    → IsReady r
    → Kept timer modified (conclude st timer modified r)
unfolding conclude
conclude-Kept finish timer modified r i = finish-Kept timer modified r
conclude-Kept _ timer modified r i = rearm-Kept timer modified r i

module _ {S : Type 0} (write : Bytes → S → WriteResult × S) (fuel : ℕ) (files : Files) where
  abbrev KeptIn : ℕ → Bool → Option (Verdict × S) → Type 0
  KeptIn timer modified none = Unit
  KeptIn timer modified (some (v, s)) = Kept timer modified v

  analyse-Kept :
      (timer : ℕ) (modified : Bool) (st : State) (r : Request) (s : S)
      → IsAnalysis st
      → KeptIn timer modified (analyse write fuel files timer modified st r s)
  unfolding analyse
  analyse-Kept timer modified analysis r s a = cases (analysis_request write fuel files r s)
    where
      cases :
          (o : Option (AnalysisFlag × Request × S))
          → KeptIn timer modified (elim o [
            | none ↦ none
            | some (analysis_error, r', s') ↦ some (deleted, s')
            | some (analysis_undefined, r', s') ↦ some (crashed, s')
            | some (analysis_success, r', s') ↦
                some (conclude finish timer modified (record r' { state = finish }), s')
          ])
      cases none = tt
      cases (some (analysis_error, r', s')) = tt
      cases (some (analysis_undefined, r', s')) = tt
      cases (some (analysis_success, r', s')) =
          finish-Kept timer modified (record r' { state = finish })
  analyse-Kept timer modified parse_uri r s a = absurd a
  analyse-Kept timer modified parse_headers r s a = absurd a
  analyse-Kept timer modified recv_body r s a = absurd a
  analyse-Kept timer modified finish r s a = absurd a

  settle-Kept :
      (timer : ℕ) (modified : Bool) (g : Stage) (s : S)
      → Goes IsAnalysis g
      → KeptIn timer modified (settle write fuel files timer modified g s)
  unfolding settle
  settle-Kept timer modified (going r) s g = analyse-Kept timer modified r.state r s g.0
  settle-Kept timer modified (paused r) s g = conclude-Kept r.state timer modified r g
  settle-Kept timer modified (broken r) s g = tt
  settle-Kept timer modified thrown s g = tt
  settle-Kept timer modified Stage.undefined s g = tt

  -- A request that `handleRequest` keeps waits in a state that takes more bytes, with the new
  -- timer, and registered with epoll again; it is never kept in the analysis or finished state,
  -- and its empty reads are counted to one past the limit at most.
  pub handle_request_rearmed :
      (read : Received) (errno : Errno) (timer : ℕ) (modified : Bool) (r r' : Request) (s s' : S)
      → IsReady r
      → handle_request write fuel files read errno timer modified r s ≡ some (rearmed r', s')
      → IsReady r' × (r'.timer ≡ some timer) × (modified ≡ true)
  unfolding handle_request
  handle_request_rearmed read errno timer modified r r' s s' i h = subst (KeptIn timer modified) h (
      settle-Kept timer modified (then_stage (read_stage read errno r) parse_stages) s
        (read_stage-Goes read errno r i))
