-- ===== src/Request/Handle/Session.antt =====
-- A kept connection: one call of `handleRequest` for each request that comes, on what the call
-- before has left of the request.
use high_performance_server.Prelude.{
  ℕ, ltb, true, false, Option, none, some, List, [], ◌∷◌, ◌++◌, Bytes, length, ◌≡◌,
}
use high_performance_server.Request.{Request, reset}
use high_performance_server.Request.Line.Target.{file_of}
use high_performance_server.Request.Head.RoundTrip.{assign_all}
use high_performance_server.Request.Response.{Files, wants_keep_alive, get_header, max_buff}
use high_performance_server.Request.Response.Sent.{reply}
use high_performance_server.Request.Handle.{
  again, Verdict, deleted, rearmed, crashed, handle_request,
}
use high_performance_server.Request.Handle.Whole.{IsNew, Ask, IsAsk, text, all_fields, parsed}
use high_performance_server.Util.{WriteResult, received}

-- A request that waits for the next whole one, as the constructor or `reset` leaves it.
pub record IsIdle (r : Request) : Type 0 where
  pub new : IsNew r
  pub headers : r.headers ≡ []
  pub file_name : r.file_name ≡ []

-- The file that a new request's target names.
abbrev pub named : Ask → Bytes
named a = file_of a.target []

-- A GET with "Connection: keep-alive" for a file that is there and can be mapped, where a type is
-- read with which the header has room in its array.
pub record IsKept (files : Files) (a : Ask) : Type 0 where
  pub ask : IsAsk a
  pub gets : a.posts ≡ false
  pub keep : wants_keep_alive (assign_all (all_fields a) []) ≡ true
  pub size : ℕ
  pub found : files.stat (named a) ≡ some size
  pub type : Bytes
  pub typed : files.read_type (named a) ≡ some type
  pub fits : ltb (length (get_header true type size)) max_buff ≡ true
  pub memory : ℕ → ℕ
  pub mapped : files.mapped (named a) size ≡ some memory

abbrev pub AreKept : Files → List Ask → Type 0
AreKept files [] = Unit
AreKept files (a ∷ asks) = IsKept files a × AreKept files asks

-- the answers one behind the other
abbrev pub replies : Files → List Ask → Bytes
replies files [] = []
replies files (a ∷ asks) = reply files true (named a) (files.stat (named a)) ++ replies files asks

module _ {S : Type 0} (write : Bytes → S → WriteResult × S) (fuel : ℕ) (files : Files)
    (timer : ℕ) where
  -- Each text is there as a whole when its call reads, and `epoll_mod` succeeds.
  unfoldable pub session : List Ask → Request → S → Option (Verdict × S)
  session [] r s = some (rearmed r, s)
  session (a ∷ asks) r s =
      elim (handle_request write fuel files (received (text a) true) again timer true r s) [
        | none ↦ none
        | some (rearmed r', s') ↦ session asks r' s'
        | some (deleted, s') ↦ some (deleted, s')
        | some (crashed, s') ↦ some (crashed, s')
      ]

-- what a kept request becomes
abbrev next_of : ℕ → Request → Ask → Request
next_of timer r a = record (reset (parsed r a)) { timer = some timer }
