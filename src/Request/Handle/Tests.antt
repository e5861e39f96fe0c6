-- ===== src/Request/Handle/Tests.antt =====
-- `handleRequest` on concrete requests, and the theorems there.
use high_performance_server.Prelude.{
  [], ◌++◌, none, some, true, Bytes, codes, length, find_byte, ◌≡◌, refl, arith,
}
use high_performance_server.Request.{Request, create}
use high_performance_server.Request.Line.{parse_request_line, take_line}
use high_performance_server.Request.Response.{Files}
use high_performance_server.Request.Handle.{no_error, rearmed, handle_request}
use high_performance_server.Request.Handle.Progress.{IsReady, handle_request_rearmed}
use high_performance_server.Util.{WriteResult, Received, received}

-- a kernel that takes all it is offered, and keeps it
abbrev wire : Bytes → Bytes → WriteResult × Bytes
wire bytes sent = (WriteResult.took (length bytes), sent ++ bytes)

abbrev files : Files
files = record { stat = λ _. none; read_type = λ _. none; mapped = λ name size. none }

abbrev fresh : Request
unfolding create
fresh = create 3 7 (codes "/")

abbrev whole : Bytes
whole = codes "GET / HTTP/1.1\r\nHost: a\r\nConnection: keep-alive\r\n\r\n"

abbrev partly : Received
partly = received (codes "GET / HT") true

partly_rearmed :
    handle_request wire 100 files partly no_error 42 true fresh []
    ≡ some (rearmed (record fresh { content = codes "GET / HT"; timer = some 42 }), [])
unfolding handle_request parse_request_line take_line create find_byte
partly_rearmed = refl

fresh-IsReady : IsReady fresh
unfolding create
fresh-IsReady = record { waiting = tt; scan_fresh = λ e. refl; read_times_le = omega arith }

handle_request_rearmed_example :
    IsReady (record fresh { content = codes "GET / HT"; timer = some 42 })
    × ((record fresh { content = codes "GET / HT"; timer = some 42 }).timer ≡ some 42)
    × (true ≡ true)
handle_request_rearmed_example =
    handle_request_rearmed wire 100 files partly no_error 42 true fresh
      (record fresh { content = codes "GET / HT"; timer = some 42 }) [] [] fresh-IsReady
      partly_rearmed
