-- ===== src/Failed/Tests.antt =====
-- The abandoned server on concrete requests, and the theorems there.
use high_performance_server.Prelude.{
  ℕ, ◌≤◌, Bool, true, false, Option, none, some, List, [], ◌∷◌, ◌++◌, Bytes, codes, length, ◌≡◌,
  refl, same, find_byte, Avoids-of_find_byte,
}
use high_performance_server.Prelude.Int.{pos}
use high_performance_server.Request.{Request, create, recv_body, find}
use high_performance_server.Request.Line.{uri_error}
use high_performance_server.Request.Response.{Files}
use high_performance_server.Request.Handle.{again, stoi, digits_value, unsigned_value, signed_value}
use high_performance_server.Util.{ReadResult, WriteResult, received}
use high_performance_server.Failed.{parse_uri_line, find_word, handle_request}
use high_performance_server.Failed.Uri.{HasLine, parse_uri_line_get}
use high_performance_server.Failed.Spin.{IsShort, handle_request_spins}
use high_performance_server.Failed.Cgi.{old_get_line, accept_request, unimplemented, Disk}
use high_performance_server.Failed.Cgi.Refused.{accept_request_refuses}

abbrev fresh : Request
unfolding create
fresh = create 3 7 (codes "/")

abbrev asking : Bytes → Request
asking line = record fresh { content = line ++ b'\r' ∷ codes "\nHost: a\r\n\r\n" }

get_line-HasLine :
    HasLine (asking (codes "GET / HTTP/1.1")) (codes "GET / HTTP/1.1") (codes "\nHost: a\r\n\r\n")
unfolding create find_byte
get_line-HasLine = record {
  from_start = refl;
  content = refl;
  one_line = Avoids-of_find_byte b'\r' (codes "GET / HTTP/1.1") refl;
}

post_line-HasLine :
    HasLine
      (asking (codes "POST /form?a=1 HTTP/1.1"))
      (codes "POST /form?a=1 HTTP/1.1")
      (codes "\nHost: a\r\n\r\n")
unfolding create find_byte
post_line-HasLine = record {
  from_start = refl;
  content = refl;
  one_line = Avoids-of_find_byte b'\r' (codes "POST /form?a=1 HTTP/1.1") refl;
}

parse_uri_line_get_example :
    parse_uri_line (asking (codes "GET / HTTP/1.1"))
    ≡ (uri_error, record fresh { content = codes "\nHost: a\r\n\r\n" })
unfolding find_word
parse_uri_line_get_example =
    parse_uri_line_get (asking (codes "GET / HTTP/1.1")) (codes " / HTTP/1.1")
      (codes "\nHost: a\r\n\r\n") get_line-HasLine refl

abbrev waiting : Request
waiting = record fresh {
  state = recv_body;
  headers = (codes "Content-length", codes "10") ∷ [];
  content = codes "abc";
}

waiting-IsShort : IsShort waiting
unfolding same find stoi signed_value unsigned_value digits_value
waiting-IsShort = record { state = refl; field = (codes "10", pos 10, refl, refl, refl) }

abbrev files : Files
files = record { stat = λ _. none; read_type = λ _. none; mapped = λ name size. none }

handle_request_spins_example :
    handle_request
      (λ s. (received [] true, s))
      (λ s. again)
      (λ b s. (some (length b), s))
      files
      1000
      42
      true
      waiting
      (codes "wire")
    ≡ none
handle_request_spins_example =
    handle_request_spins (λ s. (received [] true, s)) (λ s. again) (λ b s. (some (length b), s))
      files 1000 42 true waiting (codes "wire") (λ t. refl) waiting-IsShort

abbrev reading : ℕ → Bytes → ReadResult × Bytes
reading n s = (ReadResult.got s, [])

abbrev writing : Bytes → Bytes → WriteResult × Bytes
writing b s = (WriteResult.took (length b), s ++ b)

-- a socket with bytes to come, and what was sent
abbrev Socket : Type 0
Socket = Bytes × List Bytes

abbrev recv_from : Bool → Socket → Option ℕ × Socket
recv_from peek ([], sent) = (none, ([], sent))
recv_from true (c ∷ cs, sent) = (some c, (c ∷ cs, sent))
recv_from false (c ∷ cs, sent) = (some c, (cs, sent))

abbrev send_to : Bytes → Socket → Socket
send_to text (bytes, sent) = (bytes, text ∷ sent)

abbrev disk : Disk
disk = record { stat = λ _. none; fopen = λ _. none }

abbrev asked : Socket
asked = (codes "GET / HTTP/1.0\r\n\r\n", [])

accept_request_refuses_example :
    (line : Bytes) × (s' : Socket) × (old_get_line recv_from 9 1024 asked ≡ some (line, s'))
    × (length line ≤ 1)
    × (accept_request recv_from send_to (λ s. s) 9 disk [] asked ≡ some (unimplemented send_to s'))
accept_request_refuses_example = accept_request_refuses recv_from send_to (λ s. s) 7 disk [] asked
