-- ===== src/Request/Tests.antt =====
-- Runs of the request's parsers on concrete inputs, and the theorems at such inputs.
use high_performance_server.Prelude.{
  ℕ, ◌+◌, ◌≤◌, none, some, [], ◌∷◌, ◌++◌, Bytes, codes, length, drop, Avoids-of_find_byte, ◌≡◌, ◌≢◌,
  ◌⊎◌, refl, arith, find_byte, find_from, same,
}
use high_performance_server.Request.{
  Request, create, get_method, get, unknown, Table, assign, h_end_lf,
}
use high_performance_server.Request.Line.{
  uri_again, uri_error, uri_success, parse_request_line, take_line, remove_line, parse_method,
  check_method, parse_target, resolve, cut_query, parse_version, find_slash,
}
use high_performance_server.Request.Line.Outcome.{Outcome, parse_request_line-Outcome}
use high_performance_server.Request.Line.Target.{IsLine, resolved, parse_request_line_long}
use high_performance_server.Request.Head.{
  HeadFlag, header_again, header_error, header_success, parse_request_head,
}
use high_performance_server.Request.Head.Safe.{parse_request_head_safe}
use high_performance_server.Request.Head.Fields.{IsField}
use high_performance_server.Request.Head.RoundTrip.{render, assign_all, parse_request_head-render}
use high_performance_server.Request.Head.Resume.{in_name, parse_request_head_split}

abbrev fresh : Request
unfolding create
fresh = create 3 7 (codes "/")

abbrev holding : Bytes → Request
unfolding create
holding content = record fresh { content = content }

root_line : (parse_request_line (holding (codes "GET / HTTP/1.1\r\nHost: a\r\n"))).0 ≡ uri_success
unfolding parse_request_line take_line remove_line parse_method check_method get_method parse_target
    resolve cut_query parse_version find_slash create find_byte same
root_line = refl

short_target :
    (parse_request_line (holding (codes "GET /a?b HTTP/1.1\r\n"))).1.file_name ≡ codes "/a"
unfolding parse_request_line take_line remove_line parse_method check_method get_method parse_target
    resolve cut_query parse_version find_slash create find_byte same
short_target = refl

parse_request_line-Outcome_example :
    let r = holding (codes "GET / HTTP/1.1\r\n") in
    let o = find_from b'\r' r.content r.now_read_pos in
    let (f, r') = parse_request_line r in
    Outcome f r r'
    × ((f ≢ uri_success) ⊎ (r'.method ≢ unknown))
    × (((o ≡ none) × (f ≡ uri_again))
        ⊎ ((p : ℕ) × (o ≡ some p) × (f ≢ uri_again) × (r'.content ≡ drop (p + 1) r.content)))
parse_request_line-Outcome_example =
    parse_request_line-Outcome (holding (codes "GET / HTTP/1.1\r\n"))

abbrev host_line : Bytes
host_line = codes "\nHost: a\r\n\r\n"

-- a request that holds "GET", the target, HTTP/1.1 and the header lines
abbrev asking : Bytes → Request
asking target = holding ((codes "GET" ++ b' ' ∷ (target ++ codes " HTTP/1.1")) ++ b'\r' ∷ host_line)

long-IsLine :
    IsLine (asking (codes "/page.html")) (codes "GET") (codes "/page.html") b'1' host_line get
unfolding create get_method find_byte same
long-IsLine = record {
  from_start = refl;
  content = refl;
  one_line = Avoids-of_find_byte b'\r' (codes "GET /page.html HTTP/1.1") refl;
  method_word = Avoids-of_find_byte b' ' (codes "GET") refl;
  method_code = refl;
  method_known = λ e. cc;
  target_word = Avoids-of_find_byte b' ' (codes "/page.html") refl;
  target_slash = (0, refl);
}

parse_request_line_long_example :
    parse_request_line (asking (codes "/page.html"))
    ≡ (uri_error, resolved (asking (codes "/page.html")) (codes "/page.html") host_line get)
parse_request_line_long_example = parse_request_line_long b'1' long-IsLine refl (omega arith)

parse_request_head_safe_example :
    let r = holding (codes "a: b\r\n\r\n?") in
    (flag : HeadFlag) × (r' : Request) × (n : ℕ) × (parse_request_head r ≡ some (flag, r'))
    × (n ≤ length r.content)
    × (r'.content ≡ drop n r.content)
unfolding create
parse_request_head_safe_example = parse_request_head_safe (holding (codes "a: b\r\n\r\n?")) refl

abbrev host : Bytes
host = codes "Host"

abbrev block : Table
block = (host, codes "a") ∷ (codes "Connection", codes "keep-alive") ∷ []

host-IsField : IsField host (codes "a")
unfolding find_byte
host-IsField = record {
  name = ground arith;
  name_pos = omega arith;
  value = Avoids-of_find_byte b'\r' (codes "a") refl;
  value_pos = omega arith;
  value_short = omega arith;
}

connection-IsField : IsField (codes "Connection") (codes "keep-alive")
unfolding find_byte
connection-IsField = record {
  name = ground arith;
  name_pos = omega arith;
  value = Avoids-of_find_byte b'\r' (codes "keep-alive") refl;
  value_pos = omega arith;
  value_short = omega arith;
}

parse_request_head-render_example :
    let r = holding (codes "\n" ++ render block []) in
    parse_request_head r
    ≡ some (
      header_success,
      record r { h_state = h_end_lf; headers = assign_all block []; content = codes "\n\r\n" },
    )
unfolding create
parse_request_head-render_example =
    parse_request_head-render (holding (codes "\n" ++ render block [])) (codes "\n") host
      (codes "a") [] ((codes "Connection", codes "keep-alive") ∷ []) refl (refl, tt)
      (host-IsField, (connection-IsField, tt)) refl

parse_request_head_split_example :
    let r = holding (codes "\nHost: a\r\nConn") in
    let headers : Table = (host, codes "a") ∷ [] in
    let r' = in_name r headers (codes "\nConnection: close\r\n\r\n") in
    (parse_request_head r ≡ some (header_again, in_name r headers (codes "\nConn")))
    × (parse_request_head r' ≡ some (header_error, r'))
unfolding create assign
parse_request_head_split_example =
    parse_request_head_split (holding (codes "\nHost: a\r\nConn")) (codes "\n") host (codes "a")
      (codes "onn") (codes "ection: close\r\n\r\n") b'C' [] refl (refl, tt) (host-IsField, tt)
      (ground arith) refl
