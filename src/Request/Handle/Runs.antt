-- ===== src/Request/Handle/Runs.antt =====
-- Whole requests on a kernel that takes all it is offered, and the theorems there.
use high_performance_server.Prelude.{
  ◌+◌, ◌≤◌, ◌<◌, Bool, true, false, some, [], ◌∷◌, ◌++◌, Bytes, codes, length, find_byte, ◌≡◌, refl,
  arith, same, Avoids-of_find_byte,
}
use high_performance_server.Prelude.Int.{pos}
use high_performance_server.Request.{recv_body, Request, create, find, assign}
use high_performance_server.Request.Head.Fields.{IsField}
use high_performance_server.Request.Head.RoundTrip.{assign_all}
use high_performance_server.Request.Response.{
  Files, wants_keep_alive, get_header, max_buff, decimal, decimal_loop, post_header, error_header,
}
use high_performance_server.Request.Response.Bounds.{headers_fit}
use high_performance_server.Request.Response.Sent.{Serves}
use high_performance_server.Request.Handle.{
  again, Verdict, handle_request, stoi, signed_value, unsigned_value, digits_value,
}
use high_performance_server.Request.Handle.Whole.{IsNew, Ask, IsAsk, text, all_fields, parsed}
use high_performance_server.Request.Handle.Get
use high_performance_server.Request.Handle.Post
use high_performance_server.Request.Handle.Total.{handle_request_total}
use high_performance_server.Util.{WriteResult, received}
use high_performance_server.Util.Write.{Writes, AtMost, Settles}

abbrev wire : Bytes → Bytes → WriteResult × Bytes
wire bytes sent = (WriteResult.took (length bytes), sent ++ bytes)

wire-AtMost : AtMost wire
wire-AtMost bytes s s' n e = ground arith

wire-Settles : Settles wire (λ s. 0)
wire-Settles = record {
  interrupted_lt = λ b s s' e. ground arith;
  would_block_lt = λ b s s' e. ground arith;
  took_none_lt = λ b s s' h e. ground arith;
  took_le = λ b s s' n e. ground arith;
}

wire-Serves : Serves wire (λ s. 0)
wire-Serves = record {
  at_most = wire-AtMost;
  settles = wire-Settles;
  unbroken = λ b s s' e. ground arith;
}

abbrev files : Files
files = record {
  stat = λ _. some 5;
  read_type = λ _. some (codes "text/html");
  mapped = λ name size. some (λ i. b'a' + i);
}

abbrev fresh : Request
unfolding create
fresh = create 3 7 (codes "/")

fresh-IsNew : IsNew fresh
unfolding create
fresh-IsNew = record {
  state = refl;
  h_state = refl;
  content = refl;
  from_start = refl;
  keep_alive = refl;
}

-- "Connection: keep-alive" and a length of four bytes
abbrev ask : Bool → Bytes → Ask
ask posts rest = record {
  posts = posts;
  target = codes "/";
  ten = false;
  newlines = codes "\n";
  key = codes "Connection";
  value = codes "keep-alive";
  fields = (codes "Content-length", codes "4") ∷ [];
  rest = rest;
}

connection-IsField : IsField (codes "Connection") (codes "keep-alive")
unfolding find_byte
connection-IsField = record {
  name = ground arith;
  name_pos = omega arith;
  value = Avoids-of_find_byte b'\r' (codes "keep-alive") refl;
  value_pos = omega arith;
  value_short = omega arith;
}

length-IsField : IsField (codes "Content-length") (codes "4")
unfolding find_byte
length-IsField = record {
  name = ground arith;
  name_pos = omega arith;
  value = Avoids-of_find_byte b'\r' (codes "4") refl;
  value_pos = omega arith;
  value_short = omega arith;
}

ask-IsAsk : (posts : Bool) (rest : Bytes) → IsAsk (ask posts rest)
unfolding find_byte
ask-IsAsk posts rest = record {
  no_blank = (refl, tt);
  no_newline = (refl, tt);
  slash = (0, refl);
  short = omega arith;
  newlines = (refl, tt);
  fields = (connection-IsField, (length-IsField, tt));
}

ask-Announces : Post.Announces (assign_all (all_fields (ask true (codes "abcd"))) []) (pos 4)
unfolding assign find same stoi signed_value unsigned_value digits_value
ask-Announces = record { field = codes "4"; found = refl; number = refl }

handle_request_post_example :
    let a = ask true (codes "abcd") in
    let keep = wants_keep_alive (assign_all (all_fields a) []) in
    (s' : Bytes) × (handle_request wire 500 files (received (text a) true) again 42 true fresh []
      ≡ some (Post.verdict_of false keep 42 true (parsed fresh a), s'))
    × Writes wire [] (Post.post_reply keep) s'
unfolding create same assign find post_header decimal decimal_loop wants_keep_alive
handle_request_post_example =
    Post.handle_request_post wire (λ s. 0) wire-Serves files 500 42 true true again fresh
      (ask true (codes "abcd")) (pos 4) [] fresh-IsNew (ask-IsAsk true (codes "abcd")) refl
      ask-Announces (omega arith)

-- the same request with two bytes of its body
abbrev waiting : Request
waiting = parsed fresh (ask true (codes "ab"))

waiting-IsWaiting : Post.IsWaiting waiting
unfolding create
waiting-IsWaiting = record { state = refl; method = refl; keep_alive = refl }

waiting-Announces : Post.Announces waiting.headers (pos 4)
unfolding create assign find same stoi signed_value unsigned_value digits_value
waiting-Announces = record { field = codes "4"; found = refl; number = refl }

handle_request_body_example :
    let keep = wants_keep_alive waiting.headers in
    (s' : Bytes) × (handle_request wire 500 files
        (received (codes "c") true)
        again
        42
        true
        waiting
        []
      ≡ some (Post.verdict_of true keep 42 true (record waiting { content = codes "abc" }), s'))
    × Writes wire [] [] s'
unfolding create same assign find post_header decimal decimal_loop wants_keep_alive
handle_request_body_example =
    Post.handle_request_body wire (λ s. 0) wire-Serves files 500 42 true true again waiting b'c' []
      (pos 4) [] waiting-IsWaiting waiting-Announces (omega arith)

headers_fit_example :
    (9 ≤ 3900 → length (get_header true (codes "text/html") 5) + 1 ≤ max_buff)
    × (max_buff ≤ 9 → max_buff < length (get_header true (codes "text/html") 5))
    × (length (post_header true) + 1 ≤ max_buff)
    × (length (error_header 404 (codes "Not Found!")) + 1 ≤ max_buff)
headers_fit_example = headers_fit true (codes "text/html") 5 (omega arith)

handle_request_total_example :
    let r = record fresh {
      state = recv_body;
      headers = (codes "Content-length", codes "x") ∷ [];
    } in
    (v : Verdict) × (s' : Bytes) × (handle_request wire 5000 files
        (received (codes "ab") true)
        again
        42
        true
        r
        []
      ≡ some (v, s'))
unfolding create
handle_request_total_example =
    handle_request_total wire (λ s. 0) wire-AtMost wire-Settles 5000 files
      (received (codes "ab") true) again 42 true
      (record fresh { state = recv_body; headers = (codes "Content-length", codes "x") ∷ [] }) []
      (record { text = omega arith; file = λ name size e. ground arith })
