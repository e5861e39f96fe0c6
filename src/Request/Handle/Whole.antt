-- ===== src/Request/Handle/Whole.antt =====
-- The stages that parse, on a request line and headers that come as a whole.
use high_performance_server.Prelude.{
  ℕ, ◌≤◌, if◌then◌else◌, Bool, true, false, some, [], ◌∷◌, ◌++◌, Bytes, codes, length, same, Avoids,
  Avoids-append, find_byte, ◌≡◌, ◌≢◌, refl, ap, ◌∙◌, arith,
}
use high_performance_server.Request.{
  Request, MethodCode, get, post, unknown, get_method, recv_body, Table, parse_uri, parse_headers,
  analysis, h_start, h_end_lf, http_10, http_11,
}
use high_performance_server.Request.Line.Target.{
  IsLine, digit, version, resolved, http_line, parse_request_line_short,
}
use high_performance_server.Request.Head.RoundTrip.{
  render, AreFields, AreNewlines, assign_all, left_over, parse_request_head-render,
}
use high_performance_server.Request.Handle.{
  Errno, going, then_stage, line_verdict, head_verdict, is_post, line_stage, head_stage, body_stage,
  parse_stages, read_stage,
}
use high_performance_server.Util.{received}

-- A request that nothing was read for yet.
pub record IsNew (r : Request) : Type 0 where
  pub state : r.state ≡ parse_uri
  pub h_state : r.h_state ≡ h_start
  pub content : r.content ≡ []
  pub from_start : r.now_read_pos ≡ 0
  pub keep_alive : r.keep_alive ≡ false

-- What a client asks for: "POST" or "GET", the target, HTTP/1.0 or HTTP/1.1, the header fields,
-- the first of them apart, and the bytes behind the empty line.
pub record Ask : Type 0 where
  pub posts : Bool
  pub target : Bytes
  pub ten : Bool
  pub newlines : Bytes
  pub key : Bytes
  pub value : Bytes
  pub fields : Table
  pub rest : Bytes

abbrev pub word : Bool → Bytes
word posts = if posts then codes "POST" else codes "GET"

abbrev pub code : Bool → MethodCode
code posts = if posts then post else get

abbrev pub all_fields : Ask → Table
all_fields a = (a.key, a.value) ∷ a.fields

-- the bytes behind the '\r' of the request line, and the whole text
abbrev pub head_text : Ask → Bytes
head_text a = a.newlines ++ render (all_fields a) a.rest

abbrev pub text : Ask → Bytes
text a = http_line (word a.posts) a.target (digit a.ten) ++ b'\r' ∷ head_text a

-- Header fields that the scanner takes, and a target of at most four bytes, with a '/' and with no
-- blank and no '\r'.
pub record IsAsk (a : Ask) : Type 0 where
  pub no_blank : Avoids b' ' a.target
  pub no_newline : Avoids b'\r' a.target
  pub slash : (k : ℕ) × (find_byte b'/' a.target ≡ some k)
  pub short : length a.target ≤ 4
  pub newlines : AreNewlines a.newlines
  pub fields : AreFields (all_fields a)

-- the request behind its line, and behind its headers
abbrev pub lined : Request → Ask → Request
lined r a = record (resolved r a.target (head_text a) (code a.posts)) {
  http_version = if a.ten then http_10 else http_11;
  state = parse_headers;
}

abbrev pub parsed : Request → Ask → Request
parsed r a = record (lined r a) {
  content = left_over a.rest;
  state = if a.posts then recv_body else analysis;
  h_state = h_end_lf;
  headers = assign_all (all_fields a) r.headers;
}

version-Avoids : (ten : Bool) → Avoids b'\r' (b' ' ∷ version (digit ten))
version-Avoids true = ground arith
version-Avoids false = ground arith

one_line :
    (posts : Bool) (tail : Bytes) → Avoids b'\r' tail → Avoids b'\r' (word posts ++ b' ' ∷ tail)
one_line true tail h = (refl, (refl, (refl, (refl, (refl, h)))))
one_line false tail h = (refl, (refl, (refl, (refl, h))))

word-Avoids : (posts : Bool) → Avoids b' ' (word posts)
word-Avoids true = (refl, (refl, (refl, (refl, tt))))
word-Avoids false = (refl, (refl, (refl, tt)))

get_method-word : (posts : Bool) → get_method (word posts) ≡ code posts
unfolding get_method same
get_method-word true = refl
get_method-word false = refl

code_known : (posts : Bool) → code posts ≢ unknown
code_known true = λ e. cc
code_known false = λ e. cc

is_post-code : (posts : Bool) → is_post (code posts) ≡ posts
is_post-code true = refl
is_post-code false = refl

text-IsLine :
    (r : Request) (a : Ask)
    → IsAsk a
    → r.now_read_pos ≡ 0
    → r.content ≡ text a
    → IsLine r (word a.posts) a.target (digit a.ten) (head_text a) (code a.posts)
text-IsLine r a h p e = record {
  from_start = p;
  content = e;
  one_line =
      one_line a.posts (a.target ++ b' ' ∷ version (digit a.ten))
        (Avoids-append b'\r' a.target _ h.no_newline (version-Avoids a.ten));
  method_word = word-Avoids a.posts;
  method_code = get_method-word a.posts;
  method_known = code_known a.posts;
  target_word = h.no_blank;
  target_slash = h.slash;
}

-- The text is not empty.
read_stage-text :
    (posts : Bool) (line tail : Bytes) (blocked : Bool) (errno : Errno) (r : Request)
    → let bytes = (word posts ++ line) ++ tail in
      read_stage (received bytes blocked) errno r
      ≡ going (record r { content = r.content ++ bytes })
unfolding read_stage
read_stage-text true line tail blocked errno r = refl
read_stage-text false line tail blocked errno r = refl

line_stage-text :
    (r : Request) (a : Ask)
    → IsAsk a
    → r.state ≡ parse_uri
    → r.now_read_pos ≡ 0
    → r.content ≡ text a
    → line_stage r.state r ≡ going (lined r a)
unfolding line_stage
line_stage-text r a h st p e =
    ap (λ st. line_stage st r) st
    ∙ ap line_verdict (parse_request_line_short a.ten (text-IsLine r a h p e) h.short)

head_stage-text :
    (r : Request) (a : Ask)
    → IsAsk a
    → r.h_state ≡ h_start
    → head_stage parse_headers (lined r a) ≡ going (parsed r a)
unfolding head_stage
head_stage-text r a h st =
    ap
      (λ o.
        then_stage (head_verdict o)
          (λ r. going (record r { state = if is_post r.method then recv_body else analysis })))
      (parse_request_head-render (lined r a) a.newlines a.key a.value a.rest a.fields st h.newlines
        h.fields refl)
    ∙ ap (λ b. going (record (parsed r a) { state = if b then recv_body else analysis }))
        (is_post-code a.posts)

-- One read that delivers the whole text of a new request: what is left is the stage of the body.
pub parse_stages-text :
    (r : Request) (a : Ask) (errno : Errno) (blocked : Bool)
    → IsNew r
    → IsAsk a
    → then_stage (read_stage (received (text a) blocked) errno r) parse_stages
      ≡ body_stage (if a.posts then recv_body else analysis) (parsed r a)
unfolding parse_stages
parse_stages-text r a errno blocked new h =
    let r' = record r { content = r.content ++ text a } in
    let filled : read_stage (received (text a) blocked) errno r ≡ going r' =
      read_stage-text a.posts (b' ' ∷ (a.target ++ b' ' ∷ version (digit a.ten)))
        (b'\r' ∷ head_text a) blocked errno r in
    rw (filled, line_stage-text r' a h new.state new.from_start (ap (λ c. c ++ text a) new.content))
      (ap (λ st. then_stage st (λ r. body_stage r.state r)) (head_stage-text r' a h new.h_state))
