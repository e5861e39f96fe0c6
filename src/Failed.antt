-- ===== src/Failed.antt =====
-- The abandoned server of history_version/failed: the request of include/request_data.cpp, whose
-- members are those of the present `requestData` (`again_times` is `read_times`). Its
-- `parse_headers` is the present `parse_request_head`, statement by statement, and its tables and
-- answers' texts are the present ones but for the error page.
pub mod Uri
pub mod Spin
pub mod Util
pub mod Cgi
mod Tests
use high_performance_server.Prelude.{
  ℕ, zero, suc, ◌+◌, ◌-◌, ◌==◌, ltb, if◌then◌else◌, Bool, true, false, not, ◌&&◌, Option, none,
  some, List, [], ◌∷◌, ◌++◌, Bytes, codes, length, take, drop, find_byte, find_from, later, until,
}
use high_performance_server.Request.{
  Request, MethodCode, get, post, State, parse_uri, parse_headers, recv_body, analysis, finish,
}
use high_performance_server.Request.Line.{
  LineFlag, uri_again, uri_error, uri_success, parse_version, remove_line,
}
use high_performance_server.Request.Head.{HeadFlag, parse_request_head}
use high_performance_server.Request.Response.{
  decimal, wants_keep_alive, send_content, post_header, get_header, AnalysisFlag, analysis_error,
  analysis_success, analysis_undefined, Files, note_keep_alive, max_buff, read_memory,
}
use high_performance_server.Request.Handle.{
  Errno, no_error, again, other, Stage, going, paused, broken, thrown, then_stage, line_verdict,
  head_verdict, is_post, body_stage, max_read_times, Verdict, deleted, crashed, conclude,
}
use high_performance_server.Util.{Received, received, failed}

abbrev pub is_prefix : Bytes → Bytes → Bool
is_prefix [] s = true
is_prefix (w ∷ ws) [] = false
is_prefix (w ∷ ws) (x ∷ xs) = x == w && is_prefix ws xs

-- `s.find(w)` for a text that is not empty
unfoldable pub find_word : Bytes → Bytes → Option ℕ
find_word w [] = none
find_word w (x ∷ xs) = if is_prefix w (x ∷ xs) then some 0 else later (find_word w xs)

-- The method and where it was found: "GET" counts only behind the first byte.
abbrev pub get_or_post : Option ℕ → Option ℕ → Option (MethodCode × ℕ)
get_or_post (some (suc p)) o = some (get, suc p)
get_or_post _ (some p) = some (post, p)
get_or_post _ none = none

-- The file named between the '/' at `p` and the blank at `q`.
unfoldable pub name_file : Bytes → ℕ → ℕ → Request → Request
name_file line p q r =
    let name = take (q - p - 1) (drop (p + 1) line) in
    if ltb 1 (q - p)
    then record r { file_name = until (find_byte b'?' name) name }
    else record r { file_name = codes "index.html" }

abbrev pub read_name : Bytes → ℕ → Option ℕ → Request → LineFlag × Request
read_name line p none r = (uri_error, r)
read_name line p (some q) r = parse_version line (some q) (name_file line p q r)

abbrev pub read_path : Bytes → Option ℕ → Request → LineFlag × Request
read_path line none r = (uri_error, r)
read_path line (some p) r = read_name line p (find_from b' ' line p) r

abbrev pub read_method : Bytes → Option (MethodCode × ℕ) → Request → LineFlag × Request
read_method line none r = (uri_error, r)
read_method line (some (m, p)) r = read_path line (find_from b'/' line p) (record r { method = m })

-- from the position of the '\r'
unfoldable pub read_line : Option ℕ → Request → LineFlag × Request
unfolding name_file parse_version
read_line none r = (uri_again, r)
read_line (some pos) r =
    let line = take pos r.content in
    read_method line (get_or_post (find_word (codes "GET") line) (find_word (codes "POST") line))
      (record r { content = remove_line pos r.content })

-- `requestData::parse_uri`
unfoldable pub parse_uri_line : Request → LineFlag × Request
unfolding read_line
parse_uri_line r = read_line (find_from b'\r' r.content r.now_read_pos) r

-- the texts of `handle_error`
abbrev pub error_body : ℕ → Bytes → Bytes
error_body err_no short_msg =
    codes "<html><title>TKeed Error</title><body bgcolor=\"ffffff\">"
    ++ (decimal err_no ++ (short_msg ++ codes "<hr><em> ZHANG's Web Server</em>\n</body></html>"))

unfoldable pub error_header : ℕ → Bytes → Bytes
error_header err_no short_msg =
    codes "HTTP/1.1 "
    ++ (decimal err_no
        ++ (short_msg
            ++ (codes "\r\nContent-type: text/html\r\nConnection: close\r\nContent-length: "
                ++ (decimal (length (error_body err_no short_msg)) ++ codes "\r\n\r\n"))))

-- `(size_t) send(...) != strlen(...)`, negated
abbrev pub is_whole : Option ℕ → Bytes → Bool
is_whole none text = false
is_whole (some n) text = n == length text

module _ {S : Type 0} (send : Bytes → S → Option ℕ × S) (files : Files) where
  -- header, then content; an answer is one call of `send` for each
  unfoldable pub send_both : Bytes → Bytes → S → AnalysisFlag × S
  send_both header body s =
      let (n, s₁) = send header s in
      if not (is_whole n header)
      then (analysis_error, s₁)
      else let (m, s₂) = send body s₁ in
        (if is_whole m body then analysis_success else analysis_error, s₂)

  -- `handle_error` sends the header and the body, and does not look at the results.
  unfoldable pub handle_error : ℕ → Bytes → S → S
  unfolding error_header
  handle_error err_no msg s =
      let short_msg = b' ' ∷ msg in
      (send (error_body err_no short_msg) (send (error_header err_no short_msg) s).1).1

  -- The header and st_size bytes of what `mmap` gave; `send` from MAP_FAILED fails, as it does with
  -- EFAULT, but for no byte at all.
  unfoldable pub send_mapped : Bytes → ℕ → Option (ℕ → ℕ) → S → AnalysisFlag × S
  unfolding send_both
  send_mapped header size (some memory) s = send_both header (read_memory size memory) s
  send_mapped header zero none s = send_both header [] s
  send_mapped header (suc size) none s = (analysis_error, (send header s).1)

  -- a file that `stat` finds, by what is read through `filetype`, which dangles here too
  unfoldable pub answer_found : Bool → ℕ → Option Bytes → Option (ℕ → ℕ) → S → AnalysisFlag × S
  unfolding send_mapped
  answer_found keep size none memory s = (analysis_undefined, s)
  answer_found keep size (some filetype) memory s =
      let header = get_header keep filetype size in
      if ltb (length header) max_buff
      then send_mapped header size memory s
      else (analysis_undefined, s)

  unfoldable pub answer_get : Request → Option ℕ → S → AnalysisFlag × S
  unfolding answer_found handle_error
  answer_get r none s = (analysis_error, handle_error 404 (codes "Not Found") s)
  answer_get r (some size) s =
      answer_found (wants_keep_alive r.headers) size (files.read_type r.file_name)
        (files.mapped r.file_name size) s

  unfoldable pub answer : MethodCode → Request → S → AnalysisFlag × S
  unfolding answer_get
  answer post r s = send_both (post_header (wants_keep_alive r.headers)) send_content s
  answer get r s = answer_get r (files.stat r.file_name) s
  answer _ r s = (analysis_error, s)

  -- `analysis_request`
  unfoldable pub analysis_request : Request → S → AnalysisFlag × Request × S
  unfolding answer note_keep_alive
  analysis_request r s = let (flag, s') = answer r.method r s in (flag, note_keep_alive r, s')

-- The outcome of one pass of the loop of `handle_request`: the loop goes on, or is left; the flag
-- is `is_error`.
pub data Pass (S : Type 0) : Type 0 where
  again_pass leaves_loop : Bool → Request → S → Pass S
  throws_out undefined_pass : Pass S

-- Nothing was read and `errno` decides: the limit of the empty reads sets the flag, and the pass
-- goes on with no bytes, but for an error number other than EAGAIN. The first flag says so.
abbrev pub count_again : Bool → Request → Bool × Bool × Request
count_again is_error r =
    if ltb max_read_times r.read_times
    then (true, true, r)
    else (true, is_error, record r { read_times = r.read_times + 1 })

unfoldable pub take_read : Received → Errno → Bool → Request → Bool × Bool × Request
take_read failed errno is_error r = (false, true, r)
take_read (received [] true) errno is_error r = count_again is_error r
take_read (received [] false) again is_error r = count_again is_error r
take_read (received [] false) other is_error r = (false, true, r)
take_read (received [] false) no_error is_error r = (true, is_error, r)
take_read (received (b ∷ bs) _) errno is_error r =
    (true, is_error, record r { content = r.content ++ b ∷ bs })

-- `parse_headers`
unfoldable pub old_parse_headers : Request → Option (HeadFlag × Request)
old_parse_headers r = parse_request_head r

unfoldable pub old_head_stage : State → Request → Stage
unfolding old_parse_headers
old_head_stage parse_headers r =
    then_stage (head_verdict (old_parse_headers r))
      (λ r. going (record r { state = if is_post r.method then recv_body else analysis }))
old_head_stage _ r = going r

unfoldable pub uri_stage : State → Request → Stage
unfolding parse_uri_line
uri_stage parse_uri r = line_verdict (parse_uri_line r)
uri_stage _ r = going r

module _ {S : Type 0} (readn : S → Received × S) (errno : S → Errno)
    (send : Bytes → S → Option ℕ × S) (files : Files) where
  -- "STATE_ANALYSIS"; in another state the pass is over
  unfoldable pub analysis_pass : State → Bool → Request → S → Pass S
  unfolding analysis_request
  analysis_pass analysis is_error r s =
      let (flag, r', s') = analysis_request send files r s in
      elim flag [
        | analysis_success ↦ leaves_loop is_error (record r' { state = finish }) s'
        | analysis_error ↦ leaves_loop true r' s'
        | analysis_undefined ↦ undefined_pass
      ]
  analysis_pass _ is_error r s = again_pass is_error r s

  -- "STATE_RECV_BODY": a body that is too short ends in `continue`.
  unfoldable pub body_pass : Stage → Bool → S → Pass S
  unfolding analysis_pass
  body_pass (going r) is_error s = analysis_pass r.state is_error r s
  body_pass (paused r) is_error s = again_pass is_error r s
  body_pass (broken r) is_error s = leaves_loop true r s
  body_pass thrown is_error s = throws_out
  body_pass Stage.undefined is_error s = undefined_pass

  -- what the request line and the headers lead to
  unfoldable pub parse_pass : Stage → Bool → S → Pass S
  unfolding body_pass
  parse_pass (going r) is_error s = body_pass (body_stage r.state r) is_error s
  parse_pass (paused r) is_error s = leaves_loop is_error r s
  parse_pass (broken r) is_error s = leaves_loop true r s
  parse_pass thrown is_error s = throws_out
  parse_pass Stage.undefined is_error s = undefined_pass

  -- one pass
  unfoldable pub pass : Bool → Request → S → Pass S
  unfolding take_read uri_stage old_head_stage parse_pass
  pass is_error r s =
      let (got, s₁) = readn s in
      let (goes_on, is_error₁, r₁) = take_read got (errno s₁) is_error r in
      if not goes_on
      then leaves_loop is_error₁ r₁ s₁
      else parse_pass (then_stage (uri_stage r₁.state r₁) (λ r. old_head_stage r.state r)) is_error₁
          s₁

  -- "while (true)"; `none` is no fuel
  unfoldable pub loop : ℕ → Bool → Request → S → Option (Pass S)
  unfolding pass
  loop zero is_error r s = none
  loop (suc fuel) is_error r s = elim (pass is_error r s) [
    | again_pass e r' s' ↦ loop fuel e r' s'
    | leaves_loop e r' s' ↦ some (leaves_loop e r' s')
    | throws_out ↦ some throws_out
    | undefined_pass ↦ some undefined_pass
  ]

  -- behind the loop
  unfoldable pub settle : ℕ → Bool → Option (Pass S) → Option (Verdict × Option S)
  settle timer modified none = none
  settle timer modified (some (leaves_loop true r s)) = some (deleted, some s)
  settle timer modified (some (leaves_loop false r s)) =
      some (conclude r.state timer modified r, some s)
  settle timer modified (some _) = some (crashed, none)

  -- `handle_request`
  unfoldable pub handle_request : ℕ → ℕ → Bool → Request → S → Option (Verdict × Option S)
  unfolding loop settle
  handle_request fuel timer modified r s = settle timer modified (loop fuel false r s)
