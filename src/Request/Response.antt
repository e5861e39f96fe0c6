-- ===== src/Request/Response.antt =====
-- `requestData::analysisRequest` and `requestData::handleError` of src/requestData.cpp: the texts
-- of the answers and how they are sent. `write` is the kernel's, and `Files` the file system's
-- answers. `sprintf` that prints a buffer in front of a text into the same buffer is undefined in C;
-- the model assumes of the platform's C library that it appends the text, for each of these calls.
-- A `sprintf` past the end of the array, and a read through the dangling `filetype` that finds no
-- text, are undefined here too.
pub mod Sent
pub mod Bounds
use high_performance_server.Prelude.{
  ℕ, zero, suc, ◌+◌, ◌/◌, ◌%◌, ◌==◌, ltb, if◌then◌else◌, Bool, true, false, Option, none, some, [],
  ◌∷◌, ◌++◌, Bytes, codes, length, same, drop, find_byte,
}
use high_performance_server.Request.{Request, MethodCode, post, get, Table, find, get_mime}
use high_performance_server.Util.{WriteResult, writen}

-- The decimal digits of a number, as `%d`, `%zu` and `std::to_string` print it.
unfoldable pub decimal_loop : ℕ → ℕ → Bytes
decimal_loop zero n = []
decimal_loop (suc fuel) n = elim (ltb n 10) [
  | true ↦ (b'0' + n) ∷ []
  | false ↦ decimal_loop fuel (n / 10) ++ (b'0' + n % 10) ∷ []
]

unfoldable pub decimal : ℕ → Bytes
unfolding decimal_loop
decimal n = decimal_loop (suc n) n

-- "Connection" is there and is "keep-alive".
unfoldable pub wants_keep_alive : Table → Bool
unfolding find
wants_keep_alive headers = elim (find (codes "Connection") headers) [
  | none ↦ false
  | some v ↦ same v (codes "keep-alive")
]

abbrev pub keep_alive_lines : Bool → Bytes
keep_alive_lines true = codes "Connection: keep-alive\r\nKeep-Alive: timeout=500\r\n"
keep_alive_lines false = []

abbrev pub send_content : Bytes
send_content = codes "I have received this."

-- the header of the answer to a POST
unfoldable pub post_header : Bool → Bytes
unfolding decimal
post_header keep =
    codes "HTTP/1.1 200 OK\r\n"
    ++ (keep_alive_lines keep
        ++ (codes "Content-length: " ++ (decimal (length send_content) ++ codes "\r\n\r\n")))

-- The type by the first '.' of the file's name: what the string held that `filetype` points into,
-- and that is destroyed with the statement.
unfoldable pub file_type : Bytes → Bytes
unfolding find_byte get_mime
file_type file_name = elim (find_byte b'.' file_name) [
  | none ↦ get_mime (codes "default")
  | some dot ↦ get_mime (drop dot file_name)
]

-- the size of the array that a header is printed into
abbrev pub max_buff : ℕ
max_buff = 4096

-- The header of the answer to a GET, by the text that `%s` finds at `filetype`.
unfoldable pub get_header : Bool → Bytes → ℕ → Bytes
unfolding decimal
get_header keep filetype size =
    codes "HTTP/1.1 200 OK\r\n"
    ++ (keep_alive_lines keep
        ++ (codes "Content-type: "
            ++ (filetype ++ (codes "\r\nContent-length: " ++ (decimal size ++ codes "\r\n\r\n")))))

-- `handleError`: the header is sent, the body is only measured.
abbrev pub error_body : ℕ → Bytes → Bytes
error_body err_num short_msg =
    codes "<html><title>TKeed Error</title><body bgcolor=\"ffffff\">"
    ++ (decimal err_num
        ++ (short_msg ++ codes "<hr><em> zhilong's Web Server</em>\n</body></html>"))

unfoldable pub error_header : ℕ → Bytes → Bytes
unfolding decimal
error_header err_num msg =
    let short_msg = b' ' ∷ msg in
    codes "HTTP/1.1 "
    ++ (decimal err_num
        ++ (short_msg
            ++ (codes "\r\nContent-type: text/html\r\nConnection: close\r\nContent-length: "
                ++ (decimal (length (error_body err_num short_msg)) ++ codes "\r\n\r\n"))))

-- ANALYSIS_ERROR, ANALYSIS_SUCCESS, and no return: the behaviour is undefined.
pub data AnalysisFlag : Type 0 where
  analysis_error analysis_success analysis_undefined : AnalysisFlag

-- What the server asks the file system for, by the file's name: the size that `stat` gives; what
-- `%s` then reads through `filetype`, which dangles, where `none` is no text (`file_type` is what
-- was there before); and the memory that `open` and `mmap` of that many bytes give, where `none` is
-- MAP_FAILED, of a file that cannot be opened or mapped, such as a directory, or of no byte.
pub record Files : Type 0 where
  pub stat : Bytes → Option ℕ
  pub read_type : Bytes → Option Bytes
  pub mapped : Bytes → ℕ → Option (ℕ → ℕ)

-- the first bytes of the memory
unfoldable pub read_memory : ℕ → (ℕ → ℕ) → Bytes
read_memory zero memory = []
read_memory (suc n) memory = memory 0 ∷ read_memory n (λ i. memory (1 + i))

abbrev pub answers : MethodCode → Bool
answers post = true
answers get = true
answers _ = false

-- `keep_alive = true` where an answer to the method says so
unfoldable pub note_keep_alive : Request → Request
unfolding wants_keep_alive
note_keep_alive r =
    if answers r.method
    then if wants_keep_alive r.headers then record r { keep_alive = true } else r
    else r

module _ {S : Type 0} (write : Bytes → S → WriteResult × S) (fuel : ℕ) where
  -- `writen` of a text, and whether it returned the text's length; `none` is no fuel
  unfoldable pub send : Bytes → S → Option (Bool × S)
  send text s = elim (writen write fuel text s) [
    | none ↦ none
    | some (none, s') ↦ some (false, s')
    | some (some n, s') ↦ some (n == length text, s')
  ]

  -- two texts, the second only if the first was sent
  unfoldable pub send_both : Bytes → Bytes → S → Option (AnalysisFlag × S)
  unfolding send
  send_both header body s = elim (send header s) [
    | none ↦ none
    | some (false, s') ↦ some (analysis_error, s')
    | some (true, s') ↦ elim (send body s') [
      | none ↦ none
      | some (false, s'') ↦ some (analysis_error, s'')
      | some (true, s'') ↦ some (analysis_success, s'')
    ]
  ]

  -- a text, behind which the analysis fails whether it was sent or not
  unfoldable pub send_failing : Bytes → S → Option (AnalysisFlag × S)
  unfolding send
  send_failing text s = elim (send text s) [
    | none ↦ none
    | some (_, s') ↦ some (analysis_error, s')
  ]

  unfoldable pub handle_error : ℕ → Bytes → S → Option (AnalysisFlag × S)
  unfolding send_failing error_header
  handle_error err_num msg s = send_failing (error_header err_num msg) s

  -- The header and st_size bytes of what `mmap` gave. `writen` from MAP_FAILED fails, as `write`
  -- does with EFAULT, but for no byte at all.
  unfoldable pub send_mapped : Bytes → ℕ → Option (ℕ → ℕ) → S → Option (AnalysisFlag × S)
  unfolding send_both send_failing read_memory
  send_mapped header size (some memory) s = send_both header (read_memory size memory) s
  send_mapped header zero none s = send_both header [] s
  send_mapped header (suc size) none s = send_failing header s

  -- the header has room in its array with the terminating zero, or is printed past its end
  unfoldable pub send_fitting : Bool → Bytes → ℕ → Option (ℕ → ℕ) → S → Option (AnalysisFlag × S)
  unfolding send_mapped
  send_fitting true header size memory s = send_mapped header size memory s
  send_fitting false header size memory s = some (analysis_undefined, s)

  -- a file that `stat` finds, by what is read through `filetype`
  unfoldable pub answer_found :
      Bool → ℕ → Option Bytes → Option (ℕ → ℕ) → S → Option (AnalysisFlag × S)
  unfolding send_fitting get_header
  answer_found keep size none memory s = some (analysis_undefined, s)
  answer_found keep size (some filetype) memory s =
      let header = get_header keep filetype size in
      send_fitting (ltb (length header) max_buff) header size memory s

  -- the answer to a GET, by what `stat` says of the file
  unfoldable pub answer_get : Files → Bool → Bytes → Option ℕ → S → Option (AnalysisFlag × S)
  unfolding answer_found handle_error
  answer_get files keep file_name none s = handle_error 404 (codes "Not Found!") s
  answer_get files keep file_name (some size) s =
      answer_found keep size (files.read_type file_name) (files.mapped file_name size) s

  -- The body by the method; the request's `keep_alive` is set before anything is sent.
  unfoldable pub answer : Files → MethodCode → Request → S → Option (AnalysisFlag × S)
  unfolding answer_get post_header send_both wants_keep_alive
  answer files post r s = send_both (post_header (wants_keep_alive r.headers)) send_content s
  answer files get r s =
      answer_get files (wants_keep_alive r.headers) r.file_name (files.stat r.file_name) s
  answer files _ r s = some (analysis_error, s)

  unfoldable pub analysis_request : Files → Request → S → Option (AnalysisFlag × Request × S)
  unfolding answer note_keep_alive
  analysis_request files r s = elim (answer files r.method r s) [
    | none ↦ none
    | some (flag, s') ↦ some (flag, note_keep_alive r, s')
  ]
