-- ===== src/Request/Line.antt =====
-- `requestData::parse_request_line` of src/requestData.cpp, in the order of its steps. A position
-- is `none` where the source's `int pos` is -1.
pub mod Outcome
pub mod Target
use high_performance_server.Prelude.{
  ℕ, suc, ◌+◌, ◌-◌, Bool, true, false, Option, none, some, List, [], ◌∷◌, ltb, leb, if◌then◌else◌,
  Bytes, codes, same, length, take, drop, find_byte, find_from, until, past,
}
use high_performance_server.Request.{
  Request, MethodCode, unknown, get_method, http_10, http_11, parse_headers,
}

-- PARSE_URI_AGAIN, PARSE_URI_ERROR, PARSE_URI_SUCCESS
pub data LineFlag : Type 0 where
  uri_again uri_error uri_success : LineFlag

-- `request_line.find('/', pos)`: from -1, which is the greatest `size_t`, nothing is found.
unfoldable pub find_slash : Bytes → Option ℕ → Option ℕ
find_slash s none = none
find_slash s (some from) = find_from b'/' s from

-- "http version": `pos` is still the position of the blank behind the target.
unfoldable pub parse_version : Bytes → Option ℕ → Request → LineFlag × Request
parse_version line pos r = elim (find_slash line pos) [
  | none ↦ (uri_error, r)
  | some p ↦
      let version = take 3 (drop (p + 1) line) in
      if leb (length line - p) 3
      then (uri_error, r)
      else if same version (codes "1.0")
      then (uri_success, record r { http_version = http_10; state = parse_headers })
      else if same version (codes "1.1")
      then (uri_success, record r { http_version = http_11; state = parse_headers })
      else (uri_error, r)
]

-- `file_name = temp.substr(0, temp.find('?'))`, and no assignment without a '?'
unfoldable pub cut_query : Bytes → Request → Request
cut_query temp r = elim (find_byte b'?' temp) [
  | none ↦ r
  | some q ↦ record r { file_name = take q temp }
]

-- "url": `temp` is the target and `rest` the text behind it.
unfoldable pub resolve : Bytes → Bytes → Option ℕ → Request → LineFlag × Request
resolve temp rest pos r =
    if same temp (codes "/")
    then parse_version rest pos (record r { file_name = codes "index.html" })
    else elim (find_byte b'/' temp) [
      | none ↦ (uri_error, r)
      | some _ ↦ parse_version rest pos (cut_query temp r)
    ]

-- with the position of the blank behind the target
unfoldable pub parse_target : Bytes → Option ℕ → Request → LineFlag × Request
parse_target line pos r = resolve (until pos line) (past pos line) pos r

-- the test of the stored code, and the text behind the method word
unfoldable pub check_method : MethodCode → Bytes → Request → LineFlag × Request
check_method unknown line r = (uri_error, r)
check_method _ line r = parse_target line (find_byte b' ' line) r

-- "Method", with the position of the first blank: the code is stored before it is tested.
unfoldable pub parse_method : Bytes → Option ℕ → Request → LineFlag × Request
parse_method line none r = (uri_error, record r { method = get_method line })
parse_method line (some pos) r =
    let code = get_method (take pos line) in
    check_method code (drop (pos + 1) line) (record r { method = code })

-- "remove request line": up to and with the '\r'
unfoldable pub remove_line : ℕ → Bytes → Bytes
remove_line pos str = if ltb (pos + 1) (length str) then drop (pos + 1) str else []

-- "get request line", from the position that `find` returned
unfoldable pub take_line : Option ℕ → Request → LineFlag × Request
take_line none r = (uri_again, r)
take_line (some pos) r =
    let line = take pos r.content in
    parse_method line (find_byte b' ' line) (record r { content = remove_line pos r.content })

unfoldable pub parse_request_line : Request → LineFlag × Request
parse_request_line r = take_line (find_from b'\r' r.content r.now_read_pos) r
