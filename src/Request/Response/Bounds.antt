-- ===== src/Request/Response/Bounds.antt =====
-- The headers of the answers against the arrays of MAX_BUFF bytes that they are printed into.
use high_performance_server.Prelude.{
  ℕ, zero, suc, ◌+◌, ◌*◌, ◌/◌, ◌%◌, ◌^◌, ◌≤◌, ◌<◌, ltb, Bool, true, false, [], ◌∷◌, ◌++◌, Bytes,
  codes, length, length-append, ◌≡◌, refl, ap, arith, inl, inr, Bool-cases,
}
use high_performance_server.Request.Response.{
  max_buff, decimal_loop, decimal, keep_alive_lines, post_header, get_header, error_header,
  read_memory,
}

abbrev pow10 : ℕ → ℕ
pow10 zero = 1
pow10 (suc k) = 10 * pow10 k

-- a number below 10 ^ (k + 1) has at most k + 1 digits
length-decimal_loop : (fuel n k : ℕ) → n < pow10 (suc k) → length (decimal_loop fuel n) ≤ suc k
unfolding decimal_loop
length-decimal_loop zero n k h = omega arith
length-decimal_loop (suc fuel) n zero h = ground arith
length-decimal_loop (suc fuel) n (suc k) h = elim (Bool-cases (ltb n 10)) [
  | inl small ↦ rw (small, decimal_loop) (omega arith)
  | inr great ↦
      rw (great, decimal_loop)
        (omega (
          arith,
          length-append (decimal_loop fuel (n / 10)) ((b'0' + n % 10) ∷ []),
          length-decimal_loop fuel (n / 10) k (omega arith),
        ))
]

length-decimal : (n k : ℕ) → n < pow10 (suc k) → length (decimal n) ≤ suc k
unfolding decimal
length-decimal n k h = length-decimal_loop (suc n) n k h

length-keep_alive_lines : (keep : Bool) → length (keep_alive_lines keep) ≤ 60
length-keep_alive_lines true = omega arith
length-keep_alive_lines false = omega arith

pub length-read_memory : (n : ℕ) (memory : ℕ → ℕ) → length (read_memory n memory) ≡ n
unfolding read_memory
length-read_memory zero memory = refl
length-read_memory (suc n) memory = ap suc (length-read_memory n (λ i. memory (1 + i)))

-- The header of the answer to a GET has room in its array of MAX_BUFF bytes with its terminating
-- zero, for a file size below 2 ^ 63 and if at most 3900 bytes are read as the type, and has none if
-- MAX_BUFF bytes are; that of the answer to a POST, and that of the 404 answer, always have.
pub headers_fit :
    (keep : Bool) (filetype : Bytes) (size : ℕ)
    → size < 2 ^ 63
    → (length filetype ≤ 3900 → length (get_header keep filetype size) + 1 ≤ max_buff)
      × (max_buff ≤ length filetype → max_buff < length (get_header keep filetype size))
      × (length (post_header keep) + 1 ≤ max_buff)
      × (length (error_header 404 (codes "Not Found!")) + 1 ≤ max_buff)
unfolding get_header post_header error_header
headers_fit keep filetype size h =
    let lines = keep_alive_lines keep in
    let digits = decimal size in
    let size_part = codes "\r\nContent-length: " ++ (digits ++ codes "\r\n\r\n") in
    let whole : length (get_header keep filetype size)
        ≡ 53 + length lines + length filetype + length digits =
      omega (
        arith,
        length-append lines (codes "Content-type: " ++ (filetype ++ size_part)),
        length-append filetype size_part,
        length-append digits (codes "\r\n\r\n"),
      ) in
    (
      λ f. omega (arith, whole, length-keep_alive_lines keep, length-decimal size 18 (omega arith)),
      λ f. omega (arith, whole),
      omega (
        arith,
        length-append lines (codes "Content-length: 21\r\n\r\n"),
        length-keep_alive_lines keep,
      ),
      omega arith,
    )
