-- ===== src/Failed/Cgi/Refused.antt =====
-- Every request of the old CGI server is answered alike, after one byte.
use high_performance_server.Prelude.{
  ℕ, suc, ◌-◌, ◌≤◌, ◌<◌, ◌==◌, ltb, Bool, true, false, not, ◌&&◌, ◌||◌, Option, none, some, Bytes,
  codes, same, length, ◌≡◌, refl, sym, ap, ◌∙◌, arith, inl, inr, Bool-cases, same_iff,
}
use high_performance_server.Failed.Cgi.{
  lower, same_word, store_byte, old_line_loop, old_get_line, unimplemented, serve_line,
  accept_request, Disk, print_over, text_of, take_word,
}

-- No word is both.
not_both :
    (w : Bytes) → (not (same_word w (codes "GET")) || not (same_word w (codes "POST"))) ≡ true
unfolding same
not_both w = elim (Bool-cases (same_word w (codes "GET"))) [
  | inr no_get ↦ ground arith
  | inl get ↦ elim (Bool-cases (same_word w (codes "POST"))) [
    | inr no_post ↦ ground arith
    | inl post ↦
        let as_get = (same_iff (lower w) (lower (codes "GET"))).0 get in
        let as_post = (same_iff (lower w) (lower (codes "POST"))).0 post in
        absurd (omega (arith, ap length (sym as_get ∙ as_post)))
  ]
]

module _ {S : Type 0} (recv : Bool → S → Option ℕ × S) (send : Bytes → S → S) (close : S → S) where
  store_byte-length : (t : Option ℕ × S) → length (store_byte recv t).0 ≤ 1
  unfolding store_byte
  store_byte-length (none, s) = omega arith
  store_byte-length (some c, s) = elim (Bool-cases (c == b'\r')) [
    | inl carriage ↦ ground arith
    | inr other ↦ ground arith
  ]

  old_ended :
      (fuel size : ℕ) (buf : Bytes) (s : S)
      → old_line_loop recv (suc fuel) size buf b'\n' s ≡ some (buf, s)
  unfolding old_line_loop
  old_ended fuel size buf s = ground arith

  one_round :
      (fuel size : ℕ) (s : S)
      → 1 < size
      → old_get_line recv (suc (suc fuel)) size s ≡ some (store_byte recv (recv false s))
  unfolding old_get_line old_line_loop
  one_round fuel size s h =
      let room : (ltb 0 (size - 1) && not (◌==◌ 0 b'\n')) ≡ true = ground arith in
      let (stored, s') = store_byte recv (recv false s) in
      rw (room, old_get_line, old_line_loop) (old_ended fuel size stored s')

  serve_line_refuses :
      (fuel : ℕ) (disk : Disk) (buf : Bytes) (numchars : ℕ) (s : S)
      → serve_line recv send close fuel disk buf numchars s ≡ some (unimplemented send s)
  unfolding serve_line
  serve_line_refuses fuel disk buf numchars s =
      rw (not_both (text_of (take_word 1023 buf)), serve_line) refl

  -- Whatever is requested, the old `get_line` returns after one byte at most, and `accept_request`
  -- sends the page "501 Method Not Implemented" and nothing else: its test of the method asks for a
  -- word that is neither "GET" nor "POST" by `||`. The descriptor is not closed.
  pub accept_request_refuses :
      (fuel : ℕ) (disk : Disk) (array : Bytes) (s : S)
      → (line : Bytes) × (s' : S) × (old_get_line recv (suc (suc fuel)) 1024 s ≡ some (line, s'))
        × (length line ≤ 1)
        × (accept_request recv send close (suc (suc fuel)) disk array s
            ≡ some (unimplemented send s'))
  unfolding accept_request
  accept_request_refuses fuel disk array s =
      let (line, s') = store_byte recv (recv false s) in
      let first = one_round fuel 1024 s (omega arith) in
      (
        line,
        s',
        first,
        store_byte-length (recv false s),
        rw (first, accept_request)
            (serve_line_refuses (suc (suc fuel)) disk (print_over line array) (length line) s'),
      )
