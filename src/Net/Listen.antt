-- ===== src/Net/Listen.antt =====
-- The results of `socket_bind_listen`.
use high_performance_server.Prelude.{
  ℕ, ◌&&◌, true, false, Option-cases, none, some, [], ◌∷◌, ◌≡◌, arith, ◌⊎◌, inl, inr, Bool-cases,
}
use high_performance_server.Prelude.Int.{ℤ, between}
use high_performance_server.Net.{Answers, bind_listen, socket_bind_listen}

-- `socket_bind_listen` returns a descriptor exactly where the port is in range and every call
-- works; where the port or `socket` fails it returns -1 and leaves nothing open; where a later
-- call fails it returns -1 and leaves the descriptor open.
pub socket_bind_listen_lem :
    (port : ℤ) (env : Answers)
    → let res = socket_bind_listen port env in
      let works = env.reuse && (env.bind && env.listen) in
      ((fd : ℕ) × (between 1024 65535 port ≡ true)
        × (env.socket ≡ some fd)
        × (works ≡ true)
        × (res ≡ (some fd, fd ∷ [])))
      ⊎ (((res ≡ (none, [])) × ((between 1024 65535 port ≡ false) ⊎ (env.socket ≡ none)))
          ⊎ ((fd : ℕ) × (between 1024 65535 port ≡ true)
              × (env.socket ≡ some fd)
              × (works ≡ false)
              × (res ≡ (none, fd ∷ []))))
unfolding socket_bind_listen bind_listen
socket_bind_listen_lem port env = elim (Bool-cases (between 1024 65535 port)) [
  | inr out ↦ inr (inl (ground arith, inl out))
  | inl within ↦ elim (Option-cases env.socket) [
    | inl none_left ↦ inr (inl (ground arith, inr none_left))
    | inr (fd, e) ↦ elim (Bool-cases (env.reuse && (env.bind && env.listen))) [
      | inl ok ↦ inl (fd, within, e, ok, ground arith)
      | inr bad ↦ inr (inr (fd, within, e, bad, ground arith))
    ]
  ]
]
