-- ===== src/Net/Tests.antt =====
-- The listening socket on the port that main uses, where the port is taken.
use high_performance_server.Prelude.{ℕ, ◌&&◌, true, false, none, some, [], ◌∷◌, ◌≡◌, ◌⊎◌}
use high_performance_server.Prelude.Int.{between, pos}
use high_performance_server.Net.{Answers, socket_bind_listen}
use high_performance_server.Net.Listen.{socket_bind_listen_lem}

abbrev taken : Answers
taken = record { socket = some 4; reuse = true; bind = false; listen = true }

socket_bind_listen_lem_example :
    let res = socket_bind_listen (pos 8888) taken in
    let works = taken.reuse && (taken.bind && taken.listen) in
    ((fd : ℕ) × (between 1024 65535 (pos 8888) ≡ true)
      × (taken.socket ≡ some fd)
      × (works ≡ true)
      × (res ≡ (some fd, fd ∷ [])))
    ⊎ (((res ≡ (none, [])) × ((between 1024 65535 (pos 8888) ≡ false) ⊎ (taken.socket ≡ none)))
        ⊎ ((fd : ℕ) × (between 1024 65535 (pos 8888) ≡ true)
            × (taken.socket ≡ some fd)
            × (works ≡ false)
            × (res ≡ (none, fd ∷ []))))
socket_bind_listen_lem_example = socket_bind_listen_lem (pos 8888) taken
