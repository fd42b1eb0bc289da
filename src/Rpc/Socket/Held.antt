-- ===== src/Rpc/Socket/Held.antt =====
-- What the process holds when the server has started, or has failed to.
use one_fass.Base.{
  Bool-cases, ℤ, pos, negsuc, ◌==ℤ◌, true, false, ◌≡◌, ◌≢◌, ◌⊎◌, inl, inr, refl, arith,
}
use one_fass.Outcome.{done}
use one_fass.Rpc.Socket.{setup_socket, Net, Holding, start, open_fd}

-- Each call of the system gives what the server needs.
abbrev pub IsReady : Net → Type 0
IsReady net =
    (net.gai_rc ≡ pos 0)
    × (net.fd ≢ negsuc 0)
    × (net.options_rc ≢ negsuc 0)
    × (net.bind_rc ≢ negsuc 0)

pub ==ℤ_refl : (n : ℤ) → (n ==ℤ n) ≡ true
==ℤ_refl n = ground arith

-- The start always comes to an end. Where each call succeeds, the thread runs, and the process holds the
-- descriptor of the server besides what it held; where one fails, no thread runs and the process holds
-- what it held: the descriptor is closed and the list of addresses is freed, once.
pub start_lem :
    (net : Net) (h : Holding)
    → (IsReady net × (start net h ≡ done (pos 1, true, open_fd net.fd h)))
      ⊎ ((IsReady net → ⊥) × (start net h ≡ done (pos 0, false, h)))
unfolding start
start_lem net h = elim (Bool-cases (net.gai_rc ==ℤ pos 0)) [
  | inr gai ↦ inr (λ r. ground arith, rw gai refl)
  | inl gai ↦ elim (Bool-cases (net.fd ==ℤ negsuc 0)) [
    | inl fd ↦ inr (λ r. ground arith, rw (gai, fd) refl)
    | inr fd ↦ elim (Bool-cases (net.options_rc ==ℤ negsuc 0)) [
      | inl options ↦ inr (λ r. ground arith, rw (gai, fd, options, ==ℤ_refl net.fd) refl)
      | inr options ↦ elim (Bool-cases (net.bind_rc ==ℤ negsuc 0)) [
        | inl bound ↦ inr (λ r. ground arith, rw (gai, fd, options, bound, ==ℤ_refl net.fd) refl)
        | inr bound ↦ inl (
          (ground arith, ground arith, ground arith, ground arith),
          rw (gai, fd, options, bound) refl,
        )
      ]
    ]
  ]
]

abbrev pub IsOldReady : Net → Type 0
IsOldReady net =
    (net.fd ≢ negsuc 0)
    × (net.options_rc ≢ negsuc 0)
    × (net.aton_rc ≢ pos 0)
    × (net.bind_rc ≢ negsuc 0)

-- The older routine tells its caller of a failure in every case. The descriptor is open behind it exactly
-- if each call succeeds, else the process holds what it held.
pub setup_socket_lem :
    (net : Net) (h : Holding)
    → (IsOldReady net × (setup_socket net h ≡ (false, open_fd net.fd h)))
      ⊎ ((IsOldReady net → ⊥) × (setup_socket net h ≡ (false, h)))
unfolding setup_socket
setup_socket_lem net h = elim (Bool-cases (net.fd ==ℤ negsuc 0)) [
  | inl fd ↦ inr (λ r. ground arith, rw fd refl)
  | inr fd ↦ elim (Bool-cases (net.options_rc ==ℤ negsuc 0)) [
    | inl options ↦ inr (λ r. ground arith, rw (fd, options, ==ℤ_refl net.fd) refl)
    | inr options ↦ elim (Bool-cases (net.aton_rc ==ℤ pos 0)) [
      | inl aton ↦ inr (λ r. ground arith, rw (fd, options, aton, ==ℤ_refl net.fd) refl)
      | inr aton ↦ elim (Bool-cases (net.bind_rc ==ℤ negsuc 0)) [
        | inl bound ↦ inr (λ r. ground arith, rw (fd, options, aton, bound, ==ℤ_refl net.fd) refl)
        | inr bound ↦ inl (
          (ground arith, ground arith, ground arith, ground arith),
          rw (fd, options, aton, bound) refl,
        )
      ]
    ]
  ]
]
