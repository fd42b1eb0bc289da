-- ===== src/Rpc/Socket.antt =====
-- The start of the server in src/rpcm/RPCManager.cc: what the system answers is a parameter, and the
-- state is what the process holds of it.
pub mod Held
mod Examples
use one_fass.Base.{
  ℕ, zero, suc, ℤ, pos, negsuc, ◌==ℤ◌, not, Bool, true, false, List, [], ◌∷◌, if◌then◌else◌,
}
use one_fass.Outcome.{Outcome, done, throws, faults, blocks, ◌>>=◌}

-- The results of `getaddrinfo`, `socket`, `setsockopt`, `inet_aton` and `bind`.
pub record Net : Type 0 where
  pub gai_rc : ℤ
  pub fd : ℤ
  pub options_rc : ℤ
  pub aton_rc : ℤ
  pub bind_rc : ℤ

-- The open descriptors, and the number of address lists.
pub record Holding : Type 0 where
  pub fds : List ℤ
  pub infos : ℕ

abbrev pub take_info : Holding → Holding
take_info h = record h { infos = suc h.infos }

abbrev pub open_fd : ℤ → Holding → Holding
open_fd fd h = record h { fds = fd ∷ h.fds }

-- `freeaddrinfo`, and a read of the list: there is to be one.
abbrev pub free_count : ℕ → Outcome ℕ
free_count zero = faults
free_count (suc n) = done n

abbrev pub freeaddrinfo : Holding → Outcome Holding
freeaddrinfo h = do n ← free_count h.infos; done (record h { infos = n })

abbrev pub read_info : Holding → Outcome Holding
read_info h = do n ← free_count h.infos; done h

abbrev remove_fd : ℤ → List ℤ → List ℤ
remove_fd fd [] = []
remove_fd fd (d ∷ ds) = let rest = remove_fd fd ds in if d ==ℤ fd then ds else d ∷ rest

abbrev pub close : ℤ → Holding → Holding
close fd h = record h { fds = remove_fd fd h.fds }

-- Behind `socket`; the list is freed on every path.
setup_options : Net → Holding → Outcome (ℤ × Holding)
setup_options net h =
    let refused : Outcome (ℤ × Holding) = do
      freed ← freeaddrinfo (close net.fd h)
      done (negsuc 0, freed)
    in let bound : Outcome (ℤ × Holding) = do
      named ← read_info h
      freed ← freeaddrinfo named
      done (if net.bind_rc ==ℤ negsuc 0 then (negsuc 0, close net.fd freed) else (pos 0, freed))
      in if net.options_rc ==ℤ negsuc 0 then refused else bound

setup_list : Net → Holding → Outcome (ℤ × Holding)
unfolding setup_options
setup_list net h =
    let failed : Outcome (ℤ × Holding) = do freed ← freeaddrinfo h; done (negsuc 0, freed)
    in let opened : Outcome (ℤ × Holding) = do
      named ← read_info h
      setup_options net (open_fd net.fd named)
      in if net.fd ==ℤ negsuc 0 then failed else opened

unfoldable pub setup_socket_new : Net → Holding → Outcome (ℤ × Holding)
unfolding setup_list
setup_socket_new net h =
    if not (net.gai_rc ==ℤ pos 0) then done (negsuc 0, h) else setup_list net (take_info h)

-- It ends in `return 0`.
pub setup_socket : Net → Holding → Bool × Holding
setup_socket net h =
    let opened = open_fd net.fd h in
    if net.fd ==ℤ negsuc 0
    then (false, h)
    else if net.options_rc ==ℤ negsuc 0
    then (false, close net.fd opened)
    else if net.aton_rc ==ℤ pos 0
    then (false, close net.fd opened)
    else if net.bind_rc ==ℤ negsuc 0
    then (false, close net.fd opened)
    else (false, opened)

-- The result, and whether the thread of the server was made.
unfoldable pub start : Net → Holding → Outcome (ℤ × Bool × Holding)
unfolding setup_socket_new
start net h = do
  (rc, held) ← setup_socket_new net h
  done (if not (rc ==ℤ pos 0) then (pos 0, false, held) else (pos 1, true, held))
