-- ===== src/Rpc/Socket/Examples.antt =====
-- A server whose port is taken, and one whose port is free.
use one_fass.Base.{pos, negsuc, true, false, [], ◌∷◌, ◌≡◌, ◌⊎◌, refl}
use one_fass.Outcome.{done}
use one_fass.Rpc.Socket.{Net, Holding, start, open_fd}
use one_fass.Rpc.Socket.Held.{IsReady, start_lem}

abbrev taken : Net
taken = record {
  gai_rc = pos 0;
  fd = pos 5;
  options_rc = pos 0;
  aton_rc = pos 1;
  bind_rc = negsuc 0;
}

abbrev held : Holding
held = record { fds = pos 3 ∷ []; infos = 0 }

start_run : start taken held ≡ done (pos 0, false, held)
unfolding start
start_run = refl

start_lem_example :
    (IsReady taken × (start taken held ≡ done (pos 1, true, open_fd (pos 5) held)))
    ⊎ ((IsReady taken → ⊥) × (start taken held ≡ done (pos 0, false, held)))
start_lem_example = start_lem taken held
