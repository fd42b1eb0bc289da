-- ===== src/Daemon/Stop/Life.antt =====
-- What is left when the daemon has ended.
use one_fass.Base.{
  ◌&&◌, if◌then◌else◌, arith, ℤ, negsuc, ◌==ℤ◌, Bool, true, false, none, some, [], ◌∷◌, ◌≡◌, refl,
  inl, inr,
}
use one_fass.Outcome.{Outcome, done, throws, faults, blocks, ◌>>=◌}
use one_fass.Floating.{Floating}
use one_fass.Boost.{Boost}
use one_fass.Daemon.Start.{World, pm_started, tm_started, rpcm_started, Fass, no_holding}
use one_fass.Daemon.Start.Stages.{start}
use one_fass.Daemon.Start.Order.{start-Ended}
use one_fass.Daemon.Managers.{RpcmObject}
use one_fass.Rpc.Socket.{open_fd}
use one_fass.Rpc.Socket.Held.{==ℤ_refl}
use one_fass.Daemon.Stop.{Ending, Left, stop, at_signal, life}

module _ (f : Floating) (b : Boost f.F) (w : World) where
  -- Each thread was joined, the server and its descriptor are gone, and the XML library was cleaned up.
  abbrev pub given_back : Left
  given_back = record {
    threads = [];
    pm_stop = true;
    tm_stop = true;
    server = none;
    socket_fd = w.net.fd;
    held = no_holding;
    xml_parser = false;
  }

  -- Behind the second join of the server's thread the two others are joined.
  abbrev managers_joined : Ending → Outcome Left
  managers_joined e = if e.pm_ends && e.tm_ends then done given_back else blocks

  -- How the end comes out: it waits for the mutex or for a thread, reads a pointer that was never set, or
  -- joins the thread of the server for the second time.
  abbrev pub ended : Ending → Outcome Left
  ended e =
      if e.tm_unlocked
      then if e.server_made
        then if e.server_ends then e.rejoin >>= (λ rc. managers_joined e) else blocks
        else faults
      else blocks

  module _ (s : Fass f.F) (rpcm : RpcmObject)
      (threads : s.threads ≡ pm_started ∷ tm_started ∷ rpcm_started ∷ [])
      (held : s.held ≡ open_fd w.net.fd no_holding) (made : s.rpcm ≡ some rpcm)
      (fd : (w.net.fd ==ℤ negsuc 0) ≡ false) where
    abbrev ending : Bool → Bool → Bool → Bool → Bool → Outcome ℤ → Ending
    ending u m a p t r = record {
      tm_unlocked = u;
      server_made = m;
      server_ends = a;
      pm_ends = p;
      tm_ends = t;
      rejoin = r;
    }

    stop-ended :
        (u m a p t : Bool) (r : Outcome ℤ)
        → stop (ending u m a p t r) (at_signal f b w (ending u m a p t r) s)
          ≡ ended (ending u m a p t r)
    unfolding stop
    stop-ended false m a p t r = refl
    stop-ended true false a p t r = refl
    stop-ended true true false p t r = rw (threads, made) refl
    stop-ended true true true false t (done rc) = rw (threads, held, made, fd) refl
    stop-ended true true true true false (done rc) = rw (threads, held, made, fd) refl
    stop-ended true true true true true (done rc) =
        rw (threads, held, made, fd, ==ℤ_refl w.net.fd) refl
    stop-ended true true true p t throws = rw (threads, held, made, fd) refl
    stop-ended true true true p t faults = rw (threads, held, made, fd) refl
    stop-ended true true true p t blocks = rw (threads, held, made, fd) refl

  -- When the start has come to its end and the signal comes, everything is given back exactly if the
  -- mutex of the terminator is free, the thread of the server has made its server, all three threads
  -- come to their end, and joining a thread that was joined before returns: each thread was joined, the
  -- server and its descriptor are gone, and the XML library was cleaned up. Else the daemon waits for
  -- the mutex or for a thread for ever, or reads a pointer that was never set, or does what the second
  -- join comes to.
  pub life-ended : {s : Fass f.F} (e : Ending) → (start f b w).1 ≡ done s → life f b w e ≡ ended e
  unfolding life
  life-ended {s} e started = elim (start-Ended f b w) [
    | inr (failed, partly) ↦ absurd (failed _ started)
    | inl (same, (pm, tm, has, also, threads, held), (rpcm, made), fd) ↦ rw same (
        stop-ended (start f b w).0 rpcm threads held made (ground arith) e.tm_unlocked e.server_made
          e.server_ends e.pm_ends e.tm_ends e.rejoin)
  ]
