-- ===== src/Daemon/Stop.antt =====
-- The end of `start` in src/fass/Fass.cc, behind the signal, with `finalize` of include/RPCManager.h, and
-- the thread of the server in src/rpcm/RPCManager.cc.
pub mod Life
mod Examples
use one_fass.Base.{
  ℤ, pos, negsuc, ◌==ℤ◌, Bool, true, false, not, Option, none, some, List, [], ◌∷◌, if◌then◌else◌,
}
use one_fass.Text.{Text}
use one_fass.Outcome.{Outcome, done, throws, faults, blocks, ◌>>=◌, or_fault}
use one_fass.Floating.{Floating}
use one_fass.Boost.{Boost}
use one_fass.Daemon.Managers.{RpcmObject}
use one_fass.Daemon.Start.{World, Started, pm_started, tm_started, rpcm_started, Fass}
use one_fass.Daemon.Start.Stages.{start}
use one_fass.Rpc.Socket.{Holding, close}

-- What `rm_xml_server_loop` gives to the server that it makes. No file is named where the name is empty.
pub record ServerOptions : Type 0 where
  pub keepalive_timeout : ℤ
  pub keepalive_max_conn : ℤ
  pub timeout : ℤ
  pub socket_fd : ℤ
  pub log_file_name : Option Text
  pub max_conn : ℤ
  pub max_conn_backlog : ℤ

abbrev pub unless_empty : Text → Option Text
unless_empty [] = none
unless_empty (c ∷ t) = some (c ∷ t)

abbrev pub server_options : ℤ → RpcmObject → ServerOptions
server_options socket_fd rm = record {
  keepalive_timeout = rm.keepalive_timeout;
  keepalive_max_conn = rm.keepalive_max_conn;
  timeout = rm.timeout;
  socket_fd = socket_fd;
  log_file_name = unless_empty rm.xml_log_file;
  max_conn = rm.max_conn;
  max_conn_backlog = rm.max_conn_backlog;
}

-- What the end meets: whether the mutex of the terminator is given, whether the thread of the server has
-- made its server yet, whether each thread comes to its end, and what `pthread_join` of a thread that
-- was joined before comes to, which POSIX leaves open. The threads of the two managers do not come to
-- their end when a failed retrieval keeps the mutex that they wait for, as in Threads.
pub record Ending : Type 0 where
  pub tm_unlocked : Bool
  pub server_made : Bool
  pub server_ends : Bool
  pub pm_ends : Bool
  pub tm_ends : Bool
  pub rejoin : Outcome ℤ

-- What is still there: the threads that were not joined, the flags of the managers, the server, the
-- descriptor, what the process holds of the network, and the XML library.
pub record Left : Type 0 where
  pub threads : List Started
  pub pm_stop : Bool
  pub tm_stop : Bool
  pub server : Option ServerOptions
  pub socket_fd : ℤ
  pub held : Holding
  pub xml_parser : Bool

abbrev is_same : Started → Started → Bool
is_same pm_started pm_started = true
is_same tm_started tm_started = true
is_same rpcm_started rpcm_started = true
is_same _ _ = false

abbrev joinable : Started → List Started → Bool
joinable th [] = false
joinable th (t ∷ ts) = let rest = joinable th ts in if is_same th t then true else rest

abbrev joined : Started → List Started → List Started
joined th [] = []
joined th (t ∷ ts) = let rest = joined th ts in if is_same th t then ts else t ∷ rest

abbrev comes_to_end : Ending → Started → Bool
comes_to_end e pm_started = e.pm_ends
comes_to_end e tm_started = e.tm_ends
comes_to_end e rpcm_started = e.server_ends

-- It waits for the thread, which may never end.
abbrev pub pthread_join : Ending → Started → Left → Outcome Left
pthread_join e th l =
    let again : Outcome Left = e.rejoin >>= (λ rc. done l) in
    let first : Outcome Left =
      if comes_to_end e th then done (record l { threads = joined th l.threads }) else blocks in
    if joinable th l.threads then first else again

abbrev pub close_socket : Left → Left
close_socket l =
    if not (l.socket_fd ==ℤ negsuc 0) then record l { held = close l.socket_fd l.held } else l

-- `RPCManager::finalize`. The pointer to the server is set nowhere but in its thread.
abbrev pub finalize_rpcm : Ending → Left → Outcome Left
finalize_rpcm e l = do
  server ← or_fault l.server
  l' ← pthread_join e rpcm_started l
  done (close_socket (record l' { server = none }))

abbrev pub finalize_tm : Ending → Left → Outcome Left
finalize_tm e l = if e.tm_unlocked then done (record l { tm_stop = true }) else blocks

unfoldable pub stop : Ending → Left → Outcome Left
stop e l = do
  l1 ← finalize_tm e (record l { pm_stop = true })
  l2 ← finalize_rpcm e l1
  l3 ← pthread_join e rpcm_started l2
  l4 ← pthread_join e pm_started l3
  l5 ← pthread_join e tm_started l4
  done (record l5 { xml_parser = false })

abbrev server_of : Bool → ℤ → Option RpcmObject → Option ServerOptions
server_of true fd (some rm) = some (server_options fd rm)
server_of _ fd _ = none

module _ (f : Floating) (b : Boost f.F) (w : World) where
  abbrev pub at_signal : Ending → Fass f.F → Left
  at_signal e s = record {
    threads = s.threads;
    pm_stop = false;
    tm_stop = false;
    server = server_of e.server_made w.net.fd s.rpcm;
    socket_fd = w.net.fd;
    held = s.held;
    xml_parser = true;
  }

  -- `start` as a whole: the signal comes when it has come to its wait.
  unfoldable pub life : Ending → Outcome Left
  life e = do s ← (start f b w).1; stop e (at_signal e s)
