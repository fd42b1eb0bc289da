-- ===== src/PriorityManager/Round/Order.antt =====
-- A round does not depend on the order in which OpenNebula lists the virtual machines.
mod Examples
use mathlib.Core.Quot.{Quot}
use one_fass.Base.{ℕ, ℤ, negsuc, ◌==◌, ◌≡◌, if◌then◌else◌}
use one_fass.Floating.{Floating}
use one_fass.Boost.{Boost}
use one_fass.Xml.{LibXml, get_nodes}
use one_fass.Client.{Transport}
use one_fass.Terminator.{Terminator, kill_pending}
use one_fass.VmPool.{set_up, pending_search}
use one_fass.VmPool.Order.{returned, returned-bind, returned_then, Answer, Lists, set_up-Answer}
use one_fass.PriorityManager.Cycle.{Settings, PriorityManager, cycle}

-- The network, with the transport for the retrieval of the pending machines.
abbrev pub retrieving : Transport → (ℕ → Transport) → ℕ → Transport
retrieving t send i = if i == 1 then t else send i

module _ (f : Floating) (x : LibXml) (b : Boost f.F) where
  -- Whatever the order of the nodes in the answer to the call for the pending machines, a round comes to
  -- the same queue, the same calls of OpenNebula and the same points of the database, or does not come to
  -- its end for either order. Neighbouring nodes may be swapped any number of times, if they are not
  -- of the same id. Floats and documents are to be sets.
  pub cycle-Answer :
      (floats : IsSet f.F) (docs : IsSet x.Doc) (send : ℕ → Transport) (one other : Transport)
      (now : ℕ → ℤ) (timestamp : ℤ) (s : Settings f x b) (t : Terminator f x)
      (m : PriorityManager f x b) (doc reordered : x.Doc)
      → Lists f x one s.client doc
      → Lists f x other s.client reordered
      → ◌≡◌ {A = Answer f x}
          (Quot.mk (get_nodes x doc (pending_search (negsuc 0))))
          (Quot.mk (get_nodes x reordered (pending_search (negsuc 0))))
      → returned (cycle f x b (retrieving one send) now timestamp s t m)
        ≡ returned (cycle f x b (retrieving other send) now timestamp s t m)
  unfolding cycle
  cycle-Answer floats docs send one other now timestamp s t m doc reordered l k e =
      returned-bind (kill_pending f x (send 0) now (negsuc 0) t) _ _ (λ killed.
        returned_then (set_up f x one s.client (pending_search (negsuc 0)))
          (set_up f x other s.client (pending_search (negsuc 0))) _
          (set_up-Answer f x floats docs one other s.client (pending_search (negsuc 0)) doc
            reordered l k e))
