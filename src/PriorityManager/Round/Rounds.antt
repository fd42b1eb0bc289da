-- ===== src/PriorityManager/Round/Rounds.antt =====
-- The priority manager over its rounds.
use one_fass.Base.{ℕ, ℤ, List, ◌≡◌}
use one_fass.Text.{Text}
use one_fass.Outcome.{done}
use one_fass.Floating.{Floating}
use one_fass.Boost.{Boost}
use one_fass.User.{User}
use one_fass.Xml.{LibXml}
use one_fass.Client.{Transport}
use one_fass.AcctPool.SetUp
use one_fass.Terminator.{Terminator, Call}
use one_fass.PriorityManager.Cycle.{Settings, PriorityManager, cycle}
use one_fass.PriorityManager.Round.{IsQueue, Retrieved}

module _ (f : Floating) (x : LibXml) (b : Boost f.F) (s : Settings f x b) where
  -- Any number of rounds that come to their end. Between them the other thread does to the terminator
  -- what it wants.
  pub data Rounds (m : PriorityManager f x b) : PriorityManager f x b → Type 0 where
    none_yet : Rounds m m
    one_more :
        {before after : PriorityManager f x b}
        → Rounds m before
        → (send : ℕ → Transport) (now : ℕ → ℤ) (timestamp : ℤ) (t t' : Terminator f x)
        → (calls : List Call) → (points : List Text)
        → cycle f x b send now timestamp s t before ≡ done (t', calls, points, after)
        → Rounds m after

  -- What the last of the rounds has left, when there is one.
  abbrev pub Last : {m m' : PriorityManager f x b} → Rounds m m' → Type 0
  Last none_yet = Unit
  Last (one_more {before} {after} r send now timestamp t t' calls points e) =
      Retrieved f x b send timestamp s points before after × IsQueue f x b s after
