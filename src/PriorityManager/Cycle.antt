-- ===== src/PriorityManager/Cycle.antt =====
-- One round of `pm_loop` in src/pm/PriorityManager.cc, and `historical_usage`.
use one_fass.Base.{
  ◌∷◌, ◌++◌, ℕ, ◌+◌, ℤ, pos, negsuc, ◌-ℤ◌, ◌*ℤ◌, ◌==◌, List, [], map, length, if◌then◌else◌,
}
use one_fass.Text.{Text}
use one_fass.Outcome.{Outcome, done, throws, ◌>>=◌, or_throw, or_fault, element}
use one_fass.Floating.{Floating}
use one_fass.Boost.{Boost}
use one_fass.Database.{usage_points}
use one_fass.User.{User}
use one_fass.Xml.{LibXml}
use one_fass.Client.{Transport, XmlRpcClient}
use one_fass.AcctPool.{Sums, eval_usage}
use one_fass.AcctPool.SetUp
use one_fass.VmPool.{Pool, pending_search}
use one_fass.VmPool
use one_fass.Terminator.{Terminator, Call, kill_pending}
use one_fass.PriorityManager.{Priorities, do_prioritize}

module _ (f : Floating) (x : LibXml) (b : Boost f.F) where
  -- The members that a round reads. `junk` and `blank` are what fresh memory holds.
  pub record Settings : Type 0 where
    pub start_time : Text
    pub manager_timer : ℤ
    pub period : ℤ
    pub n_periods : ℕ
    pub plugin_debug : ℤ
    pub client : XmlRpcClient
    pub junk : Sums f
    pub blank : User f.F

  -- The members that it changes.
  pub record PriorityManager : Type 0 where
    pub user_list : List (User f.F)
    pub vmpool : Pool f x
    pub priorities : Priorities f x
    pub queue : Text

  -- The date is only checked: its three numbers are not used.
  unfoldable pub check_date : Text → Outcome (ℤ × ℤ × ℤ)
  check_date start_time =
      let tokens = b.split b'/' start_time in
      let checked : Outcome (ℤ × ℤ × ℤ) = do
        first ← element 0 tokens
        day ← or_throw (b.cast_int16 first)
        second ← element 1 tokens
        month ← or_throw (b.cast_int16 second)
        third ← element 2 tokens
        year ← or_throw (b.cast_int16 third)
        done (day, month, year)
      in if length tokens == 3 then checked else throws

  -- The users with their new usage, and the points that are written to the database for each.
  unfoldable pub historical_usage :
      Transport → Settings → ℤ → List (User f.F) → Outcome (List (User f.F) × List Text)
  unfolding check_date
  historical_usage send s timestamp user_list = do
    checked ← check_date s.start_time
    let time_start = timestamp -ℤ ((s.manager_timer *ℤ s.period) *ℤ pos (s.n_periods + 1))
    (objects, rc) ← SetUp.set_up f x send s.client (map (λ u. pos u.user_id) user_list) time_start
    us ← or_fault (
        eval_usage f s.junk objects time_start timestamp (s.manager_timer *ℤ s.period) s.n_periods
          user_list)
    done (us, points us)
    where
      points : List (User f.F) → List Text
      points [] = []
      points (u ∷ us) = usage_points u ++ points us

  -- `PriorityManager::make_queue`
  unfoldable pub set_queue : PriorityManager → Outcome PriorityManager
  set_queue m = do
    queue ← VmPool.make_queue f x m.vmpool m.priorities
    done (record m { queue = queue; priorities = [] })

  -- `do_prioritize` and `make_queue`, one after the other.
  unfoldable pub plan :
      Settings → List (User f.F) → Pool f x → PriorityManager → Outcome PriorityManager
  unfolding set_queue
  plan s user_list vmpool m = do
    priorities ← do_prioritize f x user_list s.blank s.plugin_debug vmpool m.priorities
    set_queue (record {
      user_list = user_list;
      vmpool = vmpool;
      priorities = priorities;
      queue = m.queue;
    })

  -- The round behind the wait. The terminator's pending calls come first; the three retrievals and
  -- their clocks differ.
  unfoldable pub cycle :
      (ℕ → Transport)
      → (ℕ → ℤ)
      → ℤ
      → Settings
      → Terminator f x
      → PriorityManager
      → Outcome (Terminator f x × List Call × List Text × PriorityManager)
  unfolding historical_usage plan
  cycle send now timestamp s t m = do
    killed ← kill_pending f x (send 0) now (negsuc 0) t
    answer ← VmPool.set_up f x (send 1) s.client (pending_search (negsuc 0))
    (user_list, points) ← historical_usage (send 2) s timestamp m.user_list
    m' ← plan s user_list answer.0 m
    done (killed.0, killed.1, points, m')
