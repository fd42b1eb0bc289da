-- ===== src/User.antt =====
-- include/User.h: the usage records of a user.
use one_fass.Base.{ℕ, ℤ, [], ltb}
use one_fass.StdMap.{Map, insert}

pub record Usage : Type 0 where
  pub usage : ℤ
  pub start_time : ℤ
  pub stop_time : ℤ

-- The ids are `unsigned short`. The maps go from the number of a period, 0 upwards, to its usage.
pub record User (F : Type 0) : Type 0 where
  pub user_id : ℕ
  pub group_id : ℕ
  pub share : F
  pub ttl : ℤ
  pub cpu_usage : Map ℕ Usage
  pub memory_usage : Map ℕ Usage

module _ {F : Type 0} where
  -- `User()` leaves the numbers indeterminate: they are arguments.
  unfoldable pub new_user : ℕ → ℕ → F → ℤ → User F
  new_user uid gid share ttl = record {
    user_id = uid;
    group_id = gid;
    share = share;
    ttl = ttl;
    cpu_usage = [];
    memory_usage = [];
  }

  unfoldable pub set_cpu_usage : ℕ → Usage → User F → User F
  set_cpu_usage entry usage u = record u { cpu_usage = insert ltb entry usage u.cpu_usage }

  unfoldable pub set_memory_usage : ℕ → Usage → User F → User F
  set_memory_usage entry usage u = record u { memory_usage = insert ltb entry usage u.memory_usage }

  unfoldable pub flush_usage : User F → User F
  flush_usage u = record u { cpu_usage = []; memory_usage = [] }
