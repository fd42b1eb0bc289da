-- ===== src/Terminator/Loop.antt =====
-- One round of `tm_loop`: the users one after the other, each with its calls and two records for the
-- database.
use one_fass.Base.{ℕ, suc, ℤ, pos, List, [], ◌∷◌, ◌++◌, map, length, ◌==◌, if◌then◌else◌}
use one_fass.Text.{Text, codes}
use one_fass.Text.Decimal.{dec}
use one_fass.Outcome.{element, Outcome, done, throws, ◌>>=◌, or_throw}
use one_fass.Floating.{Floating}
use one_fass.Boost.{Boost}
use one_fass.Xml.{LibXml}
use one_fass.Client.{Transport}
use one_fass.Terminator.{Call, Terminator, Killed, kill_running}

-- What the thread does to the world, in order: a call of OpenNebula, or `database->write`.
pub data Event : Type 0 where
  called : Call → Event
  wrote : Text → Text → Text → ℤ → Event

-- The user id and the time to live of an entry `name:uid:gid:share:ttl`. Without five tokens a `throw`
-- with nothing to throw ends the program.
unfoldable pub parse_user : {F : Type 0} → Boost F → Text → Outcome (ℤ × ℤ)
parse_user b entry =
    let tokens = b.split b':' entry in
    let parsed : Outcome (ℤ × ℤ) = do
      uid_token ← element 1 tokens
      uid ← or_throw (b.cast_int16 uid_token)
      ttl_token ← element 4 tokens
      ttl ← or_throw (b.cast_int64 ttl_token)
      done (uid, ttl)
    in if length tokens == 5 then parsed else throws

module _ (f : Floating) (x : LibXml) (b : Boost f.F) where
  open f use {f_zero, f_stream}

  unfoldable pub usage_records : ℤ → ℤ → Killed f x → List Event
  usage_records timestamp uid r =
      let tag : Text = codes "user=" ++ dec uid in
      wrote (codes "cpu") (f_stream r.cpu) tag timestamp
      ∷ wrote (codes "memory") (dec r.memory) tag timestamp
      ∷ []

  -- The body of the loop over the users.
  unfoldable pub serve_user :
      Transport → (ℕ → ℤ) → ℤ → Text → Terminator f x → Outcome (Terminator f x × List Event)
  unfolding usage_records
  serve_user send now timestamp entry t = do
    parsed ← parse_user b entry
    r ← kill_running f x send now parsed.0 parsed.1 f_zero (pos 0) t
    done (r.after, map called r.calls ++ usage_records timestamp parsed.0 r)

  -- The transport and the clock differ from user to user.
  unfoldable pub serve_users :
      (ℕ → Transport)
      → (ℕ → ℕ → ℤ)
      → ℤ
      → ℕ
      → List Text
      → Terminator f x
      → Outcome (Terminator f x × List Event)
  unfolding serve_user
  serve_users send now timestamp k [] t = done (t, [])
  serve_users send now timestamp k (entry ∷ entries) t = do
    (first, events) ← serve_user (send k) (now k) timestamp entry t
    (last, later) ← serve_users send now timestamp (suc k) entries first
    done (last, events ++ later)
