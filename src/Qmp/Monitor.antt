-- ===== src/Qmp/Monitor.antt =====
-- The loop that watches a migration: `monitor_incoming_migration`, and the loop at the end of
-- `execute_and_monitor_migration`.
pub mod Laws
use text.Mathlib.Text.{◌==◌ as str_eq}
use mathlib.Core.Option.{get_or}
use migration_transport_hack.Base.{
  ℕ, ◌+◌, String, Option, none, some, Bool, true, false, List, [], ◌∷◌, snoc, ltb, if◌then◌else◌,
}
use migration_transport_hack.Async.{Raised}

pub record Ram : Type 0 where
  pub transferred : Option ℕ
  pub total : Option ℕ

-- What `query-migrate` returns: the keys that the scripts read.
pub record MigrationInfo : Type 0 where
  pub status : Option String
  pub ram : Option Ram

-- What comes of a round's `execute('query-migrate')` (and of the `sleep` before it).
pub data Reply : Type 0 where
  info : MigrationInfo → Reply
  raises : Raised → Reply

pub data Ending : Type 0 where
  completed failed cancelled : Ending

-- `watching`: the replies so far have not ended the loop.
pub data Outcome : Type 0 where
  over : Ending → Outcome
  broken : Raised → Outcome
  watching : Outcome

pub record Watch : Type 0 where
  pub sleeps : ℕ  -- seconds slept between rounds
  pub progress : List (ℕ × ℕ)  -- `transferred` and `total` of each progress line

-- The `if` and `elif` on `status`, up to `cancelled`
unfoldable pub ending_of : String → Option Ending
ending_of status =
    if str_eq status "completed"
    then some completed
    else if str_eq status "failed"
    then some failed
    else if str_eq status "cancelled"
    then some cancelled
    else none

-- The percentage is the quotient of the two numbers, so it is kept as the pair.
abbrev pub ram_progress : Option Ram → List (ℕ × ℕ) → List (ℕ × ℕ)
ram_progress none lines = lines
ram_progress (some ram) lines =
    if ltb 0 (get_or ram.total 0)
    then snoc lines (get_or ram.transferred 0, get_or ram.total 0)
    else lines

-- `migration_info.get('status', 'unknown')`
abbrev pub status_of : MigrationInfo → String
status_of i = get_or i.status "unknown"

-- The branch for `active`, if the round goes on, and the `sleep`
unfoldable pub go_on : MigrationInfo → Watch → Watch
go_on i w = record {
  sleeps = w.sleeps + 1;
  progress = if str_eq (status_of i) "active" then ram_progress i.ram w.progress else w.progress;
}

unfoldable pub monitor : List Reply → Watch → Outcome × Watch
monitor [] w = (watching, w)
monitor (raises e ∷ rest) w = (broken e, w)
monitor (info i ∷ rest) w = elim (ending_of (status_of i)) [
  | some e ↦ (over e, w)
  | none ↦ monitor rest (go_on i w)
]
