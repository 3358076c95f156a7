-- ===== src/Sched/Table/Defs.antt =====
-- What the table of tasks and the task counter hold between two operations.
use libtask.Base.{ℕ, ◌+◌, ◌%◌, ◌≤◌, ◌<◌, ◌≡◌, ◌≢◌, get_or, length}
use libtask.Tasklist.{Ptr, nil}
use libtask.Sched.{Sys}
use libtask.Sched.Table.Users.{users}

-- `extra` is what `taskdelay` adds to the counter while a user task sleeps.
pub record IsTable (s : Sys) (extra : ℕ) : Type 0 where
  -- the array has a multiple of 64 entries, and room for those in use
  pub room : length s.alltask % 64 ≡ 0
  pub fits : s.nalltask ≤ length s.alltask
  -- each task knows its slot
  pub slots : (i : ℕ) → i < s.nalltask → s.slot (get_or s.alltask i nil) ≡ i
  pub counted : s.taskcount ≡ users s.system s.alltask s.nalltask + extra

-- The task is in the table, at its slot.
abbrev pub Listed : Sys → Ptr → Type 0
Listed s t = (s.slot t < s.nalltask) × (get_or s.alltask (s.slot t) nil ≡ t)

abbrev pub Unlisted : Sys → Ptr → Type 0
Unlisted s t = (i : ℕ) → i < s.nalltask → get_or s.alltask i nil ≢ t
