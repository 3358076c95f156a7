-- ===== src/Sched/Alive.antt =====
-- Programs that only create tasks, yield and exit: every order of such calls.
pub mod Keep
pub mod Program
use libtask.Base.{ℕ, ◌+◌, ◌≡◌, ◌≢◌, Bool, List, [], ◌∷◌, false, All, Distinct, count}
use libtask.Tasklist.{Ptr, nil}
use libtask.Sched.{
  Sys, ok, taskcreate, tasksystem, taskyield_enter, taskexit_enter, taskswitch, runs,
}
use libtask.Sched.Queue.{Queued}
use libtask.Sched.Table.Defs.{IsTable, Listed, Unlisted}
use libtask.Sched.Boot.{main}

-- A move of the running task. `malloc` returns no memory that a task of the table has.
pub data Step (s : Sys) : Sys → Type 0 where
  creates :
      (fresh : Ptr) (grown : Bool) {id : ℕ} {u : Sys}
      → Unlisted s fresh
      → taskcreate fresh grown s ≡ ok (id, u)
      → Step s u
  turns_system : Step s (tasksystem s)
  yields : {v : Sys} → taskswitch (taskyield_enter s) ≡ runs v → Step s v
  exits : {v : Sys} (val : ℕ) → taskswitch (taskexit_enter val s) ≡ runs v → Step s v

pub data Reach : Sys → Type 0 where
  start : {v : Sys} (fresh : Ptr) (grown : Bool) → main fresh grown ≡ ok (runs v) → Reach v
  later : {s v : Sys} → Reach s → Step s v → Reach v

-- The tasks of the table are just `xs`, and none of them has exited.
pub record Census (s : Sys) (xs : List Ptr) : Type 0 where
  pub table : IsTable s 0
  pub listed : All (Listed s) xs
  pub only : (a : Ptr) → Listed s a → count a xs ≢ 0
  pub alive : All (λ a. s.exiting a ≡ false) xs

-- The task that runs and the tasks `rs`, which are ready, are all tasks of the table.
pub record Inv (s : Sys) (rs : List Ptr) : Type 0 where
  pub queued : Queued s rs
  pub distinct : Distinct (s.running ∷ nil ∷ rs)
  pub census : Census s (s.running ∷ rs)
