-- ===== src/Qlock/System.antt =====
-- A program whose tasks share one queuing lock: every order of calls and switches.
use libtask.Base.{ℕ, ◌≡◌, Bool, true, false, List, ◌∷◌, Distinct, update}
use libtask.Tasklist.{Ptr, nil}
use libtask.Sched.{Sys, ok, taskyield_enter, taskexit_enter, taskswitch, runs}
use libtask.Sched.Queue.{Queued}
use libtask.Qlock.{Qlock, unlocked, got, refused, blocks, qlock, canqlock, qunlock, qlock_resume}

-- `waits` marks the tasks inside a call of `qlock` that has reached its `taskswitch`, `holds` those
-- whose `qlock` or `canqlock` returned 1 and that have not called `qunlock` since.
pub record World : Type 0 where
  pub sys : Sys
  pub lock : Qlock
  pub waits : Ptr → Bool
  pub holds : Ptr → Bool

-- One move of the running task. It unlocks only what it holds; all else it may do in any order.
pub data Step (w : World) : World → Type 0 where
  lock_now :
      {m : Qlock} {u : Sys}
      → w.waits w.sys.running ≡ false
      → qlock w.lock w.sys ≡ (got, m, u)
      → Step w (record w { sys = u; lock = m; holds = update w.holds w.sys.running true })
  lock_wait :
      {m : Qlock} (u : Sys) {v : Sys}
      → w.waits w.sys.running ≡ false
      → qlock w.lock w.sys ≡ (blocks, m, u)
      → taskswitch u ≡ runs v
      → Step w (record w { sys = v; lock = m; waits = update w.waits w.sys.running true })
  try_got :
      {m : Qlock} {u : Sys}
      → w.waits w.sys.running ≡ false
      → canqlock w.lock w.sys ≡ (got, m, u)
      → Step w (record w { sys = u; lock = m; holds = update w.holds w.sys.running true })
  try_refused :
      {m : Qlock} {u : Sys}
      → w.waits w.sys.running ≡ false
      → canqlock w.lock w.sys ≡ (refused, m, u)
      → Step w (record w { sys = u; lock = m })
  resume :
      w.waits w.sys.running ≡ true
      → qlock_resume w.lock w.sys ≡ ok tt
      → Step w (record w {
        waits = update w.waits w.sys.running false;
        holds = update w.holds w.sys.running true;
      })
  unlock :
      {m : Qlock} {u : Sys}
      → w.waits w.sys.running ≡ false
      → w.holds w.sys.running ≡ true
      → qunlock w.lock w.sys ≡ ok (m, u)
      → Step w (record w { sys = u; lock = m; holds = update w.holds w.sys.running false })
  yields :
      {v : Sys}
      → w.waits w.sys.running ≡ false
      → taskswitch (taskyield_enter w.sys) ≡ runs v
      → Step w (record w { sys = v })
  exits :
      {v : Sys} (val : ℕ)
      → w.waits w.sys.running ≡ false
      → taskswitch (taskexit_enter val w.sys) ≡ runs v
      → Step w (record w { sys = v })

-- At the start the lock is free, some task runs and the tasks `rs` are ready.
pub data Reach : World → Type 0 where
  start :
      (s : Sys) (rs : List Ptr)
      → Queued s rs
      → Distinct (s.running ∷ nil ∷ rs)
      → Reach (record { sys = s; lock = unlocked; waits = λ _. false; holds = λ _. false })
  later : {w x : World} → Reach w → Step w x → Reach x
