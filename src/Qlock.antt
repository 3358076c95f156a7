-- ===== src/Qlock.antt =====
-- qlock.c, the queuing locks: `struct QLock` with `qlock`, `canqlock` and `qunlock`.
pub mod Ops
pub mod System
pub mod Invariant
pub mod Preserve
pub mod Exclusion
use libtask.Base.{ℕ, Bool, true, false, not, ◌==◌, if◌then◌else◌}
use libtask.Tasklist.{Ptr, nil, Tasklist, empty_list}
use libtask.Sched.{Sys, Result, ok, aborts, taskstate}
use libtask.Waiting.{wait_on, wake}

pub record Qlock : Type 0 where
  pub owner : Ptr
  pub waiting : Tasklist

-- A lock is made by zeroing its memory.
abbrev pub unlocked : Qlock
unlocked = record { owner = nil; waiting = empty_list }

-- How far a call that may block got: it returned 1, it returned 0, or it reached its `taskswitch`.
pub data Attempt : Type 0 where
  got refused blocks : Attempt

-- `_qlock` up to its `taskswitch`.
unfoldable pub qlock_enter : Bool → Qlock → Sys → Attempt × Qlock × Sys
qlock_enter block l s =
    if l.owner == nil
    then (got, record l { owner = s.running }, s)
    else (if not block
        then (refused, l, s)
        else (let (w, s') = wait_on l.waiting s in
            (blocks, record l { waiting = w }, taskstate "qlock" s')))

-- `_qlock` behind its `taskswitch`: the lock must have been handed over.
unfoldable pub qlock_resume : Qlock → Sys → Result (Unit {0})
qlock_resume l s = if l.owner == s.running then ok tt else aborts

unfoldable pub qlock : Qlock → Sys → Attempt × Qlock × Sys
unfolding qlock_enter
qlock = qlock_enter true

unfoldable pub canqlock : Qlock → Sys → Attempt × Qlock × Sys
unfolding qlock_enter
canqlock = qlock_enter false

unfoldable pub qunlock : Qlock → Sys → Result (Qlock × Sys)
qunlock l s =
    if l.owner == nil
    then aborts
    else (let heir = l.waiting.head in
        if heir == nil
        then ok (record l { owner = nil }, s)
        else (let (w, s') = wake l.waiting heir s in ok (record { owner = heir; waiting = w }, s')))
