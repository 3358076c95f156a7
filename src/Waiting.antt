-- ===== src/Waiting.antt =====
-- The two moves between a wait list and the run queue that qlock.c and rendez.c make.
pub mod Moves
use libtask.Tasklist.{Ptr, Tasklist, addtask, deltask}
use libtask.Sched.{Sys, taskready}

-- `addtask(&l->waiting, taskrunning)`.
unfoldable pub wait_on : Tasklist → Sys → Tasklist × Sys
wait_on l s = let (l', h) = addtask l s.running s.links in (l', record s { links = h })

-- `deltask(&l->waiting, t); taskready(t)`.
unfoldable pub wake : Tasklist → Ptr → Sys → Tasklist × Sys
wake l t s = let (l', h) = deltask l t s.links in (l', taskready t (record s { links = h }))
