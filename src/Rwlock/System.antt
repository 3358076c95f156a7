-- ===== src/Rwlock/System.antt =====
-- A program whose tasks share one reader-writer lock: every order of calls and switches.
use libtask.Base.{
  ℕ, ◌+◌, ◌-◌, ◌^◌, ◌<◌, ◌≡◌, ◌≢◌, Bool, true, false, some, List, ◌∷◌, Distinct, Fresh, update,
  length,
}
use libtask.Tasklist.{Ptr, nil, empty_list}
use libtask.Tasklist.Chain.{Holds}
use libtask.Sched.{Sys, ok, taskyield_enter, taskexit_enter, taskswitch, runs}
use libtask.Sched.Queue.{Queued}
use libtask.Qlock.{got, refused, blocks}
use libtask.Rwlock.{Rwlock, rlock_enter, wlock_enter, runlock, wunlock}

-- `reads` counts how often a task has the lock to read: the calls of `rlock` and `canrlock` that
-- returned 1, less those of `runlock`. `writes` marks who has it to write, `rwaits` and `wwaits` the
-- tasks inside `rlock` and `wlock` that have reached their `taskswitch`.
pub record World : Type 0 where
  pub sys : Sys
  pub lock : Rwlock
  pub reads : Ptr → ℕ
  pub writes : Ptr → Bool
  pub rwaits : Ptr → Bool
  pub wwaits : Ptr → Bool

-- The running task is inside no call.
abbrev pub Free : World → Type 0
Free w = (w.rwaits w.sys.running ≡ false) × (w.wwaits w.sys.running ≡ false)

-- Less than 2^31 tasks wait to read, and the loop that wakes them has fuel for each.
abbrev pub Room : ℕ → World → Type 0
Room fuel w =
    (ps : List Ptr)
    → Holds w.sys.links w.lock.rwaiting ps
    → Fresh nil ps
    → (length ps < fuel) × (length ps < 2 ^ 31)

-- One move of the running task. It unlocks only what it holds; all else it may do in any order. With
-- `block` a call is `rlock` or `wlock`, without it `canrlock` or `canwlock`.
pub data Step (w : World) : World → Type 0 where
  read_got :
      (block : Bool) {m : Rwlock} {u : Sys}
      → Free w
      → w.lock.readers + 1 < 2 ^ 31
      → rlock_enter block w.lock w.sys ≡ (got, m, u)
      → Step w (record w {
        sys = u;
        lock = m;
        reads = update w.reads w.sys.running (w.reads w.sys.running + 1);
      })
  read_wait :
      {m : Rwlock} (u : Sys) {v : Sys}
      → Free w
      → w.lock.readers + 1 < 2 ^ 31
      → rlock_enter true w.lock w.sys ≡ (blocks, m, u)
      → taskswitch u ≡ runs v
      → Step w (record w { sys = v; lock = m; rwaits = update w.rwaits w.sys.running true })
  read_refused :
      {m : Rwlock} {u : Sys}
      → Free w
      → w.lock.readers + 1 < 2 ^ 31
      → rlock_enter false w.lock w.sys ≡ (refused, m, u)
      → Step w (record w { sys = u; lock = m })
  write_got :
      (block : Bool) {m : Rwlock} {u : Sys}
      → Free w
      → wlock_enter block w.lock w.sys ≡ (got, m, u)
      → Step w (record w { sys = u; lock = m; writes = update w.writes w.sys.running true })
  write_wait :
      {m : Rwlock} (u : Sys) {v : Sys}
      → Free w
      → wlock_enter true w.lock w.sys ≡ (blocks, m, u)
      → taskswitch u ≡ runs v
      → Step w (record w { sys = v; lock = m; wwaits = update w.wwaits w.sys.running true })
  write_refused :
      {m : Rwlock} {u : Sys}
      → Free w
      → wlock_enter false w.lock w.sys ≡ (refused, m, u)
      → Step w (record w { sys = u; lock = m })
  read_resume :
      w.rwaits w.sys.running ≡ true
      → Step w (record w {
        rwaits = update w.rwaits w.sys.running false;
        reads = update w.reads w.sys.running (w.reads w.sys.running + 1);
      })
  write_resume :
      w.wwaits w.sys.running ≡ true
      → Step w (record w {
        wwaits = update w.wwaits w.sys.running false;
        writes = update w.writes w.sys.running true;
      })
  unread :
      {m : Rwlock} {u : Sys}
      → Free w
      → w.reads w.sys.running ≢ 0
      → runlock w.lock w.sys ≡ (m, u)
      → Step w (record w {
        sys = u;
        lock = m;
        reads = update w.reads w.sys.running (w.reads w.sys.running - 1);
      })
  unwrite :
      (fuel : ℕ) {m : Rwlock} {u : Sys}
      → Free w
      → w.writes w.sys.running ≡ true
      → Room fuel w
      → wunlock fuel w.lock w.sys ≡ some (ok (m, u))
      → Step w (record w { sys = u; lock = m; writes = update w.writes w.sys.running false })
  yields :
      {v : Sys}
      → Free w
      → taskswitch (taskyield_enter w.sys) ≡ runs v
      → Step w (record w { sys = v })
  exits :
      {v : Sys} (val : ℕ)
      → Free w
      → taskswitch (taskexit_enter val w.sys) ≡ runs v
      → Step w (record w { sys = v })

-- A lock is made by zeroing its memory.
abbrev pub unlocked : Rwlock
unlocked = record { readers = 0; writer = nil; rwaiting = empty_list; wwaiting = empty_list }

-- At the start the lock is free, some task runs and the tasks `rs` are ready.
pub data Reach : World → Type 0 where
  start :
      (s : Sys) (rs : List Ptr)
      → Queued s rs
      → Distinct (s.running ∷ nil ∷ rs)
      → Reach (record {
        sys = s;
        lock = unlocked;
        reads = λ _. 0;
        writes = λ _. false;
        rwaits = λ _. false;
        wwaits = λ _. false;
      })
  later : {w x : World} → Reach w → Step w x → Reach x
