-- ===== src/Rwlock.antt =====
-- qlock.c, the reader-writer locks: `struct RWLock` and its operations.
pub mod Lists
pub mod Acquire
pub mod Grant
pub mod Release
pub mod Wunlock
pub mod System
pub mod Invariant
pub mod Same
pub mod Reading
pub mod ReadMoves
pub mod Writing
pub mod WriteMoves
pub mod Preserve
pub mod Exclusion
use mathlib.Core.Option
use libtask.Base.{
  ℕ, zero, suc, ◌+◌, ◌-◌, ◌%◌, ◌^◌, Bool, true, false, not, ◌&&◌, Option, none, some, ◌==◌,
  if◌then◌else◌,
}
use libtask.Tasklist.{Ptr, nil, Tasklist, empty_list}
use libtask.Sched.{Sys, Result, ok, aborts, taskstate}
use libtask.Waiting.{wait_on, wake}
use libtask.Qlock.{Attempt, got, refused, blocks}

-- `readers` is an `int`, kept as its bit pattern.
pub record Rwlock : Type 0 where
  pub readers : ℕ
  pub writer : Ptr
  pub rwaiting : Tasklist
  pub wwaiting : Tasklist

-- `x++` and `x--` on an `int`.
abbrev pub add_int : ℕ → ℕ
add_int x = (x + 1) % 2 ^ 32

abbrev pub sub_int : ℕ → ℕ
sub_int x = (x + 2 ^ 32 - 1) % 2 ^ 32

-- `_rlock` up to its `taskswitch`. When it is resumed it returns 1 without a check.
unfoldable pub rlock_enter : Bool → Rwlock → Sys → Attempt × Rwlock × Sys
rlock_enter block l s =
    if (l.writer == nil) && (l.wwaiting.head == nil)
    then (got, record l { readers = add_int l.readers }, s)
    else (if not block
        then (refused, l, s)
        else (let (w, s') = wait_on l.rwaiting s in
            (blocks, record l { rwaiting = w }, taskstate "rlock" s')))

-- `_wlock` up to its `taskswitch`. When it is resumed it returns 1 without a check.
unfoldable pub wlock_enter : Bool → Rwlock → Sys → Attempt × Rwlock × Sys
wlock_enter block l s =
    if (l.writer == nil) && (l.readers == 0)
    then (got, record l { writer = s.running }, s)
    else (if not block
        then (refused, l, s)
        else (let (w, s') = wait_on l.wwaiting s in
            (blocks, record l { wwaiting = w }, taskstate "wlock" s')))

unfoldable pub rlock : Rwlock → Sys → Attempt × Rwlock × Sys
unfolding rlock_enter
rlock = rlock_enter true

unfoldable pub canrlock : Rwlock → Sys → Attempt × Rwlock × Sys
unfolding rlock_enter
canrlock = rlock_enter false

unfoldable pub wlock : Rwlock → Sys → Attempt × Rwlock × Sys
unfolding wlock_enter
wlock = wlock_enter true

unfoldable pub canwlock : Rwlock → Sys → Attempt × Rwlock × Sys
unfolding wlock_enter
canwlock = wlock_enter false

-- The conditional with which `runlock` and `wunlock` end: with no reader left the first waiting
-- writer gets the lock.
unfoldable pub grant_writer : Rwlock → Sys → Rwlock × Sys
grant_writer l s =
    let t = l.wwaiting.head in
    if (l.readers == 0) && not (t == nil)
    then (let (w, s') = wake l.wwaiting t s in (record l { writer = t; wwaiting = w }, s'))
    else (l, s)

unfoldable pub runlock : Rwlock → Sys → Rwlock × Sys
unfolding grant_writer
runlock l s = grant_writer (record l { readers = sub_int l.readers }) s

-- The loop of `wunlock`, one round for each waiting reader; `none` means that the fuel ran out.
unfoldable pub wake_readers : ℕ → Rwlock → Sys → Option (Rwlock × Sys)
wake_readers zero l s = none
wake_readers (suc fuel) l s =
    let t = l.rwaiting.head in
    let (w, s') = wake l.rwaiting t s in
    let rest = wake_readers fuel (record l { rwaiting = w; readers = add_int l.readers }) s' in
    if t == nil then some (l, s) else rest

unfoldable pub wunlock : ℕ → Rwlock → Sys → Option (Result (Rwlock × Sys))
unfolding grant_writer wake_readers
wunlock fuel l s =
    if l.writer == nil
    then some aborts
    else (if not (l.readers == 0)
        then some aborts
        else Option.map (λ (r : Rwlock × Sys). ok (grant_writer r.0 r.1))
            (wake_readers fuel (record l { writer = nil }) s))
