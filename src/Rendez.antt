-- ===== src/Rendez.antt =====
-- rendez.c: condition variables, `struct Rendez` with `tasksleep` and `taskwakeup`.
--
-- A rendezvous point may have a lock. `none` stands for the null pointer, `some l` for a pointer to
-- the lock `l`, whose new value is part of the result.
pub mod Wakeup
pub mod Sleep
use libtask.Base.{
  ℕ, zero, suc, ◌+◌, Bool, true, false, not, ◌&&◌, Option, none, some, ◌==◌, if◌then◌else◌,
}
use libtask.Tasklist.{nil, Tasklist}
use libtask.Sched.{Sys, Result, ok, aborts, ◌>>=◌, taskstate}
use libtask.Waiting.{wait_on, wake}
use libtask.Qlock.{Qlock, Attempt, got, qlock, qunlock}

-- `r->waiting` and the lock behind `r->l`.
pub record Rendez : Type 0 where
  pub lock : Option Qlock
  pub waiting : Tasklist

-- `if (r->l) qunlock(r->l)`.
unfoldable pub unlock_rendez : Option Qlock → Sys → Result (Option Qlock × Sys)
unlock_rendez none s = ok (none, s)
unlock_rendez (some l) s = do (l', s') ← qunlock l s; ok (some l', s')

-- `tasksleep` up to its `taskswitch`.
unfoldable pub tasksleep_enter : Rendez → Sys → Result (Rendez × Sys)
unfolding unlock_rendez
tasksleep_enter r s = do
  let (w, s') = wait_on r.waiting s
  (l, s'') ← unlock_rendez r.lock s'
  ok (record { lock = l; waiting = w }, taskstate "sleep" s'')

-- `tasksleep` behind its `taskswitch`: `if (r->l) qlock(r->l)`, which may block again.
lock_rendez : Rendez → Option Qlock → Sys → Attempt × Rendez × Sys
lock_rendez r none s = (got, r, s)
lock_rendez r (some l) s = let (a, l', s') = qlock l s in (a, record r { lock = some l' }, s')

unfoldable pub tasksleep_resume : Rendez → Sys → Attempt × Rendez × Sys
unfolding lock_rendez
tasksleep_resume r s = lock_rendez r r.lock s

-- The loop of `_taskwakeup` in round `i`; `none` means that the fuel ran out.
unfoldable pub wakeup_loop : ℕ → ℕ → Bool → Rendez → Sys → Option (ℕ × Rendez × Sys)
wakeup_loop zero i all r s = none
wakeup_loop (suc fuel) i all r s =
    let t = r.waiting.head in
    let (w, s') = wake r.waiting t s in
    let rest = wakeup_loop fuel (i + 1) all (record r { waiting = w }) s' in
    let next = if t == nil then some (i, r, s) else rest in
    if (i == 1) && not all then some (i, r, s) else next

-- One round wakes a task, and a second one sees that it is done.
unfoldable pub taskwakeup : Rendez → Sys → Option (ℕ × Rendez × Sys)
unfolding wakeup_loop
taskwakeup r s = wakeup_loop 2 0 false r s

unfoldable pub taskwakeupall : ℕ → Rendez → Sys → Option (ℕ × Rendez × Sys)
unfolding wakeup_loop
taskwakeupall fuel r s = wakeup_loop fuel 0 true r s
