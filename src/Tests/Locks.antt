-- ===== src/Tests/Locks.antt =====
-- The locks and rendezvous points of the sample system.
use libtask.Base.{◌≡◌, refl, ◌≢◌, ◌⊎◌, List, [], ◌∷◌, some, none, arith, update, true, false}
use libtask.Tasklist.{Ptr, nil, addtask, deltask}
use libtask.Sched.{Sys, ok, aborts, Next, runs, taskswitch, taskyield_enter}
use libtask.Waiting.{wait_on}
use libtask.Waiting.Moves.{Split}
use libtask.Qlock.{Qlock, unlocked, qlock, qunlock, qlock_resume}
use libtask.Qlock.System.{World, Reach, start, later, lock_now, lock_wait, yields}
use libtask.Qlock.Exclusion.{mutual_exclusion, qlock-never-aborts}
use libtask.Rendez.{Rendez, tasksleep_enter, taskwakeupall}
use libtask.Rendez.Sleep.{Around, Slept, tasksleep-Slept}
use libtask.Rendez.Wakeup.{WokenAll, taskwakeupall-WokenAll}
use libtask.Tests.Samples.{sys, pair-Holds, waiters, waiters-Holds, single, single-Holds}

goes_on : Next → Sys
goes_on (runs v) = v
goes_on _ = sys

-- Task 1 takes the lock and yields, and task 2, which runs next, asks for the lock and waits.
abbrev taken : World
taken = record {
  sys = sys;
  lock = record unlocked { owner = 1 };
  waits = λ _. false;
  holds = update (λ _. false) 1 true;
}

abbrev yielded : World
unfolding goes_on
yielded = record taken { sys = goes_on (taskswitch (taskyield_enter sys)) }

abbrev waiting : World
unfolding goes_on
waiting =
    let (_, m, u) = qlock yielded.lock yielded.sys in
    record yielded { sys = goes_on (taskswitch u); lock = m; waits = update yielded.waits 2 true }

taken-Reach : Reach taken
unfolding qlock
taken-Reach = later (start sys (2 ∷ 3 ∷ []) pair-Holds (omega arith)) (lock_now refl refl)

yielded-Reach : Reach yielded
unfolding taskswitch taskyield_enter goes_on addtask deltask
yielded-Reach = later taken-Reach (yields refl refl)

waiting-Reach : Reach waiting
unfolding taskswitch qlock taskyield_enter goes_on wait_on addtask deltask
waiting-Reach = later yielded-Reach (lock_wait _ refl refl refl)

mutual_exclusion_example : (◌≡◌ {A = Ptr} 1 1) × (waiting.lock.owner ≡ 1)
unfolding waiting
mutual_exclusion_example = mutual_exclusion 1 1 waiting-Reach refl refl

qlock-never-aborts_example :
    ((waiting.waits waiting.sys.running ≡ false) ⊎ (qlock_resume waiting.lock waiting.sys ≡ ok tt))
    × ((waiting.holds waiting.sys.running ≡ false) ⊎ (qunlock waiting.lock waiting.sys ≢ aborts))
qlock-never-aborts_example = qlock-never-aborts waiting-Reach

abbrev busy : Qlock
busy = record { owner = 1; waiting = waiters }

busy-Split : Split sys waiters (2 ∷ 3 ∷ []) (5 ∷ 6 ∷ [])
busy-Split = record { queued = pair-Holds; waiting = waiters-Holds; distinct = omega arith }

abbrev sleepers : List Ptr
sleepers = 5 ∷ 6 ∷ []

taskwakeupall-WokenAll_example :
    (q : Rendez) × (u : Sys) × (taskwakeupall 3 (record { lock = none; waiting = waiters }) sys
      ≡ some (2, q, u))
    × WokenAll (record { lock = none; waiting = waiters }) q u (2 ∷ 3 ∷ []) (5 ∷ 6 ∷ [])
taskwakeupall-WokenAll_example =
    taskwakeupall-WokenAll (record { lock = none; waiting = waiters }) sys (2 ∷ 3 ∷ []) (5 ∷ 6 ∷ [])
      3 (omega arith) busy-Split

abbrev guarded : Qlock
guarded = record { owner = 1; waiting = single }

around : Around sys waiters guarded (2 ∷ 3 ∷ []) (5 ∷ 6 ∷ []) (7 ∷ [])
around = record {
  queued = pair-Holds;
  sleeping = waiters-Holds;
  locking = single-Holds;
  distinct = omega arith;
}

tasksleep-Slept_example :
    ((guarded.owner ≡ nil)
      × (tasksleep_enter (record { lock = some guarded; waiting = waiters }) sys ≡ aborts))
    ⊎ ((guarded.owner ≢ nil)
        × Slept
            (tasksleep_enter (record { lock = some guarded; waiting = waiters }) sys)
            guarded
            1
            (2 ∷ 3 ∷ [])
            (5 ∷ 6 ∷ [])
            (7 ∷ []))
tasksleep-Slept_example =
    tasksleep-Slept waiters guarded sys (2 ∷ 3 ∷ []) (5 ∷ 6 ∷ []) (7 ∷ []) around (omega arith)
