-- ===== src/Tests/Sharing.antt =====
-- A writer and then a reader at one reader-writer lock.
use libtask.Base.{
  ◌≡◌, refl, ◌≢◌, ◌⊎◌, Option, some, [], ◌∷◌, length, arith, update, true, false, ap,
}
use libtask.Tasklist.{Ptr, nil, addtask, deltask}
use libtask.Tasklist.Chain.{Holds, Holds-unique}
use libtask.Sched.{Sys, Result, ok, Next, runs, taskswitch, taskyield_enter}
use libtask.Waiting.{wait_on, wake}
use libtask.Rwlock.{Rwlock, rlock_enter, wlock_enter, runlock, wunlock}
use libtask.Rwlock.System.{
  World, Reach, Room, unlocked, start, later, read_wait, write_got, read_resume, unread, unwrite,
  yields,
}
use libtask.Rwlock.Exclusion.{rw_exclusion, waiters_return_owners, free-rwlock-unwaited}
use libtask.Tests.Samples.{sys, pair-Holds}

goes_on : Next → Sys
goes_on (runs v) = v
goes_on _ = sys

given_back : Option (Result (Rwlock × Sys)) → Rwlock × Sys
given_back (some (ok r)) = r
given_back _ = (unlocked, sys)

abbrev yield_in : World → World
unfolding goes_on
yield_in w = record w { sys = goes_on (taskswitch (taskyield_enter w.sys)) }

-- Task 1 takes the lock to write and yields; task 2 asks to read and waits.
abbrev written : World
written = record {
  sys = sys;
  lock = record unlocked { writer = 1 };
  reads = λ _. 0;
  writes = update (λ _. false) 1 true;
  rwaits = λ _. false;
  wwaits = λ _. false;
}

abbrev asked : World
unfolding goes_on
asked =
    let w = yield_in written in
    let (_, m, u) = rlock_enter true w.lock w.sys in
    record w { sys = goes_on (taskswitch u); lock = m; rwaits = update w.rwaits 2 true }

asked-Reach : Reach asked
unfolding taskswitch taskyield_enter goes_on wait_on addtask deltask rlock_enter wlock_enter
asked-Reach =
    let taken : Reach written =
      later (start sys (2 ∷ 3 ∷ []) pair-Holds (omega arith)) (write_got true (refl, refl) refl) in
    let yielded : Reach (yield_in written) = later taken (yields (refl, refl) refl) in
    later yielded (read_wait _ (refl, refl) (omega arith) refl refl)

rw_exclusion_example :
    (asked.lock.writer ≡ 1) × (asked.reads 2 ≡ 0) × ((asked.writes 2 ≡ false) ⊎ (◌≡◌ {A = Ptr} 2 1))
unfolding asked
rw_exclusion_example = rw_exclusion 1 2 asked-Reach refl

-- Task 3 yields, task 1 gives the lock back, and after two more yields task 2 is about to return.
abbrev passed_on : World
unfolding given_back
passed_on =
    let w = yield_in asked in
    let (m, u) = given_back (wunlock 2 w.lock w.sys) in
    record w { sys = u; lock = m; writes = update w.writes 1 false }

abbrev returning : World
returning = yield_in (yield_in passed_on)

few_readers : Room 2 (yield_in asked)
unfolding asked taskswitch taskyield_enter goes_on wait_on addtask deltask rlock_enter
few_readers ps h f =
    let w = yield_in asked in
    let two : Holds w.sys.links w.lock.rwaiting (2 ∷ []) = record {
      head = refl;
      tail = refl;
      chain = (refl, refl, tt);
    } in
    let e : ps ≡ 2 ∷ [] =
      Holds-unique w.sys.links w.lock.rwaiting ps (2 ∷ []) h two f (omega arith) in
    omega (arith, ap length e)

no_readers : Room 1 returning
unfolding asked passed_on taskswitch taskyield_enter goes_on given_back wait_on wake addtask deltask
    rlock_enter wunlock
no_readers ps h f =
    let w = returning in
    let empty : Holds w.sys.links w.lock.rwaiting [] = record {
      head = refl;
      tail = refl;
      chain = tt;
    } in
    let e : ps ≡ [] = Holds-unique w.sys.links w.lock.rwaiting ps [] h empty f tt in
    omega (arith, ap length e)

passed_on-Reach : Reach passed_on
unfolding asked passed_on taskswitch taskyield_enter goes_on given_back wait_on wake addtask deltask
    rlock_enter wunlock
passed_on-Reach =
    let third : Reach (yield_in asked) = later asked-Reach (yields (refl, refl) refl) in
    later third (unwrite 2 (refl, refl) refl few_readers refl)

returning-Reach : Reach returning
unfolding asked passed_on taskswitch taskyield_enter goes_on given_back wait_on wake addtask deltask
    rlock_enter wunlock
returning-Reach =
    let next : Reach (yield_in passed_on) = later passed_on-Reach (yields (refl, refl) refl) in
    later next (yields (refl, refl) refl)

waiters_return_owners_example :
    ((returning.rwaits returning.sys.running ≡ false)
      ⊎ ((returning.lock.writer ≡ nil) × (returning.lock.readers ≢ 0)))
    × ((returning.wwaits returning.sys.running ≡ false)
        ⊎ ((returning.lock.writer ≡ returning.sys.running) × (returning.lock.readers ≡ 0)))
    × ((returning.writes returning.sys.running ≡ false)
        ⊎ ((x : Rwlock × Sys) × (wunlock 1 returning.lock returning.sys ≡ some (ok x))))
waiters_return_owners_example = waiters_return_owners 1 returning-Reach no_readers

-- Task 2 returns, and gives the lock back.
abbrev idle : World
idle =
    let w = returning in
    let (m, u) = runlock w.lock w.sys in
    record w {
      sys = u;
      lock = m;
      rwaits = update w.rwaits 2 false;
      reads = update (update w.reads 2 1) 2 0;
    }

idle-Reach : Reach idle
unfolding asked passed_on taskswitch taskyield_enter goes_on given_back wait_on wake addtask deltask
    rlock_enter wunlock runlock
idle-Reach =
    later (later returning-Reach (read_resume refl)) (unread (refl, refl) (λ e. omega arith) refl)

free-rwlock-unwaited_example : (idle.rwaits 2 ≡ false) × (idle.wwaits 2 ≡ false)
unfolding asked passed_on taskswitch taskyield_enter goes_on given_back wait_on wake addtask deltask
    rlock_enter wunlock runlock
free-rwlock-unwaited_example = free-rwlock-unwaited 2 idle-Reach refl refl
