-- ===== src/Tests/Rwlocks.antt =====
-- Reader-writer locks of the sample system: 5 and 6 wait to read, 7 to write.
use libtask.Base.{◌≡◌, refl, ◌≢◌, ◌⊎◌, inl, inr, List, [], ◌∷◌, some, ◌+◌, ◌-◌, arith, ◌++◌}
use libtask.Tasklist.{Ptr, nil}
use libtask.Sched.{Sys, ok, aborts}
use libtask.Qlock.{got}
use libtask.Rwlock.{Rwlock, rlock, runlock, wunlock}
use libtask.Rwlock.Lists.{Stand, Fit}
use libtask.Rwlock.Acquire.{Readable, Blocked, rlock-Stand}
use libtask.Rwlock.Grant.{ToWriter}
use libtask.Rwlock.Release.{runlock-Stand}
use libtask.Rwlock.Wunlock.{Passed, wunlock-Stand}
use libtask.Tests.Samples.{sys, pair-Holds, waiters, waiters-Holds, single, single-Holds}

abbrev ready : List Ptr
ready = 2 ∷ 3 ∷ []

abbrev readers : List Ptr
readers = 5 ∷ 6 ∷ []

abbrev writers : List Ptr
writers = 7 ∷ []

-- The writer 4 has the lock.
abbrev writing : Rwlock
writing = record { readers = 0; writer = 4; rwaiting = waiters; wwaiting = single }

writing-Stand : Stand sys writing ready readers writers
writing-Stand = record {
  queued = pair-Holds;
  rwaiting = waiters-Holds;
  wwaiting = single-Holds;
  distinct = omega arith;
}

writing-Fit : Fit writing readers writers
writing-Fit = record {
  alone = inr refl;
  readers_wait = inr (inl (λ e. omega arith));
  writers_wait = inr (inl (λ e. omega arith));
  small = omega arith;
}

-- One reader has it.
abbrev reading : Rwlock
reading = record { readers = 1; writer = nil; rwaiting = waiters; wwaiting = single }

reading-Fit : Fit reading readers writers
reading-Fit = record {
  alone = inl refl;
  readers_wait = inr (inr (λ e. cc));
  writers_wait = inr (inr (λ e. omega arith));
  small = omega arith;
}

reading-Stand : Stand sys reading ready readers writers
reading-Stand = record {
  queued = pair-Holds;
  rwaiting = waiters-Holds;
  wwaiting = single-Holds;
  distinct = omega arith;
}

wunlock-Stand_example :
    ((writing.writer ≡ nil) × (wunlock 3 writing sys ≡ some aborts))
    ⊎ ((m : Rwlock) × (u : Sys) × (writing.writer ≢ nil)
        × (wunlock 3 writing sys ≡ some (ok (m, u)))
        × Passed m u ready readers writers)
wunlock-Stand_example =
    wunlock-Stand writing sys ready readers writers 3 writing-Stand writing-Fit (omega arith)
      (omega arith)

runlock-Stand_example :
    ((t : Ptr) × (rest : List Ptr) × (m : Rwlock) × (u : Sys) × (reading.readers ≡ 1)
      × (writers ≡ t ∷ rest)
      × (runlock reading sys ≡ (m, u))
      × ToWriter m u t ready readers rest)
    ⊎ (((reading.readers ≢ 1) ⊎ (writers ≡ []))
        × (runlock reading sys ≡ (record reading { readers = reading.readers - 1 }, sys))
        × Fit (record reading { readers = reading.readers - 1 }) readers writers)
runlock-Stand_example =
    runlock-Stand reading sys ready readers writers reading-Stand reading-Fit (λ e. omega arith)

rlock-Stand_example :
    (Readable reading writers
      × (rlock reading sys ≡ (got, record reading { readers = reading.readers + 1 }, sys))
      × Fit (record reading { readers = reading.readers + 1 }) readers writers)
    ⊎ (((reading.writer ≢ nil) ⊎ (writers ≢ []))
        × Blocked (rlock reading sys) ready (readers ++ (sys.running ∷ [])) writers)
rlock-Stand_example =
    rlock-Stand reading sys ready readers writers reading-Stand reading-Fit (omega arith)
      (omega arith)
