-- ===== src/Tests/Io.antt =====
-- A system whose tasks 5 and 6 sleep, and whose tasks 4 and 7 wait for file descriptors.
use libtask.Base.{
  ◌*◌, ◌+◌, ◌%◌, ◌^◌, ◌<◌, ◌≡◌, ◌≢◌, refl, ◌⊎◌, inr, List, [], ◌∷◌, arith, true, false, ◌==◌,
  if◌then◌else◌, replicate, pos, negsuc, ℕ, zero, suc, get_or,
}
use libtask.Tasklist.{Ptr, nil}
use libtask.Sched.{Sys, ok, aborts}
use libtask.Sched.Table.Users.{users}
use libtask.Sched.Table.Defs.{Unlisted}
use libtask.Fd.{Io, no_pollfd, maxfd, taskdelay_enter, fdwait_enter, start}
use libtask.Fd.Asleep.{Asleep, user_tasks}
use libtask.Fd.Start.{Started}
use libtask.Fd.Delay.{Delayed, taskdelay-Delayed}
use libtask.Fd.Task.{poll_timeout, wake_polled, fdtask_wake, events, again}
use libtask.Fd.Round.{Woken, stored, fdtask_wake-Woken}
use libtask.Fd.Poll.{Polling, PolledOut, wake_polled-PolledOut}
use libtask.Fd.Wait.{Registered, fdwait-Registered}
use libtask.Fd.Timeout.{Timely, poll_timeout-Timely}
use libtask.Fd.Transfer.{Answer, moved, would_block, failed, fdwrite}
use libtask.Fd.Write.{Wrote, fdwrite-Wrote}
use libtask.Tests.Samples.{sys, pair-Holds, waiters, waiters-Holds}

abbrev timed : Sys
timed = record sys {
  alarmtime = λ a. if a == 5 then 1000000 else (if a == 6 then 9000000 else 0);
  taskcount = 5;
}

-- The second file descriptor has an event.
abbrev io : Io
io = record {
  sys = timed;
  pollfd =
      record { fd = 3; events = 1; revents = 0 }
      ∷ record { fd = 8; events = 4; revents = 4 }
      ∷ replicate 1022 no_pollfd;
  polltask = 4 ∷ 7 ∷ replicate 1022 nil;
  npollfd = 2;
  startedfdtask = true;
  sleeping = waiters;
  sleepingcounted = 2;
}

slots : (i : ℕ) → i < 4 → io.sys.slot (get_or io.sys.alltask i nil) ≡ i
slots zero h = refl
slots (suc zero) h = refl
slots (suc (suc zero)) h = refl
slots (suc (suc (suc zero))) h = refl
slots (suc (suc (suc (suc i)))) h = absurd (omega arith)

io-Asleep : Asleep io (2 ∷ 3 ∷ []) (5 ∷ 6 ∷ [])
unfolding users user_tasks
io-Asleep = record {
  queued = pair-Holds;
  sleeping = waiters-Holds;
  distinct = omega arith;
  sorted = ((omega arith, tt), (tt, tt));
  counted = refl;
  table = record { room = refl; fits = omega arith; slots = slots; counted = refl };
}

io-Polling : Polling io (2 ∷ 3 ∷ []) (5 ∷ 6 ∷ [])
io-Polling = record {
  split = record { queued = pair-Holds; waiting = waiters-Holds; distinct = omega arith };
  distinct = omega arith;
  room_fds = omega arith;
  room_tasks = omega arith;
}

-- Before the first call.
abbrev idle : Io
idle = record io { startedfdtask = false }

idle-Asleep : Asleep idle (2 ∷ 3 ∷ []) (5 ∷ 6 ∷ [])
idle-Asleep = record {
  queued = pair-Holds;
  sleeping = waiters-Holds;
  distinct = io-Asleep.distinct;
  sorted = io-Asleep.sorted;
  counted = io-Asleep.counted;
  table = io-Asleep.table;
}

nine-Unlisted : Unlisted idle.sys 9
nine-Unlisted zero h e = omega arith
nine-Unlisted (suc zero) h e = omega arith
nine-Unlisted (suc (suc zero)) h e = omega arith
nine-Unlisted (suc (suc (suc zero))) h e = omega arith
nine-Unlisted (suc (suc (suc (suc i)))) h e = absurd (omega arith)

taskdelay-Delayed_example :
    (v : Io) × (x : Io) × (ss : List Ptr) × (xs : List Ptr) × (ys : List Ptr) × (start 9 true idle
      ≡ ok v)
    × Started idle v 9 (2 ∷ 3 ∷ []) ss (5 ∷ 6 ∷ [])
    × (taskdelay_enter 3 9 true 100 4 idle ≡ ok x)
    × Delayed v x ((100 + 4 * 1000000) % 2 ^ 64) ss (5 ∷ 6 ∷ []) xs ys
taskdelay-Delayed_example =
    taskdelay-Delayed 3 9 100 4 idle (2 ∷ 3 ∷ []) (5 ∷ 6 ∷ []) (omega arith)
      (inr (refl, omega arith, nine-Unlisted)) idle-Asleep (omega arith)

wake_polled-PolledOut_example :
    (x : Io) × (woken : List Ptr) × (wake_polled 3 0 io ≡ ok x)
    × PolledOut io x (2 ∷ 3 ∷ []) (5 ∷ 6 ∷ []) woken
wake_polled-PolledOut_example =
    wake_polled-PolledOut 3 io (2 ∷ 3 ∷ []) (5 ∷ 6 ∷ []) (omega arith) io-Polling

fdwait-Registered_example :
    ((io.npollfd ≡ maxfd) × (fdwait_enter 9 true 5 b'r' io ≡ aborts))
    ⊎ ((io.npollfd < maxfd)
        × (x : Io) × (fdwait_enter 9 true 5 b'r' io ≡ ok x)
        × Registered io x 5 b'r' (2 ∷ 3 ∷ []) (5 ∷ 6 ∷ []))
fdwait-Registered_example =
    fdwait-Registered 9 true 5 b'r' io (2 ∷ 3 ∷ []) (5 ∷ 6 ∷ []) refl refl refl io-Polling
      (omega arith)

abbrev alarms : Ptr → ℕ
alarms _ = 7000000

poll_timeout-Timely_example :
    ((◌≡◌ {A = Ptr} 5 nil) × (poll_timeout 1000000 5 alarms ≡ negsuc 0))
    ⊎ ((◌≢◌ {A = Ptr} 5 nil)
        × ((ms : ℕ) × (poll_timeout 1000000 5 alarms ≡ pos ms) × Timely 1000000 7000000 ms))
poll_timeout-Timely_example = poll_timeout-Timely 1000000 5 alarms (omega arith)

abbrev calls : List Answer
calls = moved 2 ∷ would_block ∷ moved 1 ∷ failed ∷ []

abbrev sent : List ℕ
sent = 10 ∷ 20 ∷ 30 ∷ 40 ∷ []

fdwrite-Wrote_example : (k : ℕ) × Wrote 4 0 calls sent (1 ∷ []) (fdwrite calls 4 sent (1 ∷ [])) k
fdwrite-Wrote_example = fdwrite-Wrote calls 4 sent (1 ∷ []) (omega arith, (omega arith, tt))

fdtask_wake-Woken_example :
    (x : Io) × (woken : List Ptr) × (due : List Ptr) × (later : List Ptr) × (fdtask_wake 3 2000000
        (events (1 ∷ 0 ∷ []))
        io
      ≡ ok (again x))
    × Woken (stored (1 ∷ 0 ∷ []) io) x 2000000 (2 ∷ 3 ∷ []) (5 ∷ 6 ∷ []) woken due later
fdtask_wake-Woken_example =
    fdtask_wake-Woken 3 2000000 (1 ∷ 0 ∷ []) io (2 ∷ 3 ∷ []) (5 ∷ 6 ∷ []) (omega arith)
      (omega arith)
      (record {
        polling = io-Polling;
        timed = record {
          sorted = io-Asleep.sorted;
          counted = io-Asleep.counted;
          table = io-Asleep.table;
        };
      })
