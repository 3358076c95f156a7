-- ===== src/Fd/Task.antt =====
-- fd.c: `fdtask`, the task that waits for events and wakes the others.
use libtask.Base.{
  ℕ, zero, suc, ◌+◌, ◌-◌, ◌/◌, ◌%◌, ◌^◌, not, ◌&&◌, List, [], ◌∷◌, ◌==◌, ltb, leb, if◌then◌else◌,
  get_or, set, Bool, false, ℤ, pos, negsuc,
}
use libtask.Tasklist.{Ptr, nil, deltask}
use libtask.Sched.{
  Result, ok, out_of_fuel, ◌>>=◌, taskready, tasksystem, taskname, taskstate, Sys, taskyield_resume,
}
use libtask.Fd.{Io, Pollfd, no_pollfd}

-- `fdtask` up to its loop.
unfoldable pub fdtask_enter : Io → Io
fdtask_enter w = record w { sys = taskname "fdtask" (tasksystem w.sys) }

-- The timeout for `poll`, in milliseconds: -1 for none.
unfoldable pub poll_timeout : ℕ → Ptr → (Ptr → ℕ) → ℤ
poll_timeout now t alarm =
    if t == nil
    then negsuc 0
    else (if leb (alarm t) now
        then pos 0
        else (if leb (alarm t) ((now + 5000000000) % 2 ^ 64)
            then pos ((alarm t - now) / 1000000)
            else pos 5000))

-- `poll` writes `revents` of the first entries.
unfoldable pub polled : List ℕ → List Pollfd → List Pollfd
polled [] ps = ps
polled (e ∷ es) [] = []
polled (e ∷ es) (p ∷ ps) = record p { revents = e } ∷ polled es ps

-- The task of entry `i` is ready, and the last entry moves to its place.
unfoldable pub take_off : ℕ → Io → Io
take_off i w =
    let n = w.npollfd - 1 in
    record w {
      sys = taskready (get_or w.polltask i nil) w.sys;
      npollfd = n;
      pollfd = set w.pollfd i (get_or w.pollfd n no_pollfd);
      polltask = set w.polltask i (get_or w.polltask n nil);
    }

-- The `for` and the `while` in it: a round takes entry `i` off or goes on to the next one.
unfoldable pub wake_polled : ℕ → ℕ → Io → Result Io
unfolding take_off
wake_polled zero i w = out_of_fuel
wake_polled (suc fuel) i w =
    let taken = wake_polled fuel i (take_off i w) in
    let next = wake_polled fuel (i + 1) w in
    if ltb i w.npollfd
    then (if (get_or w.pollfd i no_pollfd).revents == 0 then next else taken)
    else ok w

-- `if (!t->system && --sleepingcounted == 0) taskcount--`.
unfoldable pub uncount_sleeper : Ptr → Io → Io
uncount_sleeper t w =
    let n = w.sleepingcounted - 1 in
    if w.sys.system t then w else record w {
      sleepingcounted = n;
      sys = record w.sys { taskcount = if n == 0 then w.sys.taskcount - 1 else w.sys.taskcount };
    }

unfoldable pub wake_sleeper : Ptr → Io → Io
unfolding uncount_sleeper
wake_sleeper t w =
    let (l, h) = deltask w.sleeping t w.sys.links in
    let off = record w { sleeping = l; sys = record w.sys { links = h } } in
    let less = uncount_sleeper t off in record less { sys = taskready t less.sys }

unfoldable pub wake_sleepers : ℕ → ℕ → Io → Result Io
unfolding wake_sleeper
wake_sleepers zero now w = out_of_fuel
wake_sleepers (suc fuel) now w =
    let t = w.sleeping.head in
    let rest = wake_sleepers fuel now (wake_sleeper t w) in
    if not (t == nil) && leb (w.sys.alarmtime t) now then rest else ok w

-- `taskyield() > 0` with its result, where `n` is the number of switches before the call.
unfoldable pub yields_again : ℕ → Sys → Bool
unfolding taskyield_resume
yields_again n s = elim (taskyield_resume n s) [ pos k ↦ ltb 0 k | negsuc k ↦ false ]

-- What `poll` did: it stored events, it was interrupted by a signal, or it failed.
pub data Polled : Type 0 where
  events : List ℕ → Polled
  interrupted failed : Polled

-- `fdtask` goes back to the head of its loop, or ends the program with status 0.
pub data Round : Type 0 where
  again : Io → Round
  quits : Round

-- A round of the loop behind the calls of `taskyield`: `fdtask_poll` up to `poll`, with its timeout,
-- and `fdtask_wake` behind it. `now` is what `nsec` returns.
unfoldable pub fdtask_poll : ℕ → Io → ℤ × Io
unfolding poll_timeout
fdtask_poll now w =
    (poll_timeout now w.sleeping.head w.sys.alarmtime, record w { sys = taskstate "poll" w.sys })

unfoldable pub fdtask_wake : ℕ → ℕ → Polled → Io → Result Round
unfolding wake_polled wake_sleepers polled
fdtask_wake fuel now interrupted w = ok (again w)
fdtask_wake fuel now failed w = ok quits
fdtask_wake fuel now (events es) w = do
  w' ← wake_polled fuel 0 (record w { pollfd = polled es w.pollfd })
  w'' ← wake_sleepers fuel now w'
  ok (again w'')
