-- ===== src/Fd.antt =====
-- fd.c: tasks that sleep, and tasks that wait for file descriptors.
pub mod Place
pub mod Asleep
pub mod Delay
pub mod Task
pub mod Wake
pub mod Poll
pub mod Timeout
pub mod Transfer
pub mod Write
pub mod Wait
pub mod Round
pub mod Loop
pub mod Start
use libtask.Base.{
  ℕ, zero, suc, ◌+◌, ◌-◌, ◌*◌, ◌/◌, ◌%◌, ◌^◌, Bool, true, false, not, ◌&&◌, Option, none, some,
  List, [], ◌∷◌, ◌==◌, ltb, leb, if◌then◌else◌, update, get_or, set, ℤ, pos, negsuc,
}
use libtask.Tasklist.{Ptr, nil, Links, Tasklist, set_next, set_prev, deltask}
use libtask.Sched.{
  Sys, Result, ok, aborts, out_of_fuel, ◌>>=◌, taskready, taskcreate, tasksystem, taskname,
  taskstate,
}

pub record Pollfd : Type 0 where
  pub fd : ℕ
  pub events : ℕ
  pub revents : ℕ

abbrev pub no_pollfd : Pollfd
no_pollfd = record { fd = 0; events = 0; revents = 0 }

-- The globals of fd.c; `sys` has those of task.c.
pub record Io : Type 0 where
  pub sys : Sys
  pub pollfd : List Pollfd
  pub polltask : List Ptr
  pub npollfd : ℕ
  pub startedfdtask : Bool
  pub sleeping : Tasklist
  pub sleepingcounted : ℕ

abbrev pub maxfd : ℕ
maxfd = 1024

abbrev pub pollin : ℕ
pollin = 1

abbrev pub pollout : ℕ
pollout = 4

-- With what `gettimeofday` stores, or `none` if it fails.
unfoldable pub nsec : Option (ℕ × ℕ) → ℕ
nsec none = 2 ^ 64 - 1
nsec (some (sec, usec)) = (sec * 1000000000 + usec * 1000) % 2 ^ 64

-- `taskcreate(fdtask, ...)` at the first call; `fresh` and `grown` are as for `taskcreate`.
unfoldable pub first_start : Ptr → Bool → Io → Result Io
unfolding taskcreate
first_start fresh grown w = do
  (_, s) ← taskcreate fresh grown w.sys
  ok (record w { sys = s; startedfdtask = true })

unfoldable pub start : Ptr → Bool → Io → Result Io
unfolding first_start
start fresh grown w = if w.startedfdtask then ok w else first_start fresh grown w

-- The `for` of `taskdelay`: the first task from `t` on that does not wake before `when`.
unfoldable pub find_later : ℕ → Ptr → ℕ → Sys → Result Ptr
find_later zero t when s = out_of_fuel
find_later (suc fuel) t when s =
    let rest = find_later fuel (s.links.next t) when s in
    if not (t == nil) && ltb (s.alarmtime t) when then rest else ok t

-- `if (t) ... else ...`: the links of the running task `r`, which is to stand before `t`.
aim : Ptr → Ptr → Tasklist → Links → Links
aim r t l h =
    if not (t == nil)
    then set_next r t (set_prev r (h.prev t) h)
    else set_next r nil (set_prev r l.tail h)

-- The two conditionals that link its neighbours to it.
link_prev : Ptr → Tasklist × Links → Tasklist × Links
link_prev r (l, h) =
    if not (h.prev r == nil) then (l, set_next (h.prev r) r h) else (record l { head = r }, h)

link_next : Ptr → Tasklist × Links → Tasklist × Links
link_next r (l, h) =
    if not (h.next r == nil) then (l, set_prev (h.next r) r h) else (record l { tail = r }, h)

unfoldable pub place : Ptr → Ptr → Tasklist → Links → Tasklist × Links
unfolding aim link_prev link_next
place r t l h = link_next r (link_prev r (l, aim r t l h))

-- `if (!t->system && sleepingcounted++ == 0) taskcount++`.
unfoldable pub count_sleeper : Ptr → Io → Io
count_sleeper t w = if w.sys.system t then w else record w {
  sleepingcounted = w.sleepingcounted + 1;
  sys = record w.sys {
    taskcount = if w.sleepingcounted == 0 then w.sys.taskcount + 1 else w.sys.taskcount;
  };
}

-- The running task at its place in the list, with its alarm set.
unfoldable pub sleep_before : Ptr → ℕ → Io → Io
unfolding place
sleep_before t when w =
    let r = w.sys.running in
    let (l, h) = place r t w.sleeping w.sys.links in
    record w {
      sleeping = l;
      sys = record w.sys { links = h; alarmtime = update w.sys.alarmtime r when };
    }

-- When the caller is to wake: `now` is what `nsec` returned.
unfoldable pub alarm_at : ℕ → ℕ → ℕ
alarm_at now ms = (now + ms * 1000000) % 2 ^ 64

-- `taskdelay` up to its `taskswitch`, and its result when it is resumed at the time `later`.
unfoldable pub taskdelay_enter : ℕ → Ptr → Bool → ℕ → ℕ → Io → Result Io
unfolding start find_later sleep_before count_sleeper alarm_at
taskdelay_enter fuel fresh grown now ms w = do
  started ← start fresh grown w
  t ← find_later fuel started.sleeping.head (alarm_at now ms) started.sys
  ok (count_sleeper w.sys.running (sleep_before t (alarm_at now ms) started))

unfoldable pub taskdelay_resume : ℕ → ℕ → ℕ
taskdelay_resume now later = (later + 2 ^ 64 - now) % 2 ^ 64 / 1000000 % 2 ^ 32

-- `fdwait` up to its `taskswitch`.
unfoldable pub event_bits : ℕ → ℕ
event_bits rw = if rw == b'r' then pollin else (if rw == b'w' then pollout else 0)

unfoldable pub fdwait_enter : Ptr → Bool → ℕ → ℕ → Io → Result Io
unfolding start event_bits
fdwait_enter fresh grown fd rw w = do
  started ← start fresh grown w
  let s =
      taskstate
        (if rw == b'r'
          then "fdwait for read"
          else (if rw == b'w' then "fdwait for write" else "fdwait for error"))
        started.sys
  let n = started.npollfd
  let waits = record started {
    sys = s;
    polltask = set started.polltask n s.running;
    pollfd = set started.pollfd n (record { fd = fd; events = event_bits rw; revents = 0 });
    npollfd = n + 1;
  }
  if leb maxfd n then aborts else ok waits
