-- ===== src/Tests/Programs.antt =====
-- A main task that creates another one and yields to it.
use libtask.Base.{ℕ, zero, suc, ◌-◌, ◌≡◌, refl, true, arith, get_or}
use libtask.Tasklist.{nil, addtask, deltask}
use libtask.Sched.{
  Sys, Result, ok, Next, runs, taskcreate, resize, taskswitch, taskyield_enter, taskexit_enter,
}
use libtask.Sched.Table.Users.{weight}
use libtask.Sched.Table.Defs.{Unlisted}
use libtask.Sched.Boot.{main, initial}
use libtask.Sched.Alive.{Reach, start, later, creates, yields}
use libtask.Sched.Alive.Keep.{Goes}
use libtask.Sched.Alive.Program.{Alive, Reach-Alive, program-never-stalls}

started : Result Next → Sys
started (ok (runs v)) = v
started _ = initial

created : Result (ℕ × Sys) → Sys
created (ok r) = r.1
created _ = initial

switched : Next → Sys
switched (runs v) = v
switched _ = initial

abbrev first : Sys
unfolding started
first = started (main 64 true)

abbrev two : Sys
unfolding created
two = created (taskcreate 96 true first)

abbrev other : Sys
unfolding switched
other = switched (taskswitch (taskyield_enter two))

first_entry : get_or first.alltask 0 nil ≡ 64
unfolding first main started taskcreate resize addtask deltask
first_entry = refl

first_size : first.nalltask ≡ 1
unfolding first main started taskcreate resize addtask deltask
first_size = refl

new : Unlisted first 96
new zero h e = omega (arith, first_entry)
new (suc i) h e = absurd (omega (arith, first_size))

other-Reach : Reach other
unfolding first two other main started created switched taskswitch taskyield_enter taskcreate resize
    addtask deltask
other-Reach =
    let one : Reach first = start 64 true refl in
    let both : Reach two = later one (creates 96 true new refl) in later both (yields refl)

Reach-Alive_example : Alive other
Reach-Alive_example = Reach-Alive other-Reach

program-never-stalls_example :
    Goes other.taskcount other.exitval (taskswitch (taskyield_enter other))
    × Goes
        (other.taskcount - weight (other.system other.running))
        3
        (taskswitch (taskexit_enter 3 other))
program-never-stalls_example = program-never-stalls 3 other-Reach
