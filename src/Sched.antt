-- ===== src/Sched.antt =====
-- task.c: the table of tasks, the run queue and the scheduler.
--
-- The fields of all `struct Task`s are kept as functions of the task's address, the globals as
-- further fields. A call of `taskswitch` ends the part of a function that runs at once: what the
-- function does when it is resumed is a function of its own.
pub mod Queue
pub mod Yield
pub mod Table
pub mod Exit
pub mod Boot
pub mod Alive
use libtask.Base.{
  ℕ, ◌+◌, ◌-◌, ◌%◌, ◌^◌, String, Bool, true, false, not, List, ◌++◌, ◌==◌, if◌then◌else◌, update,
  get_or, set, take, replicate, ℤ, sub_ℕ,
}
use libtask.Tasklist.{Ptr, nil, Links, Tasklist, set_next, set_prev, addtask, deltask}

pub record Sys : Type 0 where
  -- fields of `struct Task`
  pub links : Links
  pub ready : Ptr → Bool
  pub exiting : Ptr → Bool
  pub system : Ptr → Bool
  pub id : Ptr → ℕ
  pub slot : Ptr → ℕ
  pub alarmtime : Ptr → ℕ
  pub name : Ptr → String
  pub state : Ptr → String
  -- globals of task.c
  pub running : Ptr
  pub runqueue : Tasklist
  pub taskcount : ℕ
  pub nswitch : ℕ
  pub idgen : ℕ
  pub exitval : ℕ
  pub alltask : List Ptr
  pub nalltask : ℕ

-- `abort()`, failed assertions and uses of a null pointer end the program. A loop whose number of
-- rounds the code does not bound takes fuel.
pub data Result {ℓ} (A : Type ℓ) : Type ℓ where
  ok : A → Result A
  aborts : Result A
  out_of_fuel : Result A

infixl 5 ◌>>=◌
abbrev pub ◌>>=◌ {ℓ κ} : {A : Type ℓ} {B : Type κ} → Result A → (A → Result B) → Result B
ok a >>= f = f a
aborts >>= f = aborts
out_of_fuel >>= f = out_of_fuel

-- `addtask(&taskrunqueue, t)`.
enqueue : Ptr → Sys → Sys
enqueue t s = let (l, h) = addtask s.runqueue t s.links in record s { runqueue = l; links = h }

unfoldable pub taskready : Ptr → Sys → Sys
unfolding enqueue
taskready t s = enqueue t (record s { ready = update s.ready t true })

-- The new task's fields are zero but for `id`.
zeroed : Ptr → Sys → Sys
zeroed t s = record s {
  links = set_next t nil (set_prev t nil s.links);
  ready = update s.ready t false;
  exiting = update s.exiting t false;
  system = update s.system t false;
  id = update s.id t ((s.idgen + 1) % 2 ^ 32);
  slot = update s.slot t 0;
  alarmtime = update s.alarmtime t 0;
  name = update s.name t "";
  state = update s.state t "";
  idgen = s.idgen + 1;
}

-- `fresh` is what `malloc` returns.
unfoldable pub taskalloc : Ptr → Sys → Result Sys
unfolding zeroed
taskalloc fresh s = if fresh == nil then aborts else ok (zeroed fresh s)

-- `realloc` of the table to `n` entries. New entries are indeterminate: null stands for them.
unfoldable pub resize : ℕ → List Ptr → List Ptr
resize n xs = take n (xs ++ replicate n nil)

-- `grown` says whether `realloc` succeeds.
unfoldable pub grow : Bool → Sys → Result Sys
grow grown s =
    if s.nalltask % 64 == 0
    then (if grown then ok (record s { alltask = resize (s.nalltask + 64) s.alltask }) else aborts)
    else ok s

-- `t->alltaskslot = nalltask; alltask[nalltask++] = t`.
unfoldable pub enter_table : Ptr → Sys → Sys
enter_table t s = record s {
  slot = update s.slot t s.nalltask;
  alltask = set s.alltask s.nalltask t;
  nalltask = s.nalltask + 1;
}

unfoldable pub taskcreate : Ptr → Bool → Sys → Result (ℕ × Sys)
unfolding taskalloc grow enter_table taskready
taskcreate fresh grown s = do
  made ← taskalloc fresh s
  let counted = record made { taskcount = made.taskcount + 1 }
  sized ← grow grown counted
  ok (made.id fresh, taskready fresh (enter_table fresh sized))

unfoldable pub tasksystem : Sys → Sys
tasksystem s =
    if s.system s.running
    then s
    else record s { system = update s.system s.running true; taskcount = s.taskcount - 1 }

-- For a text without conversions, shorter than the field.
unfoldable pub taskstate : String → Sys → Sys
taskstate text s = record s { state = update s.state s.running text }

unfoldable pub taskname : String → Sys → Sys
taskname text s = record s { name = update s.name s.running text }

unfoldable pub taskid : Sys → ℕ
taskid s = s.id s.running

unfoldable pub taskgetname : Sys → String
taskgetname s = s.name s.running

unfoldable pub taskgetstate : Sys → String
taskgetstate s = s.state s.running

unfoldable pub anyready : Sys → Bool
anyready s = not (s.runqueue.head == nil)

-- `taskyield` up to its `taskswitch`, and its result when it is resumed; `n` is the local variable.
unfoldable pub taskyield_enter : Sys → Sys
unfolding taskready taskstate
taskyield_enter s = taskstate "yield" (taskready s.running s)

unfoldable pub taskyield_resume : ℕ → Sys → ℤ
taskyield_resume n s = sub_ℕ s.nswitch (n + 1)

-- `taskexit` up to its `taskswitch`, from which it does not come back.
unfoldable pub taskexit_enter : ℕ → Sys → Sys
taskexit_enter val s = record s { exitval = val; exiting = update s.exiting s.running true }

-- What the scheduler finds: the program exits with a status, stops for want of a runnable task,
-- or goes on in the task that is now running.
pub data Next : Type 0 where
  exits : ℕ → Next
  stalls : ℕ → Next
  runs : Sys → Next

-- The program ends.
abbrev pub taskexitall : ℕ → Next
taskexitall val = exits val

-- `deltask(&taskrunqueue, t)` and the four assignments behind it.
pub run_task : Ptr → Sys → Sys
run_task t s =
    let (l, h) = deltask s.runqueue t s.links in
    record s {
      runqueue = l;
      links = h;
      ready = update s.ready t false;
      running = t;
      nswitch = s.nswitch + 1;
    }

-- The loop body of `taskscheduler` before the switch to the task.
unfoldable pub dispatch : Sys → Next
unfolding run_task
dispatch s =
    if s.taskcount == 0
    then exits s.exitval
    else (if s.runqueue.head == nil then stalls s.taskcount else runs (run_task s.runqueue.head s))

-- The last entry of the table moves to slot `i`.
move_last : ℕ → Sys → Sys
move_last i s =
    let n = s.nalltask - 1 in
    let table = set s.alltask i (get_or s.alltask n nil) in
    record s { alltask = table; nalltask = n; slot = update s.slot (get_or table i nil) i }

uncount : Ptr → Sys → Sys
uncount t s = record s { taskcount = if s.system t then s.taskcount else s.taskcount - 1 }

-- The loop body of `taskscheduler` behind the switch: `t` gave up the processor.
unfoldable pub retire : Ptr → Sys → Sys
unfolding move_last uncount
retire t s =
    let idle = record s { running = nil } in
    if s.exiting t then move_last (s.slot t) (uncount t idle) else idle

-- `taskswitch`: from the running task through the scheduler to the next one.
unfoldable pub taskswitch : Sys → Next
unfolding dispatch retire
taskswitch s = dispatch (retire s.running s)
