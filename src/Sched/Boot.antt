-- ===== src/Sched/Boot.antt =====
-- task.c: the start of the program, and the way from `taskalloc` to `taskstart`.
pub mod Halves
pub mod Main
use libtask.Base.{
  ℕ, zero, suc, ◌+◌, ◌*◌, ◌/◌, ◌%◌, ◌^◌, Bool, [], false, leb, ltb, ◌||◌, ◌-◌, if◌then◌else◌, ◌==◌,
}
use libtask.Tasklist.{Ptr, nil, Links, empty_list}
use libtask.Sched.{
  Sys, Result, ok, aborts, ◌>>=◌, Next, taskcreate, taskname, taskexit_enter, dispatch,
}

-- `a | b` on words of so many bits.
unfoldable pub bit_or : ℕ → ℕ → ℕ → ℕ
bit_or zero a b = 0
bit_or (suc n) a b =
    let rest = bit_or n (a / 2) (b / 2) in
    (if (a % 2 == 1) || (b % 2 == 1) then 1 else 0) + 2 * rest

-- `makecontext` passes the address of a task in two words, `y` and `x`: `uint` and `ulong` have 32 bits.
unfoldable pub address_halves : Ptr → ℕ × ℕ
address_halves t = let z = t % 2 ^ 32 in (z % 2 ^ 32, (z / 2 ^ 16) / 2 ^ 16 % 2 ^ 32)

-- The address that `taskstart` puts together.
unfoldable pub address_of : ℕ → ℕ → Ptr
address_of y x = bit_or 32 ((x * 2 ^ 16 % 2 ^ 32) * 2 ^ 16 % 2 ^ 32) y

-- `at` is the address of the local variable, `stk` where the stack of the running task ends.
unfoldable pub needstack : ℕ → ℕ → ℕ → Result {0} Unit
needstack n at stk = if leb at stk || ltb (at - stk) (256 + n) then aborts else ok tt

-- What `taskstart` does when the task's function returns.
unfoldable pub taskstart_return : Sys → Sys
unfolding taskexit_enter
taskstart_return s = taskexit_enter 0 s

-- `taskmainstart` up to its call of `taskmain`.
unfoldable pub taskmainstart : Sys → Sys
unfolding taskname
taskmainstart s = taskname "taskmain" s

-- The globals and the memory of the tasks before `main`.
abbrev pub initial : Sys
initial = record {
  links = record { next = λ _. nil; prev = λ _. nil };
  ready = λ _. false;
  exiting = λ _. false;
  system = λ _. false;
  id = λ _. 0;
  slot = λ _. 0;
  alarmtime = λ _. 0;
  name = λ _. "";
  state = λ _. "";
  running = nil;
  runqueue = empty_list;
  taskcount = 0;
  nswitch = 0;
  idgen = 0;
  exitval = 0;
  alltask = [];
  nalltask = 0;
}

-- `main` up to the first switch to a task.
unfoldable pub main : Ptr → Bool → Result Next
unfolding taskcreate dispatch
main fresh grown = do (id, s) ← taskcreate fresh grown initial; ok (dispatch s)
