-- ===== src/Tests/Samples.antt =====
-- A small system. Task 1 runs, 2 and 3 are ready in this order, 5 and 6 stand on one wait list, 7
-- alone on another one, and 4 is elsewhere.
use libtask.Base.{refl, [], ◌∷◌, ◌==◌, if◌then◌else◌, false, ◌||◌, replicate}
use libtask.Tasklist.{nil, Links, Tasklist}
use libtask.Tasklist.Chain.{Holds}
use libtask.Sched.{Sys}

abbrev pub links : Links
links = record {
  next = λ a. if a == 2 then 3 else (if a == 5 then 6 else nil);
  prev = λ a. if a == 3 then 2 else (if a == 6 then 5 else nil);
}

abbrev pub pair : Tasklist
pair = record { head = 2; tail = 3 }

pub pair-Holds : Holds links pair (2 ∷ 3 ∷ [])
pair-Holds = record { head = refl; tail = refl; chain = (refl, refl, (refl, refl, tt)) }

abbrev pub waiters : Tasklist
waiters = record { head = 5; tail = 6 }

pub waiters-Holds : Holds links waiters (5 ∷ 6 ∷ [])
waiters-Holds = record { head = refl; tail = refl; chain = (refl, refl, (refl, refl, tt)) }

abbrev pub single : Tasklist
single = record { head = 7; tail = 7 }

pub single-Holds : Holds links single (7 ∷ [])
single-Holds = record { head = refl; tail = refl; chain = (refl, refl, tt) }

abbrev pub sys : Sys
sys = record {
  links = links;
  ready = λ a. (a == 2) || (a == 3);
  exiting = λ _. false;
  system = λ _. false;
  id = λ a. a;
  slot = λ a. if a == 4 then 3 else (if a == 3 then 2 else (if a == 2 then 1 else 0));
  alarmtime = λ _. 0;
  name = λ _. "";
  state = λ _. "";
  running = 1;
  runqueue = pair;
  taskcount = 4;
  nswitch = 7;
  idgen = 4;
  exitval = 0;
  alltask = 1 ∷ 2 ∷ 3 ∷ 4 ∷ replicate 60 nil;
  nalltask = 4;
}
