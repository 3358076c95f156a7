-- ===== src/Sched/Yield.antt =====
-- `taskyield`: how long a task waits, and what it returns.
use libtask.Base.{Distinct-fewer, counting, subst, ℕ, zero, suc, ◌≡◌, List, [], ◌∷◌, ◌++◌, Distinct}
use libtask.Tasklist.{Ptr, nil}
use libtask.Sched.{taskstate, Sys, taskyield_enter, taskswitch, runs}
use libtask.Sched.Queue.{taskready-append, Queued}

-- `n` switches from `s`, where the tasks `rs` wait, to `u`. Before each switch the task that runs
-- may do anything but switch and take tasks off the queue: others may have been made ready.
pub data Turns : ℕ → Sys → List Ptr → Sys → Type 0 where
  here : {s : Sys} {rs : List Ptr} → Turns zero s rs s
  turn :
      {n : ℕ} {s u : Sys} {rs : List Ptr} (a v : Sys) (q : Ptr) (qs more : List Ptr)
      → rs ++ more ≡ q ∷ qs
      → Distinct (nil ∷ q ∷ qs)
      → Queued a (q ∷ qs)
      → a.nswitch ≡ s.nswitch
      → taskswitch a ≡ runs v
      → Turns n v qs u
      → Turns (suc n) s rs u

-- The queue that the switch in `taskyield` finds.
yielding-Queued :
    (s : Sys) (rs : List Ptr)
    → Distinct (s.running ∷ nil ∷ rs)
    → Queued s rs
    → Queued (taskyield_enter s) (rs ++ (s.running ∷ []))
unfolding taskyield_enter taskstate
yielding-Queued s rs d q =
    let (holds, _, _) =
      taskready-append s s.running rs
        (Distinct-fewer (s.running ∷ nil ∷ rs) (nil ∷ s.running ∷ rs) (λ a. omega counting) d) q in
    record { head = holds.head; tail = holds.tail; chain = holds.chain }

-- The first switch finds these tasks.
pub found :
    (s : Sys) (q : Ptr) (rs qs : List Ptr)
    → Distinct (s.running ∷ nil ∷ rs)
    → Queued s rs
    → rs ++ (s.running ∷ []) ≡ q ∷ qs
    → Distinct (nil ∷ q ∷ qs) × Queued (taskyield_enter s) (q ∷ qs)
found s q rs qs d holds e = (
  subst (λ l. Distinct (nil ∷ l)) e
      (Distinct-fewer (s.running ∷ nil ∷ rs) (nil ∷ rs ++ (s.running ∷ [])) (λ a. omega counting)
        d),
  subst (Queued (taskyield_enter s)) e (yielding-Queued s rs d holds),
)
