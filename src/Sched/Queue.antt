-- ===== src/Sched/Queue.antt =====
-- The run queue of task.c as a sequence of tasks: who is made ready, and who runs next.
use libtask.Base.{
  ◌+◌, ◌≡◌, refl, ◌≢◌, ◌⊎◌, inl, inr, sym, ◌∙◌, subst, true, false, List, [], ◌∷◌, ◌++◌, arith,
  Distinct,
}
use native.Mathlib.Decide.{ℕ_discrete}
use libtask.Tasklist.{Ptr, nil}
use libtask.Tasklist.Chain.{Holds, SameOutside}
use libtask.Tasklist.Append.{addtask-append}
use libtask.Tasklist.Delete.{deltask-remove}
use libtask.Sched.{Sys, taskready, dispatch, run_task, retire, taskswitch, exits, stalls, runs}

-- The tasks `rs` wait for the processor, in this order.
abbrev pub Queued : Sys → List Ptr → Type 0
Queued s rs = Holds s.links s.runqueue rs

-- `taskready` of a task that is neither null nor on the run queue, whose tasks are distinct, puts
-- it at the end of that queue and marks it ready, and relinks no task outside the queue but the new
-- one.
pub taskready-append :
    (s : Sys) (t : Ptr) (rs : List Ptr)
    → Distinct (nil ∷ t ∷ rs)
    → Queued s rs
    → Queued (taskready t s) (rs ++ (t ∷ []))
      × SameOutside (t ∷ rs) s.links (taskready t s).links
      × ((taskready t s).ready t ≡ true)
unfolding taskready
taskready-append s t rs d q =
    let (holds, same) = addtask-append s.links s.runqueue t rs d q in (holds, same, ground arith)

-- The next task to run is the first of the queue.
pub record Dispatched (t : Ptr) (rs : List Ptr) (s u : Sys) : Type 0 where
  pub running : u.running ≡ t
  pub queued : Queued u rs
  pub not_ready : u.ready t ≡ false
  pub others_ready : (a : Ptr) → a ≢ t → u.ready a ≡ s.ready a
  pub counted : u.nswitch ≡ s.nswitch + 1
  pub same : SameOutside rs s.links u.links
  pub taskcount : u.taskcount ≡ s.taskcount

-- With a user task left, the scheduler runs the first task of the run queue, takes it off the queue
-- and marks it not ready, counts the switch, and relinks no task outside the queue. The tasks of
-- the queue are distinct and not null.
pub dispatch-first :
    (s : Sys) (t : Ptr) (rs : List Ptr)
    → s.taskcount ≢ 0
    → Distinct (nil ∷ t ∷ rs)
    → Queued s (t ∷ rs)
    → (u : Sys) × (dispatch s ≡ runs u) × Dispatched t rs s u
unfolding dispatch
dispatch-first s t rs c d q =
    let (holds, same) = deltask-remove s.links s.runqueue t [] rs d q in
    (
      run_task t s,
      ground arith,
      record {
        running = refl;
        queued = holds;
        not_ready = ground arith;
        others_ready = λ a n. ground arith;
        counted = refl;
        same = same;
        taskcount = refl;
      },
    )

abbrev pub Ends : Sys → List Ptr → Type 0
Ends s rs =
    ((s.taskcount ≢ 0) × (rs ≡ []) × (dispatch s ≡ stalls s.taskcount))
    ⊎ ((n : s.taskcount ≢ 0) × (t : Ptr) × (rest : List Ptr) × (u : Sys) × (rs ≡ t ∷ rest)
        × (dispatch s ≡ runs u))

Ends-busy :
    (s : Sys) (rs : List Ptr) → s.taskcount ≢ 0 → Distinct (nil ∷ rs) → Queued s rs → Ends s rs
unfolding dispatch
Ends-busy s [] c d q = inl (c, refl, ground arith)
Ends-busy s (t ∷ rest) c d q =
    let (u, e, _) = dispatch-first s t rest c d q in inr (c, t, rest, u, refl, e)

-- The scheduler exits with the last status just when no user task is left. With one left it stops
-- with the count of stalled tasks if nobody is ready, and otherwise runs a task. The ready tasks
-- are distinct and not null.
pub dispatch_lem :
    (s : Sys) (rs : List Ptr)
    → Distinct (nil ∷ rs)
    → Queued s rs
    → ((s.taskcount ≡ 0) × (dispatch s ≡ exits s.exitval)) ⊎ Ends s rs
unfolding dispatch
dispatch_lem s rs d q = elim (ℕ_discrete s.taskcount 0) [
  | yes e ↦ inl (e, ground arith)
  | no c ↦ inr (Ends-busy s rs c d q)
]

-- Giving up the processor relinks nobody.
pub retire-Queued : (t : Ptr) (s : Sys) (rs : List Ptr) → Queued s rs → Queued (retire t s) rs
unfolding retire
retire-Queued t s rs q = ground arith

pub nswitch-retire : (t : Ptr) (s : Sys) → (retire t s).nswitch ≡ s.nswitch
unfolding retire
nswitch-retire t s = ground arith

exits-not-runs : (s v : Sys) → s.taskcount ≡ 0 → dispatch s ≢ runs v
unfolding dispatch
exits-not-runs s v z e = ground arith

runs-injective : {u v : Sys} → runs u ≡ runs v → u ≡ v
runs-injective e = cc

-- Whoever runs after a switch had waited longest.
pub taskswitch-first :
    (s v : Sys) (t : Ptr) (rs : List Ptr)
    → Distinct (nil ∷ t ∷ rs)
    → Queued s (t ∷ rs)
    → taskswitch s ≡ runs v
    → Dispatched t rs (retire s.running s) v
unfolding taskswitch
taskswitch-first s v t rs d q e =
    let w = retire s.running s in
    elim (ℕ_discrete w.taskcount 0) [
      | yes z ↦ absurd (exits-not-runs w v z e)
      | no c ↦
          let (u, f, at) = dispatch-first w t rs c d (retire-Queued s.running s (t ∷ rs) q) in
          subst (Dispatched t rs w) (runs-injective (sym f ∙ e)) at
    ]

empty-not-runs : (s v : Sys) → Distinct (nil ∷ []) → Queued s [] → dispatch s ≢ runs v
unfolding dispatch
empty-not-runs s v d q e = ground arith

-- A switch goes on in a task only if one waits.
pub taskswitch-runs :
    (s v : Sys) (rs : List Ptr)
    → Distinct (nil ∷ rs)
    → Queued s rs
    → taskswitch s ≡ runs v
    → (t : Ptr) × (rest : List Ptr) × (rs ≡ t ∷ rest) × Dispatched t rest (retire s.running s) v
taskswitch-runs s v [] d q e = absurd (
    empty-not-runs (retire s.running s) v d (retire-Queued s.running s [] q)
      (unfold taskswitch in e))
taskswitch-runs s v (t ∷ rest) d q e = (t, rest, refl, taskswitch-first s v t rest d q e)

pub links-retire : (t : Ptr) (s : Sys) → (retire t s).links ≡ s.links
unfolding retire
links-retire t s = ground arith
