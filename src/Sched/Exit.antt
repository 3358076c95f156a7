-- ===== src/Sched/Exit.antt =====
-- A task that exits, and the program that ends with its last user task.
use libtask.Base.{
  ℕ, ◌-◌, ◌≡◌, refl, ◌≢◌, ◌⊎◌, inl, inr, true, List, [], ◌∷◌, arith, Distinct, update_self, subst,
}
use native.Mathlib.Decide.{ℕ_discrete}
use libtask.Tasklist.{Ptr, nil}
use libtask.Tasklist.Delete.{deltask-remove}
use libtask.Sched.{
  Sys, Next, taskexit_enter, retire, dispatch, run_task, taskswitch, exits, stalls, runs,
}
use libtask.Sched.Queue.{Queued, retire-Queued}
use libtask.Sched.Table.Users.{weight}
use libtask.Sched.Table.Defs.{IsTable, Listed, Unlisted}
use libtask.Sched.Table.Retire.{Retired, retire-Retired}

-- The task `a` is gone, and `t`, the first of those that were ready, runs.
pub record GoesOn (a t : Ptr) (v : Sys) (rest : List Ptr) (extra : ℕ) : Type 0 where
  pub running : v.running ≡ t
  pub queued : Queued v rest
  pub table : IsTable v extra
  pub gone : Unlisted v a

pub run_task-IsTable :
    (t : Ptr) (s : Sys) (extra : ℕ) → IsTable s extra → IsTable (run_task t s) extra
unfolding run_task
run_task-IsTable t s extra v = record {
  room = v.room;
  fits = v.fits;
  slots = v.slots;
  counted = v.counted;
}

pub exitval-retire : (t : Ptr) (s : Sys) → (retire t s).exitval ≡ s.exitval
unfolding retire
exitval-retire t s = ground arith

dispatch-empty : (s : Sys) → s.taskcount ≢ 0 → Queued s [] → dispatch s ≡ stalls s.taskcount
unfolding dispatch
dispatch-empty s c q = ground arith

pub dispatch-over : (s : Sys) → s.taskcount ≡ 0 → dispatch s ≡ exits s.exitval
unfolding dispatch
dispatch-over s e = ground arith

pub dispatch-run :
    (s : Sys) (t : Ptr) (rest : List Ptr)
    → s.taskcount ≢ 0
    → Distinct (nil ∷ t ∷ rest)
    → Queued s (t ∷ rest)
    → (dispatch s ≡ runs (run_task t s)) × Queued (run_task t s) rest
unfolding dispatch
dispatch-run s t rest c d q = (ground arith, (deltask-remove s.links s.runqueue t [] rest d q).0)

-- The scheduler behind a task that is gone.
abbrev pub Left : ℕ → Ptr → List Ptr → ℕ → ℕ → Next → Type 0
Left val a rs extra count next =
    ((count ≡ 0) × (next ≡ exits val))
    ⊎ ((count ≢ 0) × (rs ≡ []) × (next ≡ stalls count))
    ⊎ ((t : Ptr) × (rest : List Ptr) × (v : Sys) × (count ≢ 0)
        × (rs ≡ t ∷ rest)
        × (next ≡ runs v)
        × GoesOn a t v rest extra)

busy-Left :
    (a : Ptr) (s : Sys) (rs : List Ptr) (extra : ℕ)
    → s.taskcount ≢ 0
    → Distinct (nil ∷ rs)
    → Queued s rs
    → IsTable s extra
    → Unlisted s a
    → Left s.exitval a rs extra s.taskcount (dispatch s)
unfolding run_task
busy-Left a s [] extra c d q v gone = inr (inl (c, refl, dispatch-empty s c q))
busy-Left a s (t ∷ rest) extra c d q v gone =
    let (e, holds) = dispatch-run s t rest c d q in
    let g : GoesOn a t (run_task t s) rest extra = record {
      running = refl;
      queued = holds;
      table = run_task-IsTable t s extra v;
      gone = gone;
    } in
    inr (inr (t, rest, run_task t s, c, refl, e, g))

dispatch-Left :
    (a : Ptr) (s : Sys) (rs : List Ptr) (extra : ℕ)
    → Distinct (nil ∷ rs)
    → Queued s rs
    → IsTable s extra
    → Unlisted s a
    → Left s.exitval a rs extra s.taskcount (dispatch s)
dispatch-Left a s rs extra d q v gone = elim (ℕ_discrete s.taskcount 0) [
  | yes e ↦ inl (e, dispatch-over s e)
  | no c ↦ busy-Left a s rs extra c d q v gone
]

-- `taskexit` by a task of a table whose tasks know their slots and whose count is right, with ready
-- tasks that are distinct, not null and well-linked: if no other task is counted, the program exits
-- with the status that `taskexit` got; otherwise it stops with the count of the others if nobody is
-- ready, and else the first ready task runs, the others stay ready in their order, the caller is
-- gone from the table, and the table stays right.
pub taskexit-Left :
    (val : ℕ) (s : Sys) (rs : List Ptr) (extra : ℕ)
    → Listed s s.running
    → IsTable s extra
    → Distinct (nil ∷ rs)
    → Queued s rs
    → Left val s.running rs extra
        (s.taskcount - weight (s.system s.running))
        (taskswitch (taskexit_enter val s))
unfolding taskswitch taskexit_enter
taskexit-Left val s rs extra l v d q =
    let u = taskexit_enter val s in
    let table : IsTable u extra = record {
      room = v.room;
      fits = v.fits;
      slots = v.slots;
      counted = v.counted;
    } in
    let r : Retired u (retire s.running u) s.running extra =
      retire-Retired u s.running extra (update_self s.exiting s.running true) l table in
    let left : (retire s.running u).taskcount ≡ s.taskcount - weight (s.system s.running) =
      omega (arith, r.taskcount) in
    subst (λ n. Left val s.running rs extra n (taskswitch u)) left
      (subst (λ k. Left k s.running rs extra (retire s.running u).taskcount (taskswitch u))
        (exitval-retire s.running u)
        (dispatch-Left s.running (retire s.running u) rs extra d (retire-Queued s.running u rs q)
          r.table r.gone))
