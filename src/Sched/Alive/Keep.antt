-- ===== src/Sched/Alive/Keep.antt =====
-- In such a program no task is lost.
use libtask.Base.{
  ℕ, ◌-◌, ◌≡◌, refl, ◌≢◌, ◌⊎◌, inl, inr, sym, ◌∙◌, ap, subst, Bool, true, false, List, [], ◌∷◌,
  ◌++◌, All, All-append, Distinct, Fresh, arith, count-nil, count-cons, hit_ne, counting,
  update_self, update_ne, Distinct-fewer,
}
use native.Mathlib.Decide.{ℕ_discrete}
use libtask.Tasklist.{Ptr, nil}
use libtask.Sched.{
  Sys, taskready, taskyield_enter, taskexit_enter, taskswitch, retire, dispatch, run_task, Next,
  exits, runs, taskstate,
}
use libtask.Sched.Queue.{Queued, taskready-append, retire-Queued}
use libtask.Sched.Table.Users.{users, weight}
use libtask.Sched.Table.Defs.{IsTable, Listed, Unlisted}
use libtask.Sched.Table.Retire.{Retired, retire-Retired, entry-Listed}
use libtask.Sched.Exit.{exitval-retire, dispatch-over, dispatch-run, run_task-IsTable}
use libtask.Sched.Alive.{Census, Inv}

users_zero : (system : Ptr → Bool) (table : List Ptr) → users system table 0 ≡ 0
unfolding users
users_zero system table = refl

-- Nobody in the table means no user task.
empty-over : (s : Sys) → Census s [] → s.taskcount ≡ 0
empty-over s c = elim (ℕ_discrete s.nalltask 0) [
  | yes e ↦
      omega (arith, c.table.counted, ap (users s.system s.alltask) e, users_zero s.system s.alltask)
  | no n ↦ absurd (c.only _ (entry-Listed s 0 c.table _ 0 (omega arith) refl) (count-nil _))
]

-- What the scheduler does when just the tasks of the table are ready.
abbrev pub Goes : ℕ → ℕ → Next → Type 0
Goes users_left val next =
    ((users_left ≡ 0) × (next ≡ exits val))
    ⊎ ((v : Sys) × (rest : List Ptr) × (next ≡ runs v) × Inv v rest)

busy-Goes :
    (s : Sys) (rs : List Ptr)
    → s.taskcount ≢ 0
    → Queued s rs
    → Distinct (nil ∷ rs)
    → Census s rs
    → Goes s.taskcount s.exitval (dispatch s)
unfolding run_task
busy-Goes s [] n q d c = absurd (n (empty-over s c))
busy-Goes s (t ∷ rest) n q d c =
    let (e, left) = dispatch-run s t rest n d q in
    inr (
      run_task t s,
      rest,
      e,
      record {
        queued = left;
        distinct = Distinct-fewer (nil ∷ t ∷ rest) (t ∷ nil ∷ rest) (λ a. omega counting) d;
        census = record {
          table = run_task-IsTable t s 0 c.table;
          listed = c.listed;
          only = c.only;
          alive = c.alive;
        };
      },
    )

dispatch-Goes :
    (s : Sys) (rs : List Ptr)
    → Queued s rs
    → Distinct (nil ∷ rs)
    → Census s rs
    → Goes s.taskcount s.exitval (dispatch s)
dispatch-Goes s rs q d c = elim (ℕ_discrete s.taskcount 0) [
  | yes e ↦ inl (e, dispatch-over s e)
  | no n ↦ busy-Goes s rs n q d c
]

retire-alive : (t : Ptr) (s : Sys) → s.exiting t ≡ false → retire t s ≡ record s { running = nil }
unfolding retire
retire-alive t s e = rw e

-- `taskyield`: the task that runs is the last of those that are ready then.
pub yield-Goes :
    (s : Sys) (rs : List Ptr)
    → Inv s rs
    → Goes s.taskcount s.exitval (taskswitch (taskyield_enter s))
unfolding taskyield_enter taskready taskswitch taskstate
yield-Goes s rs i =
    let r : Ptr = s.running in
    let order = r ∷ nil ∷ rs in
    let (holds, _, _) =
      taskready-append s r rs (Distinct-fewer order (nil ∷ r ∷ rs) (λ a. omega counting) i.distinct)
        i.queued in
    let c = i.census in
    let gone : retire r (taskyield_enter s) ≡ record (taskyield_enter s) { running = nil } =
      retire-alive r (taskyield_enter s) c.alive.0 in
    subst (λ w. Goes s.taskcount s.exitval (dispatch w)) (sym gone)
      (dispatch-Goes (record (taskyield_enter s) { running = nil }) (rs ++ (r ∷ [])) holds
        (Distinct-fewer order (nil ∷ rs ++ (r ∷ [])) (λ a. omega counting) i.distinct)
        (record {
          table = record {
            room = c.table.room;
            fits = c.table.fits;
            slots = c.table.slots;
            counted = c.table.counted;
          };
          listed = All-append (Listed s) rs (r ∷ []) c.listed.1 (c.listed.0, tt);
          only = λ a l z. c.only a l (omega (counting, z));
          alive = All-append (λ a. s.exiting a ≡ false) rs (r ∷ []) c.alive.1 (c.alive.0, tt);
        }))

All-both :
    {P Q R : Ptr → Type 0} (xs : List Ptr)
    → ((a : Ptr) → P a → Q a → R a)
    → All P xs
    → All Q xs
    → All R xs
All-both [] f p q = tt
All-both (x ∷ xs) f p q = (f x p.0 q.0, All-both xs f p.1 q.1)

exiting-retire : (t : Ptr) (s : Sys) → (retire t s).exiting ≡ s.exiting
unfolding retire
exiting-retire t s = ground arith

-- Without the task that exits.
retire-Census :
    (s u : Sys) (t : Ptr) (rs : List Ptr)
    → Fresh t rs
    → Census s (t ∷ rs)
    → IsTable u 0
    → Unlisted u t
    → ((a : Ptr) → a ≢ t → Listed s a → Listed u a)
    → ((a : Ptr) → Listed u a → Listed s a)
    → ((a : Ptr) → a ≢ t → u.exiting a ≡ s.exiting a)
    → Census u rs
retire-Census s u t rs f c table gone kept only same = record {
  table = table;
  listed = All-both rs (λ a ne l. kept a (λ e. ne (sym e)) l) f c.listed.1;
  only = λ a l z.
      let other : a ≢ t = λ e. gone (u.slot a) l.0 (l.1 ∙ e) in
      c.only a (only a l) (omega (arith, count-cons a t rs, hit_ne a t other));
  alive = All-both rs (λ a ne l. same a (λ e. ne (sym e)) ∙ l) f c.alive.1;
}

-- `taskexit`
pub exit-Goes :
    (val : ℕ) (s : Sys) (rs : List Ptr)
    → Inv s rs
    → Goes (s.taskcount - weight (s.system s.running)) val (taskswitch (taskexit_enter val s))
unfolding taskexit_enter taskswitch
exit-Goes val s rs i =
    let t : Ptr = s.running in
    let u = taskexit_enter val s in
    let c = i.census in
    let table : IsTable u 0 = record {
      room = c.table.room;
      fits = c.table.fits;
      slots = c.table.slots;
      counted = c.table.counted;
    } in
    let r : Retired u (retire t u) t 0 =
      retire-Retired u t 0 (update_self s.exiting t true) c.listed.0 table in
    let left : (retire t u).taskcount ≡ s.taskcount - weight (s.system t) =
      omega (arith, r.taskcount) in
    subst (λ n. Goes n val (dispatch (retire t u))) left
      (subst (λ k. Goes (retire t u).taskcount k (dispatch (retire t u))) (exitval-retire t u)
        (dispatch-Goes (retire t u) rs (retire-Queued t u rs i.queued)
          (Distinct-fewer (t ∷ nil ∷ rs) (nil ∷ rs) (λ a. omega counting) i.distinct)
          (retire-Census s (retire t u) t rs i.distinct.0.1 c r.table r.gone r.kept r.only
            (λ a ne. ap (λ f. f a) (exiting-retire t u) ∙ update_ne s.exiting t true a ne))))
