-- ===== src/Sched/Boot/Main.antt =====
-- How a program starts, and how it ends if its main task leaves no other behind.
use libtask.Base.{
  ◌-◌, ◌≡◌, refl, ◌≢◌, ◌⊎◌, inl, inr, sym, ◌∙◌, ap, Bool, true, false, Bool-cases, [], ◌∷◌, arith,
  Distinct, subst, update_self,
}
use native.Mathlib.Decide.{ℕ_discrete}
use libtask.Tasklist.{Ptr, nil}
use libtask.Tasklist.Chain.{Holds, Holds-empty}
use libtask.Sched.{
  Sys, taskid, taskgetname, ok, aborts, exits, runs, taskswitch, dispatch, run_task, taskname,
}
use libtask.Sched.Queue.{Queued, taskready-append}
use libtask.Sched.Table.Defs.{IsTable, Listed}
use libtask.Sched.Table.Users.{users, weight}
use libtask.Sched.Table.Create.{taskcreate-Created, taskcreate-aborts, Created, exiting-Made}
use libtask.Sched.Exit.{dispatch-run, run_task-IsTable, taskexit-Left}
use libtask.Sched.Boot.{main, initial, taskmainstart, taskstart_return}

-- Only the task `t` is there, and it runs.
pub record Started (t : Ptr) (v : Sys) : Type 0 where
  pub running : v.running ≡ t
  pub queued : Queued v []
  pub table : IsTable v 0
  pub listed : Listed v t
  pub only : (a : Ptr) → Listed v a → a ≡ t
  pub alive : v.exiting t ≡ false
  pub user : v.system t ≡ false
  pub taskcount : v.taskcount ≡ 1
  pub id : taskid v ≡ 1
  pub named : taskgetname (taskmainstart v) ≡ "taskmain"

-- A started program ends when its task does.
Started-exits :
    (t : Ptr) (v : Sys) → Started t v → taskswitch (taskstart_return (taskmainstart v)) ≡ exits 0
unfolding taskstart_return taskmainstart taskname
Started-exits t v s =
    let i = s.table in
    let here : Listed v v.running = subst (Listed v) (sym s.running) s.listed in
    let n : v.taskcount - weight (v.system v.running) ≡ 0 =
      omega (arith, ap weight (ap v.system s.running ∙ s.user), s.taskcount) in
    elim (taskexit-Left 0 (taskmainstart v) [] 0 here
      (record { room = i.room; fits = i.fits; slots = i.slots; counted = i.counted }) (tt, tt)
      s.queued) [
        | inl (_, e) ↦ e
        | inr (inl (c, _, _)) ↦ absurd (c n)
        | inr (inr (_, _, _, c, _, _, _)) ↦ absurd (c n)
      ]

none_before : (a : Ptr) → Listed initial a → ⊥
none_before a l = omega (arith, l.0)

run_task-Started :
    (t : Ptr) (u : Sys)
    → Created initial u t 0
    → t ≢ nil
    → (v : Sys) × (dispatch u ≡ runs v) × Started t v
unfolding run_task taskid taskgetname taskmainstart taskname
run_task-Started t u c n =
    let b = c.made.before in
    let empty : Queued b [] =
      subst (λ l. Holds b.links l []) (sym c.made.queue) (Holds-empty b.links) in
    let distinct : Distinct (nil ∷ t ∷ []) = (((λ e. n (sym e)), tt), (tt, tt)) in
    let queued : Queued u (t ∷ []) =
      subst (λ x. Queued x (t ∷ [])) (sym c.made.enqueued)
        (taskready-append b t [] distinct empty).0 in
    let (e, left) = dispatch-run u t [] (λ z. omega (arith, c.taskcount)) distinct queued in
    (
      run_task t u,
      e,
      record {
        running = refl;
        queued = left;
        table = run_task-IsTable t u 0 c.table;
        listed = c.listed;
        only = λ a l. elim (ℕ_discrete a t) [
          | yes e ↦ e
          | no o ↦ absurd (none_before a (c.only a o l))
        ];
        alive =
            ap (λ f. f t) (exiting-Made initial u t c.made) ∙ update_self initial.exiting t false;
        user = c.user;
        taskcount = c.taskcount ∙ refl;
        id = c.id;
        named = update_self u.name t "taskmain";
      },
    )

-- `main` aborts just when there is no memory for the main task or for the table. Otherwise that
-- task runs: its id is 1, it is the only task, a user task in a right table, nobody is ready, and
-- `taskmainstart` gives it the name taskmain. When it then returns without leaving another task,
-- the program exits with the status 0.
pub main-Started :
    (fresh : Ptr) (grown : Bool)
    → ((v : Sys) × (fresh ≢ nil)
        × (grown ≡ true)
        × (main fresh grown ≡ ok (runs v))
        × Started fresh v
        × (taskswitch (taskstart_return (taskmainstart v)) ≡ exits 0))
      ⊎ (((fresh ≡ nil) ⊎ (grown ≡ false)) × (main fresh grown ≡ aborts))
unfolding main users
main-Started fresh grown = elim (ℕ_discrete fresh nil) [
  | yes e ↦ inr (inl e, rw ((taskcreate-aborts initial fresh grown).1 (inl e)))
  | no n ↦ elim (Bool-cases grown) [
    | inr f ↦ inr (inr f, rw ((taskcreate-aborts initial fresh grown).1 (inr (refl, f))))
    | inl t ↦
        let (u, e, c) =
          taskcreate-Created initial fresh 0 n (λ i l. absurd (omega arith))
            (record {
              room = refl;
              fits = omega arith;
              slots = λ i l. absurd (omega arith);
              counted = refl;
            }) in
        let (v, d, s) = run_task-Started fresh u c n in
        inl (v, n, t, rw (t, e, d), s, Started-exits fresh v s)
  ]
]
