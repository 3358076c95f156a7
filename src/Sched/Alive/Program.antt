-- ===== src/Sched/Alive/Program.antt =====
-- What holds in every state of a program that only creates tasks, yields and exits.
use libtask.Base.{
  ℕ, ◌-◌, ◌%◌, ◌==◌, ◌≡◌, ◌≢◌, inl, inr, sym, ◌∙◌, ap, subst, Bool, true, false, Bool-cases, List,
  [], ◌∷◌, ◌++◌, All-map, All-append, Distinct, Fresh, arith, count, hit, hit_self, counting,
  update, update_self, Distinct-fewer, Apart-fewer,
}
use native.Mathlib.Decide.{ℕ_discrete}
use libtask.Tasklist.{Ptr, nil}
use libtask.Tasklist.Chain.{Holds, Holds-frame}
use libtask.Sched.{
  Sys, Result, ok, aborts, taskalloc, grow, taskcreate, tasksystem, taskyield_enter, taskexit_enter,
  taskswitch, Next, exits, runs,
}
use libtask.Sched.Queue.{Queued, taskready-append}
use libtask.Sched.Table.Users.{weight}
use libtask.Sched.Table.Defs.{Listed, Unlisted}
use libtask.Sched.Table.Create.{
  taskcreate-Created, taskcreate-aborts, tasksystem-IsTable, Created, Made, running-Made,
  exiting-Made,
}
use libtask.Sched.Boot.Main.{Started, main-Started}
use libtask.Sched.Alive.{Census, Inv, Step, creates, turns_system, yields, Reach, start, later}
use libtask.Sched.Alive.Keep.{Goes, yield-Goes, exit-Goes}

ok-not-aborts : {A : Type 0} {x : A} → ok x ≢ aborts
ok-not-aborts e = cc

ok-injective : {a b : ℕ} {x y : Sys} → ◌≡◌ {A = Result (ℕ × Sys)} (ok (a, x)) (ok (b, y)) → x ≡ y
ok-injective e = cc

ok_next-injective : {x y : Next} → ok x ≡ ok y → x ≡ y
ok_next-injective e = cc

runs-injective : {x y : Sys} → runs x ≡ runs y → x ≡ y
runs-injective e = cc

exits-not-runs : {n : ℕ} {x : Sys} → exits n ≢ runs x
exits-not-runs e = cc

-- A successful call does not depend on whether memory would have been there for a larger table.
grown-whatever :
    (fresh : Ptr) (grown : Bool) (s : Sys) (r : ℕ × Sys)
    → taskcreate fresh grown s ≡ ok r
    → taskcreate fresh true s ≡ ok r
unfolding taskcreate taskalloc grow
grown-whatever fresh true s r e = e
grown-whatever fresh false s r e = elim (Bool-cases (fresh == nil)) [
  | inl t ↦ let k = rw t at e in absurd (ok-not-aborts (sym k))
  | inr f ↦ elim (Bool-cases (s.nalltask % 64 == 0)) [
    | inl full ↦ let k = rw (f, full) at e in absurd (ok-not-aborts (sym k))
    | inr partial ↦ rw (f, partial) (rw (f, partial) at e)
  ]
]

Listed-not-new : (s : Sys) (t a : Ptr) → Unlisted s t → Listed s a → t ≢ a
Listed-not-new s t a new l e = new (s.slot a) l.0 (l.1 ∙ sym e)

Queued-Made :
    (s u : Sys) (t : Ptr) (rs : List Ptr)
    → Made s u t
    → Distinct (t ∷ nil ∷ rs)
    → Queued s rs
    → Queued u (rs ++ (t ∷ []))
Queued-Made s u t rs m d q =
    let b = m.before in
    let before : Queued b rs =
      subst (λ l. Holds b.links l rs) (sym m.queue)
        (Holds-frame s.links b.links s.runqueue (t ∷ []) rs m.links
          (Apart-fewer (t ∷ nil ∷ rs) rs (t ∷ []) (λ a. omega counting) d) q) in
    subst (λ x. Queued x (rs ++ (t ∷ []))) (sym m.enqueued)
      (taskready-append b t rs
        (Distinct-fewer (t ∷ nil ∷ rs) (nil ∷ t ∷ rs) (λ a. omega counting) d) before).0

-- The same, with another name for who runs.
Inv-of :
    (s : Sys) (r : Ptr) (rs : List Ptr)
    → s.running ≡ r
    → Queued s rs
    → Distinct (r ∷ nil ∷ rs)
    → Census s (r ∷ rs)
    → Inv s rs
Inv-of s r rs e q d c = record {
  queued = q;
  distinct = subst (λ a. Distinct (a ∷ nil ∷ rs)) (sym e) d;
  census = subst (λ a. Census s (a ∷ rs)) (sym e) c;
}

still : (f : Ptr → Bool) (t a : Ptr) → f a ≡ false → update f t false a ≡ false
still f t a e = ground arith

Created-Census :
    (s u : Sys) (t : Ptr) (xs : List Ptr)
    → Unlisted s t
    → Created s u t 0
    → Census s xs
    → Census u (xs ++ (t ∷ []))
Created-Census s u t xs new k c =
    let exiting = λ (a : Ptr). ap (λ f. f a) (exiting-Made s u t k.made) in
    record {
      table = k.table;
      listed =
          All-append (Listed u) xs (t ∷ []) (All-map (Listed s) (Listed u) xs k.kept c.listed)
            (k.listed, tt);
      only = λ a l z. elim (ℕ_discrete a t) [
        | yes e ↦ absurd (omega (counting, z, ap (hit a) e, hit_self a))
        | no n ↦ c.only a (k.only a n l) (omega (counting, z))
      ];
      alive =
          All-append (λ a. u.exiting a ≡ false) xs (t ∷ [])
            (All-map (λ a. s.exiting a ≡ false) (λ a. u.exiting a ≡ false) xs
              (λ a f. exiting a ∙ still s.exiting t a f) c.alive)
            (exiting t ∙ update_self s.exiting t false, tt);
    }

Created-Inv :
    (s u : Sys) (t : Ptr) (rs : List Ptr)
    → t ≢ nil
    → Unlisted s t
    → Created s u t 0
    → Inv s rs
    → Inv u (rs ++ (t ∷ []))
Created-Inv s u t rs n new k i =
    let c = i.census in
    let others : Fresh t rs =
      All-map (Listed s) (λ a. t ≢ a) rs (λ a l. Listed-not-new s t a new l) c.listed.1 in
    let apart : Distinct (t ∷ s.running ∷ nil ∷ rs) =
      ((Listed-not-new s t s.running new c.listed.0, (n, others)), i.distinct) in
    Inv-of u s.running (rs ++ (t ∷ [])) (running-Made s u t k.made)
      (Queued-Made s u t rs k.made
        (Distinct-fewer (t ∷ s.running ∷ nil ∷ rs) (t ∷ nil ∷ rs) (λ a. omega counting) apart)
        i.queued)
      (Distinct-fewer (t ∷ s.running ∷ nil ∷ rs) (s.running ∷ nil ∷ rs ++ (t ∷ []))
        (λ a. omega counting) apart)
      (Created-Census s u t (s.running ∷ rs) new k c)

creates-Inv :
    (s u : Sys) (fresh : Ptr) (grown : Bool) (id : ℕ) (rs : List Ptr)
    → Unlisted s fresh
    → taskcreate fresh grown s ≡ ok (id, u)
    → Inv s rs
    → Inv u (rs ++ (fresh ∷ []))
creates-Inv s u fresh grown id rs new e i =
    let n : fresh ≢ nil =
      λ z. ok-not-aborts (sym e ∙ (taskcreate-aborts s fresh grown).1 (inl z)) in
    let (v, k, made) = taskcreate-Created s fresh 0 n new i.census.table in
    let same : v ≡ u = ok-injective (sym k ∙ grown-whatever fresh grown s (id, u) e) in
    subst (λ x. Inv x (rs ++ (fresh ∷ []))) same (Created-Inv s v fresh rs n new made i)

turns_system-Inv : (s : Sys) (rs : List Ptr) → Inv s rs → Inv (tasksystem s) rs
unfolding tasksystem
turns_system-Inv s rs i =
    let c = i.census in
    let table = (tasksystem-IsTable s 0 c.listed.0 c.table).0 in
    elim (Bool-cases (s.system s.running)) [
      | inl t ↦ rw t i
      | inr f ↦
          let table = rw f at table in
          rw f (record {
            queued = i.queued;
            distinct = i.distinct;
            census = record { table = table; listed = c.listed; only = c.only; alive = c.alive };
          })
    ]

abbrev pub Alive : Sys → Type 0
Alive s = (rs : List Ptr) × Inv s rs

runs-Alive : (count val : ℕ) (next : Next) (v : Sys) → Goes count val next → next ≡ runs v → Alive v
runs-Alive count val next v (inl (_, e)) k = absurd (exits-not-runs (sym e ∙ k))
runs-Alive count val next v (inr (u, rest, e, i)) k =
    (rest, subst (λ x. Inv x rest) (runs-injective (sym e ∙ k)) i)

Step-Alive : {s v : Sys} → Step s v → Alive s → Alive v
Step-Alive {s} {v} (creates fresh grown new e) (rs, i) =
    (rs ++ (fresh ∷ []), creates-Inv s v fresh grown _ rs new e i)
Step-Alive {s} turns_system (rs, i) = (rs, turns_system-Inv s rs i)
Step-Alive {s} (yields e) (rs, i) = runs-Alive _ _ _ _ (yield-Goes s rs i) e
Step-Alive {s} (Step.exits val e) (rs, i) = runs-Alive _ _ _ _ (exit-Goes val s rs i) e

start-Inv : (fresh : Ptr) (v : Sys) → fresh ≢ nil → Started fresh v → Inv v []
start-Inv fresh v n s =
    Inv-of v fresh [] s.running s.queued (((n, tt)), (tt, tt))
      (record {
        table = s.table;
        listed = (s.listed, tt);
        only = λ a l z. omega (counting, z, ap (hit a) (s.only a l), hit_self a);
        alive = (s.alive, tt);
      })

-- No task is lost. A program starts in `main`, and its tasks do any sequence of `taskcreate`, with
-- memory that no task of the table has, `tasksystem`, `taskyield` and `taskexit`. In every state
-- that it reaches, the run queue is well-linked, the running task and the ready ones are distinct,
-- not null, not exiting, and just the tasks of the table; each of these knows its slot, and the
-- count is that of the user tasks.
pub Reach-Alive : {s : Sys} → Reach s → Alive s
Reach-Alive (start fresh grown e) = elim (main-Started fresh grown) [
  | inl (v, n, _, k, started, _) ↦ (
    [],
    subst (λ x. Inv x []) (runs-injective (ok_next-injective (sym k ∙ e)))
        (start-Inv fresh v n started),
  )
  | inr (_, k) ↦ absurd (ok-not-aborts (sym e ∙ k))
]
Reach-Alive (later r t) = Step-Alive t (Reach-Alive r)

-- In every state that a program reaches by `taskcreate`, with memory that no task of the table has,
-- `tasksystem`, `taskyield` and `taskexit`, the scheduler does not stop for want of a runnable
-- task: at a `taskyield` and at a `taskexit` it either runs a task, after which all tasks of the
-- table still run or are ready, or exits with the last status because no user task is left, for
-- `taskexit` because no other than the caller is counted.
pub program-never-stalls :
    {s : Sys} (val : ℕ)
    → Reach s
    → Goes s.taskcount s.exitval (taskswitch (taskyield_enter s))
      × Goes (s.taskcount - weight (s.system s.running)) val (taskswitch (taskexit_enter val s))
program-never-stalls {s} val r =
    let (rs, i) = Reach-Alive r in (yield-Goes s rs i, exit-Goes val s rs i)
