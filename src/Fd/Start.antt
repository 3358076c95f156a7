-- ===== src/Fd/Start.antt =====
-- The first call of `taskdelay` or `fdwait`, which creates `fdtask`.
use libtask.Base.{
  ℕ, ◌+◌, ◌≡◌, refl, ◌≢◌, sym, ◌∙◌, subst, ap, ◌⊎◌, inl, inr, List, [], ◌∷◌, ◌++◌, Fresh, Distinct,
  Bool, true, false, if◌then◌else◌, update, update_ne, counting, Distinct-fewer, Apart-fewer,
  Fresh-fewer,
}
use libtask.Tasklist.{Ptr, nil}
use libtask.Tasklist.Chain.{Holds, Holds-frame}
use libtask.Sched.{Sys, Result, ok, ◌>>=◌, taskready, taskcreate}
use libtask.Sched.Table.Users.{weight}
use libtask.Sched.Table.Defs.{Unlisted}
use libtask.Sched.Table.Create.{Made, taskcreate-Created}
use libtask.Waiting.Moves.{Split, taskready-Split}
use libtask.Fd.{Io, start, first_start}
use libtask.Fd.Asleep.{Asleep, Sorted, Sorted-alarm, bonus, user_tasks}

user_tasks-other :
    (system : Ptr → Bool) (t : Ptr) (b : Bool) (xs : List Ptr)
    → Fresh t xs
    → user_tasks (update system t b) xs ≡ user_tasks system xs
unfolding user_tasks
user_tasks-other system t b [] f = refl
user_tasks-other system t b (x ∷ xs) f =
    let e : update system t b x ≡ system x = update_ne system t b x (λ z. f.0 (sym z)) in
    ap (λ c. weight c + user_tasks (update system t b) xs) e
    ∙ ap (λ n. weight (system x) + n) (user_tasks-other system t b xs f.1)

-- The new task behind the ready ones; nobody else moves.
taskcreate-Split :
    (w : Io) (u : Sys) (fresh : Ptr) (rs zs : List Ptr)
    → Made w.sys u fresh
    → Split w.sys w.sleeping rs zs
    → Fresh fresh (nil ∷ rs ++ zs)
    → Split u w.sleeping (rs ++ (fresh ∷ [])) zs
taskcreate-Split w u fresh rs zs m v f =
    let all = fresh ∷ nil ∷ rs ++ zs in
    let d : Distinct all = (f, v.distinct) in
    subst (λ s. Split s w.sleeping (rs ++ (fresh ∷ [])) zs) (sym m.enqueued)
      (taskready-Split m.before w.sleeping fresh rs zs
        (record {
          queued =
              subst (λ l. Holds m.before.links l rs) (sym m.queue)
                (Holds-frame w.sys.links m.before.links w.sys.runqueue (fresh ∷ []) rs m.links
                  (Apart-fewer all rs (fresh ∷ []) (λ a. omega counting) d) v.queued);
          waiting =
              Holds-frame w.sys.links m.before.links w.sleeping (fresh ∷ []) zs m.links
                (Apart-fewer all zs (fresh ∷ []) (λ a. omega counting) d) v.waiting;
          distinct = v.distinct;
        })
        f).0

alarm-taskready : (t : Ptr) (s : Sys) → (taskready t s).alarmtime ≡ s.alarmtime
unfolding taskready
alarm-taskready t s = refl

system-taskready : (t : Ptr) (s : Sys) → (taskready t s).system ≡ s.system
unfolding taskready
system-taskready t s = refl

running-taskready : (t : Ptr) (s : Sys) → (taskready t s).running ≡ s.running
unfolding taskready
running-taskready t s = refl

-- `fdtask` has been started, or there is memory for it at `fresh`.
abbrev pub Startable : Io → Ptr → List Ptr → List Ptr → Type 0
Startable w fresh rs zs =
    (w.startedfdtask ≡ true)
    ⊎ ((w.startedfdtask ≡ false)
        × Fresh fresh (nil ∷ w.sys.running ∷ rs ++ zs)
        × Unlisted w.sys fresh)

-- `fdtask` is started: the tasks `ss` are ready then, with `fdtask` behind the others after the first call.
-- All else that sleeping needs is as before.
pub record Started (w v : Io) (fresh : Ptr) (rs ss zs : List Ptr) : Type 0 where
  pub ready :
      ((w.startedfdtask ≡ true) × (ss ≡ rs))
      ⊎ ((w.startedfdtask ≡ false) × (ss ≡ rs ++ (fresh ∷ [])))
  pub asleep : Asleep v ss zs
  pub running : v.sys.running ≡ w.sys.running
  pub started : v.startedfdtask ≡ true
  pub alone : Fresh v.sys.running (nil ∷ ss ++ zs)
  pub alarm : (a : Ptr) → a ≢ fresh → v.sys.alarmtime a ≡ w.sys.alarmtime a

first_start-steps :
    (fresh : Ptr) (w : Io) (id : ℕ) (u : Sys)
    → w.startedfdtask ≡ false
    → taskcreate fresh true w.sys ≡ ok (id, u)
    → start fresh true w ≡ ok (record w { sys = u; startedfdtask = true })
unfolding start first_start
first_start-steps fresh w id u off e =
    ap (λ b. if b then ok w else first_start fresh true w) off
    ∙ ap (λ (m : Result (ℕ × Sys)). m >>= λ p. ok (record w { sys = p.1; startedfdtask = true })) e

first_start-Started :
    (fresh : Ptr) (w : Io) (rs zs : List Ptr)
    → w.startedfdtask ≡ false
    → Fresh fresh (nil ∷ w.sys.running ∷ rs ++ zs)
    → Unlisted w.sys fresh
    → Fresh w.sys.running (nil ∷ rs ++ zs)
    → Asleep w rs zs
    → (v : Io) × (start fresh true w ≡ ok v) × Started w v fresh rs (rs ++ (fresh ∷ [])) zs
first_start-Started fresh w rs zs off far new apart v =
    let f =
      Fresh-fewer fresh (nil ∷ w.sys.running ∷ rs ++ zs) (nil ∷ rs ++ zs) (λ a. omega counting)
        far in
    let alone = Fresh-fewer fresh (nil ∷ rs ++ zs) zs (λ a. omega counting) f in
    let (u, e, c) = taskcreate-Created w.sys fresh (bonus w.sleepingcounted) f.0 new v.table in
    let m = c.made in
    let alarms : u.alarmtime ≡ update w.sys.alarmtime fresh 0 =
      ap (λ (s : Sys). s.alarmtime) m.enqueued ∙ alarm-taskready fresh m.before ∙ m.alarm in
    let systems : u.system ≡ update w.sys.system fresh false =
      ap (λ (s : Sys). s.system) m.enqueued ∙ system-taskready fresh m.before ∙ m.system in
    let same =
      ap (λ (s : Sys). s.running) m.enqueued ∙ running-taskready fresh m.before ∙ m.running in
    let split =
      taskcreate-Split w u fresh rs zs m
        (record { queued = v.queued; waiting = v.sleeping; distinct = v.distinct }) f in
    (
      record w { sys = u; startedfdtask = true },
      first_start-steps fresh w _ u off e,
      record {
        asleep = record {
          queued = split.queued;
          sleeping = split.waiting;
          distinct = split.distinct;
          sorted =
              subst (λ g. Sorted g zs) (sym alarms)
                (Sorted-alarm w.sys.alarmtime fresh 0 zs alone v.sorted);
          counted =
              v.counted
              ∙ sym (
                  ap (λ g. user_tasks g zs) systems
                  ∙ user_tasks-other w.sys.system fresh false zs alone);
          table = c.table;
        };
        ready = inr (off, refl);
        running = same;
        alone =
            subst (λ r. Fresh r (nil ∷ (rs ++ (fresh ∷ [])) ++ zs)) (sym same)
              (Distinct-fewer (fresh ∷ w.sys.running ∷ nil ∷ rs ++ zs)
                (w.sys.running ∷ nil ∷ (rs ++ (fresh ∷ [])) ++ zs) (λ a. omega counting)
                (
                  Fresh-fewer fresh (nil ∷ w.sys.running ∷ rs ++ zs)
                      (w.sys.running ∷ nil ∷ rs ++ zs) (λ a. omega counting) far,
                  (apart, v.distinct),
                )).0;
        started = refl;
        alarm = λ a n. ap (λ (g : Ptr → ℕ). g a) alarms ∙ update_ne w.sys.alarmtime fresh 0 a n;
      },
    )

pub start_again :
    (fresh : Ptr) (grown : Bool) (w : Io) → w.startedfdtask ≡ true → start fresh grown w ≡ ok w
unfolding start
start_again fresh grown w e = ap (λ b. if b then ok w else first_start fresh grown w) e

pub start-Started :
    (fresh : Ptr) (w : Io) (rs zs : List Ptr)
    → Startable w fresh rs zs
    → Fresh w.sys.running (nil ∷ rs ++ zs)
    → Asleep w rs zs
    → (v : Io) × (ss : List Ptr) × (start fresh true w ≡ ok v) × Started w v fresh rs ss zs
start-Started fresh w rs zs (inl e) apart v = (
  w,
  rs,
  start_again fresh true w e,
  record {
    ready = inl (e, refl);
    asleep = v;
    running = refl;
    started = e;
    alone = apart;
    alarm = λ a n. refl;
  },
)
start-Started fresh w rs zs (inr (off, far, new)) apart v =
    let (x, e, s) = first_start-Started fresh w rs zs off far new apart v in
    (x, rs ++ (fresh ∷ []), e, s)
