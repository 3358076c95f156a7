-- ===== src/Fd/Delay.antt =====
-- `taskdelay`: the caller goes to sleep at its place in the order of waking.
use libtask.Base.{
  ◌*◌, ◌%◌, ◌^◌, ℕ, zero, suc, ◌+◌, ◌≤◌, ◌<◌, ◌≡◌, refl, sym, ◌∙◌, subst, ap, inl, inr, List, [],
  ◌∷◌, ◌++◌, arith, All, All-map, Fresh, Distinct, Bool, true, Bool-cases, ltb, ==-ne, length,
  counting, Distinct-fewer, Apart-fewer, Fresh-fewer,
}
use libtask.Tasklist.{Ptr, nil}
use libtask.Tasklist.Chain.{first, Chain, Holds, Holds-frame}
use libtask.Sched.{Sys, Result, ok, ◌>>=◌}
use libtask.Sched.Queue.{Queued}
use libtask.Sched.Table.Users.{weight}
use libtask.Sched.Table.Defs.{IsTable}
use libtask.Fd.{Io, start, find_later, count_sleeper, sleep_before, alarm_at, taskdelay_enter}
use libtask.Fd.Start.{Startable, Started, start-Started}
use libtask.Fd.Place.{place-Holds}
use libtask.Fd.Asleep.{
  Asleep, Sorted, Sorted-insert, bonus, user_tasks, user_tasks-cons, user_tasks-append,
}

-- `zs` cut in front of the first task that wakes at `when` or later.
record Cut (alarm : Ptr → ℕ) (when : ℕ) (zs xs ys : List Ptr) : Type 0 where
  whole : zs ≡ xs ++ ys
  before : All (λ x. alarm x < when) xs
  after : All (λ y. when ≤ alarm y) ys

find_later-Cut :
    (zs : List Ptr) (fuel : ℕ) (p when : ℕ) (s : Sys)
    → length zs < fuel
    → Fresh nil zs
    → Chain s.links p zs
    → Sorted s.alarmtime zs
    → (xs : List Ptr) × (ys : List Ptr) × (find_later fuel (first zs) when s ≡ ok (first ys))
      × Cut s.alarmtime when zs xs ys
unfolding find_later
find_later-Cut zs zero p when s enough f c o = absurd (omega arith)
find_later-Cut [] (suc fuel) p when s enough f c o =
    ([], [], refl, record { whole = refl; before = tt; after = tt })
find_later-Cut (z ∷ zs) (suc fuel) p when s enough f c o =
    elim (Bool-cases (ltb (s.alarmtime z) when)) [
      | inl early ↦
          let (xs, ys, e, k) = find_later-Cut zs fuel z when s (omega arith) f.1 c.2 o.1 in
          let sooner : s.alarmtime z < when = ground arith in
          (
            z ∷ xs,
            ys,
            rw (==-ne z nil (λ n. f.0 (sym n)), early) (ap (λ t. find_later fuel t when s) c.1 ∙ e),
            record {
              whole = ap (λ l. z ∷ l) k.whole;
              before = (sooner, k.before);
              after = k.after;
            },
          )
      | inr late ↦
          let later : when ≤ s.alarmtime z = ground arith in
          (
            [],
            z ∷ zs,
            rw (==-ne z nil (λ n. f.0 (sym n)), late) refl,
            record {
              whole = refl;
              before = tt;
              after = (
                later,
                All-map (λ y. s.alarmtime z ≤ s.alarmtime y) (λ y. when ≤ s.alarmtime y) zs
                    (λ a k. omega arith) o.0,
              );
            },
          )
    ]

-- `count_sleeper` counts a user task, and the first of them in `taskcount` once more.
count_sleeper-Asleep :
    (w : Io) (t : Ptr) (rs zs : List Ptr)
    → Queued w.sys rs
    → Holds w.sys.links w.sleeping zs
    → Distinct (nil ∷ rs ++ zs)
    → Sorted w.sys.alarmtime zs
    → w.sleepingcounted + weight (w.sys.system t) ≡ user_tasks w.sys.system zs
    → IsTable w.sys (bonus w.sleepingcounted)
    → Asleep (count_sleeper t w) rs zs
unfolding count_sleeper
count_sleeper-Asleep w t rs zs q v d o n i = elim (Bool-cases (w.sys.system t)) [
  | inl ignored ↦
      let same : w.sleepingcounted ≡ user_tasks w.sys.system zs = ground (arith, n) in
      rw ignored
        (record { queued = q; sleeping = v; distinct = d; sorted = o; counted = same; table = i })
  | inr user ↦
      let more : w.sleepingcounted + 1 ≡ user_tasks w.sys.system zs = ground (arith, n) in
      rw user (record {
        queued = q;
        sleeping = v;
        distinct = d;
        sorted = o;
        counted = more;
        table = record {
          room = i.room;
          fits = i.fits;
          slots = i.slots;
          counted = ground (arith, i.counted);
        };
      })
]

user_tasks-insert :
    (system : Ptr → Bool) (r : Ptr) (xs ys : List Ptr)
    → user_tasks system (xs ++ ys) + weight (system r) ≡ user_tasks system (xs ++ (r ∷ ys))
user_tasks-insert system r xs ys = omega (
  arith,
  user_tasks-append system xs ys,
  user_tasks-append system xs (r ∷ ys),
  user_tasks-cons system r ys,
)

sleep_before-Asleep :
    (w : Io) (when : ℕ) (rs xs ys : List Ptr)
    → Asleep w rs (xs ++ ys)
    → Fresh w.sys.running (nil ∷ rs ++ (xs ++ ys))
    → All (λ x. w.sys.alarmtime x < when) xs
    → All (λ y. when ≤ w.sys.alarmtime y) ys
    → Asleep
        (count_sleeper w.sys.running (sleep_before (first ys) when w))
        rs
        (xs ++ (w.sys.running ∷ ys))
unfolding sleep_before
sleep_before-Asleep w when rs xs ys v f before after =
    let r : Ptr = w.sys.running in
    let all = r ∷ nil ∷ rs ++ (xs ++ ys) in
    let d : Distinct all = (f, v.distinct) in
    let (holds, same) =
      place-Holds w.sys.links w.sleeping r xs ys
        (Distinct-fewer all (r ∷ nil ∷ xs ++ ys) (λ a. omega counting) d) v.sleeping in
    count_sleeper-Asleep (sleep_before (first ys) when w) r rs (xs ++ (r ∷ ys))
      (Holds-frame w.sys.links _ w.sys.runqueue (r ∷ xs ++ ys) rs same
        (Apart-fewer all rs (r ∷ xs ++ ys) (λ a. omega counting) d) v.queued)
      holds (Distinct-fewer all (nil ∷ rs ++ (xs ++ (r ∷ ys))) (λ a. omega counting) d)
      (Sorted-insert w.sys.alarmtime r when xs ys
        (Fresh-fewer r (nil ∷ rs ++ (xs ++ ys)) (xs ++ ys) (λ a. omega counting) f) before after
        v.sorted)
      (ap (λ n. n + weight (w.sys.system r)) v.counted ∙ user_tasks-insert w.sys.system r xs ys)
      (record {
        room = v.table.room;
        fits = v.table.fits;
        slots = v.table.slots;
        counted = v.table.counted;
      })

-- The caller sleeps behind `xs`, which wake before it, and in front of `ys`, which do not.
pub record Delayed (w x : Io) (when : ℕ) (rs zs xs ys : List Ptr) : Type 0 where
  pub whole : zs ≡ xs ++ ys
  pub before : All (λ t. w.sys.alarmtime t < when) xs
  pub after : All (λ t. when ≤ w.sys.alarmtime t) ys
  pub alarm : x.sys.alarmtime w.sys.running ≡ when
  pub asleep : Asleep x rs (xs ++ (w.sys.running ∷ ys))

alarm-count_sleeper : (t u : Ptr) (w : Io) → (count_sleeper t w).sys.alarmtime u ≡ w.sys.alarmtime u
unfolding count_sleeper
alarm-count_sleeper t u w = elim (Bool-cases (w.sys.system t)) [
  | inl e ↦ rw e refl
  | inr e ↦ rw e refl
]

alarm-sleep_before :
    (t : Ptr) (when : ℕ) (w : Io) → (sleep_before t when w).sys.alarmtime w.sys.running ≡ when
unfolding sleep_before
alarm-sleep_before t when w = ground arith

taskdelay_enter-steps :
    (fuel : ℕ) (fresh : Ptr) (grown : Bool) (now ms : ℕ) (w v : Io) (t : Ptr)
    → start fresh grown w ≡ ok v
    → find_later fuel v.sleeping.head (alarm_at now ms) v.sys ≡ ok t
    → taskdelay_enter fuel fresh grown now ms w
      ≡ ok (count_sleeper w.sys.running (sleep_before t (alarm_at now ms) v))
unfolding taskdelay_enter
taskdelay_enter-steps fuel fresh grown now ms w v t started found =
    let r : Ptr = w.sys.running in
    let when = alarm_at now ms in
    ap
      (λ (m : Result Io). m >>= λ u. find_later fuel u.sleeping.head when u.sys >>= λ k.
        ok (count_sleeper r (sleep_before k when u)))
      started
    ∙ ap (λ (m : Result Ptr). m >>= λ k. ok (count_sleeper r (sleep_before k when v))) found

-- `taskdelay` by a running task that is on no list, with well-linked lists of distinct tasks and
-- more fuel than there are sleepers: at the first call, with memory for `fdtask`, that task is
-- created and stands behind the other ready tasks. In any case the caller sleeps until the time now
-- plus 1000000 nanoseconds for each of its milliseconds, modulo 2^64, behind those that wake before
-- it and in front of the others. The sleepers stay in the order of waking, their count stays right,
-- and the count of user tasks has one more while a user task sleeps.
pub taskdelay-Delayed :
    (fuel : ℕ) (fresh : Ptr) (now ms : ℕ) (w : Io) (rs zs : List Ptr)
    → length zs < fuel
    → Startable w fresh rs zs
    → Asleep w rs zs
    → Fresh w.sys.running (nil ∷ rs ++ zs)
    → (v : Io) × (x : Io) × (ss : List Ptr) × (xs : List Ptr) × (ys : List Ptr) × (start fresh true
          w
        ≡ ok v)
      × Started w v fresh rs ss zs
      × (taskdelay_enter fuel fresh true now ms w ≡ ok x)
      × Delayed v x ((now + ms * 1000000) % 2 ^ 64) ss zs xs ys
unfolding alarm_at
taskdelay-Delayed fuel fresh now ms w rs zs enough can asleep apart =
    let (v, ss, started, s) = start-Started fresh w rs zs can apart asleep in
    let a = s.asleep in
    let when = alarm_at now ms in
    let r : Ptr = v.sys.running in
    let null : Fresh nil zs = Fresh-fewer nil (ss ++ zs) zs (λ t. omega counting) a.distinct.0 in
    let (xs, ys, e, k) =
      find_later-Cut zs fuel nil when v.sys enough null a.sleeping.chain a.sorted in
    let found : find_later fuel v.sleeping.head when v.sys ≡ ok (first ys) =
      ap (λ t. find_later fuel t when v.sys) a.sleeping.head ∙ e in
    (
      v,
      count_sleeper r (sleep_before (first ys) when v),
      ss,
      xs,
      ys,
      started,
      s,
      taskdelay_enter-steps fuel fresh true now ms w v (first ys) started found
          ∙ ap (λ t. ok (count_sleeper t (sleep_before (first ys) when v))) (sym s.running),
      record {
        whole = k.whole;
        before = k.before;
        after = k.after;
        alarm =
            alarm-count_sleeper r r (sleep_before (first ys) when v)
            ∙ alarm-sleep_before (first ys) when v;
        asleep =
            sleep_before-Asleep v when ss xs ys (subst (Asleep v ss) k.whole a)
              (subst (λ l. Fresh r (nil ∷ ss ++ l)) k.whole s.alone) k.before k.after;
      },
    )
