-- ===== src/Fd/Wake.antt =====
-- The tasks whose alarm has passed are made ready, in the order of their alarms.
use libtask.Base.{
  ℕ, zero, suc, ◌+◌, ◌-◌, ◌≤◌, ◌<◌, ◌≡◌, refl, ◌≢◌, inl, inr, sym, ◌∙◌, subst, ap, List, [], ◌∷◌,
  ◌++◌, append_assoc, append-nil, arith, All, All-map, true, false, Bool-cases, leb, not, ◌&&◌,
  ◌==◌, ==-ne, if◌then◌else◌, length, counting, Fresh-fewer,
}
use libtask.Tasklist.{Ptr, nil, deltask}
use libtask.Sched.{ok, taskready}
use libtask.Sched.Table.Users.{weight}
use libtask.Waiting.{wake}
use libtask.Waiting.Moves.{wake-Split}
use libtask.Fd.{Io}
use libtask.Fd.Asleep.{Asleep, bonus, user_tasks-cons}
use libtask.Fd.Task.{uncount_sleeper, wake_sleeper, wake_sleepers}

-- A user task is counted off, and the last of them in `taskcount` once more.
record Uncounted (t : Ptr) (w x : Io) (k c : ℕ) : Type 0 where
  result : x ≡ record w { sleepingcounted = k; sys = record w.sys { taskcount = c } }
  less : w.sleepingcounted ≡ weight (w.sys.system t) + k
  total : c + bonus w.sleepingcounted ≡ w.sys.taskcount + bonus k

uncount_sleeper-Uncounted :
    (w : Io) (t : Ptr)
    → weight (w.sys.system t) ≤ w.sleepingcounted
    → bonus w.sleepingcounted ≤ w.sys.taskcount
    → (k : ℕ) × (c : ℕ) × Uncounted t w (uncount_sleeper t w) k c
unfolding uncount_sleeper
uncount_sleeper-Uncounted w t h b = elim (Bool-cases (w.sys.system t)) [
  | inl ignored ↦ (
    w.sleepingcounted,
    w.sys.taskcount,
    record { result = rw ignored refl; less = ground arith; total = refl },
  )
  | inr user ↦
      let n = w.sleepingcounted - 1 in
      (
        n,
        if n == 0 then w.sys.taskcount - 1 else w.sys.taskcount,
        record { result = rw user refl; less = ground arith; total = ground arith },
      )
]

woken :
    (w : Io) (t : Ptr) (rs zs : List Ptr) (k c : ℕ)
    → Asleep w rs (t ∷ zs)
    → w.sleepingcounted ≡ weight (w.sys.system t) + k
    → c + bonus w.sleepingcounted ≡ w.sys.taskcount + bonus k
    → let (l, s) = wake w.sleeping t (record w.sys { taskcount = c }) in
      Asleep (record w { sleeping = l; sleepingcounted = k; sys = s }) (rs ++ (t ∷ [])) zs
unfolding wake taskready
woken w t rs zs k c v less total =
    let s = record w.sys { taskcount = c } in
    let (split, _) =
      wake-Split s w.sleeping t rs zs
        (record { queued = v.queued; waiting = v.sleeping; distinct = v.distinct }) in
    record {
      queued = split.queued;
      sleeping = split.waiting;
      distinct = split.distinct;
      sorted = v.sorted.1;
      counted = omega (arith, v.counted, less, user_tasks-cons w.sys.system t zs);
      table = record {
        room = v.table.room;
        fits = v.table.fits;
        slots = v.table.slots;
        counted = omega (arith, v.table.counted, total);
      };
    }

-- The first sleeper wakes.
wake_sleeper-Asleep :
    (w : Io) (t : Ptr) (rs zs : List Ptr)
    → Asleep w rs (t ∷ zs)
    → Asleep (wake_sleeper t w) (rs ++ (t ∷ [])) zs
      × ((wake_sleeper t w).sys.alarmtime ≡ w.sys.alarmtime)
unfolding wake_sleeper taskready wake
wake_sleeper-Asleep w t rs zs v =
    let (l, h) = deltask w.sleeping t w.sys.links in
    let off = record w { sleeping = l; sys = record w.sys { links = h } } in
    let (k, c, u) =
      uncount_sleeper-Uncounted off t (omega (arith, v.counted, user_tasks-cons w.sys.system t zs))
        (omega (arith, v.table.counted)) in
    subst
      (λ (y : Io).
        Asleep (record y { sys = taskready t y.sys }) (rs ++ (t ∷ [])) zs
        × ((taskready t y.sys).alarmtime ≡ w.sys.alarmtime))
      (sym u.result) (woken w t rs zs k c v u.less u.total, refl)

-- The sleepers `due` wake by the time `now`, and the sleepers `later` do not.
pub record Due (w x : Io) (now : ℕ) (rs zs due later : List Ptr) : Type 0 where
  pub whole : zs ≡ due ++ later
  pub due_now : All (λ t. w.sys.alarmtime t ≤ now) due
  pub not_yet : All (λ t. now < w.sys.alarmtime t) later
  pub asleep : Asleep x (rs ++ due) later

wake_sleepers-round :
    (fuel now : ℕ) (w : Io) (z : Ptr)
    → w.sleeping.head ≡ z
    → z ≢ nil
    → leb (w.sys.alarmtime z) now ≡ true
    → wake_sleepers (suc fuel) now w ≡ wake_sleepers fuel now (wake_sleeper z w)
unfolding wake_sleepers
wake_sleepers-round fuel now w z e =
    subst
      (λ a.
        a ≢ nil
        → leb (w.sys.alarmtime a) now ≡ true
        → wake_sleepers (suc fuel) now w ≡ wake_sleepers fuel now (wake_sleeper a w))
      e
      (λ n over.
        let go : (not (w.sleeping.head == nil) && leb (w.sys.alarmtime w.sleeping.head) now)
            ≡ true =
          rw (==-ne w.sleeping.head nil n) over in
        ap (λ b. if b then wake_sleepers fuel now (wake_sleeper w.sleeping.head w) else ok w) go)

wake_sleepers-stop :
    (fuel now : ℕ) (w : Io) (z : Ptr)
    → w.sleeping.head ≡ z
    → leb (w.sys.alarmtime z) now ≡ false
    → wake_sleepers (suc fuel) now w ≡ ok w
unfolding wake_sleepers
wake_sleepers-stop fuel now w z e =
    subst (λ a. leb (w.sys.alarmtime a) now ≡ false → wake_sleepers (suc fuel) now w ≡ ok w) e
      (λ early.
        let stop : (not (w.sleeping.head == nil) && leb (w.sys.alarmtime w.sleeping.head) now)
            ≡ false =
          ground (arith, early) in
        ap (λ b. if b then wake_sleepers fuel now (wake_sleeper w.sleeping.head w) else ok w) stop)

-- The last loop of `fdtask`, with more fuel than there are sleepers and with sleepers in the order
-- of waking, ends. It makes just the sleepers ready whose time has come, in that order, leaves the
-- others asleep, and keeps the count of sleepers and the count of user tasks right.
pub wake_sleepers-Due :
    (zs : List Ptr) (fuel now : ℕ) (w : Io) (rs : List Ptr)
    → length zs < fuel
    → Asleep w rs zs
    → (x : Io) × (due : List Ptr) × (later : List Ptr) × (wake_sleepers fuel now w ≡ ok x)
      × Due w x now rs zs due later
unfolding wake_sleepers
wake_sleepers-Due zs zero now w rs enough v = absurd (omega arith)
wake_sleepers-Due [] (suc fuel) now w rs enough v = (
  w,
  [],
  [],
  rw v.sleeping.head refl,
  record { whole = refl; due_now = tt; not_yet = tt; asleep = rw append-nil v },
)
wake_sleepers-Due (z ∷ zs) (suc fuel) now w rs enough v =
    let null : z ≢ nil = λ e.
      (Fresh-fewer nil (rs ++ (z ∷ zs)) (z ∷ []) (λ a. omega counting) v.distinct.0).0 (sym e) in
    elim (Bool-cases (leb (w.sys.alarmtime z) now)) [
      | inl over ↦
          let passed : w.sys.alarmtime z ≤ now = ground arith in
          let (woke, alarm) = wake_sleeper-Asleep w z rs zs v in
          let (x, due, later, e, d) =
            wake_sleepers-Due zs fuel now (wake_sleeper z w) (rs ++ (z ∷ [])) (omega arith) woke in
          (
            x,
            z ∷ due,
            later,
            wake_sleepers-round fuel now w z v.sleeping.head null over ∙ e,
            record {
              whole = ap (λ l. z ∷ l) d.whole;
              due_now = (passed, subst (λ (f : Ptr → ℕ). All (λ t. f t ≤ now) due) alarm d.due_now);
              not_yet = subst (λ (f : Ptr → ℕ). All (λ t. now < f t) later) alarm d.not_yet;
              asleep = subst (λ l. Asleep x l later) (append_assoc rs (z ∷ []) due) d.asleep;
            },
          )
      | inr early ↦
          let ahead : now < w.sys.alarmtime z = ground arith in
          (
            w,
            [],
            z ∷ zs,
            wake_sleepers-stop fuel now w z v.sleeping.head early,
            record {
              whole = refl;
              due_now = tt;
              not_yet = (
                ahead,
                All-map (λ t. w.sys.alarmtime z ≤ w.sys.alarmtime t) (λ t. now < w.sys.alarmtime t)
                    zs (λ a k. omega arith) v.sorted.0,
              );
              asleep = rw append-nil v;
            },
          )
    ]
