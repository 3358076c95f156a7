-- ===== src/Fd/Round.antt =====
-- A round of `fdtask` behind `poll`: both loops, one after the other.
use libtask.Base.{
  ℕ, zero, suc, ◌+◌, ◌≤◌, ◌<◌, ◌≡◌, refl, sym, ◌∙◌, ap, subst, inl, inr, List, [], ◌∷◌, ◌++◌,
  append_assoc, arith, All, Distinct, Bool-cases, if-both, ltb, leb, not, ◌&&◌, ◌==◌, length, take,
  get_or, counting, Distinct-fewer, count, total,
}
use libtask.Tasklist.{Ptr, nil, deltask}
use libtask.Sched.{Result, ok, ◌>>=◌, taskready}
use libtask.Sched.Table.Defs.{IsTable}
use libtask.Fd.{Io, Pollfd, no_pollfd}
use libtask.Fd.Asleep.{Asleep, Sorted, user_tasks, bonus}
use libtask.Fd.Poll.{Polling, waiters, event, called, wake_polled-PolledOut}
use libtask.Fd.Wake.{Due, wake_sleepers-Due}
use libtask.Fd.Task.{
  take_off, wake_polled, uncount_sleeper, wake_sleeper, wake_sleepers, polled, events, again,
  fdtask_wake,
}

-- The sleepers are in the order of waking, and the counts are right.
pub record Timed (w : Io) (zs : List Ptr) : Type 0 where
  pub sorted : Sorted w.sys.alarmtime zs
  pub counted : w.sleepingcounted ≡ user_tasks w.sys.system zs
  pub table : IsTable w.sys (bonus w.sleepingcounted)

-- The tasks `rs` are ready and `zs` sleep; others wait for descriptors.
pub record Watched (w : Io) (rs zs : List Ptr) : Type 0 where
  pub polling : Polling w rs zs
  pub timed : Timed w zs

Watched-Asleep : (w : Io) (rs zs : List Ptr) → Watched w rs zs → Asleep w rs zs
Watched-Asleep w rs zs v =
    let s = v.polling.split in
    let t = v.timed in
    record {
      queued = s.queued;
      sleeping = s.waiting;
      distinct = s.distinct;
      sorted = t.sorted;
      counted = t.counted;
      table = t.table;
    }

-- If there is a result, `P` holds of it.
abbrev After : (Io → Type 0) → Result Io → Type 0
After P (ok x) = P x
After P _ = Unit

wake_polled-After :
    (P : Io → Type 0)
    → ((i : ℕ) (w : Io) → P w → P (take_off i w))
    → (fuel i : ℕ) (w : Io) → P w
    → After P (wake_polled fuel i w)
unfolding wake_polled
wake_polled-After P keep zero i w h = tt
wake_polled-After P keep (suc fuel) i w h =
    if-both {A = Result Io} (After P) (ltb i w.npollfd)
      (if-both {A = Result Io} (After P) ((get_or w.pollfd i no_pollfd).revents == 0)
        (wake_polled-After P keep fuel (i + 1) w h)
        (wake_polled-After P keep fuel i (take_off i w) (keep i w h)))
      h

wake_sleepers-After :
    (P : Io → Type 0)
    → ((t : Ptr) (w : Io) → P w → P (wake_sleeper t w))
    → (fuel now : ℕ) (w : Io) → P w
    → After P (wake_sleepers fuel now w)
unfolding wake_sleepers
wake_sleepers-After P keep zero now w h = tt
wake_sleepers-After P keep (suc fuel) now w h =
    if-both {A = Result Io} (After P)
      (not (w.sleeping.head == nil) && leb (w.sys.alarmtime w.sleeping.head) now)
      (wake_sleepers-After P keep fuel now (wake_sleeper w.sleeping.head w)
        (keep w.sleeping.head w h))
      h

take_off-Timed :
    (alarm : Ptr → ℕ) (zs : List Ptr) (i : ℕ) (w : Io)
    → Timed w zs × (w.sys.alarmtime ≡ alarm)
    → Timed (take_off i w) zs × ((take_off i w).sys.alarmtime ≡ alarm)
unfolding take_off taskready
take_off-Timed alarm zs i w (t, e) = (
  record {
    sorted = t.sorted;
    counted = t.counted;
    table = record {
      room = t.table.room;
      fits = t.table.fits;
      slots = t.table.slots;
      counted = t.table.counted;
    };
  },
  e,
)

-- The arrays of `fdwait`.
abbrev SameArrays : Io → Io → Type 0
SameArrays w x = (x.npollfd ≡ w.npollfd) × (x.pollfd ≡ w.pollfd) × (x.polltask ≡ w.polltask)

uncount_sleeper-SameArrays : (t : Ptr) (w : Io) → SameArrays w (uncount_sleeper t w)
unfolding uncount_sleeper
uncount_sleeper-SameArrays t w = elim (Bool-cases (w.sys.system t)) [
  | inl e ↦ rw e (refl, refl, refl)
  | inr e ↦ rw e (refl, refl, refl)
]

wake_sleeper-SameArrays :
    (w₀ : Io) (t : Ptr) (w : Io) → SameArrays w₀ w → SameArrays w₀ (wake_sleeper t w)
unfolding wake_sleeper
wake_sleeper-SameArrays w₀ t w (n, p, q) =
    let (l, h) = deltask w.sleeping t w.sys.links in
    let (n', p', q') =
      uncount_sleeper-SameArrays t (record w { sleeping = l; sys = record w.sys { links = h } }) in
    (n' ∙ n, p' ∙ p, q' ∙ q)

length-polled : (es : List ℕ) (ps : List Pollfd) → length (polled es ps) ≡ length ps
unfolding polled
length-polled [] ps = refl
length-polled (e ∷ es) [] = refl
length-polled (e ∷ es) (p ∷ ps) = ap suc (length-polled es ps)

-- The tasks `woken` have an event, and `due` are the sleepers whose time has come. The first ones stand in
-- front of the others on the run queue.
pub record Woken (w x : Io) (now : ℕ) (rs zs woken due later : List Ptr) : Type 0 where
  pub watched : Watched x (rs ++ (woken ++ due)) later
  pub called_up : (a : Ptr) → count a woken ≡ total (called a w) w.npollfd
  pub remain : (a : Ptr) → count a (waiters x) + count a woken ≡ count a (waiters w)
  pub quiet : (j : ℕ) → j < x.npollfd → event x j ≡ 0
  pub whole : zs ≡ due ++ later
  pub due_now : All (λ t. w.sys.alarmtime t ≤ now) due
  pub not_yet : All (λ t. now < w.sys.alarmtime t) later

abbrev pub stored : List ℕ → Io → Io
stored es w = record w { pollfd = polled es w.pollfd }

stored-Watched :
    (es : List ℕ) (w : Io) (rs zs : List Ptr) → Watched w rs zs → Watched (stored es w) rs zs
stored-Watched es w rs zs v =
    let p = v.polling in
    let t = v.timed in
    record {
      polling = record {
        split = record {
          queued = p.split.queued;
          waiting = p.split.waiting;
          distinct = p.split.distinct;
        };
        distinct = p.distinct;
        room_fds = omega (arith, p.room_fds, length-polled es w.pollfd);
        room_tasks = p.room_tasks;
      };
      timed = record { sorted = t.sorted; counted = t.counted; table = t.table };
    }

waiters-SameArrays : (w x : Io) → SameArrays w x → waiters x ≡ waiters w
waiters-SameArrays w x (n, p, q) = ap (λ k. take k x.polltask) n ∙ ap (take w.npollfd) q

event-SameArrays : (w x : Io) (j : ℕ) → SameArrays w x → event x j ≡ event w j
event-SameArrays w x j (n, p, q) = ap (λ ps. (get_or ps j no_pollfd).revents) p

-- What the second loop leaves: the first one's arrays, and the sleepers that are not due.
Due-Watched :
    (w x : Io) (now : ℕ) (rs zs due later : List Ptr)
    → Polling w rs zs
    → SameArrays w x
    → Due w x now rs zs due later
    → Watched x (rs ++ due) later
Due-Watched w x now rs zs due later p (n, fds, tasks) d =
    let a = d.asleep in
    let same = waiters-SameArrays w x (n, fds, tasks) in
    let whole : Distinct (nil ∷ rs ++ ((due ++ later) ++ waiters w)) =
      subst (λ l. Distinct (nil ∷ rs ++ (l ++ waiters w))) d.whole p.distinct in
    record {
      polling = record {
        split = record { queued = a.queued; waiting = a.sleeping; distinct = a.distinct };
        distinct =
            subst (λ l. Distinct (nil ∷ (rs ++ due) ++ (later ++ l))) (sym same)
              (Distinct-fewer (nil ∷ rs ++ ((due ++ later) ++ waiters w))
                (nil ∷ (rs ++ due) ++ (later ++ waiters w)) (λ t. omega counting) whole);
        room_fds = omega (arith, p.room_fds, n, ap (λ l. length l) fds);
        room_tasks = omega (arith, p.room_tasks, n, ap (λ l. length l) tasks);
      };
      timed = record { sorted = a.sorted; counted = a.counted; table = a.table };
    }

fdtask_wake-steps :
    (fuel now : ℕ) (es : List ℕ) (w y x : Io)
    → wake_polled fuel 0 (stored es w) ≡ ok y
    → wake_sleepers fuel now y ≡ ok x
    → fdtask_wake fuel now (events es) w ≡ ok (again x)
unfolding fdtask_wake
fdtask_wake-steps fuel now es w y x e f =
    ap (λ (m : Result Io). m >>= λ u. wake_sleepers fuel now u >>= λ k. ok (again k)) e
    ∙ ap (λ (m : Result Io). m >>= λ k. ok (again k)) f

-- A round of `fdtask` behind a `poll` that did not fail, with more fuel than there are polled
-- descriptors and than there are sleepers, in a state whose ready, sleeping and waiting tasks are
-- distinct, with the sleepers in the order of waking and the counts right: it ends, and keeps all
-- of this. It makes ready each waiting task, as often as it has entries with an event, and behind
-- these just the sleepers whose time has come, in the order of their alarms. No entry that is left
-- has an event.
pub fdtask_wake-Woken :
    (fuel now : ℕ) (es : List ℕ) (w : Io) (rs zs : List Ptr)
    → w.npollfd < fuel
    → length zs < fuel
    → Watched w rs zs
    → (x : Io) × (woken : List Ptr) × (due : List Ptr) × (later : List Ptr) × (fdtask_wake fuel now
          (events es)
          w
        ≡ ok (again x))
      × Woken (stored es w) x now rs zs woken due later
fdtask_wake-Woken fuel now es w rs zs few short v =
    let s = stored es w in
    let v' = stored-Watched es w rs zs v in
    let (y, woken, e, p) = wake_polled-PolledOut fuel s rs zs few v'.polling in
    let (timed, alarm) = subst (After (λ u. Timed u zs × (u.sys.alarmtime ≡ w.sys.alarmtime))) e (
      wake_polled-After (λ u. Timed u zs × (u.sys.alarmtime ≡ w.sys.alarmtime))
        (take_off-Timed w.sys.alarmtime zs) fuel 0 s (v'.timed, refl)) in
    let (x, due, later, f, d) =
      wake_sleepers-Due zs fuel now y (rs ++ woken) short
        (Watched-Asleep y (rs ++ woken) zs (record { polling = p.polling; timed = timed })) in
    let same = subst (After (SameArrays y)) f (
      wake_sleepers-After (SameArrays y) (wake_sleeper-SameArrays y) fuel now y
        (refl, refl, refl)) in
    (
      x,
      woken,
      due,
      later,
      fdtask_wake-steps fuel now es w y x e f,
      record {
        watched =
            subst (λ l. Watched x l later) (append_assoc rs woken due)
              (Due-Watched y x now (rs ++ woken) zs due later p.polling same d);
        called_up = p.called_up;
        remain =
            λ a. ap (λ l. count a l + count a woken) (waiters-SameArrays y x same) ∙ p.remain a;
        quiet = λ j l. event-SameArrays y x j same ∙ p.quiet j (omega (arith, same.0));
        whole = d.whole;
        due_now = subst (λ (g : Ptr → ℕ). All (λ t. g t ≤ now) due) alarm d.due_now;
        not_yet = subst (λ (g : Ptr → ℕ). All (λ t. now < g t) later) alarm d.not_yet;
      },
    )
