-- ===== src/Fd/Poll.antt =====
-- `fdtask` behind `poll`: the tasks with an event are made ready, and the others stay in the arrays.
use libtask.Base.{
  ℕ, zero, suc, ◌+◌, ◌-◌, ◌≤◌, ◌<◌, ◌≡◌, refl, ◌≢◌, inl, inr, sym, ◌∙◌, subst, ap, List, [], ◌∷◌,
  ◌++◌, append_assoc, append-nil, arith, Distinct, true, false, Bool-cases, ltb, ◌==◌,
  if◌then◌else◌, length, take, set, get_or, get_or-set_self, get_or-set_ne, length-set, counting,
  Distinct-fewer, count, count-nil, count-cons, hit, count-moved, total, total-moved, total-zero,
}
use native.Mathlib.Decide.{ℕ_discrete}
use libtask.Tasklist.{Ptr, nil}
use libtask.Sched.{ok}
use libtask.Waiting.Moves.{Split, taskready-Split}
use libtask.Fd.{Io, Pollfd, no_pollfd}
use libtask.Fd.Task.{take_off, wake_polled}

-- The tasks that wait for a file descriptor.
abbrev pub waiters : Io → List Ptr
waiters w = take w.npollfd w.polltask

abbrev pub event : Io → ℕ → ℕ
event w i = (get_or w.pollfd i no_pollfd).revents

-- 1 if entry `i` is the task `a`, with an event.
abbrev pub called : Ptr → Io → ℕ → ℕ
called a w i = if event w i == 0 then 0 else hit a (get_or w.polltask i nil)

-- The tasks `rs` are ready, `zs` sleep, and each task is in one place only.
pub record Polling (w : Io) (rs zs : List Ptr) : Type 0 where
  pub split : Split w.sys w.sleeping rs zs
  pub distinct : Distinct (nil ∷ rs ++ (zs ++ waiters w))
  pub room_fds : w.npollfd ≤ length w.pollfd
  pub room_tasks : w.npollfd ≤ length w.polltask

-- One entry less: its task is ready.
take_off-Polling :
    (w : Io) (i m : ℕ) (rs zs : List Ptr)
    → w.npollfd ≡ suc m
    → i < suc m
    → Polling w rs zs
    → Polling (take_off i w) (rs ++ (get_or w.polltask i nil ∷ [])) zs
      × ((a : Ptr)
          → count a (waiters (take_off i w)) + hit a (get_or w.polltask i nil)
            ≡ count a (waiters w))
unfolding take_off
take_off-Polling w i m rs zs e l v =
    let t = get_or w.polltask i nil in
    let n : w.npollfd - 1 ≡ m = omega arith in
    let moved : (a : Ptr) → count a (waiters (take_off i w)) + hit a t ≡ count a (waiters w) = λ a.
      subst
        (λ k.
          count a (take k (set w.polltask i (get_or w.polltask k nil))) + hit a t
          ≡ count a (take w.npollfd w.polltask))
        (sym n)
        (count-moved a m i w.polltask l (omega (arith, v.room_tasks))
          ∙ ap (λ k. count a (take k w.polltask)) (sym e)) in
    let all = nil ∷ rs ++ (zs ++ waiters w) in
    let apart : Distinct (t ∷ nil ∷ rs ++ zs) =
      Distinct-fewer all (t ∷ nil ∷ rs ++ zs) (λ a. omega (counting, moved a)) v.distinct in
    (
      record {
        split =
            let s = (taskready-Split w.sys w.sleeping t rs zs v.split apart.0).0 in
            record { queued = s.queued; waiting = s.waiting; distinct = s.distinct };
        distinct =
            Distinct-fewer all (nil ∷ (rs ++ (t ∷ [])) ++ (zs ++ waiters (take_off i w)))
              (λ a. omega (counting, moved a)) v.distinct;
        room_fds =
            omega (
              arith,
              v.room_fds,
              length-set w.pollfd i (get_or w.pollfd (w.npollfd - 1) no_pollfd),
            );
        room_tasks =
            omega (
              arith,
              v.room_tasks,
              length-set w.polltask i (get_or w.polltask (w.npollfd - 1) nil),
            );
      },
      moved,
    )

-- The entries in front of `i` stay.
event-take_off : (w : Io) (i j : ℕ) → j ≢ i → event (take_off i w) j ≡ event w j
unfolding take_off
event-take_off w i j n =
    ap (λ (p : Pollfd). p.revents)
      (get_or-set_ne w.pollfd i j (get_or w.pollfd (w.npollfd - 1) no_pollfd) no_pollfd
        (λ e. n (sym e)))

called-take_off :
    (a : Ptr) (w : Io) (i m : ℕ) (rs zs : List Ptr)
    → w.npollfd ≡ suc m
    → i < suc m
    → Polling w rs zs
    → total (called a (take_off i w)) m + called a w i ≡ total (called a w) (suc m)
unfolding take_off
called-take_off a w i m rs zs e l v =
    let n : w.npollfd - 1 ≡ m = omega arith in
    let p = get_or w.pollfd (w.npollfd - 1) no_pollfd in
    let t = get_or w.polltask (w.npollfd - 1) nil in
    let entry = λ (q : Pollfd) (u : Ptr). if q.revents == 0 then 0 else hit a u in
    total-moved (called a (take_off i w)) (called a w) m i l
      (λ j k o.
        ap (λ q. entry q (get_or (set w.polltask i t) j nil))
          (get_or-set_ne w.pollfd i j p no_pollfd (λ z. o (sym z)))
        ∙ ap (entry (get_or w.pollfd j no_pollfd))
            (get_or-set_ne w.polltask i j t nil (λ z. o (sym z))))
      (λ k.
        ap (λ q. entry q (get_or (set w.polltask i t) i nil))
          (get_or-set_self w.pollfd i p no_pollfd (omega (arith, v.room_fds)))
        ∙ ap (entry p) (get_or-set_self w.polltask i t nil (omega (arith, v.room_tasks)))
        ∙ ap (called a w) n)

-- The tasks with an event, `woken`, are ready. The others still wait, and have no event.
pub record PolledOut (w x : Io) (rs zs woken : List Ptr) : Type 0 where
  pub polling : Polling x (rs ++ woken) zs
  pub called_up : (a : Ptr) → count a woken ≡ total (called a w) w.npollfd
  pub remain : (a : Ptr) → count a (waiters x) + count a woken ≡ count a (waiters w)
  pub quiet : (j : ℕ) → j < x.npollfd → event x j ≡ 0

wake_polled-next :
    (fuel i : ℕ) (w : Io)
    → i < w.npollfd
    → event w i ≡ 0
    → wake_polled (suc fuel) i w ≡ wake_polled fuel (i + 1) w
unfolding wake_polled
wake_polled-next fuel i w l e =
    let inside : ltb i w.npollfd ≡ true = ground arith in
    let calm : (event w i == 0) ≡ true = ground arith in
    ap
      (λ b.
        if b
        then (if event w i == 0
            then wake_polled fuel (i + 1) w
            else wake_polled fuel i (take_off i w))
        else ok w)
      inside
    ∙ ap (λ b. if b then wake_polled fuel (i + 1) w else wake_polled fuel i (take_off i w)) calm

wake_polled-take :
    (fuel i : ℕ) (w : Io)
    → i < w.npollfd
    → event w i ≢ 0
    → wake_polled (suc fuel) i w ≡ wake_polled fuel i (take_off i w)
unfolding wake_polled
wake_polled-take fuel i w l n =
    let inside : ltb i w.npollfd ≡ true = ground arith in
    let up : (event w i == 0) ≡ false = ground arith in
    ap
      (λ b.
        if b
        then (if event w i == 0
            then wake_polled fuel (i + 1) w
            else wake_polled fuel i (take_off i w))
        else ok w)
      inside
    ∙ ap (λ b. if b then wake_polled fuel (i + 1) w else wake_polled fuel i (take_off i w)) up

wake_polled-end : (fuel i : ℕ) (w : Io) → w.npollfd ≤ i → wake_polled (suc fuel) i w ≡ ok w
unfolding wake_polled
wake_polled-end fuel i w l =
    let outside : ltb i w.npollfd ≡ false = ground arith in
    ap
      (λ b.
        if b
        then (if event w i == 0
            then wake_polled fuel (i + 1) w
            else wake_polled fuel i (take_off i w))
        else ok w)
      outside

npollfd-take_off : (i : ℕ) (w : Io) → (take_off i w).npollfd ≡ w.npollfd - 1
unfolding take_off
npollfd-take_off i w = refl

called-calm : (a : Ptr) (w : Io) (i : ℕ) → event w i ≡ 0 → called a w i ≡ 0
called-calm a w i e = ground arith

called-up :
    (a : Ptr) (w : Io) (i : ℕ) → event w i ≢ 0 → called a w i ≡ hit a (get_or w.polltask i nil)
called-up a w i n = ground arith

PolledOut-none :
    (w : Io) (rs zs : List Ptr)
    → Polling w rs zs
    → ((j : ℕ) → j < w.npollfd → event w j ≡ 0)
    → PolledOut w w rs zs []
PolledOut-none w rs zs v calm = record {
  polling = rw append-nil v;
  called_up = λ a.
      count-nil a ∙ sym (total-zero (called a w) w.npollfd (λ j l. called-calm a w j (calm j l)));
  remain = λ a. omega (arith, count-nil a);
  quiet = calm;
}

PolledOut-cons :
    (w x : Io) (i : ℕ) (rs zs woken : List Ptr)
    → i < w.npollfd
    → event w i ≢ 0
    → Polling w rs zs
    → PolledOut (take_off i w) x (rs ++ (get_or w.polltask i nil ∷ [])) zs woken
    → PolledOut w x rs zs (get_or w.polltask i nil ∷ woken)
PolledOut-cons w x i rs zs woken l n v p =
    let m = w.npollfd - 1 in
    let e : w.npollfd ≡ suc m = omega arith in
    let t = get_or w.polltask i nil in
    let moved = (take_off-Polling w i m rs zs e (omega arith) v).1 in
    record {
      polling = subst (λ r. Polling x r zs) (append_assoc rs (t ∷ []) woken) p.polling;
      called_up = λ a. omega (
        arith,
        count-cons a t woken,
        p.called_up a,
        ap (total (called a (take_off i w))) (npollfd-take_off i w),
        called-take_off a w i m rs zs e (omega arith) v,
        called-up a w i n,
        ap (total (called a w)) e,
      );
      remain = λ a. omega (arith, count-cons a t woken, p.remain a, moved a);
      quiet = p.quiet;
    }

wake_polled_from :
    (fuel i : ℕ) (w : Io) (rs zs : List Ptr)
    → i ≤ w.npollfd
    → w.npollfd < fuel + i
    → Polling w rs zs
    → ((j : ℕ) → j < i → j < w.npollfd → event w j ≡ 0)
    → (x : Io) × (woken : List Ptr) × (wake_polled fuel i w ≡ ok x) × PolledOut w x rs zs woken
wake_polled_from zero i w rs zs within enough v calm = absurd (omega arith)
wake_polled_from (suc fuel) i w rs zs within enough v calm = elim (Bool-cases (ltb i w.npollfd)) [
  | inr past ↦
      let over : w.npollfd ≤ i = ground arith in
      (
        w,
        [],
        wake_polled-end fuel i w over,
        PolledOut-none w rs zs v (λ j l. calm j (omega arith) l),
      )
  | inl inside ↦
      let l : i < w.npollfd = ground arith in
      elim (ℕ_discrete (event w i) 0) [
        | yes e ↦
            let (x, woken, r, p) =
              wake_polled_from fuel (i + 1) w rs zs (omega arith) (omega arith) v (λ j k q.
                elim (ℕ_discrete j i) [
                  | yes z ↦ ap (event w) z ∙ e
                  | no z ↦ calm j (omega arith) q
                ]) in
            (x, woken, wake_polled-next fuel i w l e ∙ r, p)
        | no n ↦
            let m = w.npollfd - 1 in
            let k : w.npollfd ≡ suc m = omega arith in
            let t = get_or w.polltask i nil in
            let (x, woken, r, p) =
              wake_polled_from fuel i (take_off i w) (rs ++ (t ∷ [])) zs
                (omega (arith, npollfd-take_off i w)) (omega (arith, npollfd-take_off i w))
                (take_off-Polling w i m rs zs k (omega arith) v).0
                (λ j b q.
                  event-take_off w i j (λ z. omega arith)
                  ∙ calm j b (omega (arith, npollfd-take_off i w))) in
            (
              x,
              t ∷ woken,
              wake_polled-take fuel i w l n ∙ r,
              PolledOut-cons w x i rs zs woken l n v p,
            )
      ]
]

-- The loop of `fdtask` over the polled descriptors, with more fuel than there are entries, with the
-- array's sizes, and with ready, sleeping and waiting tasks that are distinct, ends. Each task that
-- waits is made ready as often as it has entries with an event, at the end of the run queue; it
-- leaves the arrays, the other waiting tasks stay in them, and no entry that is left has an event.
pub wake_polled-PolledOut :
    (fuel : ℕ) (w : Io) (rs zs : List Ptr)
    → w.npollfd < fuel
    → Polling w rs zs
    → (x : Io) × (woken : List Ptr) × (wake_polled fuel 0 w ≡ ok x) × PolledOut w x rs zs woken
wake_polled-PolledOut fuel w rs zs enough v =
    wake_polled_from fuel 0 w rs zs (omega arith) (omega arith) v (λ j l q. absurd (omega arith))
