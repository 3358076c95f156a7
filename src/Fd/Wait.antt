-- ===== src/Fd/Wait.antt =====
-- `fdwait`: the caller joins the tasks that wait for a file descriptor.
use libtask.Base.{
  ℕ, String, suc, ◌+◌, ◌<◌, ◌≡◌, ◌≢◌, refl, sym, ◌∙◌, subst, ap, ◌⊎◌, inl, inr, List, [], ◌∷◌, ◌++◌,
  arith, Fresh, Distinct, Bool, true, leb, if◌then◌else◌, Bool-cases, length, length-set, take,
  take-set, set, get_or, get_or-set_self, counting, Distinct-fewer, ◌==◌,
}
use native.Mathlib.Decide.{ℕ_discrete}
use libtask.Tasklist.{Ptr, nil}
use libtask.Sched.{ok, aborts, taskstate}
use libtask.Fd.{Io, no_pollfd, maxfd, fdwait_enter, event_bits}
use libtask.Fd.Start.{start_again}
use libtask.Fd.Poll.{Polling, waiters}

-- The events of an entry for reading, for writing and for errors alone: POLLIN is 1, and POLLOUT 4.
abbrev pub Asks : ℕ → ℕ → Type 0
Asks rw e =
    ((rw ≡ b'r') × (e ≡ 1)) ⊎ ((rw ≡ b'w') × (e ≡ 4)) ⊎ ((rw ≢ b'r') × (rw ≢ b'w') × (e ≡ 0))

-- The caller's entry is the last one, and asks for `fd` and `rw`.
pub record Registered (w x : Io) (fd rw : ℕ) (rs zs : List Ptr) : Type 0 where
  pub polling : Polling x rs zs
  pub last_waiter : waiters x ≡ waiters w ++ (w.sys.running ∷ [])
  pub count_up : x.npollfd ≡ w.npollfd + 1
  pub asked :
      (e : ℕ) × (get_or x.pollfd w.npollfd no_pollfd ≡ record { fd = fd; events = e; revents = 0 })
      × Asks rw e

event_bits-Asks : (rw : ℕ) → Asks rw (event_bits rw)
unfolding event_bits
event_bits-Asks dir = elim (ℕ_discrete dir b'r') [
  | yes e ↦ inl (e, ground (arith, e))
  | no n ↦ elim (ℕ_discrete dir b'w') [
    | yes e ↦ inr (inl (e, ground (arith, e)))
    | no k ↦ inr (inr (n, k, ground (arith, n, k)))
  ]
]

-- `fdwait_enter` behind its first lines.
abbrev filed : ℕ → ℕ → String → Io → Io
filed fd rw s w = record w {
  sys = taskstate s w.sys;
  polltask = set w.polltask w.npollfd w.sys.running;
  pollfd = set w.pollfd w.npollfd (record { fd = fd; events = event_bits rw; revents = 0 });
  npollfd = w.npollfd + 1;
}

filed-Registered :
    (fd rw : ℕ) (s : String) (w : Io) (rs zs : List Ptr)
    → w.npollfd < length w.pollfd
    → w.npollfd < length w.polltask
    → Polling w rs zs
    → Fresh w.sys.running (nil ∷ rs ++ (zs ++ waiters w))
    → Registered w (filed fd rw s w) fd rw rs zs
unfolding taskstate
filed-Registered fd rw s w rs zs fds tasks v f =
    let n = w.npollfd in
    let r : Ptr = w.sys.running in
    let e : n + 1 ≡ suc n = omega arith in
    let waits : waiters (filed fd rw s w) ≡ waiters w ++ (r ∷ []) =
      ap (λ k. take k (set w.polltask n r)) e ∙ take-set n w.polltask r tasks in
    let all = r ∷ nil ∷ rs ++ (zs ++ waiters w) in
    record {
      polling = record {
        split = record {
          queued = v.split.queued;
          waiting = v.split.waiting;
          distinct = v.split.distinct;
        };
        distinct =
            subst (λ l. Distinct (nil ∷ rs ++ (zs ++ l))) (sym waits)
              (Distinct-fewer all (nil ∷ rs ++ (zs ++ (waiters w ++ (r ∷ []))))
                (λ a. omega counting) (f, v.distinct));
        room_fds = omega (
          arith,
          length-set w.pollfd n (record { fd = fd; events = event_bits rw; revents = 0 }),
        );
        room_tasks = omega (arith, length-set w.polltask n r);
      };
      last_waiter = waits;
      count_up = refl;
      asked = (
        event_bits rw,
        get_or-set_self w.pollfd n (record { fd = fd; events = event_bits rw; revents = 0 })
            no_pollfd fds,
        event_bits-Asks rw,
      );
    }

abbrev direction : ℕ → String
direction dir =
    if dir == b'r'
    then "fdwait for read"
    else (if dir == b'w' then "fdwait for write" else "fdwait for error")

-- `fdwait`, once `fdtask` has been started, by a running task that is neither ready nor asleep nor
-- waiting: it aborts just when the 1024 entries of the arrays are in use. Otherwise the caller is
-- the last of the tasks that wait, with its descriptor, the event that it asks for, which is 1 for
-- `r`, 4 for `w` and none for any other letter, and no event yet; the tasks that wait for
-- descriptors, are ready and sleep stay distinct.
pub fdwait-Registered :
    (fresh : Ptr) (grown : Bool) (fd rw : ℕ) (w : Io) (rs zs : List Ptr)
    → w.startedfdtask ≡ true
    → length w.pollfd ≡ maxfd
    → length w.polltask ≡ maxfd
    → Polling w rs zs
    → Fresh w.sys.running (nil ∷ rs ++ (zs ++ waiters w))
    → ((w.npollfd ≡ maxfd) × (fdwait_enter fresh grown fd rw w ≡ aborts))
      ⊎ ((w.npollfd < maxfd)
          × (x : Io) × (fdwait_enter fresh grown fd rw w ≡ ok x)
          × Registered w x fd rw rs zs)
unfolding fdwait_enter taskstate
fdwait-Registered fresh grown fd dir w rs zs running fds tasks v f =
    elim (Bool-cases (leb maxfd w.npollfd)) [
      | inl full ↦
          let most : w.npollfd ≡ maxfd = ground (arith, v.room_fds) in
          inl (most, rw (start_again fresh grown w running, full) refl)
      | inr room ↦
          let l : w.npollfd < maxfd = ground arith in
          inr (
            l,
            filed fd dir (direction dir) w,
            rw (start_again fresh grown w running, room) refl,
            filed-Registered fd dir (direction dir) w rs zs (omega arith) (omega arith) v f,
          )
    ]
