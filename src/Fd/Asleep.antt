-- ===== src/Fd/Asleep.antt =====
-- What holds of the sleeping tasks between two operations of fd.c.
use libtask.Base.{
  ℕ, ◌+◌, ◌≤◌, ◌<◌, ◌≡◌, refl, ◌≢◌, List, [], ◌∷◌, ◌++◌, arith, All, Fresh, Distinct, Bool, update,
  ◌==◌, if◌then◌else◌, All-map, All-append, All-append_left, All-append_right,
}
use libtask.Tasklist.{Ptr, nil}
use libtask.Tasklist.Chain.{Holds}
use libtask.Sched.Queue.{Queued}
use libtask.Sched.Table.Users.{weight}
use libtask.Sched.Table.Defs.{IsTable}
use libtask.Fd.{Io}

-- In the order in which they wake.
abbrev pub Sorted : (Ptr → ℕ) → List Ptr → Type 0
Sorted alarm [] = Unit
Sorted alarm (x ∷ xs) = All (λ y. alarm x ≤ alarm y) xs × Sorted alarm xs

-- How many of the tasks are user tasks.
unfoldable pub user_tasks : (Ptr → Bool) → List Ptr → ℕ
user_tasks system [] = 0
user_tasks system (x ∷ xs) = weight (system x) + user_tasks system xs

-- What sleeping user tasks, together, add to `taskcount`.
abbrev pub bonus : ℕ → ℕ
bonus n = if n == 0 then 0 else 1

-- The tasks `rs` are ready and `zs` sleep.
pub record Asleep (w : Io) (rs zs : List Ptr) : Type 0 where
  pub queued : Queued w.sys rs
  pub sleeping : Holds w.sys.links w.sleeping zs
  pub distinct : Distinct (nil ∷ rs ++ zs)
  pub sorted : Sorted w.sys.alarmtime zs
  pub counted : w.sleepingcounted ≡ user_tasks w.sys.system zs
  pub table : IsTable w.sys (bonus w.sleepingcounted)

pub user_tasks-cons :
    (system : Ptr → Bool) (x : Ptr) (xs : List Ptr)
    → user_tasks system (x ∷ xs) ≡ weight (system x) + user_tasks system xs
unfolding user_tasks
user_tasks-cons system x xs = refl

pub user_tasks-append :
    (system : Ptr → Bool) (xs ys : List Ptr)
    → user_tasks system (xs ++ ys) ≡ user_tasks system xs + user_tasks system ys
unfolding user_tasks
user_tasks-append system [] ys = omega arith
user_tasks-append system (x ∷ xs) ys = omega (arith, user_tasks-append system xs ys)

-- Setting the alarm of a task that is not in the sequence.
All-alarm :
    (alarm : Ptr → ℕ) (r when n : ℕ) (xs : List Ptr)
    → Fresh r xs
    → All (λ y. n ≤ alarm y) xs
    → All (λ y. n ≤ update alarm r when y) xs
All-alarm alarm r when n [] f h = tt
All-alarm alarm r when n (x ∷ xs) f h = (ground arith, All-alarm alarm r when n xs f.1 h.1)

pub Sorted-alarm :
    (alarm : Ptr → ℕ) (r when : ℕ) (xs : List Ptr)
    → Fresh r xs
    → Sorted alarm xs
    → Sorted (update alarm r when) xs
Sorted-alarm alarm r when [] f h = tt
Sorted-alarm alarm r when (x ∷ xs) f h =
    let e : update alarm r when x ≡ alarm x = ground arith in
    (
      All-map (λ y. alarm x ≤ update alarm r when y)
          (λ y. update alarm r when x ≤ update alarm r when y) xs (λ a k. omega arith)
          (All-alarm alarm r when (alarm x) xs f.1 h.0),
      Sorted-alarm alarm r when xs f.1 h.1,
    )

-- A task that wakes at `when`, between those that wake before and the others.
pub Sorted-insert :
    (alarm : Ptr → ℕ) (r when : ℕ) (xs ys : List Ptr)
    → Fresh r (xs ++ ys)
    → All (λ x. alarm x < when) xs
    → All (λ y. when ≤ alarm y) ys
    → Sorted alarm (xs ++ ys)
    → Sorted (update alarm r when) (xs ++ (r ∷ ys))
Sorted-insert alarm r when [] ys f before after h =
    let e : update alarm r when r ≡ when = ground arith in
    (
      All-map (λ y. when ≤ update alarm r when y)
          (λ y. update alarm r when r ≤ update alarm r when y) ys (λ a k. omega arith)
          (All-alarm alarm r when when ys f after),
      Sorted-alarm alarm r when ys f h,
    )
Sorted-insert alarm r when (x ∷ xs) ys f before after h =
    let P = λ (y : Ptr). alarm x ≤ update alarm r when y in
    let e : update alarm r when x ≡ alarm x = ground arith in
    let left =
      All-alarm alarm r when (alarm x) xs (All-append_left (λ y. r ≢ y) xs ys f.1)
        (All-append_left (λ y. alarm x ≤ alarm y) xs ys h.0) in
    let right =
      All-alarm alarm r when (alarm x) ys (All-append_right (λ y. r ≢ y) xs ys f.1)
        (All-append_right (λ y. alarm x ≤ alarm y) xs ys h.0) in
    let new : P r = ground arith in
    (
      All-map P (λ y. update alarm r when x ≤ update alarm r when y) (xs ++ (r ∷ ys))
          (λ a k. omega arith) (All-append P xs (r ∷ ys) left (new, right)),
      Sorted-insert alarm r when xs ys f.1 before.1 after h.1,
    )
