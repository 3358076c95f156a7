-- ===== src/Qlock/Ops.antt =====
-- What each operation on a queuing lock does, on every branch.
use libtask.Base.{
  ◌≡◌, refl, ◌≢◌, sym, List, [], ◌∷◌, ◌++◌, arith, Fresh, ==-ne, ◌⊎◌, inl, inr, Distinct-fewer,
  counting,
}
use native.Mathlib.Decide.{ℕ_discrete}
use libtask.Tasklist.{Ptr, nil}
use libtask.Tasklist.Chain.{SameOutside}
use libtask.Sched.{Sys, ok, aborts, taskstate}
use libtask.Waiting.{wait_on, wake}
use libtask.Waiting.Moves.{Split, wait_on-Split, wake-Split, wake-running}
use libtask.Qlock.{Qlock, got, refused, blocks, qlock, canqlock, qunlock}

-- `canqlock` never blocks: it takes a free lock and returns 1; with the lock held it returns 0 and
-- changes nothing.
pub canqlock_lem :
    (l : Qlock) (s : Sys)
    → ((l.owner ≡ nil) × (canqlock l s ≡ (got, record l { owner = s.running }, s)))
      ⊎ ((l.owner ≢ nil) × (canqlock l s ≡ (refused, l, s)))
unfolding canqlock
canqlock_lem l s = elim (ℕ_discrete l.owner nil) [
  | yes e ↦ inl (e, ground arith)
  | no n ↦ inr (n, ground arith)
]

-- The caller of `qlock` at a held lock is the last of those that wait for it.
abbrev pub Blocked : Qlock → Sys → List Ptr → List Ptr → Type 0
Blocked l s rs ws =
    ((qlock l s).0 ≡ blocks)
    × ((qlock l s).1.owner ≡ l.owner)
    × ((qlock l s).2.running ≡ s.running)
    × Split (qlock l s).2 (qlock l s).1.waiting rs (ws ++ (s.running ∷ []))

-- With well-linked lists of distinct tasks, `qlock` by a running task that is on no list takes a
-- free lock at once and leaves the system as it is; at a held lock the caller goes to the end of
-- the wait list, and the owner and the run queue stay.
pub qlock-Split :
    (l : Qlock) (s : Sys) (rs ws : List Ptr)
    → Split s l.waiting rs ws
    → Fresh s.running (nil ∷ rs ++ ws)
    → ((l.owner ≡ nil) × (qlock l s ≡ (got, record l { owner = s.running }, s)))
      ⊎ ((l.owner ≢ nil) × Blocked l s rs ws)
unfolding qlock taskstate wait_on
qlock-Split l s rs ws v f = elim (ℕ_discrete l.owner nil) [
  | yes e ↦ inl (e, ground arith)
  | no n ↦
      let moved = (wait_on-Split s l.waiting rs ws v f).0 in
      inr (
        n,
        rw (==-ne l.owner nil n) (
          refl,
          refl,
          refl,
          record { queued = moved.queued; waiting = moved.waiting; distinct = moved.distinct },
        ),
      )
]

-- The lock `m` and the system `u` after a hand-over to the task `t`.
pub record Handed (s u : Sys) (m : Qlock) (t : Ptr) (rs ws : List Ptr) : Type 0 where
  pub owner : m.owner ≡ t
  pub split : Split u m.waiting (rs ++ (t ∷ [])) ws
  pub running : u.running ≡ s.running
  pub same : SameOutside (t ∷ rs ++ ws) s.links u.links

handed :
    (l : Qlock) (s : Sys) (t : Ptr) (rs ws : List Ptr)
    → l.owner ≢ nil
    → Split s l.waiting rs (t ∷ ws)
    → (m : Qlock) × (u : Sys) × (qunlock l s ≡ ok (m, u)) × Handed s u m t rs ws
unfolding qunlock
handed l s t rs ws n v =
    let first : l.waiting.head ≡ t = v.waiting.head in
    let (split, same) = wake-Split s l.waiting t rs ws v in
    let used : t ≢ nil = λ e.
      (Distinct-fewer (nil ∷ rs ++ (t ∷ ws)) (nil ∷ t ∷ []) (λ a. omega counting) v.distinct).0.0
        (sym e) in
    (
      record { owner = t; waiting = (wake l.waiting t s).0 },
      (wake l.waiting t s).1,
      rw (==-ne l.owner nil n, first, ==-ne t nil used),
      record { owner = refl; split = split; running = wake-running l.waiting t s; same = same },
    )

freed-Handed :
    (l : Qlock) (s : Sys) (rs ws : List Ptr)
    → l.owner ≢ nil
    → Split s l.waiting rs ws
    → ((l.owner ≢ nil) × (ws ≡ []) × (qunlock l s ≡ ok (record l { owner = nil }, s)))
      ⊎ ((t : Ptr) × (rest : List Ptr) × (m : Qlock) × (u : Sys) × (l.owner ≢ nil)
          × (ws ≡ t ∷ rest)
          × (qunlock l s ≡ ok (m, u))
          × Handed s u m t rs rest)
unfolding qunlock
freed-Handed l s rs [] n v = inl (n, refl, ground arith)
freed-Handed l s rs (t ∷ rest) n v =
    let (m, u, e, h) = handed l s t rs rest n v in inr (t, rest, m, u, n, refl, e, h)

-- With well-linked lists of distinct tasks, `qunlock` aborts just when nobody holds the lock.
-- Otherwise it makes the task that has waited longest the owner and puts it at the end of the run
-- queue, relinking no task outside the two lists; with nobody waiting it frees the lock.
pub qunlock-Split :
    (l : Qlock) (s : Sys) (rs ws : List Ptr)
    → Split s l.waiting rs ws
    → ((l.owner ≡ nil) × (qunlock l s ≡ aborts))
      ⊎ ((l.owner ≢ nil) × (ws ≡ []) × (qunlock l s ≡ ok (record l { owner = nil }, s)))
      ⊎ ((t : Ptr) × (rest : List Ptr) × (m : Qlock) × (u : Sys) × (l.owner ≢ nil)
          × (ws ≡ t ∷ rest)
          × (qunlock l s ≡ ok (m, u))
          × Handed s u m t rs rest)
unfolding qunlock
qunlock-Split l s rs ws v = elim (ℕ_discrete l.owner nil) [
  | yes e ↦ inl (e, ground arith)
  | no n ↦ inr (freed-Handed l s rs ws n v)
]
