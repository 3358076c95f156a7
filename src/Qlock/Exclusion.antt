-- ===== src/Qlock/Exclusion.antt =====
-- Mutual exclusion of the queuing lock, in every order of calls and switches.
use libtask.Base.{
  ◌≡◌, ◌≢◌, sym, ◌∙◌, subst, true, false, Bool-cases, ◌∷◌, ◌++◌, arith, Fresh, ◌⊎◌, inl, inr,
  Fresh-fewer, counting,
}
use libtask.Tasklist.{Ptr, nil}
use libtask.Sched.{ok, aborts}
use libtask.Qlock.{qunlock, qlock_resume}
use libtask.Qlock.Ops.{qunlock-Split}
use libtask.Qlock.System.{World, Reach}
use libtask.Qlock.Invariant.{Holding, ne-nil}
use libtask.Qlock.Preserve.{Reach-Inv}

-- Mutual exclusion. Tasks share one queuing lock, and each does any sequence of `qlock`,
-- `canqlock`, `qunlock` of a lock that it holds, `taskyield` and `taskexit`. In every state that
-- they reach, two tasks that hold the lock are the same task, and it is the lock's owner.
pub mutual_exclusion :
    {w : World} (a b : Ptr)
    → Reach w
    → w.holds a ≡ true
    → w.holds b ≡ true
    → (a ≡ b) × (w.lock.owner ≡ a)
mutual_exclusion a b r ha hb =
    let (_, _, i) = Reach-Inv r in (sym (i.held a ha) ∙ i.held b hb, i.held a ha)

resumed :
    (w : World) → Holding w → (w.waits w.sys.running ≡ false) ⊎ (qlock_resume w.lock w.sys ≡ ok tt)
unfolding qlock_resume
resumed w (rs, ws, i) = elim (Bool-cases (w.waits w.sys.running)) [
  | inr no_wait ↦ inl no_wait
  | inl waiting ↦
      let mine : w.lock.owner ≡ w.sys.running =
        i.given w.sys.running waiting
          (Fresh-fewer w.sys.running (nil ∷ rs ++ ws) ws (λ a. omega counting) i.running) in
      inr (ground arith)
]

ok-not-aborts : {A : Type 0} {a : A} → ok a ≢ aborts
ok-not-aborts e = cc

unlocked_by_holder :
    (w : World) → Holding w → (w.holds w.sys.running ≡ false) ⊎ (qunlock w.lock w.sys ≢ aborts)
unlocked_by_holder w (rs, ws, i) = elim (Bool-cases (w.holds w.sys.running)) [
  | inr free ↦ inl free
  | inl holder ↦ inr (λ z. elim (qunlock-Split w.lock w.sys rs ws i.split) [
    | inl (e, _) ↦ i.running.0 (sym (i.held w.sys.running holder) ∙ e)
    | inr (inl (_, _, k)) ↦ ok-not-aborts (sym k ∙ z)
    | inr (inr (_, _, _, _, _, _, k, _)) ↦ ok-not-aborts (sym k ∙ z)
  ])
]

-- In every state that tasks sharing one queuing lock reach, the checks of qlock.c do not fail: if
-- the running task comes back from its wait in `qlock`, it owns the lock, so that `qlock` returns;
-- and if the running task holds the lock, its `qunlock` does not abort.
pub qlock-never-aborts :
    {w : World}
    → Reach w
    → ((w.waits w.sys.running ≡ false) ⊎ (qlock_resume w.lock w.sys ≡ ok tt))
      × ((w.holds w.sys.running ≡ false) ⊎ (qunlock w.lock w.sys ≢ aborts))
qlock-never-aborts {w} r =
    let (rs, ws, i) = Reach-Inv r in (resumed w (rs, ws, i), unlocked_by_holder w (rs, ws, i))

-- In every state that tasks sharing one queuing lock reach, a lock that some task waits for inside
-- `qlock` has an owner.
pub free-lock-unwaited : {w : World} (a : Ptr) → Reach w → w.waits a ≡ true → w.lock.owner ≢ nil
free-lock-unwaited {w} a r h e =
    let (rs, ws, i) = Reach-Inv r in
    let alone : Fresh a ws = subst (Fresh a) (sym (i.free e)) tt in
    ne-nil w.waits i.nil_waits a h (sym (i.given a h alone) ∙ e)
