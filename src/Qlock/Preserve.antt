-- ===== src/Qlock/Preserve.antt =====
-- The invariant of a queuing lock holds in every state that a program reaches.
use libtask.Base.{
  ℕ, ◌≡◌, refl, ◌≢◌, sym, ◌∙◌, subst, ap, true, false, [], ◌∷◌, ◌++◌, update, inl, inr,
  Distinct-fewer, Fresh-fewer, counting,
}
use mathlib.Core.Bool.{false≢true}
use libtask.Tasklist.{nil}
use libtask.Tasklist.Chain.{Holds-empty}
use libtask.Sched.{Sys, ok, taskyield_enter, taskexit_enter, taskswitch, runs, taskstate}
use libtask.Waiting.Moves.{Split, taskready-Split}
use libtask.Qlock.{Qlock, Attempt, got, refused, blocks, qlock, canqlock, qunlock}
use libtask.Qlock.Ops.{canqlock_lem, qlock-Split, qunlock-Split}
use libtask.Qlock.System.{
  World, Step, lock_now, lock_wait, try_got, try_refused, resume, unlock, yields, exits, Reach,
  start, later,
}
use libtask.Qlock.Invariant.{
  Inv, Holding, switch-Inv, take-Inv, wait-Inv, free-Inv, hand-Inv, resume-Inv,
}

got-not-blocks :
    {m n : Qlock} {u v : Sys} → ◌≡◌ {A = Attempt × Qlock × Sys} (got, m, u) (blocks, n, v) → ⊥
got-not-blocks e = cc

ok-injective : {a b : Qlock × Sys} → ok a ≡ ok b → a ≡ b
ok-injective e = cc

blocks-not-got : blocks ≢ got
blocks-not-got e = cc

refused-not-got : refused ≢ got
refused-not-got e = cc

Step-lock_wait :
    (w : World) (m : Qlock) (u v : Sys)
    → qlock w.lock w.sys ≡ (blocks, m, u)
    → taskswitch u ≡ runs v
    → Holding w
    → Holding (record w { sys = v; lock = m; waits = update w.waits w.sys.running true })
Step-lock_wait w m u v q e (rs, ws, i) = elim (qlock-Split w.lock w.sys rs ws i.split i.running) [
  | inl (_, k) ↦ absurd (got-not-blocks (sym k ∙ q))
  | inr (n, b) ↦
      wait-Inv w m u v rs ws i n (ap (λ r. r.1.owner) (sym q) ∙ b.1)
        (subst (λ r. Split r.2 r.1.waiting rs (ws ++ (w.sys.running ∷ []))) q b.3) e
]

Step-unlock :
    (w : World) (m : Qlock) (u : Sys)
    → w.waits w.sys.running ≡ false
    → w.holds w.sys.running ≡ true
    → qunlock w.lock w.sys ≡ ok (m, u)
    → Holding w
    → Holding (record w { sys = u; lock = m; holds = update w.holds w.sys.running false })
Step-unlock w m u n h q (rs, ws, i) = elim (qunlock-Split w.lock w.sys rs ws i.split) [
  | inl (z, _) ↦ absurd (i.running.0 (sym (i.held w.sys.running h) ∙ z))
  | inr (inl (_, e, k)) ↦
      subst
        (λ r.
          Holding (record w { sys = r.1; lock = r.0; holds = update w.holds w.sys.running false }))
        (ok-injective (sym k ∙ q)) (free-Inv w rs (i.held w.sys.running h) n (subst (Inv w rs) e i))
  | inr (inr (t, rest, m', u', _, e, k, handed)) ↦
      subst
        (λ r.
          Holding (record w { sys = r.1; lock = r.0; holds = update w.holds w.sys.running false }))
        (ok-injective (sym k ∙ q))
        (hand-Inv w m' u' t rs rest (i.held w.sys.running h) n (subst (Inv w rs) e i) handed)
]

Step-yields :
    (w : World) (v : Sys)
    → taskswitch (taskyield_enter w.sys) ≡ runs v
    → Holding w
    → Holding (record w { sys = v })
unfolding taskyield_enter taskstate
Step-yields w v e (rs, ws, i) =
    let ready = (taskready-Split w.sys w.lock.waiting w.sys.running rs ws i.split i.running).0 in
    switch-Inv w _ v (rs ++ (w.sys.running ∷ [])) ws e
      (record { queued = ready.queued; waiting = ready.waiting; distinct = ready.distinct }) i.free
      i.given i.held i.nil_waits i.nil_holds

Step-exits :
    (w : World) (v : Sys) (val : ℕ)
    → taskswitch (taskexit_enter val w.sys) ≡ runs v
    → Holding w
    → Holding (record w { sys = v })
unfolding taskexit_enter
Step-exits w v val e (rs, ws, i) =
    switch-Inv w _ v rs ws e
      (record { queued = i.split.queued; waiting = i.split.waiting; distinct = i.split.distinct })
      i.free i.given i.held i.nil_waits i.nil_holds

Step-lock_now :
    (w : World) (m : Qlock) (u : Sys)
    → qlock w.lock w.sys ≡ (got, m, u)
    → Holding w
    → Holding (record w { sys = u; lock = m; holds = update w.holds w.sys.running true })
Step-lock_now w m u q (rs, ws, i) = elim (qlock-Split w.lock w.sys rs ws i.split i.running) [
  | inl (e, k) ↦
      subst
        (λ r.
          Holding (record w { sys = r.2; lock = r.1; holds = update w.holds w.sys.running true }))
        (sym k ∙ q) (take-Inv w e (rs, ws, i))
  | inr (n, b) ↦ absurd (blocks-not-got (sym b.0 ∙ ap (λ r. r.0) q))
]

Step-try_got :
    (w : World) (m : Qlock) (u : Sys)
    → canqlock w.lock w.sys ≡ (got, m, u)
    → Holding w
    → Holding (record w { sys = u; lock = m; holds = update w.holds w.sys.running true })
Step-try_got w m u q h = elim (canqlock_lem w.lock w.sys) [
  | inl (e, k) ↦
      subst
        (λ r.
          Holding (record w { sys = r.2; lock = r.1; holds = update w.holds w.sys.running true }))
        (sym k ∙ q) (take-Inv w e h)
  | inr (n, k) ↦ absurd (refused-not-got (ap (λ r. r.0) (sym k ∙ q)))
]

Step-try_refused :
    (w : World) (m : Qlock) (u : Sys)
    → canqlock w.lock w.sys ≡ (refused, m, u)
    → Holding w
    → Holding (record w { sys = u; lock = m })
Step-try_refused w m u q h = elim (canqlock_lem w.lock w.sys) [
  | inl (e, k) ↦ absurd (refused-not-got (sym (ap (λ r. r.0) (sym k ∙ q))))
  | inr (n, k) ↦ subst (λ r. Holding (record w { sys = r.2; lock = r.1 })) (sym k ∙ q) h
]

-- Every move keeps the invariant.
Step-Inv : {w x : World} → Step w x → Holding w → Holding x
Step-Inv {w} (lock_now n q) h = Step-lock_now w _ _ q h
Step-Inv {w} (lock_wait u n q e) h = Step-lock_wait w _ u _ q e h
Step-Inv {w} (try_got n q) h = Step-try_got w _ _ q h
Step-Inv {w} (try_refused n q) h = Step-try_refused w _ _ q h
Step-Inv {w} (resume n q) h = resume-Inv w n h
Step-Inv {w} (unlock n k q) h = Step-unlock w _ _ n k q h
Step-Inv {w} (yields n e) h = Step-yields w _ e h
Step-Inv {w} (exits val n e) h = Step-exits w _ val e h

pub Reach-Inv : {w : World} → Reach w → Holding w
Reach-Inv (start s rs q d) = (
  rs,
  [],
  record {
    split = record {
      queued = q;
      waiting = Holds-empty s.links;
      distinct = Distinct-fewer (nil ∷ rs) (nil ∷ rs ++ []) (λ a. omega counting) d.1;
    };
    running = Fresh-fewer s.running (nil ∷ rs) (nil ∷ rs ++ []) (λ a. omega counting) d.0;
    free = λ _. refl;
    given = λ a k f. absurd (false≢true k);
    held = λ a k. absurd (false≢true k);
    nil_waits = refl;
    nil_holds = refl;
  },
)
Reach-Inv (later r s) = Step-Inv s (Reach-Inv r)
