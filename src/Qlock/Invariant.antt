-- ===== src/Qlock/Invariant.antt =====
-- What holds between any two moves of a program on one queuing lock, and why each kind of move keeps it.
use libtask.Base.{
  ◌≡◌, refl, ◌≢◌, sym, ◌∙◌, subst, ap, Bool, true, false, List, [], ◌∷◌, ◌++◌, arith, Fresh, update,
  Distinct-fewer, Fresh-fewer, counting, All-append_left, All-append_right, update_ne,
}
use mathlib.Core.Bool.{false≢true}
use native.Mathlib.Decide.{ℕ_discrete}
use libtask.Tasklist.{Ptr, nil}
use libtask.Sched.{Sys, taskswitch, runs}
use libtask.Waiting.Moves.{Split, switch-Split}
use libtask.Qlock.{Qlock}
use libtask.Qlock.Ops.{Handed}
use libtask.Qlock.System.{World}

-- The tasks `rs` are ready and `ws` wait for the lock.
pub record Inv (w : World) (rs ws : List Ptr) : Type 0 where
  pub split : Split w.sys w.lock.waiting rs ws
  pub running : Fresh w.sys.running (nil ∷ rs ++ ws)
  -- nobody waits for a free lock
  pub free : w.lock.owner ≡ nil → ws ≡ []
  -- who is inside `qlock` and no longer on the wait list has been given the lock
  pub given : (a : Ptr) → w.waits a ≡ true → Fresh a ws → w.lock.owner ≡ a
  pub held : (a : Ptr) → w.holds a ≡ true → w.lock.owner ≡ a
  pub nil_waits : w.waits nil ≡ false
  pub nil_holds : w.holds nil ≡ false

abbrev pub Holding : World → Type 0
Holding w = (rs : List Ptr) × (ws : List Ptr) × Inv w rs ws

-- A set without null has only other members.
pub ne-nil : (f : Ptr → Bool) → f nil ≡ false → (a : Ptr) → f a ≡ true → a ≢ nil
ne-nil f n a t e = false≢true (sym n ∙ ap f (sym e) ∙ t)

-- After a switch: the first ready task runs.
pub switch-Inv :
    (w : World) (u v : Sys) (rs ws : List Ptr)
    → taskswitch u ≡ runs v
    → Split u w.lock.waiting rs ws
    → (w.lock.owner ≡ nil → ws ≡ [])
    → ((a : Ptr) → w.waits a ≡ true → Fresh a ws → w.lock.owner ≡ a)
    → ((a : Ptr) → w.holds a ≡ true → w.lock.owner ≡ a)
    → w.waits nil ≡ false
    → w.holds nil ≡ false
    → Holding (record w { sys = v })
switch-Inv w u v rs ws e split free given held nw nh =
    let (rest, after) = switch-Split u v w.lock.waiting rs ws e split in
    (
      rest,
      ws,
      record {
        split = after.split;
        running = after.fresh;
        free = free;
        given = given;
        held = held;
        nil_waits = nw;
        nil_holds = nh;
      },
    )

-- The running task takes a free lock.
pub take-Inv :
    (w : World)
    → w.lock.owner ≡ nil
    → Holding w
    → Holding (record w {
      lock = record w.lock { owner = w.sys.running };
      holds = update w.holds w.sys.running true;
    })
take-Inv w e (rs, ws, i) = (
  rs,
  ws,
  record {
    split = i.split;
    running = i.running;
    free = λ z. absurd (i.running.0 z);
    given = λ a k f. absurd (ne-nil w.waits i.nil_waits a k (sym (i.given a k f) ∙ e));
    held = λ a k. ground (arith, i.held a, ne-nil w.holds i.nil_holds a);
    nil_waits = i.nil_waits;
    nil_holds = ground (arith, i.running.0, i.nil_holds);
  },
)

-- The running task joins the wait list, and the first ready task runs.
pub wait-Inv :
    (w : World) (m : Qlock) (u v : Sys) (rs ws : List Ptr)
    → Inv w rs ws
    → w.lock.owner ≢ nil
    → m.owner ≡ w.lock.owner
    → Split u m.waiting rs (ws ++ (w.sys.running ∷ []))
    → taskswitch u ≡ runs v
    → Holding (record w { sys = v; lock = m; waits = update w.waits w.sys.running true })
wait-Inv w m u v rs ws i n o split e =
    switch-Inv (record w { lock = m; waits = update w.waits w.sys.running true }) u v rs
      (ws ++ (w.sys.running ∷ [])) e split (λ z. absurd (n (sym o ∙ z)))
      (λ a k f.
        let other : a ≢ w.sys.running =
          (All-append_right (λ x. a ≢ x) ws (w.sys.running ∷ []) f).0 in
        o
        ∙ i.given a (sym (update_ne w.waits w.sys.running true a other) ∙ k)
            (All-append_left (λ x. a ≢ x) ws (w.sys.running ∷ []) f))
      (λ a k. o ∙ i.held a k)
      (update_ne w.waits w.sys.running true nil (λ z. i.running.0 (sym z)) ∙ i.nil_waits)
      i.nil_holds

-- The owner frees the lock.
pub free-Inv :
    (w : World) (rs : List Ptr)
    → w.lock.owner ≡ w.sys.running
    → w.waits w.sys.running ≡ false
    → Inv w rs []
    → Holding (record w {
      lock = record w.lock { owner = nil };
      holds = update w.holds w.sys.running false;
    })
free-Inv w rs o n i = (
  rs,
  [],
  record {
    split = i.split;
    running = i.running;
    free = λ _. refl;
    given = λ a k f. ground (arith, i.given a k f, ap w.waits (sym o ∙ i.given a k f));
    held = λ a k. ground (arith, i.held a);
    nil_waits = i.nil_waits;
    nil_holds = ground (arith, i.nil_holds);
  },
)

-- The owner hands the lock to the task `t`.
pub hand-Inv :
    (w : World) (m : Qlock) (u : Sys) (t : Ptr) (rs rest : List Ptr)
    → w.lock.owner ≡ w.sys.running
    → w.waits w.sys.running ≡ false
    → Inv w rs (t ∷ rest)
    → Handed w.sys u m t rs rest
    → Holding (record w { sys = u; lock = m; holds = update w.holds w.sys.running false })
hand-Inv w m u t rs rest o n i h = (
  rs ++ (t ∷ []),
  rest,
  record {
    split = h.split;
    running =
        subst (λ a. Fresh a (nil ∷ (rs ++ (t ∷ [])) ++ rest)) (sym h.running)
          (Fresh-fewer w.sys.running (nil ∷ rs ++ (t ∷ rest)) (nil ∷ (rs ++ (t ∷ [])) ++ rest)
            (λ a. omega counting) i.running);
    free = λ z. absurd (
        (Distinct-fewer (nil ∷ rs ++ (t ∷ rest)) (nil ∷ t ∷ []) (λ a. omega counting)
            i.split.distinct).0.0
          (sym z ∙ h.owner));
    given = λ a k f. elim (ℕ_discrete a t) [
      | yes e ↦ h.owner ∙ sym e
      | no ne ↦ absurd (false≢true (sym n ∙ ap w.waits (sym o ∙ i.given a k (ne, f)) ∙ k))
    ];
    held = λ a k. ground (arith, i.held a);
    nil_waits = i.nil_waits;
    nil_holds = ground (arith, i.nil_holds);
  },
)

-- The task that was handed the lock comes back from `qlock`.
pub resume-Inv :
    (w : World)
    → w.waits w.sys.running ≡ true
    → Holding w
    → Holding (record w {
      waits = update w.waits w.sys.running false;
      holds = update w.holds w.sys.running true;
    })
resume-Inv w n (rs, ws, i) =
    let mine : w.lock.owner ≡ w.sys.running =
      i.given w.sys.running n
        (Fresh-fewer w.sys.running (nil ∷ rs ++ ws) ws (λ a. omega counting) i.running) in
    (
      rs,
      ws,
      record {
        split = i.split;
        running = i.running;
        free = i.free;
        given = λ a k f. ground (arith, i.given a);
        held = λ a k. ground (arith, i.held a);
        nil_waits = ground (arith, i.nil_waits);
        nil_holds = ground (arith, i.running.0, i.nil_holds);
      },
    )
