-- ===== src/Rendez/Wakeup.antt =====
-- Who is woken, and what `taskwakeup` and `taskwakeupall` return.
use libtask.Base.{
  ℕ, zero, suc, ◌+◌, ◌<◌, ◌≡◌, refl, ◌≢◌, ◌⊎◌, inl, inr, sym, ◌∙◌, ap, subst, Bool, true, false,
  not, ◌&&◌, some, List, [], ◌∷◌, ◌++◌, arith, ◌==◌, ==-ne, Distinct-fewer, counting, length,
  append-nil, append_assoc,
}
use libtask.Tasklist.{Ptr, nil}
use libtask.Sched.{Sys}
use libtask.Waiting.{wake}
use libtask.Waiting.Moves.{Split, wake-Split}
use libtask.Rendez.{Rendez, wakeup_loop, taskwakeup, taskwakeupall}

waiter-not-nil :
    (r : Rendez) {s : Sys} {t : Ptr} {rs ws : List Ptr} → Split s r.waiting rs (t ∷ ws) → t ≢ nil
waiter-not-nil r {t} {rs} {ws} v e =
    (Distinct-fewer (nil ∷ rs ++ (t ∷ ws)) (nil ∷ t ∷ []) (λ a. omega counting) v.distinct).0.0
      (sym e)

-- The rendezvous point and the system after a round.
abbrev round : Rendez → Sys → Ptr → Rendez × Sys
round r s t = (record r { waiting = (wake r.waiting t s).0 }, (wake r.waiting t s).1)

wakeup_loop-round :
    (fuel i : ℕ) (all : Bool) (r : Rendez) (s : Sys) (t : Ptr)
    → ((i == 1) && not all) ≡ false
    → r.waiting.head ≡ t
    → t ≢ nil
    → wakeup_loop (suc fuel) i all r s
      ≡ wakeup_loop fuel (i + 1) all (round r s t).0 (round r s t).1
unfolding wakeup_loop
wakeup_loop-round fuel i all r s t go e =
    subst
      (λ a.
        a ≢ nil
        → wakeup_loop (suc fuel) i all r s
          ≡ wakeup_loop fuel (i + 1) all (round r s a).0 (round r s a).1)
      e (λ n. rw (==-ne r.waiting.head nil n, go))

wakeup_loop-end :
    (fuel i : ℕ) (all : Bool) (r : Rendez) (s : Sys)
    → r.waiting.head ≡ nil
    → wakeup_loop (suc fuel) i all r s ≡ some (i, r, s)
unfolding wakeup_loop
wakeup_loop-end fuel i all r s e = ground arith

-- All of `ws` are ready, in their order, and nobody waits.
pub record WokenAll (r q : Rendez) (u : Sys) (rs ws : List Ptr) : Type 0 where
  pub lock : q.lock ≡ r.lock
  pub split : Split u q.waiting (rs ++ ws) []

wakeup_loop-all :
    (ws : List Ptr) (fuel i n : ℕ) (r : Rendez) (s : Sys) (rs : List Ptr)
    → length ws < fuel
    → n ≡ i + length ws
    → Split s r.waiting rs ws
    → (q : Rendez) × (u : Sys) × (wakeup_loop fuel i true r s ≡ some (n, q, u))
      × WokenAll r q u rs ws
wakeup_loop-all ws zero i n r s rs enough count v = absurd (omega arith)
wakeup_loop-all [] (suc fuel) i n r s rs enough count v =
    let same : i ≡ n = omega arith in
    (
      r,
      s,
      wakeup_loop-end fuel i true r s v.waiting.head ∙ ap (λ k. some (k, r, s)) same,
      record { lock = refl; split = rw append-nil v },
    )
wakeup_loop-all (t ∷ ws) (suc fuel) i n r s rs enough count v =
    let go : ((i == 1) && not true) ≡ false = ground arith in
    let (q, u, e, w) =
      wakeup_loop-all ws fuel (i + 1) n (round r s t).0 (round r s t).1 (rs ++ (t ∷ []))
        (omega arith) (omega arith) (wake-Split s r.waiting t rs ws v).0 in
    (
      q,
      u,
      wakeup_loop-round fuel i true r s t go v.waiting.head (waiter-not-nil r v) ∙ e,
      record {
        lock = w.lock;
        split = subst (λ xs. Split u q.waiting xs []) (append_assoc rs (t ∷ []) ws) w.split;
      },
    )

-- With well-linked lists of distinct tasks, `taskwakeupall` ends, with more fuel than there are
-- sleepers, makes all tasks that sleep ready in the order in which they went to sleep, leaves
-- nobody asleep, and returns their number.
pub taskwakeupall-WokenAll :
    (r : Rendez) (s : Sys) (rs ws : List Ptr) (fuel : ℕ)
    → length ws < fuel
    → Split s r.waiting rs ws
    → (q : Rendez) × (u : Sys) × (taskwakeupall fuel r s ≡ some (length ws, q, u))
      × WokenAll r q u rs ws
unfolding taskwakeupall
taskwakeupall-WokenAll r s rs ws fuel enough v =
    wakeup_loop-all ws fuel 0 (length ws) r s rs enough (omega arith) v

-- With well-linked lists of distinct tasks, `taskwakeup` makes the task that has slept longest
-- ready, leaves the others asleep in their order, and returns 1; with nobody asleep it changes
-- nothing and returns 0.
pub taskwakeup-Split :
    (r : Rendez) (s : Sys) (rs ws : List Ptr)
    → Split s r.waiting rs ws
    → ((ws ≡ []) × (taskwakeup r s ≡ some (0, r, s)))
      ⊎ ((t : Ptr) × (rest : List Ptr) × (q : Rendez) × (u : Sys) × (ws ≡ t ∷ rest)
          × (taskwakeup r s ≡ some (1, q, u))
          × (q.lock ≡ r.lock)
          × Split u q.waiting (rs ++ (t ∷ [])) rest)
unfolding taskwakeup
taskwakeup-Split r s rs [] v = inl (refl, wakeup_loop-end 1 0 false r s v.waiting.head)
taskwakeup-Split r s rs (t ∷ rest) v = inr (
  t,
  rest,
  (round r s t).0,
  (round r s t).1,
  refl,
  wakeup_loop-round 1 0 false r s t refl v.waiting.head (waiter-not-nil r v),
  refl,
  (wake-Split s r.waiting t rs rest v).0,
)
