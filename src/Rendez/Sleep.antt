-- ===== src/Rendez/Sleep.antt =====
-- `tasksleep`: the caller is on the list of sleepers before it lets go of the lock.
use libtask.Base.{
  ◌≡◌, refl, ◌≢◌, ◌⊎◌, inl, inr, subst, some, none, List, [], ◌∷◌, ◌++◌, Fresh, Distinct,
  Distinct-fewer, Fresh-fewer, Apart-fewer, counting,
}
use libtask.Tasklist.{Ptr, nil, Tasklist}
use libtask.Tasklist.Chain.{Holds, Holds-frame}
use libtask.Sched.{Sys, Result, ok, aborts, taskstate}
use libtask.Sched.Queue.{Queued}
use libtask.Waiting.{wait_on}
use libtask.Waiting.Moves.{Split, wait_on-Split}
use libtask.Qlock.{Qlock}
use libtask.Qlock.Ops.{qunlock-Split, Handed}
use libtask.Rendez.{Rendez, tasksleep_enter}

-- `rs` are ready, `zs` sleep on the rendezvous point, `ws` wait for its lock `l`.
pub record Around (s : Sys) (waiting : Tasklist) (l : Qlock) (rs zs ws : List Ptr) : Type 0 where
  pub queued : Queued s rs
  pub sleeping : Holds s.links waiting zs
  pub locking : Holds s.links l.waiting ws
  pub distinct : Distinct (nil ∷ rs ++ (zs ++ ws))

-- Without a lock, the caller goes to sleep behind the others.
pub tasksleep-unlocked :
    (w : Tasklist) (s : Sys) (rs zs : List Ptr)
    → Split s w rs zs
    → Fresh s.running (nil ∷ rs ++ zs)
    → (q : Rendez) × (u : Sys) × (tasksleep_enter (record { lock = none; waiting = w }) s
        ≡ ok (q, u))
      × (q.lock ≡ none)
      × Split u q.waiting rs (zs ++ (s.running ∷ []))
unfolding tasksleep_enter taskstate
tasksleep-unlocked w s rs zs v f =
    let moved = (wait_on-Split s w rs zs v f).0 in
    (
      record { lock = none; waiting = (wait_on w s).0 },
      taskstate "sleep" (wait_on w s).1,
      refl,
      refl,
      record { queued = moved.queued; waiting = moved.waiting; distinct = moved.distinct },
    )

-- The caller is asleep, and still holds the lock.
asleep :
    (s : Sys) (w : Tasklist) (l : Qlock) (rs zs ws : List Ptr)
    → Around s w l rs zs ws
    → Fresh s.running (nil ∷ rs ++ (zs ++ ws))
    → Around (wait_on w s).1 (wait_on w s).0 l rs (zs ++ (s.running ∷ [])) ws
asleep s w l rs zs ws v f =
    let order = s.running ∷ nil ∷ rs ++ (zs ++ ws) in
    let all : Distinct order = (f, v.distinct) in
    let split : Split s w rs zs = record {
      queued = v.queued;
      waiting = v.sleeping;
      distinct = Distinct-fewer order (nil ∷ rs ++ zs) (λ a. omega counting) all;
    } in
    let (moved, same) =
      wait_on-Split s w rs zs split
        (Fresh-fewer s.running (nil ∷ rs ++ (zs ++ ws)) (nil ∷ rs ++ zs) (λ a. omega counting) f) in
    record {
      queued = moved.queued;
      sleeping = moved.waiting;
      locking =
          Holds-frame s.links _ l.waiting (s.running ∷ zs) ws same
            (Apart-fewer order ws (s.running ∷ zs) (λ a. omega counting) all) v.locking;
      distinct =
          Distinct-fewer order (nil ∷ rs ++ ((zs ++ (s.running ∷ [])) ++ ws)) (λ a. omega counting)
            all;
    }

lock-Split :
    {s : Sys} {w : Tasklist} {l : Qlock} {rs zs ws : List Ptr}
    → Around s w l rs zs ws
    → Split s l.waiting rs ws
lock-Split {rs} {zs} {ws} v = record {
  queued = v.queued;
  waiting = v.locking;
  distinct =
      Distinct-fewer (nil ∷ rs ++ (zs ++ ws)) (nil ∷ rs ++ ws) (λ a. omega counting) v.distinct;
}

-- The lock goes to its first waiter, and the sleepers stay.
Handed-Around :
    (s u : Sys) (w : Tasklist) (l m : Qlock) (t : Ptr) (rs zs ws : List Ptr)
    → Around s w l rs zs (t ∷ ws)
    → Handed s u m t rs ws
    → Around u w m (rs ++ (t ∷ [])) zs ws
Handed-Around s u w l m t rs zs ws v h =
    let order = nil ∷ rs ++ (zs ++ (t ∷ ws)) in
    record {
      queued = h.split.queued;
      sleeping =
          Holds-frame s.links u.links w (t ∷ rs ++ ws) zs h.same
            (Apart-fewer order zs (t ∷ rs ++ ws) (λ a. omega counting) v.distinct) v.sleeping;
      locking = h.split.waiting;
      distinct =
          Distinct-fewer order (nil ∷ (rs ++ (t ∷ [])) ++ (zs ++ ws)) (λ a. omega counting)
            v.distinct;
    }

-- A call of `tasksleep` with the lock `l` before its switch: it went to sleep behind `zs` and freed
-- the lock, or handed the lock to its first waiter.
abbrev pub Slept : Result (Rendez × Sys) → Qlock → Ptr → List Ptr → List Ptr → List Ptr → Type 0
Slept r l caller rs zs ws =
    ((q : Rendez) × (u : Sys) × (ws ≡ [])
      × (r ≡ ok (q, u))
      × (q.lock ≡ some (record l { owner = nil }))
      × Around u q.waiting (record l { owner = nil }) rs (zs ++ (caller ∷ [])) [])
    ⊎ ((t : Ptr) × (rest : List Ptr) × (q : Rendez) × (m : Qlock) × (u : Sys) × (ws ≡ t ∷ rest)
        × (r ≡ ok (q, u))
        × (q.lock ≡ some m)
        × (m.owner ≡ t)
        × Around u q.waiting m (rs ++ (t ∷ [])) (zs ++ (caller ∷ [])) rest)

-- With well-linked lists of distinct tasks, `tasksleep` on a rendezvous point with a lock, by a
-- running task that is on no list, aborts just when nobody holds the lock. Otherwise the caller
-- joins the end of the sleepers and, with no switch in between, the lock is freed, or handed to the
-- first task that waits for it, which becomes ready.
pub tasksleep-Slept :
    (w : Tasklist) (l : Qlock) (s : Sys) (rs zs ws : List Ptr)
    → Around s w l rs zs ws
    → Fresh s.running (nil ∷ rs ++ (zs ++ ws))
    → ((l.owner ≡ nil) × (tasksleep_enter (record { lock = some l; waiting = w }) s ≡ aborts))
      ⊎ ((l.owner ≢ nil)
          × Slept (tasksleep_enter (record { lock = some l; waiting = w }) s) l s.running rs zs ws)
unfolding tasksleep_enter taskstate
tasksleep-Slept w l s rs zs ws v f =
    let in_list = asleep s w l rs zs ws v f in
    elim (qunlock-Split l (wait_on w s).1 rs ws (lock-Split in_list)) [
      | inl (e, k) ↦ inl (e, rw k)
      | inr (inl (n, e, k)) ↦
          let here = subst (Around _ _ l rs (zs ++ (s.running ∷ []))) e in_list in
          inr (
            n,
            inl (
              record { lock = some (record l { owner = nil }); waiting = (wait_on w s).0 },
              taskstate "sleep" (wait_on w s).1,
              e,
              rw k,
              refl,
              record {
                queued = here.queued;
                sleeping = here.sleeping;
                locking = here.locking;
                distinct = here.distinct;
              },
            ),
          )
      | inr (inr (t, rest, m, u, n, e, k, h)) ↦
          let before = subst (Around _ _ l rs (zs ++ (s.running ∷ []))) e in_list in
          let after = Handed-Around _ u _ l m t rs (zs ++ (s.running ∷ [])) rest before h in
          inr (
            n,
            inr (
              t,
              rest,
              record { lock = some m; waiting = (wait_on w s).0 },
              m,
              taskstate "sleep" u,
              e,
              rw k,
              refl,
              h.owner,
              record {
                queued = after.queued;
                sleeping = after.sleeping;
                locking = after.locking;
                distinct = after.distinct;
              },
            ),
          )
    ]
