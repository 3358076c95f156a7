-- ===== src/Rwlock/ReadMoves.antt =====
-- Each move of a reader at a reader-writer lock keeps what its tasks rely on.
use libtask.Base.{
  ◌+◌, ◌-◌, ◌<◌, ◌^◌, ◌≡◌, ◌≢◌, ◌⊎◌, inl, inr, sym, ◌∙◌, subst, ap, Bool, true, false, List, [],
  ◌∷◌, ◌++◌, arith, Fresh, update, without, count, count_of_Fresh, counting, Fresh-fewer,
}
use libtask.Tasklist.{Ptr, nil}
use libtask.Sched.{Sys, taskswitch, runs}
use libtask.Qlock.{Attempt, got, refused, blocks}
use libtask.Rwlock.{Rwlock, rlock, canrlock, rlock_enter, runlock}
use libtask.Rwlock.Lists.{Stand, Fit}
use libtask.Rwlock.Acquire.{Readable, Blocked, rlock-Stand, canrlock-Stand}
use libtask.Rwlock.Grant.{writer-not-nil}
use libtask.Rwlock.Release.{runlock-Stand}
use libtask.Rwlock.Same.{got-not-blocks, rlock_enter-blocked, runlock-running}
use libtask.Rwlock.System.{World, Free}
use libtask.Rwlock.Invariant.{Sharing}
use libtask.Rwlock.Reading.{read_got-Inv, read_wait-Inv, less-Inv, last-Inv}

pub got-not-refused :
    {m n : Rwlock} {u v : Sys} → ◌≡◌ {A = Attempt × Rwlock × Sys} (got, m, u) (refused, n, v) → ⊥
got-not-refused e = cc

pub blocks-not-refused : blocks ≢ refused
blocks-not-refused e = cc

pub blocks-not-got : blocks ≢ got
blocks-not-got e = cc

-- The three ways in which `_rlock` goes.
rlock_enter-cases :
    (block : Bool) (l : Rwlock) (s : Sys) (rs ps qs : List Ptr)
    → Stand s l rs ps qs
    → Fit l ps qs
    → Fresh s.running (nil ∷ rs ++ (ps ++ qs))
    → l.readers + 1 < 2 ^ 31
    → (Readable l qs
        × (rlock_enter block l s ≡ (got, record l { readers = l.readers + 1 }, s))
        × Fit (record l { readers = l.readers + 1 }) ps qs)
      ⊎ (rlock_enter block l s ≡ (refused, l, s))
      ⊎ Blocked (rlock_enter block l s) rs (ps ++ (s.running ∷ [])) qs
unfolding rlock canrlock
rlock_enter-cases true l s rs ps qs v i f room = elim (rlock-Stand l s rs ps qs v i f room) [
  | inl free ↦ inl free
  | inr (_, blocked) ↦ inr (inr blocked)
]
rlock_enter-cases false l s rs ps qs v i f room = elim (canrlock-Stand l s rs ps qs v i room) [
  | inl (free, e) ↦ elim (rlock-Stand l s rs ps qs v i f room) [
    | inl (_, _, fit) ↦ inl (free, e, fit)
    | inr (busy, _) ↦ absurd (elim busy [ inl n ↦ n free.0 | inr n ↦ n free.1 ])
  ]
  | inr (_, e) ↦ inr (inl e)
]

pub Step-read_got :
    (w : World) (block : Bool) (m : Rwlock) (u : Sys)
    → Free w
    → w.lock.readers + 1 < 2 ^ 31
    → rlock_enter block w.lock w.sys ≡ (got, m, u)
    → Sharing w
    → Sharing (record w {
      sys = u;
      lock = m;
      reads = update w.reads w.sys.running (w.reads w.sys.running + 1);
    })
Step-read_got w block m u free room q (rs, ps, qs, hs, ws, i) =
    elim (rlock_enter-cases block w.lock w.sys rs ps qs i.stand i.fit i.running room) [
      | inl (_, k, fit) ↦
          subst
            (λ r. Sharing (record w {
              sys = r.2;
              lock = r.1;
              reads = update w.reads w.sys.running (w.reads w.sys.running + 1);
            }))
            (sym k ∙ q) (read_got-Inv w rs ps qs hs ws i free fit)
      | inr (inl k) ↦ absurd (got-not-refused (sym q ∙ k))
      | inr (inr b) ↦ absurd (blocks-not-got (sym b.0 ∙ ap (λ r. r.0) q))
    ]

pub Step-read_wait :
    (w : World) (m : Rwlock) (u v : Sys)
    → Free w
    → w.lock.readers + 1 < 2 ^ 31
    → rlock_enter true w.lock w.sys ≡ (blocks, m, u)
    → taskswitch u ≡ runs v
    → Sharing w
    → Sharing (record w { sys = v; lock = m; rwaits = update w.rwaits w.sys.running true })
Step-read_wait w m u v free room q e (rs, ps, qs, hs, ws, i) =
    elim (rlock_enter-cases true w.lock w.sys rs ps qs i.stand i.fit i.running room) [
      | inl (_, k, _) ↦ absurd (got-not-blocks (sym k ∙ q))
      | inr (inl k) ↦ absurd (blocks-not-refused (ap (λ r. r.0) (sym q ∙ k)))
      | inr (inr b) ↦
          let (same_readers, same_writer) = rlock_enter-blocked w.lock w.sys m u q in
          read_wait-Inv w rs ps qs hs ws i m u v free
            (subst (λ r. Blocked r rs (ps ++ (w.sys.running ∷ [])) qs) q b) same_readers same_writer
            e
    ]

pub Step-read_refused :
    (w : World) (m : Rwlock) (u : Sys)
    → Free w
    → w.lock.readers + 1 < 2 ^ 31
    → rlock_enter false w.lock w.sys ≡ (refused, m, u)
    → Sharing w
    → Sharing (record w { sys = u; lock = m })
Step-read_refused w m u free room q (rs, ps, qs, hs, ws, i) =
    elim (rlock_enter-cases false w.lock w.sys rs ps qs i.stand i.fit i.running room) [
      | inl (_, k, _) ↦ absurd (got-not-refused (sym k ∙ q))
      | inr (inl k) ↦
          subst (λ r. Sharing (record w { sys = r.2; lock = r.1 })) (sym k ∙ q)
            (rs, ps, qs, hs, ws, i)
      | inr (inr b) ↦ absurd (blocks-not-refused (sym b.0 ∙ ap (λ r. r.0) q))
    ]

pub Step-unread :
    (w : World) (m : Rwlock) (u : Sys)
    → Free w
    → w.reads w.sys.running ≢ 0
    → runlock w.lock w.sys ≡ (m, u)
    → Sharing w
    → Sharing (record w {
      sys = u;
      lock = m;
      reads = update w.reads w.sys.running (w.reads w.sys.running - 1);
    })
Step-unread w m u free n q (rs, ps, qs, hs, ws, i) =
    let r : Ptr = w.sys.running in
    let absent : count r ps ≡ 0 =
      count_of_Fresh r ps
        (Fresh-fewer r (nil ∷ rs ++ (ps ++ qs)) ps (λ a. omega counting) i.running) in
    let (ks, l, h) = without r hs (λ z. n (omega (arith, i.readings r))) in
    elim (runlock-Stand w.lock w.sys rs ps qs i.stand i.fit (λ z. omega (arith, i.readers))) [
      | inl (t, rest, m', u', one, e, k, g) ↦
          subst
            (λ r. Sharing (record w {
              sys = r.1;
              lock = r.0;
              reads = update w.reads w.sys.running (w.reads w.sys.running - 1);
            }))
            (sym k ∙ q)
            (last-Inv w rs ps qs hs ws i ks t rest m' u' n l h one e
              (writer-not-nil (subst (Stand w.sys w.lock rs ps) e i.stand))
              (ap (λ r. r.1.running) (sym k) ∙ runlock-running w.lock w.sys) g)
      | inr (_, k, fit) ↦
          subst
            (λ r. Sharing (record w {
              sys = r.1;
              lock = r.0;
              reads = update w.reads w.sys.running (w.reads w.sys.running - 1);
            }))
            (sym k ∙ q) (less-Inv w rs ps qs hs ws i ks free n l h fit)
    ]
