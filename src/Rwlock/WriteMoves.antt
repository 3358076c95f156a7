-- ===== src/Rwlock/WriteMoves.antt =====
-- Each move of a writer at a reader-writer lock keeps what its tasks rely on.
use libtask.Base.{
  ℕ, ◌≡◌, ◌⊎◌, inl, inr, sym, ◌∙◌, subst, ap, Bool, true, false, some, List, [], ◌∷◌, ◌++◌, Fresh,
  update,
}
use libtask.Tasklist.{Ptr, nil}
use libtask.Sched.{Sys, ok, taskswitch, runs}
use libtask.Qlock.{got, refused, blocks}
use libtask.Rwlock.{Rwlock, wlock, canwlock, wlock_enter, wunlock}
use libtask.Rwlock.Lists.{Stand, Fit}
use libtask.Rwlock.Acquire.{Writable, Blocked, wlock-Stand, canwlock_lem}
use libtask.Rwlock.Wunlock.{wunlock-Stand}
use libtask.Rwlock.Same.{got-not-blocks, aborts-not-ok, wlock_enter-blocked, wunlock-running}
use libtask.Rwlock.System.{World, Free, Room}
use libtask.Rwlock.Invariant.{readers-not-nil, Sharing}
use libtask.Rwlock.ReadMoves.{got-not-refused, blocks-not-refused, blocks-not-got}
use libtask.Rwlock.Writing.{write_got-Inv, write_wait-Inv, Passed-Inv}

-- The three ways in which `_wlock` goes.
wlock_enter-cases :
    (block : Bool) (l : Rwlock) (s : Sys) (rs ps qs : List Ptr)
    → Stand s l rs ps qs
    → Fit l ps qs
    → Fresh s.running (nil ∷ rs ++ (ps ++ qs))
    → (Writable l
        × (wlock_enter block l s ≡ (got, record l { writer = s.running }, s))
        × Fit (record l { writer = s.running }) ps qs)
      ⊎ (wlock_enter block l s ≡ (refused, l, s))
      ⊎ Blocked (wlock_enter block l s) rs ps (qs ++ (s.running ∷ []))
unfolding wlock canwlock
wlock_enter-cases true l s rs ps qs v i f = elim (wlock-Stand l s rs ps qs v i f) [
  | inl free ↦ inl free
  | inr (_, blocked) ↦ inr (inr blocked)
]
wlock_enter-cases false l s rs ps qs v i f = elim (canwlock_lem l s rs ps qs v i) [
  | inl (free, e) ↦ elim (wlock-Stand l s rs ps qs v i f) [
    | inl (_, _, fit) ↦ inl (free, e, fit)
    | inr (busy, _) ↦ absurd (elim busy [ inl n ↦ n free.0 | inr n ↦ n free.1 ])
  ]
  | inr (_, e) ↦ inr (inl e)
]

pub Step-write_got :
    (w : World) (block : Bool) (m : Rwlock) (u : Sys)
    → Free w
    → wlock_enter block w.lock w.sys ≡ (got, m, u)
    → Sharing w
    → Sharing (record w { sys = u; lock = m; writes = update w.writes w.sys.running true })
Step-write_got w block m u free q (rs, ps, qs, hs, ws, i) =
    elim (wlock_enter-cases block w.lock w.sys rs ps qs i.stand i.fit i.running) [
      | inl (usable, k, fit) ↦
          subst
            (λ r.
              Sharing
                (record w { sys = r.2; lock = r.1; writes = update w.writes w.sys.running true }))
            (sym k ∙ q) (write_got-Inv w rs ps qs hs ws i free usable fit)
      | inr (inl k) ↦ absurd (got-not-refused (sym q ∙ k))
      | inr (inr b) ↦ absurd (blocks-not-got (sym b.0 ∙ ap (λ r. r.0) q))
    ]

pub Step-write_wait :
    (w : World) (m : Rwlock) (u v : Sys)
    → Free w
    → wlock_enter true w.lock w.sys ≡ (blocks, m, u)
    → taskswitch u ≡ runs v
    → Sharing w
    → Sharing (record w { sys = v; lock = m; wwaits = update w.wwaits w.sys.running true })
Step-write_wait w m u v free q e (rs, ps, qs, hs, ws, i) =
    elim (wlock_enter-cases true w.lock w.sys rs ps qs i.stand i.fit i.running) [
      | inl (_, k, _) ↦ absurd (got-not-blocks (sym k ∙ q))
      | inr (inl k) ↦ absurd (blocks-not-refused (ap (λ r. r.0) (sym q ∙ k)))
      | inr (inr b) ↦
          let (same_readers, same_writer) = wlock_enter-blocked w.lock w.sys m u q in
          write_wait-Inv w rs ps qs hs ws i m u v free
            (subst (λ r. Blocked r rs ps (qs ++ (w.sys.running ∷ []))) q b) same_readers same_writer
            e
    ]

pub Step-write_refused :
    (w : World) (m : Rwlock) (u : Sys)
    → wlock_enter false w.lock w.sys ≡ (refused, m, u)
    → Sharing w
    → Sharing (record w { sys = u; lock = m })
Step-write_refused w m u q (rs, ps, qs, hs, ws, i) =
    elim (wlock_enter-cases false w.lock w.sys rs ps qs i.stand i.fit i.running) [
      | inl (_, k, _) ↦ absurd (got-not-refused (sym k ∙ q))
      | inr (inl k) ↦
          subst (λ r. Sharing (record w { sys = r.2; lock = r.1 })) (sym k ∙ q)
            (rs, ps, qs, hs, ws, i)
      | inr (inr b) ↦ absurd (blocks-not-refused (sym b.0 ∙ ap (λ r. r.0) q))
    ]

some_ok-injective : {x y : Rwlock × Sys} → some (ok x) ≡ some (ok y) → x ≡ y
some_ok-injective e = cc

pub Step-unwrite :
    (w : World) (fuel : ℕ) (m : Rwlock) (u : Sys)
    → Free w
    → w.writes w.sys.running ≡ true
    → Room fuel w
    → wunlock fuel w.lock w.sys ≡ some (ok (m, u))
    → Sharing w
    → Sharing (record w { sys = u; lock = m; writes = update w.writes w.sys.running false })
Step-unwrite w fuel m u free mark room q (rs, ps, qs, hs, ws, i) =
    let (enough, small) = room ps i.stand.rwaiting (readers-not-nil rs ps qs i.stand.distinct.0) in
    elim (wunlock-Stand w.lock w.sys rs ps qs fuel i.stand i.fit enough small) [
      | inl (_, k) ↦ absurd (aborts-not-ok (sym k ∙ q))
      | inr (m', u', _, k, passed) ↦
          subst
            (λ r.
              Sharing
                (record w { sys = r.1; lock = r.0; writes = update w.writes w.sys.running false }))
            (some_ok-injective (sym k ∙ q))
            (Passed-Inv w rs ps qs hs ws i m' u' free mark
              (wunlock-running fuel w.lock w.sys m' u' k) passed)
    ]
