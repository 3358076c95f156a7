-- ===== src/Rwlock/Release.antt =====
-- A reader gives the lock back, on every branch of `runlock`.
use libtask.Base.{◌-◌, ◌<◌, ◌^◌, ◌≡◌, refl, ◌≢◌, ◌⊎◌, inl, inr, ◌∙◌, ap, List, [], ◌∷◌, arith}
use native.Mathlib.Decide.{ℕ_discrete}
use libtask.Tasklist.{Ptr, nil}
use libtask.Sched.{Sys}
use libtask.Rwlock.{Rwlock, runlock, grant_writer, sub_int}
use libtask.Rwlock.Lists.{Stand, Fit, Stand-lock}
use libtask.Rwlock.Grant.{grant_writer-keeps, to_writer, ToWriter}

runlock-grant :
    (l : Rwlock) (s : Sys)
    → l.readers ≢ 0
    → l.readers < 2 ^ 31
    → runlock l s ≡ grant_writer (record l { readers = l.readers - 1 }) s
unfolding runlock
runlock-grant l s n small =
    let e : sub_int l.readers ≡ l.readers - 1 = omega arith in
    ap (λ k. grant_writer (record l { readers = k }) s) e

less-Fit :
    (l : Rwlock) (ps qs : List Ptr)
    → Fit l ps qs
    → l.readers ≢ 0
    → (qs ≡ []) ⊎ (l.writer ≢ nil) ⊎ (l.readers - 1 ≢ 0)
    → Fit (record l { readers = l.readers - 1 }) ps qs
less-Fit l ps qs i n w = record {
  alone = elim i.alone [ inl e ↦ inl e | inr z ↦ absurd (n z) ];
  readers_wait = i.readers_wait;
  writers_wait = w;
  small = let k : l.readers < 2 ^ 31 = i.small in omega arith;
}

last_reader :
    (l : Rwlock) (s : Sys) (rs ps qs : List Ptr)
    → Stand s l rs ps qs
    → Fit l ps qs
    → l.readers ≡ 1
    → ((t : Ptr) × (rest : List Ptr) × (m : Rwlock) × (u : Sys) × (l.readers ≡ 1)
        × (qs ≡ t ∷ rest)
        × (runlock l s ≡ (m, u))
        × ToWriter m u t rs ps rest)
      ⊎ (((l.readers ≢ 1) ⊎ (qs ≡ []))
          × (runlock l s ≡ (record l { readers = l.readers - 1 }, s))
          × Fit (record l { readers = l.readers - 1 }) ps qs)
last_reader l s rs ps [] v i one =
    let n : l.readers ≢ 0 = λ e. omega arith in
    inr (
      inr refl,
      runlock-grant l s n i.small
          ∙ grant_writer-keeps (record l { readers = l.readers - 1 }) s rs ps []
              (Stand-lock (l.readers - 1) l.writer v) (inr refl),
      less-Fit l ps [] i n (inl refl),
    )
last_reader l s rs ps (t ∷ rest) v i one =
    let (m, u, e, g) =
      to_writer (record l { readers = l.readers - 1 }) s t rs ps rest (omega arith)
        (Stand-lock (l.readers - 1) l.writer v) in
    inl (t, rest, m, u, one, refl, runlock-grant l s (λ z. omega arith) i.small ∙ e, g)

-- `runlock` on a fit lock with a reader, whose lists are well-linked and have distinct tasks: if it
-- is the last one and a writer waits, the first waiting writer has the lock and is ready behind the
-- other tasks; otherwise only the count goes down by one. In both cases the lock stays fit.
pub runlock-Stand :
    (l : Rwlock) (s : Sys) (rs ps qs : List Ptr)
    → Stand s l rs ps qs
    → Fit l ps qs
    → l.readers ≢ 0
    → ((t : Ptr) × (rest : List Ptr) × (m : Rwlock) × (u : Sys) × (l.readers ≡ 1)
        × (qs ≡ t ∷ rest)
        × (runlock l s ≡ (m, u))
        × ToWriter m u t rs ps rest)
      ⊎ (((l.readers ≢ 1) ⊎ (qs ≡ []))
          × (runlock l s ≡ (record l { readers = l.readers - 1 }, s))
          × Fit (record l { readers = l.readers - 1 }) ps qs)
unfolding runlock
runlock-Stand l s rs ps qs v i n = elim (ℕ_discrete l.readers 1) [
  | yes one ↦ last_reader l s rs ps qs v i one
  | no several ↦
      let left : l.readers - 1 ≢ 0 = λ e. several (omega arith) in
      inr (
        inl several,
        runlock-grant l s n i.small
            ∙ grant_writer-keeps (record l { readers = l.readers - 1 }) s rs ps qs
                (Stand-lock (l.readers - 1) l.writer v) (inl left),
        less-Fit l ps qs i n (inr (inr left)),
      )
]
