-- ===== src/Rwlock/Wunlock.antt =====
-- The writer gives the lock back, on every branch of `wunlock`.
use mathlib.Core.Option
use libtask.Base.{
  ℕ, zero, suc, ◌+◌, ◌<◌, ◌^◌, ◌≡◌, refl, ◌≢◌, ◌⊎◌, inl, inr, ◌∙◌, ap, subst, true, some, List, [],
  ◌∷◌, ◌++◌, arith, ◌==◌, ==-ne, length, append-nil, append_assoc,
}
use native.Mathlib.Decide.{ℕ_discrete}
use libtask.Tasklist.{Ptr, nil}
use libtask.Sched.{Sys, ok, aborts}
use libtask.Waiting.{wake}
use libtask.Rwlock.{Rwlock, wunlock, grant_writer, wake_readers, add_int}
use libtask.Rwlock.Lists.{Stand, Fit, Stand-lock, read_wake-Stand}
use libtask.Rwlock.Grant.{reader-not-nil, grant_writer-keeps, to_writer, ToWriter, ToReaders}

-- The lock `m` after all of `ps` were made ready and counted in.
record Woken (l m : Rwlock) (u : Sys) (rs ps qs : List Ptr) : Type 0 where
  readers : m.readers ≡ l.readers + length ps
  writer : m.writer ≡ l.writer
  stand : Stand u m (rs ++ ps) [] qs

-- The lock and the system after a round of the loop.
abbrev round : Rwlock → Sys → Ptr → Rwlock × Sys
round l s t = (
  record l { rwaiting = (wake l.rwaiting t s).0; readers = add_int l.readers },
  (wake l.rwaiting t s).1,
)

wake_readers-round :
    (fuel : ℕ) (l : Rwlock) (s : Sys) (t : Ptr)
    → l.rwaiting.head ≡ t
    → t ≢ nil
    → wake_readers (suc fuel) l s ≡ wake_readers fuel (round l s t).0 (round l s t).1
unfolding wake_readers
wake_readers-round fuel l s t e =
    subst
      (λ a.
        a ≢ nil → wake_readers (suc fuel) l s ≡ wake_readers fuel (round l s a).0 (round l s a).1)
      e (λ n. rw (==-ne l.rwaiting.head nil n))

-- The loop of `wunlock` makes all waiting readers ready, in their order, and counts them in.
wake_readers-Woken :
    (ps : List Ptr) (fuel : ℕ) (l : Rwlock) (s : Sys) (rs qs : List Ptr)
    → length ps < fuel
    → l.readers + length ps < 2 ^ 31
    → Stand s l rs ps qs
    → (m : Rwlock) × (u : Sys) × (wake_readers fuel l s ≡ some (m, u)) × Woken l m u rs ps qs
unfolding wake_readers
wake_readers-Woken ps zero l s rs qs fuel small v = absurd (omega arith)
wake_readers-Woken [] (suc fuel) l s rs qs enough small v = (
  l,
  s,
  rw v.rwaiting.head,
  record { readers = omega arith; writer = refl; stand = rw append-nil v },
)
wake_readers-Woken (t ∷ ps) (suc fuel) l s rs qs enough small v =
    let next = (round l s t).0 in
    let moved = read_wake-Stand s l rs ps qs t v in
    let (m, u, e, w) =
      wake_readers-Woken ps fuel next (wake l.rwaiting t s).1 (rs ++ (t ∷ [])) qs (omega arith)
        (omega arith)
        (record {
          queued = moved.queued;
          rwaiting = moved.rwaiting;
          wwaiting = moved.wwaiting;
          distinct = moved.distinct;
        }) in
    (
      m,
      u,
      wake_readers-round fuel l s t v.rwaiting.head (reader-not-nil v) ∙ e,
      record {
        readers = omega (arith, w.readers);
        writer = w.writer;
        stand = subst (λ xs. Stand u m xs [] qs) (append_assoc rs (t ∷ []) ps) w.stand;
      },
    )

wunlock-grant :
    (l : Rwlock) (s : Sys) (fuel : ℕ) (m : Rwlock) (u : Sys)
    → l.writer ≢ nil
    → l.readers ≡ 0
    → wake_readers fuel (record l { writer = nil }) s ≡ some (m, u)
    → wunlock fuel l s ≡ some (ok (grant_writer m u))
unfolding wunlock
wunlock-grant l s fuel m u n z e =
    let idle : (l.readers == 0) ≡ true = ground arith in
    rw (==-ne l.writer nil n, idle)
      (ap (Option.map (λ (r : Rwlock × Sys). ok (grant_writer r.0 r.1))) e)

-- Who has the lock after `wunlock`: all waiting readers, or the first waiting writer, or nobody.
abbrev pub Passed : Rwlock → Sys → List Ptr → List Ptr → List Ptr → Type 0
Passed m u rs ps qs =
    ((ps ≢ []) × ToReaders m u rs ps qs)
    ⊎ ((t : Ptr) × (rest : List Ptr) × (ps ≡ []) × (qs ≡ t ∷ rest) × ToWriter m u t rs [] rest)
    ⊎ ((ps ≡ []) × (qs ≡ []) × (m.writer ≡ nil) × (m.readers ≡ 0) × Stand u m rs [] [])

passed :
    (l : Rwlock) (s : Sys) (rs ps qs : List Ptr) (fuel : ℕ) (m : Rwlock) (u : Sys)
    → l.writer ≢ nil
    → l.readers ≡ 0
    → length ps < 2 ^ 31
    → wunlock fuel l s ≡ some (ok (grant_writer m u))
    → Woken (record l { writer = nil }) m u rs ps qs
    → (m' : Rwlock) × (u' : Sys) × (l.writer ≢ nil)
      × (wunlock fuel l s ≡ some (ok (m', u')))
      × Passed m' u' rs ps qs
passed l s rs [] [] fuel m u n z small done w =
    let stand : Stand u m rs [] [] = rw append-nil at w.stand in
    (
      m,
      u,
      n,
      done ∙ ap (λ r. some (ok r)) (grant_writer-keeps m u rs [] [] stand (inr refl)),
      inr (inr (refl, refl, w.writer, omega (arith, w.readers), stand)),
    )
passed l s rs [] (t ∷ rest) fuel m u n z small done w =
    let stand : Stand u m rs [] (t ∷ rest) = rw append-nil at w.stand in
    let (m', u', e, g) = to_writer m u t rs [] rest (omega (arith, w.readers)) stand in
    (m', u', n, done ∙ ap (λ r. some (ok r)) e, inr (inl (t, rest, refl, refl, g)))
passed l s rs (p ∷ ps) qs fuel m u n z small done w =
    let count : m.readers ≡ suc (length ps) = omega (arith, w.readers) in
    let some_reader : m.readers ≢ 0 = λ e. omega arith in
    (
      m,
      u,
      n,
      done
          ∙ ap (λ r. some (ok r))
              (grant_writer-keeps m u (rs ++ (p ∷ ps)) [] qs w.stand (inl some_reader)),
      inl (
        λ e. cc,
        record {
          writer = w.writer;
          readers = count;
          stand = w.stand;
          fit = record {
            alone = inl w.writer;
            readers_wait = inl refl;
            writers_wait = inr (inr some_reader);
            small = omega arith;
          };
        },
      ),
    )

released :
    (l : Rwlock) (s : Sys) (rs ps qs : List Ptr) (fuel : ℕ)
    → Stand s l rs ps qs
    → l.writer ≢ nil
    → l.readers ≡ 0
    → length ps < fuel
    → length ps < 2 ^ 31
    → (m : Rwlock) × (u : Sys) × (l.writer ≢ nil)
      × (wunlock fuel l s ≡ some (ok (m, u)))
      × Passed m u rs ps qs
released l s rs ps qs fuel v n z enough small =
    let (m, u, e, w) =
      wake_readers-Woken ps fuel (record l { writer = nil }) s rs qs enough (omega arith)
        (Stand-lock l.readers nil v) in
    let done = wunlock-grant l s fuel m u n z e in passed l s rs ps qs fuel m u n z small done w

-- `wunlock` on a fit lock, whose lists are well-linked and have distinct tasks, aborts just when no
-- writer has the lock. Otherwise it ends, with more fuel than there are waiting readers, and hands
-- the lock to all waiting readers, made ready in their order, or else to the first waiting writer,
-- or else frees it; a lock handed over is fit. The readers that wait number less than 2^31.
pub wunlock-Stand :
    (l : Rwlock) (s : Sys) (rs ps qs : List Ptr) (fuel : ℕ)
    → Stand s l rs ps qs
    → Fit l ps qs
    → length ps < fuel
    → length ps < 2 ^ 31
    → ((l.writer ≡ nil) × (wunlock fuel l s ≡ some aborts))
      ⊎ ((m : Rwlock) × (u : Sys) × (l.writer ≢ nil)
          × (wunlock fuel l s ≡ some (ok (m, u)))
          × Passed m u rs ps qs)
unfolding wunlock
wunlock-Stand l s rs ps qs fuel v i enough small = elim (ℕ_discrete l.writer nil) [
  | yes e ↦ inl (e, ground arith)
  | no n ↦
      let idle : l.readers ≡ 0 = elim i.alone [ inl e ↦ absurd (n e) | inr z ↦ z ] in
      inr (released l s rs ps qs fuel v n idle enough small)
]
