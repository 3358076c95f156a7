-- ===== src/Rwlock/Acquire.antt =====
-- Taking a reader-writer lock, on every branch.
use libtask.Base.{
  ◌+◌, ◌<◌, ◌^◌, ◌≡◌, refl, ◌≢◌, ◌⊎◌, inl, inr, sym, ap, ◌&&◌, true, false, List, [], ◌∷◌, ◌++◌,
  arith, Fresh, ◌==◌, Distinct-fewer, counting,
}
use native.Mathlib.Decide.{ℕ_discrete}
use libtask.Tasklist.{Ptr, nil}
use libtask.Tasklist.Chain.{first}
use libtask.Sched.{Sys, taskstate}
use libtask.Qlock.{Attempt, got, refused, blocks}
use libtask.Rwlock.{Rwlock, rlock, canrlock, wlock, canwlock}
use libtask.Rwlock.Lists.{Stand, Fit, read_wait-Stand, write_wait-Stand}

-- The lock `l` can be read: nobody has it to write or waits to write.
abbrev pub Readable : Rwlock → List Ptr → Type 0
Readable l qs = (l.writer ≡ nil) × (qs ≡ [])

-- Nobody is at the lock.
abbrev pub Writable : Rwlock → Type 0
Writable l = (l.writer ≡ nil) × (l.readers ≡ 0)

-- The call blocks, and leaves the tasks in these places around a fit lock.
abbrev pub Blocked : Attempt × Rwlock × Sys → List Ptr → List Ptr → List Ptr → Type 0
Blocked r rs ps qs = (r.0 ≡ blocks) × Stand r.2 r.1 rs ps qs × Fit r.1 ps qs

append-not-nil : (xs : List Ptr) (t : Ptr) → xs ++ (t ∷ []) ≢ []
append-not-nil [] t e = cc
append-not-nil (x ∷ xs) t e = cc

first-not-nil : (qs : List Ptr) → Fresh nil qs → qs ≢ [] → first qs ≢ nil
first-not-nil [] f n e = n refl
first-not-nil (q ∷ qs) f n e = f.0 (sym e)

Readable-cases : (l : Rwlock) (qs : List Ptr) → Readable l qs ⊎ ((l.writer ≢ nil) ⊎ (qs ≢ []))
Readable-cases l [] = elim (ℕ_discrete l.writer nil) [ yes e ↦ inl (e, refl) | no n ↦ inr (inl n) ]
Readable-cases l (q ∷ qs) = inr (inr (λ e. cc))

Writable-cases : (l : Rwlock) → Writable l ⊎ ((l.writer ≢ nil) ⊎ (l.readers ≢ 0))
Writable-cases l = elim (ℕ_discrete l.writer nil) [
  | yes e ↦ elim (ℕ_discrete l.readers 0) [ yes z ↦ inl (e, z) | no n ↦ inr (inr n) ]
  | no n ↦ inr (inl n)
]

module _ (l : Rwlock) (s : Sys) (rs ps qs : List Ptr) (v : Stand s l rs ps qs) where
  read_test-true : Readable l qs → ((l.writer == nil) && (l.wwaiting.head == nil)) ≡ true
  read_test-true (e, z) = ground (arith, v.wwaiting.head, ap first z)

  read_test-false :
      (l.writer ≢ nil) ⊎ (qs ≢ []) → ((l.writer == nil) && (l.wwaiting.head == nil)) ≡ false
  read_test-false (inl n) = ground arith
  read_test-false (inr n) =
      let some_writer =
        first-not-nil qs
          (Distinct-fewer (nil ∷ rs ++ (ps ++ qs)) (nil ∷ qs) (λ a. omega counting) v.distinct).0
          n in
      ground (arith, v.wwaiting.head)

write_test-false :
    (l : Rwlock)
    → (l.writer ≢ nil) ⊎ (l.readers ≢ 0)
    → ((l.writer == nil) && (l.readers == 0)) ≡ false
write_test-false l (inl n) = ground arith
write_test-false l (inr n) = ground arith

module _ (l : Rwlock) (s : Sys) (rs ps qs : List Ptr) (v : Stand s l rs ps qs)
    (i : Fit l ps qs) where
  -- `rlock` on a fit lock, whose lists are well-linked and have distinct tasks, by a running task
  -- that is on no list and with less than 2^31 - 1 readers: with no writer at the lock or waiting
  -- it returns at once with one reader more; otherwise the caller waits behind the other readers.
  -- The lock stays fit.
  pub rlock-Stand :
      Fresh s.running (nil ∷ rs ++ (ps ++ qs))
      → l.readers + 1 < 2 ^ 31
      → (Readable l qs
          × (rlock l s ≡ (got, record l { readers = l.readers + 1 }, s))
          × Fit (record l { readers = l.readers + 1 }) ps qs)
        ⊎ (((l.writer ≢ nil) ⊎ (qs ≢ [])) × Blocked (rlock l s) rs (ps ++ (s.running ∷ [])) qs)
  unfolding rlock taskstate
  rlock-Stand f room = elim (Readable-cases l qs) [
    | inl (e, z) ↦ inl (
      (e, z),
      rw (read_test-true l s rs ps qs v (e, z))
          (ap (λ n. (got, record l { readers = n }, s)) (omega arith)),
      record { alone = inl e; readers_wait = i.readers_wait; writers_wait = inl z; small = room },
    )
    | inr busy ↦
        let moved = read_wait-Stand s l rs ps qs v f in
        inr (
          busy,
          rw (read_test-false l s rs ps qs v busy) (
            refl,
            record {
              queued = moved.queued;
              rwaiting = moved.rwaiting;
              wwaiting = moved.wwaiting;
              distinct = moved.distinct;
            },
            record {
              alone = i.alone;
              readers_wait = inr busy;
              writers_wait = i.writers_wait;
              small = i.small;
            },
          ),
        )
  ]

  -- `canrlock` on a fit lock, whose lists are well-linked and have distinct tasks, with less than
  -- 2^31 - 1 readers returns 1 with one reader more if no writer is at the lock or waits; otherwise
  -- it returns 0 and changes nothing.
  pub canrlock-Stand :
      l.readers + 1 < 2 ^ 31
      → (Readable l qs × (canrlock l s ≡ (got, record l { readers = l.readers + 1 }, s)))
        ⊎ (((l.writer ≢ nil) ⊎ (qs ≢ [])) × (canrlock l s ≡ (refused, l, s)))
  unfolding canrlock
  canrlock-Stand room = elim (Readable-cases l qs) [
    | inl free ↦ inl (
      free,
      rw (read_test-true l s rs ps qs v free)
          (ap (λ n. (got, record l { readers = n }, s)) (omega arith)),
    )
    | inr busy ↦ inr (busy, rw (read_test-false l s rs ps qs v busy))
  ]

  -- `wlock` on a fit lock, whose lists are well-linked and have distinct tasks, by a running task
  -- that is on no list: with nobody at the lock the caller has it at once; otherwise it waits
  -- behind the other writers. The lock stays fit.
  pub wlock-Stand :
      Fresh s.running (nil ∷ rs ++ (ps ++ qs))
      → (Writable l
          × (wlock l s ≡ (got, record l { writer = s.running }, s))
          × Fit (record l { writer = s.running }) ps qs)
        ⊎ (((l.writer ≢ nil) ⊎ (l.readers ≢ 0))
            × Blocked (wlock l s) rs ps (qs ++ (s.running ∷ [])))
  unfolding wlock taskstate
  wlock-Stand f = elim (Writable-cases l) [
    | inl (e, z) ↦ inl (
      (e, z),
      ground arith,
      record {
        alone = inr z;
        readers_wait = inr (inl f.0);
        writers_wait = inr (inl f.0);
        small = i.small;
      },
    )
    | inr busy ↦
        let moved = write_wait-Stand s l rs ps qs v f in
        inr (
          busy,
          rw (write_test-false l busy) (
            refl,
            record {
              queued = moved.queued;
              rwaiting = moved.rwaiting;
              wwaiting = moved.wwaiting;
              distinct = moved.distinct;
            },
            record {
              alone = i.alone;
              readers_wait = inr (inr (append-not-nil qs s.running));
              writers_wait = inr busy;
              small = i.small;
            },
          ),
        )
  ]

  -- `canwlock` on a fit lock, whose lists are well-linked and have distinct tasks, makes the caller
  -- the writer and returns 1 if nobody is at the lock; otherwise it returns 0 and changes nothing.
  pub canwlock_lem :
      (Writable l × (canwlock l s ≡ (got, record l { writer = s.running }, s)))
      ⊎ (((l.writer ≢ nil) ⊎ (l.readers ≢ 0)) × (canwlock l s ≡ (refused, l, s)))
  unfolding canwlock
  canwlock_lem = elim (Writable-cases l) [
    | inl (e, z) ↦ inl ((e, z), ground arith)
    | inr busy ↦ inr (busy, rw (write_test-false l busy))
  ]
