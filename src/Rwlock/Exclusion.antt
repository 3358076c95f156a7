-- ===== src/Rwlock/Exclusion.antt =====
-- Readers or one writer: the reader-writer lock, in every order of calls and switches.
use libtask.Base.{
  ℕ, ◌≡◌, ◌≢◌, sym, ◌∙◌, ap, true, false, ◌≤◌, some, Bool-cases, List, [], ◌∷◌, ◌++◌, arith, ◌⊎◌,
  inl, inr, count, bit, count-nil, count_of_Fresh, Fresh-fewer, counting,
}
use libtask.Tasklist.{Ptr, nil}
use libtask.Sched.{Sys, ok}
use libtask.Rwlock.{Rwlock, wunlock}
use libtask.Rwlock.Wunlock.{wunlock-Stand}
use libtask.Rwlock.System.{World, Reach, Room}
use libtask.Rwlock.Invariant.{readers-not-nil, length-zero, Owner-free, bit-zero, Inv, Sharing}
use libtask.Rwlock.Writing.{writing-alone}
use libtask.Rwlock.Preserve.{Reach-Inv}

module _ (w : World) (rs ps qs hs ws : List Ptr) (i : Inv w rs ps qs hs ws) where
  -- A task that has the lock to write is in `ws`, and one that has it to read in `hs`.
  writer-in : (a : Ptr) → w.writes a ≡ true → count a ws ≢ 0
  writer-in a mark z = omega (arith, i.writings a, i.write_waits a, ap bit mark)

  alone : (a : Ptr) → w.writes a ≡ true → (w.lock.writer ≡ a) × ((b : Ptr) → w.reads b ≡ 0)
  alone a mark =
      let (own, _, _, none_reads) = writing-alone w rs ps qs hs ws i a (writer-in a mark) in
      (own, λ b. omega (arith, none_reads b, i.readings b, i.read_waits b))

-- Readers or one writer. Tasks share one reader-writer lock, with less than 2^31 readers and less
-- than 2^31 tasks that wait to read, and each does any sequence of `rlock`, `canrlock`, `wlock`,
-- `canwlock`, `runlock` and `wunlock` of a lock that it has to read or to write, `taskyield` and
-- `taskexit`. In every state that they reach, if a task has the lock to write, it is the lock's
-- writer, no task has the lock to read, and no other one has it to write.
pub rw_exclusion :
    {w : World} (a b : Ptr)
    → Reach w
    → w.writes a ≡ true
    → (w.lock.writer ≡ a) × (w.reads b ≡ 0) × ((w.writes b ≡ false) ⊎ (b ≡ a))
rw_exclusion {w} a b r mark =
    let (rs, ps, qs, hs, ws, i) = Reach-Inv r in
    let (own, no_reader) = alone w rs ps qs hs ws i a mark in
    (
      own,
      no_reader b,
      elim (Bool-cases (w.writes b)) [
        | inr f ↦ inl f
        | inl t ↦ inr (sym (alone w rs ps qs hs ws i b t).0 ∙ own)
      ],
    )

runner_absent :
    (w : World) (rs ps qs hs ws xs : List Ptr)
    → Inv w rs ps qs hs ws
    → ((a : Ptr) → count a xs ≤ count a (ps ++ qs))
    → count w.sys.running xs ≡ 0
runner_absent w rs ps qs hs ws xs i fewer = count_of_Fresh w.sys.running xs (
    Fresh-fewer w.sys.running (nil ∷ rs ++ (ps ++ qs)) xs (λ a. omega (counting, fewer a))
      i.running)

reader-back :
    (w : World)
    → Sharing w
    → (w.rwaits w.sys.running ≡ false) ⊎ ((w.lock.writer ≡ nil) × (w.lock.readers ≢ 0))
reader-back w (rs, ps, qs, hs, ws, i) = elim (Bool-cases (w.rwaits w.sys.running)) [
  | inr f ↦ inl f
  | inl t ↦
      let r : Ptr = w.sys.running in
      let absent = runner_absent w rs ps qs hs ws ps i (λ a. omega counting) in
      let some_reader : w.lock.readers ≢ 0 = λ z.
        let none_reads = length-zero r hs (sym i.readers ∙ z) in
        omega (arith, i.readings r, ap bit t) in
      inr (elim i.fit.alone [ inl e ↦ e | inr z ↦ absurd (some_reader z) ], some_reader)
]

writer-back :
    (w : World)
    → Sharing w
    → (w.wwaits w.sys.running ≡ false) ⊎ ((w.lock.writer ≡ w.sys.running) × (w.lock.readers ≡ 0))
writer-back w (rs, ps, qs, hs, ws, i) = elim (Bool-cases (w.wwaits w.sys.running)) [
  | inr f ↦ inl f
  | inl t ↦
      let r : Ptr = w.sys.running in
      let absent = runner_absent w rs ps qs hs ws qs i (λ a. omega counting) in
      let (own, _, idle, _) =
        writing-alone w rs ps qs hs ws i r (λ z. omega (arith, i.writings r, ap bit t)) in
      inr (own, idle)
]

writer-unlocks :
    (w : World) (fuel : ℕ)
    → Room fuel w
    → Sharing w
    → (w.writes w.sys.running ≡ false)
      ⊎ ((x : Rwlock × Sys) × (wunlock fuel w.lock w.sys ≡ some (ok x)))
writer-unlocks w fuel room (rs, ps, qs, hs, ws, i) = elim (Bool-cases (w.writes w.sys.running)) [
  | inr f ↦ inl f
  | inl t ↦
      let (enough, small) =
        room ps i.stand.rwaiting (readers-not-nil rs ps qs i.stand.distinct.0) in
      let own = (alone w rs ps qs hs ws i w.sys.running t).0 in
      elim (wunlock-Stand w.lock w.sys rs ps qs fuel i.stand i.fit enough small) [
        | inl (e, _) ↦ absurd (i.running.0 (sym own ∙ e))
        | inr (m, u, _, k, _) ↦ inr ((m, u), k)
      ]
]

-- In every state that tasks sharing one reader-writer lock reach, with less than 2^31 readers, less
-- than 2^31 tasks that wait to read and more fuel than there are of these: `rlock` and `wlock`,
-- which do not look at the lock again when their wait ends, return to a task that has it. If the
-- running task comes back from its wait in `rlock`, the lock has readers and no writer; if it comes
-- back from its wait in `wlock`, it is the writer, with no readers; and if it has the lock to
-- write, its `wunlock` ends without an abort.
pub waiters_return_owners :
    {w : World} (fuel : ℕ)
    → Reach w
    → Room fuel w
    → ((w.rwaits w.sys.running ≡ false) ⊎ ((w.lock.writer ≡ nil) × (w.lock.readers ≢ 0)))
      × ((w.wwaits w.sys.running ≡ false)
          ⊎ ((w.lock.writer ≡ w.sys.running) × (w.lock.readers ≡ 0)))
      × ((w.writes w.sys.running ≡ false)
          ⊎ ((x : Rwlock × Sys) × (wunlock fuel w.lock w.sys ≡ some (ok x))))
waiters_return_owners {w} fuel r room =
    let h = Reach-Inv r in (reader-back w h, writer-back w h, writer-unlocks w fuel room h)

stands-not-nil : (a : Ptr) (xs : List Ptr) → count a xs ≢ 0 → xs ≢ []
stands-not-nil a xs n e = n (ap (count a) e ∙ count-nil a)

idle-Inv :
    (w : World) (rs ps qs hs ws : List Ptr)
    → Inv w rs ps qs hs ws
    → w.lock.writer ≡ nil
    → w.lock.readers ≡ 0
    → (ps ≡ []) × (qs ≡ [])
idle-Inv w rs ps qs hs ws i unowned idle =
    let no_writer : qs ≡ [] = elim i.fit.writers_wait [
      | inl e ↦ e
      | inr (inl n) ↦ absurd (n unowned)
      | inr (inr n) ↦ absurd (n idle)
    ] in
    (
      elim i.fit.readers_wait [
        | inl e ↦ e
        | inr (inl n) ↦ absurd (n unowned)
        | inr (inr n) ↦ absurd (n no_writer)
      ],
      no_writer,
    )

-- In every state that tasks sharing one reader-writer lock reach, with less than 2^31 readers and
-- less than 2^31 tasks that wait to read, no task is inside a blocked `rlock` or `wlock` of a lock
-- without a writer and without readers.
pub free-rwlock-unwaited :
    {w : World} (a : Ptr)
    → Reach w
    → w.lock.writer ≡ nil
    → w.lock.readers ≡ 0
    → (w.rwaits a ≡ false) × (w.wwaits a ≡ false)
free-rwlock-unwaited {w} a r unowned idle =
    let (rs, ps, qs, hs, ws, i) = Reach-Inv r in
    let (no_reader, no_writer) = idle-Inv w rs ps qs hs ws i unowned idle in
    let none_reads = length-zero a hs (sym i.readers ∙ idle) in
    let none_owns = Owner-free a unowned i.owner in
    (
      bit-zero (w.rwaits a)
          (omega (arith, i.readings a, none_reads, ap (count a) no_reader, count-nil a)),
      bit-zero (w.wwaits a)
          (omega (arith, i.writings a, none_owns, ap (count a) no_writer, count-nil a)),
    )
