-- ===== src/Rwlock/Lists.antt =====
-- Where the tasks stand around a reader-writer lock: ready, waiting to read, waiting to write.
use libtask.Base.{
  ℕ, ◌<◌, ◌^◌, ◌≡◌, ◌≢◌, ◌⊎◌, List, [], ◌∷◌, ◌++◌, Fresh, Distinct, Distinct-fewer, Apart-fewer,
  Fresh-fewer, counting,
}
use libtask.Tasklist.{Ptr, nil}
use libtask.Tasklist.Chain.{Holds, Holds-frame}
use libtask.Sched.{Sys}
use libtask.Sched.Queue.{Queued}
use libtask.Waiting.{wait_on, wake}
use libtask.Waiting.Moves.{Split, wait_on-Split, wake-Split}
use libtask.Rwlock.{Rwlock}

-- `rs` are ready, `ps` wait to read and `qs` wait to write; no task stands twice, none is null.
pub record Stand (s : Sys) (l : Rwlock) (rs ps qs : List Ptr) : Type 0 where
  pub queued : Queued s rs
  pub rwaiting : Holds s.links l.rwaiting ps
  pub wwaiting : Holds s.links l.wwaiting qs
  pub distinct : Distinct (nil ∷ rs ++ (ps ++ qs))

pub readers-Split :
    {s : Sys} {l : Rwlock} {rs ps qs : List Ptr} → Stand s l rs ps qs → Split s l.rwaiting rs ps
readers-Split {rs} {ps} {qs} v = record {
  queued = v.queued;
  waiting = v.rwaiting;
  distinct =
      Distinct-fewer (nil ∷ rs ++ (ps ++ qs)) (nil ∷ rs ++ ps) (λ a. omega counting) v.distinct;
}

pub writers-Split :
    {s : Sys} {l : Rwlock} {rs ps qs : List Ptr} → Stand s l rs ps qs → Split s l.wwaiting rs qs
writers-Split {rs} {ps} {qs} v = record {
  queued = v.queued;
  waiting = v.wwaiting;
  distinct =
      Distinct-fewer (nil ∷ rs ++ (ps ++ qs)) (nil ∷ rs ++ qs) (λ a. omega counting) v.distinct;
}

module _ (s : Sys) (l : Rwlock) (rs ps qs : List Ptr) where
  pub read_wait-Stand :
      Stand s l rs ps qs
      → Fresh s.running (nil ∷ rs ++ (ps ++ qs))
      → let (w, u) = wait_on l.rwaiting s in
        Stand u (record l { rwaiting = w }) rs (ps ++ (s.running ∷ [])) qs
  read_wait-Stand v f =
      let order = s.running ∷ nil ∷ rs ++ (ps ++ qs) in
      let all : Distinct order = (f, v.distinct) in
      let (split, same) =
        wait_on-Split s l.rwaiting rs ps (readers-Split v) (
          Fresh-fewer s.running (nil ∷ rs ++ (ps ++ qs)) (nil ∷ rs ++ ps) (λ a. omega counting)
            f) in
      record {
        queued = split.queued;
        rwaiting = split.waiting;
        wwaiting =
            Holds-frame s.links _ l.wwaiting (s.running ∷ ps) qs same
              (Apart-fewer order qs (s.running ∷ ps) (λ a. omega counting) all) v.wwaiting;
        distinct =
            Distinct-fewer order (nil ∷ rs ++ ((ps ++ (s.running ∷ [])) ++ qs))
              (λ a. omega counting) all;
      }

  pub write_wait-Stand :
      Stand s l rs ps qs
      → Fresh s.running (nil ∷ rs ++ (ps ++ qs))
      → let (w, u) = wait_on l.wwaiting s in
        Stand u (record l { wwaiting = w }) rs ps (qs ++ (s.running ∷ []))
  write_wait-Stand v f =
      let order = s.running ∷ nil ∷ rs ++ (ps ++ qs) in
      let all : Distinct order = (f, v.distinct) in
      let (split, same) =
        wait_on-Split s l.wwaiting rs qs (writers-Split v) (
          Fresh-fewer s.running (nil ∷ rs ++ (ps ++ qs)) (nil ∷ rs ++ qs) (λ a. omega counting)
            f) in
      record {
        queued = split.queued;
        wwaiting = split.waiting;
        rwaiting =
            Holds-frame s.links _ l.rwaiting (s.running ∷ qs) ps same
              (Apart-fewer order ps (s.running ∷ qs) (λ a. omega counting) all) v.rwaiting;
        distinct =
            Distinct-fewer order (nil ∷ rs ++ (ps ++ (qs ++ (s.running ∷ []))))
              (λ a. omega counting) all;
      }

  pub read_wake-Stand :
      (t : Ptr)
      → Stand s l rs (t ∷ ps) qs
      → let (w, u) = wake l.rwaiting t s in
        Stand u (record l { rwaiting = w }) (rs ++ (t ∷ [])) ps qs
  read_wake-Stand t v =
      let order = nil ∷ rs ++ ((t ∷ ps) ++ qs) in
      let (split, same) = wake-Split s l.rwaiting t rs ps (readers-Split v) in
      record {
        queued = split.queued;
        rwaiting = split.waiting;
        wwaiting =
            Holds-frame s.links _ l.wwaiting (t ∷ rs ++ ps) qs same
              (Apart-fewer order qs (t ∷ rs ++ ps) (λ a. omega counting) v.distinct) v.wwaiting;
        distinct =
            Distinct-fewer order (nil ∷ (rs ++ (t ∷ [])) ++ (ps ++ qs)) (λ a. omega counting)
              v.distinct;
      }

  pub write_wake-Stand :
      (t : Ptr)
      → Stand s l rs ps (t ∷ qs)
      → let (w, u) = wake l.wwaiting t s in
        Stand u (record l { wwaiting = w }) (rs ++ (t ∷ [])) ps qs
  write_wake-Stand t v =
      let order = nil ∷ rs ++ (ps ++ (t ∷ qs)) in
      let (split, same) = wake-Split s l.wwaiting t rs qs (writers-Split v) in
      record {
        queued = split.queued;
        wwaiting = split.waiting;
        rwaiting =
            Holds-frame s.links _ l.rwaiting (t ∷ rs ++ qs) ps same
              (Apart-fewer order ps (t ∷ rs ++ qs) (λ a. omega counting) v.distinct) v.rwaiting;
        distinct =
            Distinct-fewer order (nil ∷ (rs ++ (t ∷ [])) ++ (ps ++ qs)) (λ a. omega counting)
              v.distinct;
      }

-- What holds of a reader-writer lock between two operations, with `ps` waiting to read and `qs` to
-- write: a writer excludes readers, a reader waits only for a writer, at the lock or in the queue,
-- and a writer waits only for who is at the lock.
pub record Fit (l : Rwlock) (ps qs : List Ptr) : Type 0 where
  pub alone : (l.writer ≡ nil) ⊎ (l.readers ≡ 0)
  pub readers_wait : (ps ≡ []) ⊎ (l.writer ≢ nil) ⊎ (qs ≢ [])
  pub writers_wait : (qs ≡ []) ⊎ (l.writer ≢ nil) ⊎ (l.readers ≢ 0)
  pub small : l.readers < 2 ^ 31

-- The places do not depend on who has the lock.
pub Stand-lock :
    {s : Sys} {l : Rwlock} {rs ps qs : List Ptr} (n : ℕ) (w : Ptr)
    → Stand s l rs ps qs
    → Stand s (record l { readers = n; writer = w }) rs ps qs
Stand-lock n w v = record {
  queued = v.queued;
  rwaiting = v.rwaiting;
  wwaiting = v.wwaiting;
  distinct = v.distinct;
}
