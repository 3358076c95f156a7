-- ===== src/Rwlock/Grant.antt =====
-- `runlock` and `wunlock` hand a free lock to the first waiting writer.
use libtask.Base.{
  ◌≡◌, refl, ◌≢◌, ◌⊎◌, inl, inr, sym, ◌∙◌, ap, subst, List, [], ◌∷◌, ◌++◌, arith, Distinct-fewer,
  counting, length,
}
use libtask.Tasklist.{Ptr, nil}
use libtask.Tasklist.Chain.{first}
use libtask.Sched.{Sys}
use libtask.Waiting.{wake}
use libtask.Rwlock.{Rwlock, grant_writer}
use libtask.Rwlock.Lists.{Stand, Fit, write_wake-Stand}

pub reader-not-nil :
    {s : Sys} {l : Rwlock} {t : Ptr} {rs ps qs : List Ptr} → Stand s l rs (t ∷ ps) qs → t ≢ nil
reader-not-nil {t} {rs} {ps} {qs} v e =
    (Distinct-fewer (nil ∷ rs ++ ((t ∷ ps) ++ qs)) (nil ∷ t ∷ []) (λ a. omega counting)
        v.distinct).0.0
      (sym e)

pub writer-not-nil :
    {s : Sys} {l : Rwlock} {t : Ptr} {rs ps qs : List Ptr} → Stand s l rs ps (t ∷ qs) → t ≢ nil
writer-not-nil {t} {rs} {ps} {qs} v e =
    (Distinct-fewer (nil ∷ rs ++ (ps ++ (t ∷ qs))) (nil ∷ t ∷ []) (λ a. omega counting)
        v.distinct).0.0
      (sym e)

-- With no reader left the first waiting writer gets the lock.
record Granted (l m : Rwlock) (u : Sys) (t : Ptr) (rs ps qs : List Ptr) : Type 0 where
  readers : m.readers ≡ l.readers
  writer : m.writer ≡ t
  stand : Stand u m (rs ++ (t ∷ [])) ps qs

grant_writer-first :
    (l : Rwlock) (s : Sys) (t : Ptr)
    → l.readers ≡ 0
    → l.wwaiting.head ≡ t
    → t ≢ nil
    → grant_writer l s
      ≡ (record l { writer = t; wwaiting = (wake l.wwaiting t s).0 }, (wake l.wwaiting t s).1)
unfolding grant_writer
grant_writer-first l s t z e =
    subst
      (λ a.
        a ≢ nil
        → grant_writer l s
          ≡ (record l { writer = a; wwaiting = (wake l.wwaiting a s).0 }, (wake l.wwaiting a s).1))
      e (λ n. ground arith)

grant_writer-Granted :
    (l : Rwlock) (s : Sys) (t : Ptr) (rs ps qs : List Ptr)
    → l.readers ≡ 0
    → Stand s l rs ps (t ∷ qs)
    → (m : Rwlock) × (u : Sys) × (grant_writer l s ≡ (m, u)) × Granted l m u t rs ps qs
unfolding grant_writer
grant_writer-Granted l s t rs ps qs z v =
    let moved = write_wake-Stand s l rs ps qs t v in
    (
      record l { writer = t; wwaiting = (wake l.wwaiting t s).0 },
      (wake l.wwaiting t s).1,
      grant_writer-first l s t z v.wwaiting.head (writer-not-nil v),
      record {
        readers = refl;
        writer = refl;
        stand = record {
          queued = moved.queued;
          rwaiting = moved.rwaiting;
          wwaiting = moved.wwaiting;
          distinct = moved.distinct;
        };
      },
    )

pub grant_writer-keeps :
    (l : Rwlock) (s : Sys) (rs ps qs : List Ptr)
    → Stand s l rs ps qs
    → (l.readers ≢ 0) ⊎ (qs ≡ [])
    → grant_writer l s ≡ (l, s)
unfolding grant_writer
grant_writer-keeps l s rs ps qs v (inl n) = ground arith
grant_writer-keeps l s rs ps qs v (inr e) = ground (arith, v.wwaiting.head, ap first e)

-- The writer `t` now has the lock, and is ready to run.
pub record ToWriter (m : Rwlock) (u : Sys) (t : Ptr) (rs ps qs : List Ptr) : Type 0 where
  pub writer : m.writer ≡ t
  pub readers : m.readers ≡ 0
  pub stand : Stand u m (rs ++ (t ∷ [])) ps qs
  pub fit : Fit m ps qs

-- All readers that waited, `ps`, now have the lock, and are ready to run in their order.
pub record ToReaders (m : Rwlock) (u : Sys) (rs ps qs : List Ptr) : Type 0 where
  pub writer : m.writer ≡ nil
  pub readers : m.readers ≡ length ps
  pub stand : Stand u m (rs ++ ps) [] qs
  pub fit : Fit m [] qs

module _ (l : Rwlock) (s : Sys) (t : Ptr) (rs ps qs : List Ptr) where
  pub to_writer :
      l.readers ≡ 0
      → Stand s l rs ps (t ∷ qs)
      → (m : Rwlock) × (u : Sys) × (grant_writer l s ≡ (m, u)) × ToWriter m u t rs ps qs
  to_writer z v =
      let (m, u, e, g) = grant_writer-Granted l s t rs ps qs z v in
      let used : m.writer ≢ nil = λ k. writer-not-nil v (sym g.writer ∙ k) in
      (
        m,
        u,
        e,
        record {
          writer = g.writer;
          readers = g.readers ∙ z;
          stand = g.stand;
          fit = record {
            alone = inr (g.readers ∙ z);
            readers_wait = inr (inl used);
            writers_wait = inr (inl used);
            small = omega (arith, g.readers);
          };
        },
      )
