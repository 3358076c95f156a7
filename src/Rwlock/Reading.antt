-- ===== src/Rwlock/Reading.antt =====
-- Taking and giving back a reader-writer lock to read keeps what its tasks rely on.
use libtask.Base.{
  suc, ◌+◌, ◌-◌, ◌≡◌, ◌≢◌, inl, inr, sym, ◌∙◌, subst, ap, true, false, List, [], ◌∷◌, ◌++◌, arith,
  Fresh, Distinct, update, hit, bit-on, bit-off, hit_le, count-up, count-down, length, count,
  count_of_Distinct, counting, count-nil, count-cons, Distinct-fewer, Fresh-fewer,
}
use libtask.Tasklist.{Ptr, nil}
use libtask.Sched.{Sys, taskswitch, runs}
use libtask.Qlock.{blocks}
use libtask.Rwlock.{Rwlock}
use libtask.Rwlock.Lists.{Fit, Stand-lock}
use libtask.Rwlock.Acquire.{Blocked}
use libtask.Rwlock.Grant.{ToWriter}
use libtask.Rwlock.System.{World, Free}
use libtask.Rwlock.Invariant.{Inv, Sharing, Owner, switch-Stand}

module _ (w : World) (rs ps qs hs ws : List Ptr) (i : Inv w rs ps qs hs ws) where
  -- One reader more.
  pub read_got-Inv :
      Free w
      → Fit (record w.lock { readers = w.lock.readers + 1 }) ps qs
      → Sharing (record w {
        lock = record w.lock { readers = w.lock.readers + 1 };
        reads = update w.reads w.sys.running (w.reads w.sys.running + 1);
      })
  read_got-Inv free fit =
      let r : Ptr = w.sys.running in
      (
        rs,
        ps,
        qs,
        r ∷ hs,
        ws,
        record {
          stand = Stand-lock (w.lock.readers + 1) w.lock.writer i.stand;
          running = i.running;
          fit = fit;
          readers = omega (arith, i.readers);
          owner = i.owner;
          readings = λ a. omega (arith, i.readings a, count-cons a r hs, count-up w.reads r a);
          writings = i.writings;
          read_waits = i.read_waits;
          write_waits = i.write_waits;
        },
      )

  -- The running task joins those that wait to read.
  pub read_wait-Inv :
      (m : Rwlock) (u v : Sys)
      → Free w
      → Blocked (blocks, m, u) rs (ps ++ (w.sys.running ∷ [])) qs
      → m.readers ≡ w.lock.readers
      → m.writer ≡ w.lock.writer
      → taskswitch u ≡ runs v
      → Sharing (record w { sys = v; lock = m; rwaits = update w.rwaits w.sys.running true })
  read_wait-Inv m u v free b same_readers same_writer e =
      let r : Ptr = w.sys.running in
      let (rest, stand, fresh) = switch-Stand u v m rs (ps ++ (r ∷ [])) qs e b.1 in
      (
        rest,
        ps ++ (r ∷ []),
        qs,
        hs,
        ws,
        record {
          stand = stand;
          running = fresh;
          fit = b.2;
          readers = same_readers ∙ i.readers;
          owner = subst (λ t. Owner t ws) (sym same_writer) i.owner;
          readings = λ a. omega (counting, i.readings a, bit-on w.rwaits r a free.0);
          writings = i.writings;
          read_waits = λ a. omega (counting, i.read_waits a, bit-on w.rwaits r a free.0);
          write_waits = i.write_waits;
        },
      )

  -- The running task, which has been handed the lock to read, comes back from `rlock`.
  pub read_resume-Inv :
      w.rwaits w.sys.running ≡ true
      → Sharing (record w {
        rwaits = update w.rwaits w.sys.running false;
        reads = update w.reads w.sys.running (w.reads w.sys.running + 1);
      })
  read_resume-Inv waited =
      let r : Ptr = w.sys.running in
      let out : Distinct (r ∷ ps) =
        Distinct-fewer (r ∷ nil ∷ rs ++ (ps ++ qs)) (r ∷ ps) (λ a. omega counting)
          (i.running, i.stand.distinct) in
      (
        rs,
        ps,
        qs,
        hs,
        ws,
        record {
          stand = i.stand;
          running = i.running;
          fit = i.fit;
          readers = i.readers;
          owner = i.owner;
          readings =
              λ a. omega (arith, i.readings a, count-up w.reads r a, bit-off w.rwaits r a waited);
          writings = i.writings;
          read_waits = λ a. omega (
            arith,
            i.read_waits a,
            count_of_Distinct a (r ∷ ps) out,
            count-cons a r ps,
            hit_le a r,
            bit-off w.rwaits r a waited,
          );
          write_waits = i.write_waits;
        },
      )

  -- A reader leaves, and no writer comes in its place.
  pub less-Inv :
      (ks : List Ptr)
      → Free w
      → w.reads w.sys.running ≢ 0
      → length hs ≡ suc (length ks)
      → ((a : Ptr) → count a ks + hit a w.sys.running ≡ count a hs)
      → Fit (record w.lock { readers = w.lock.readers - 1 }) ps qs
      → Sharing (record w {
        lock = record w.lock { readers = w.lock.readers - 1 };
        reads = update w.reads w.sys.running (w.reads w.sys.running - 1);
      })
  less-Inv ks free n l h fit =
      let r : Ptr = w.sys.running in
      (
        rs,
        ps,
        qs,
        ks,
        ws,
        record {
          stand = Stand-lock (w.lock.readers - 1) w.lock.writer i.stand;
          running = i.running;
          fit = fit;
          readers = omega (arith, i.readers);
          owner = i.owner;
          readings = λ a. omega (arith, i.readings a, h a, count-down w.reads r a n);
          writings = i.writings;
          read_waits = i.read_waits;
          write_waits = i.write_waits;
        },
      )

  -- The last reader leaves, and the writer `t` gets the lock.
  pub last-Inv :
      (ks : List Ptr) (t : Ptr) (rest : List Ptr) (m : Rwlock) (u : Sys)
      → w.reads w.sys.running ≢ 0
      → length hs ≡ suc (length ks)
      → ((a : Ptr) → count a ks + hit a w.sys.running ≡ count a hs)
      → w.lock.readers ≡ 1
      → qs ≡ t ∷ rest
      → t ≢ nil
      → u.running ≡ w.sys.running
      → ToWriter m u t rs ps rest
      → Sharing (record w {
        sys = u;
        lock = m;
        reads = update w.reads w.sys.running (w.reads w.sys.running - 1);
      })
  last-Inv ks t rest m u n l h one e some_writer same g =
      let r : Ptr = w.sys.running in
      let none_owns : (a : Ptr) → count a ws ≡ 0 = elim i.owner [
        | inl (_, z) ↦ λ a. ap (count a) z ∙ count-nil a
        | inr (z, _) ↦ elim i.fit.alone [ inl k ↦ absurd (z k) | inr k ↦ absurd (omega arith) ]
      ] in
      (
        rs ++ (t ∷ []),
        ps,
        rest,
        ks,
        t ∷ [],
        record {
          stand = g.stand;
          running =
              subst (λ a. Fresh a (nil ∷ (rs ++ (t ∷ [])) ++ (ps ++ rest))) (sym same)
                (Fresh-fewer r (nil ∷ rs ++ (ps ++ qs)) (nil ∷ (rs ++ (t ∷ [])) ++ (ps ++ rest))
                  (λ a. omega (counting, ap (count a) e)) i.running);
          fit = g.fit;
          readers = g.readers ∙ omega (arith, i.readers);
          owner = inr ((λ z. some_writer (sym g.writer ∙ z)), ap (λ a. a ∷ []) (sym g.writer));
          readings = λ a. omega (arith, i.readings a, h a, count-down w.reads r a n);
          writings = λ a. omega (counting, i.writings a, none_owns a, ap (count a) e);
          read_waits = i.read_waits;
          write_waits = λ a. omega (counting, i.write_waits a, ap (count a) e);
        },
      )
