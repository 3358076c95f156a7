-- ===== src/Rwlock/Writing.antt =====
-- Taking and giving back a reader-writer lock to write keeps what its tasks rely on.
use libtask.Base.{
  ◌+◌, ◌≡◌, refl, ◌≢◌, inl, inr, sym, ◌∙◌, subst, ap, true, false, List, [], ◌∷◌, ◌++◌, arith,
  Fresh, Distinct, update, bit, bit-on, bit-off, hit_le, length, count, count_of_Distinct,
  count_of_Fresh, counting, count-nil, count-cons, Distinct-fewer, Fresh-fewer, Within,
}
use libtask.Tasklist.{Ptr, nil}
use libtask.Sched.{Sys, taskswitch, runs}
use libtask.Qlock.{blocks}
use libtask.Rwlock.{Rwlock}
use libtask.Rwlock.Lists.{Stand, Fit, Stand-lock}
use libtask.Rwlock.Acquire.{Writable, Blocked}
use libtask.Rwlock.Grant.{writer-not-nil}
use libtask.Rwlock.Wunlock.{Passed}
use libtask.Rwlock.System.{World, Free}
use libtask.Rwlock.Invariant.{
  bit-zero, length-zero, Owner-once, Owner-is, Owner-free, Inv, Sharing, Owner, switch-Stand,
}

module _ (w : World) (rs ps qs hs ws : List Ptr) (i : Inv w rs ps qs hs ws) where
  runner_absent : count w.sys.running qs ≡ 0
  runner_absent =
      count_of_Fresh w.sys.running qs
        (Fresh-fewer w.sys.running (nil ∷ rs ++ (ps ++ qs)) qs (λ a. omega counting) i.running)

  -- The running task is the writer.
  pub write_got-Inv :
      Free w
      → Writable w.lock
      → Fit (record w.lock { writer = w.sys.running }) ps qs
      → Sharing (record w {
        lock = record w.lock { writer = w.sys.running };
        writes = update w.writes w.sys.running true;
      })
  write_got-Inv free (unowned, idle) fit =
      let r : Ptr = w.sys.running in
      let none_owns = λ (a : Ptr). Owner-free a unowned i.owner in
      let unmarked : w.writes r ≡ false =
        bit-zero (w.writes r) (omega (arith, i.writings r, none_owns r, runner_absent)) in
      (
        rs,
        ps,
        qs,
        hs,
        r ∷ [],
        record {
          stand = Stand-lock w.lock.readers r i.stand;
          running = i.running;
          fit = fit;
          readers = i.readers;
          owner = inr (i.running.0, refl);
          readings = i.readings;
          writings = λ a. omega (counting, i.writings a, none_owns a, bit-on w.writes r a unmarked);
          read_waits = i.read_waits;
          write_waits = i.write_waits;
        },
      )

  -- The running task joins those that wait to write.
  pub write_wait-Inv :
      (m : Rwlock) (u v : Sys)
      → Free w
      → Blocked (blocks, m, u) rs ps (qs ++ (w.sys.running ∷ []))
      → m.readers ≡ w.lock.readers
      → m.writer ≡ w.lock.writer
      → taskswitch u ≡ runs v
      → Sharing (record w { sys = v; lock = m; wwaits = update w.wwaits w.sys.running true })
  write_wait-Inv m u v free b same_readers same_writer e =
      let r : Ptr = w.sys.running in
      let (rest, stand, fresh) = switch-Stand u v m rs ps (qs ++ (r ∷ [])) e b.1 in
      (
        rest,
        ps,
        qs ++ (r ∷ []),
        hs,
        ws,
        record {
          stand = stand;
          running = fresh;
          fit = b.2;
          readers = same_readers ∙ i.readers;
          owner = subst (λ t. Owner t ws) (sym same_writer) i.owner;
          readings = i.readings;
          writings = λ a. omega (counting, i.writings a, bit-on w.wwaits r a free.1);
          read_waits = i.read_waits;
          write_waits = λ a. omega (counting, i.write_waits a, bit-on w.wwaits r a free.1);
        },
      )

  -- The running task, which has been handed the lock to write, comes back from `wlock`.
  pub write_resume-Inv :
      w.wwaits w.sys.running ≡ true
      → Sharing (record w {
        wwaits = update w.wwaits w.sys.running false;
        writes = update w.writes w.sys.running true;
      })
  write_resume-Inv waited =
      let r : Ptr = w.sys.running in
      let out : Distinct (r ∷ qs) =
        Distinct-fewer (r ∷ nil ∷ rs ++ (ps ++ qs)) (r ∷ qs) (λ a. omega counting)
          (i.running, i.stand.distinct) in
      let unmarked : w.writes r ≡ false =
        bit-zero (w.writes r)
          (omega (arith, i.writings r, Owner-once r i.owner, runner_absent, ap bit waited)) in
      (
        rs,
        ps,
        qs,
        hs,
        ws,
        record {
          stand = i.stand;
          running = i.running;
          fit = i.fit;
          readers = i.readers;
          owner = i.owner;
          readings = i.readings;
          writings = λ a.
              omega
                (arith, i.writings a, bit-on w.writes r a unmarked, bit-off w.wwaits r a waited);
          read_waits = i.read_waits;
          write_waits = λ a. omega (
            arith,
            i.write_waits a,
            count_of_Distinct a (r ∷ qs) out,
            count-cons a r qs,
            hit_le a r,
            bit-off w.wwaits r a waited,
          );
        },
      )

  -- Who has the lock to write is its writer, and no task reads.
  pub writing-alone :
      (a : Ptr)
      → count a ws ≢ 0
      → (w.lock.writer ≡ a) × (ws ≡ a ∷ []) × (w.lock.readers ≡ 0) × ((b : Ptr) → count b hs ≡ 0)
  writing-alone a n =
      let (own, only) = Owner-is a n i.owner in
      let used : w.lock.writer ≢ nil = elim i.owner [
        | inl (_, e) ↦ absurd (n (ap (count a) e ∙ count-nil a))
        | inr (u, _) ↦ u
      ] in
      let idle : w.lock.readers ≡ 0 = elim i.fit.alone [ inl e ↦ absurd (used e) | inr z ↦ z ] in
      (own, only, idle, λ b. length-zero b hs (sym i.readers ∙ idle))

  -- The writer gives the lock to `ks` to read and to `vs` to write.
  pub pass-Inv :
      (m : Rwlock) (u : Sys) (ss xs ys ks vs : List Ptr)
      → Free w
      → w.writes w.sys.running ≡ true
      → u.running ≡ w.sys.running
      → Stand u m ss xs ys
      → Fit m xs ys
      → m.readers ≡ length ks
      → Owner m.writer vs
      → ((a : Ptr) → count a ks + count a xs ≡ count a ps)
      → ((a : Ptr) → count a vs + count a ys ≡ count a qs)
      → Within (ss ++ (xs ++ ys)) (rs ++ (ps ++ qs))
      → Sharing (record w { sys = u; lock = m; writes = update w.writes w.sys.running false })
  pass-Inv m u ss xs ys ks vs free mark same stand fit number owner to_read to_write fewer =
      let r : Ptr = w.sys.running in
      let mine : count r ws ≢ 0 = λ z. omega (arith, i.writings r, runner_absent, ap bit mark) in
      let (_, only, _, none_reads) = writing-alone r mine in
      (
        ss,
        xs,
        ys,
        ks,
        vs,
        record {
          stand = stand;
          running =
              subst (λ a. Fresh a (nil ∷ ss ++ (xs ++ ys))) (sym same)
                (Fresh-fewer r (nil ∷ rs ++ (ps ++ qs)) (nil ∷ ss ++ (xs ++ ys))
                  (λ a. omega (counting, fewer a)) i.running);
          fit = fit;
          readers = number;
          owner = owner;
          readings = λ a. omega (arith, i.readings a, none_reads a, to_read a);
          writings = λ a.
              omega
                (counting, i.writings a, ap (count a) only, to_write a, bit-off w.writes r a mark);
          read_waits = λ a. omega (arith, i.read_waits a, to_read a);
          write_waits = λ a. omega (arith, i.write_waits a, to_write a);
        },
      )

  -- The three ways in which `wunlock` passes the lock on.
  pub Passed-Inv :
      (m : Rwlock) (u : Sys)
      → Free w
      → w.writes w.sys.running ≡ true
      → u.running ≡ w.sys.running
      → Passed m u rs ps qs
      → Sharing (record w { sys = u; lock = m; writes = update w.writes w.sys.running false })
  Passed-Inv m u free mark same (inl (_, g)) =
      pass-Inv m u (rs ++ ps) [] qs ps [] free mark same g.stand g.fit g.readers
        (inl (g.writer, refl)) (λ a. omega counting) (λ a. omega counting) (λ a. omega counting)
  Passed-Inv m u free mark same (inr (inl (t, rest, e, k, g))) =
      let used = writer-not-nil (subst (Stand w.sys w.lock rs ps) k i.stand) in
      pass-Inv m u (rs ++ (t ∷ [])) [] rest [] (t ∷ []) free mark same g.stand g.fit g.readers
        (inr ((λ z. used (sym g.writer ∙ z)), ap (λ a. a ∷ []) (sym g.writer)))
        (λ a. omega (counting, ap (count a) e)) (λ a. omega (counting, ap (count a) k))
        (λ a. omega (counting, ap (count a) e, ap (count a) k))
  Passed-Inv m u free mark same (inr (inr (e, k, unowned, idle, stand))) =
      pass-Inv m u rs [] [] [] [] free mark same stand
        (record {
          alone = inl unowned;
          readers_wait = inl refl;
          writers_wait = inl refl;
          small = omega arith;
        })
        idle (inl (unowned, refl)) (λ a. omega (counting, ap (count a) e))
        (λ a. omega (counting, ap (count a) k))
        (λ a. omega (counting, ap (count a) e, ap (count a) k))
