-- ===== src/Rwlock/Preserve.antt =====
-- What the tasks of a reader-writer lock rely on holds in every state that a program reaches.
use libtask.Base.{
  ℕ, ◌≡◌, refl, [], ◌∷◌, ◌++◌, List, inl, Distinct-fewer, Fresh-fewer, Apart-fewer, Fresh, counting,
  arith,
}
use libtask.Tasklist.{Ptr, nil}
use libtask.Tasklist.Chain.{Holds-empty, Holds-frame}
use libtask.Sched.{Sys, taskyield_enter, taskexit_enter, taskswitch, runs, taskready, taskstate}
use libtask.Waiting.Moves.{taskready-Split}
use libtask.Rwlock.{Rwlock}
use libtask.Rwlock.Lists.{Stand, readers-Split}
use libtask.Rwlock.System.{
  World, Step, Reach, start, later, read_got, read_wait, read_refused, write_got, write_wait,
  write_refused, read_resume, write_resume, unread, unwrite, yields, exits,
}
use libtask.Rwlock.Invariant.{Inv, Sharing, switch-Stand}
use libtask.Rwlock.Reading.{read_resume-Inv}
use libtask.Rwlock.ReadMoves.{Step-read_got, Step-read_wait, Step-read_refused, Step-unread}
use libtask.Rwlock.Writing.{write_resume-Inv}
use libtask.Rwlock.WriteMoves.{Step-write_got, Step-write_wait, Step-write_refused, Step-unwrite}

-- A task that stands nowhere is made ready.
taskready-Stand :
    (s : Sys) (l : Rwlock) (t : Ptr) (rs ps qs : List Ptr)
    → Stand s l rs ps qs
    → Fresh t (nil ∷ rs ++ (ps ++ qs))
    → Stand (taskready t s) l (rs ++ (t ∷ [])) ps qs
taskready-Stand s l t rs ps qs v f =
    let order = t ∷ nil ∷ rs ++ (ps ++ qs) in
    let (split, same) =
      taskready-Split s l.rwaiting t rs ps (readers-Split v)
        (Fresh-fewer t (nil ∷ rs ++ (ps ++ qs)) (nil ∷ rs ++ ps) (λ a. omega counting) f) in
    record {
      queued = split.queued;
      rwaiting = split.waiting;
      wwaiting =
          Holds-frame s.links _ l.wwaiting (t ∷ rs) qs same
            (Apart-fewer order qs (t ∷ rs) (λ a. omega counting) (f, v.distinct)) v.wwaiting;
      distinct =
          Distinct-fewer order (nil ∷ (rs ++ (t ∷ [])) ++ (ps ++ qs)) (λ a. omega counting)
            (f, v.distinct);
    }

-- The running task, in none of the three places or ready again, gives up the processor.
switch-Sharing :
    (w : World) (u v : Sys) (rs ps qs hs ws : List Ptr) (ready : List Ptr)
    → Inv w rs ps qs hs ws
    → Stand u w.lock ready ps qs
    → taskswitch u ≡ runs v
    → Sharing (record w { sys = v })
switch-Sharing w u v rs ps qs hs ws ready i stand e =
    let (rest, after, fresh) = switch-Stand u v w.lock ready ps qs e stand in
    (
      rest,
      ps,
      qs,
      hs,
      ws,
      record {
        stand = after;
        running = fresh;
        fit = i.fit;
        readers = i.readers;
        owner = i.owner;
        readings = i.readings;
        writings = i.writings;
        read_waits = i.read_waits;
        write_waits = i.write_waits;
      },
    )

Step-yields :
    (w : World) (v : Sys)
    → taskswitch (taskyield_enter w.sys) ≡ runs v
    → Sharing w
    → Sharing (record w { sys = v })
unfolding taskyield_enter taskstate
Step-yields w v e (rs, ps, qs, hs, ws, i) =
    let s = taskready-Stand w.sys w.lock w.sys.running rs ps qs i.stand i.running in
    switch-Sharing w _ v rs ps qs hs ws (rs ++ (w.sys.running ∷ [])) i
      (record {
        queued = s.queued;
        rwaiting = s.rwaiting;
        wwaiting = s.wwaiting;
        distinct = s.distinct;
      })
      e

Step-exits :
    (w : World) (v : Sys) (val : ℕ)
    → taskswitch (taskexit_enter val w.sys) ≡ runs v
    → Sharing w
    → Sharing (record w { sys = v })
unfolding taskexit_enter
Step-exits w v val e (rs, ps, qs, hs, ws, i) =
    let s = i.stand in
    switch-Sharing w _ v rs ps qs hs ws rs i
      (record {
        queued = s.queued;
        rwaiting = s.rwaiting;
        wwaiting = s.wwaiting;
        distinct = s.distinct;
      })
      e

-- Every move keeps the invariant.
Step-Inv : {w x : World} → Step w x → Sharing w → Sharing x
Step-Inv {w} (read_got block free room q) h = Step-read_got w block _ _ free room q h
Step-Inv {w} (read_wait u free room q e) h = Step-read_wait w _ u _ free room q e h
Step-Inv {w} (read_refused free room q) h = Step-read_refused w _ _ free room q h
Step-Inv {w} (write_got block free q) h = Step-write_got w block _ _ free q h
Step-Inv {w} (write_wait u free q e) h = Step-write_wait w _ u _ free q e h
Step-Inv {w} (write_refused free q) h = Step-write_refused w _ _ q h
Step-Inv {w} (read_resume back) (rs, ps, qs, hs, ws, i) = read_resume-Inv w rs ps qs hs ws i back
Step-Inv {w} (write_resume back) (rs, ps, qs, hs, ws, i) = write_resume-Inv w rs ps qs hs ws i back
Step-Inv {w} (unread free n q) h = Step-unread w _ _ free n q h
Step-Inv {w} (unwrite fuel free mark room q) h = Step-unwrite w fuel _ _ free mark room q h
Step-Inv {w} (yields free e) h = Step-yields w _ e h
Step-Inv {w} (exits val free e) h = Step-exits w _ val e h

pub Reach-Inv : {w : World} → Reach w → Sharing w
Reach-Inv (start s rs q d) = (
  rs,
  [],
  [],
  [],
  [],
  record {
    stand = record {
      queued = q;
      rwaiting = Holds-empty s.links;
      wwaiting = Holds-empty s.links;
      distinct = Distinct-fewer (nil ∷ rs) (nil ∷ rs ++ ([] ++ [])) (λ a. omega counting) d.1;
    };
    running = Fresh-fewer s.running (nil ∷ rs) (nil ∷ rs ++ ([] ++ [])) (λ a. omega counting) d.0;
    fit = record {
      alone = inl refl;
      readers_wait = inl refl;
      writers_wait = inl refl;
      small = omega arith;
    };
    readers = refl;
    owner = inl (refl, refl);
    readings = λ a. omega counting;
    writings = λ a. omega counting;
    read_waits = λ a. omega counting;
    write_waits = λ a. omega counting;
  },
)
Reach-Inv (later r s) = Step-Inv s (Reach-Inv r)
