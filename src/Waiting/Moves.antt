-- ===== src/Waiting/Moves.antt =====
-- A task that waits is on its list and on no other, and one that is woken is on the run queue.
use libtask.Base.{
  ◌≡◌, refl, sym, ◌∙◌, ap, subst, List, [], ◌∷◌, ◌++◌, Fresh, Distinct, Distinct-fewer, Apart-fewer,
  Fresh-fewer, counting,
}
use libtask.Tasklist.{Ptr, nil, Tasklist}
use libtask.Tasklist.Chain.{Holds, Holds-frame, SameOutside}
use libtask.Tasklist.Append.{addtask-append}
use libtask.Tasklist.Delete.{deltask-remove}
use libtask.Sched.{Sys, taskready, taskswitch, runs}
use libtask.Sched.Queue.{Queued, taskready-append, taskswitch-runs, links-retire}
use libtask.Waiting.{wait_on, wake}

-- The tasks `rs` are on the run queue and `ws` on the list `l`; none is on both or is null.
pub record Split (s : Sys) (l : Tasklist) (rs ws : List Ptr) : Type 0 where
  pub queued : Queued s rs
  pub waiting : Holds s.links l ws
  pub distinct : Distinct (nil ∷ rs ++ ws)

-- The running task goes to the end of the list; the run queue stays.
pub wait_on-Split :
    (s : Sys) (l : Tasklist) (rs ws : List Ptr)
    → Split s l rs ws
    → Fresh s.running (nil ∷ rs ++ ws)
    → Split (wait_on l s).1 (wait_on l s).0 rs (ws ++ (s.running ∷ []))
      × SameOutside (s.running ∷ ws) s.links (wait_on l s).1.links
unfolding wait_on
wait_on-Split s l rs ws v f =
    let t : Ptr = s.running in
    let all = t ∷ nil ∷ rs ++ ws in
    let d : Distinct all = (f, v.distinct) in
    let (holds, same) =
      addtask-append s.links l t ws (Distinct-fewer all (nil ∷ t ∷ ws) (λ a. omega counting) d)
        v.waiting in
    (
      record {
        queued =
            Holds-frame s.links _ s.runqueue (t ∷ ws) rs same
              (Apart-fewer all rs (t ∷ ws) (λ a. omega counting) d) v.queued;
        waiting = holds;
        distinct = Distinct-fewer all (nil ∷ rs ++ (ws ++ (t ∷ []))) (λ a. omega counting) d;
      },
      same,
    )

-- The first of the list goes to the end of the run queue.
pub wake-Split :
    (s : Sys) (l : Tasklist) (t : Ptr) (rs ws : List Ptr)
    → Split s l rs (t ∷ ws)
    → Split (wake l t s).1 (wake l t s).0 (rs ++ (t ∷ [])) ws
      × SameOutside (t ∷ rs ++ ws) s.links (wake l t s).1.links
unfolding wake
wake-Split s l t rs ws v =
    let all = nil ∷ rs ++ (t ∷ ws) in
    let d : Distinct all = v.distinct in
    let (holds, same) =
      deltask-remove s.links l t [] ws (Distinct-fewer all (nil ∷ t ∷ ws) (λ a. omega counting) d)
        v.waiting in
    let kept : Holds _ s.runqueue rs =
      Holds-frame s.links _ s.runqueue ws rs same (Apart-fewer all rs ws (λ a. omega counting) d)
        v.queued in
    let (queued, relinked, _) =
      taskready-append _ t rs (Distinct-fewer all (nil ∷ t ∷ rs) (λ a. omega counting) d) kept in
    (
      record {
        queued = queued;
        waiting =
            Holds-frame _ _ _ (t ∷ rs) ws relinked
              (Apart-fewer all ws (t ∷ rs) (λ a. omega counting) d) holds;
        distinct = Distinct-fewer all (nil ∷ (rs ++ (t ∷ [])) ++ ws) (λ a. omega counting) d;
      },
      λ a o.
          let before = same a (Fresh-fewer a (t ∷ rs ++ ws) ws (λ b. omega counting) o) in
          let after = relinked a (Fresh-fewer a (t ∷ rs ++ ws) (t ∷ rs) (λ b. omega counting) o) in
          (after.0 ∙ before.0, after.1 ∙ before.1),
    )

-- Neither move changes who runs.
pub wake-running : (l : Tasklist) (t : Ptr) (s : Sys) → (wake l t s).1.running ≡ s.running
unfolding wake taskready
wake-running l t s = refl

pub wait_on-running : (l : Tasklist) (s : Sys) → (wait_on l s).1.running ≡ s.running
unfolding wait_on
wait_on-running l s = refl

-- What a switch leaves: the first ready task runs, and the wait list is as it was.
pub record Switched (u v : Sys) (l : Tasklist) (rs rest ws : List Ptr) : Type 0 where
  pub front : rs ≡ v.running ∷ rest
  pub split : Split v l rest ws
  pub fresh : Fresh v.running (nil ∷ rest ++ ws)
  pub same : SameOutside rest u.links v.links

pub switch-Split :
    (u v : Sys) (l : Tasklist) (rs ws : List Ptr)
    → taskswitch u ≡ runs v
    → Split u l rs ws
    → (rest : List Ptr) × Switched u v l rs rest ws
switch-Split u v l rs ws e s =
    let ready = Distinct-fewer (nil ∷ rs ++ ws) (nil ∷ rs) (λ a. omega counting) s.distinct in
    let (t, rest, f, d) = taskswitch-runs u v rs ready s.queued e in
    let front : rs ≡ v.running ∷ rest = f ∙ ap (λ a. a ∷ rest) (sym d.running) in
    let all : Distinct (nil ∷ (v.running ∷ rest) ++ ws) =
      subst (λ xs. Distinct (nil ∷ xs ++ ws)) front s.distinct in
    let same : SameOutside rest u.links v.links =
      subst (λ h. SameOutside rest h v.links) (links-retire u.running u) d.same in
    let order = nil ∷ (v.running ∷ rest) ++ ws in
    (
      rest,
      record {
        front = front;
        split = record {
          queued = d.queued;
          waiting =
              Holds-frame u.links v.links l rest ws same
                (Apart-fewer order ws rest (λ a. omega counting) all) s.waiting;
          distinct = Distinct-fewer order (nil ∷ rest ++ ws) (λ a. omega counting) all;
        };
        fresh = (Distinct-fewer order (v.running ∷ nil ∷ rest ++ ws) (λ a. omega counting) all).0;
        same = same;
      },
    )

-- A task that is made ready was on neither list.
pub taskready-Split :
    (s : Sys) (l : Tasklist) (t : Ptr) (rs ws : List Ptr)
    → Split s l rs ws
    → Fresh t (nil ∷ rs ++ ws)
    → Split (taskready t s) l (rs ++ (t ∷ [])) ws
      × SameOutside (t ∷ rs) s.links (taskready t s).links
taskready-Split s l t rs ws v f =
    let all = t ∷ nil ∷ rs ++ ws in
    let d : Distinct all = (f, v.distinct) in
    let (queued, same, _) =
      taskready-append s t rs (Distinct-fewer all (nil ∷ t ∷ rs) (λ a. omega counting) d)
        v.queued in
    (
      record {
        queued = queued;
        waiting =
            Holds-frame s.links _ l (t ∷ rs) ws same
              (Apart-fewer all ws (t ∷ rs) (λ a. omega counting) d) v.waiting;
        distinct = Distinct-fewer all (nil ∷ (rs ++ (t ∷ [])) ++ ws) (λ a. omega counting) d;
      },
      same,
    )
