-- ===== src/Rwlock/Invariant.antt =====
-- What holds between any two moves of a program on one reader-writer lock.
use libtask.Base.{
  ◌+◌, ◌≤◌, ◌≡◌, ◌≢◌, refl, sym, ◌∙◌, ap, inl, inr, ◌⊎◌, subst, List, [], ◌∷◌, ◌++◌, Fresh,
  Distinct, bit, length, count, count-nil, arith, Bool, true, false, hit_le, hit_ne, counting,
  Distinct-fewer, Apart-fewer, Fresh-fewer,
}
use native.Mathlib.Decide.{ℕ_discrete}
use libtask.Tasklist.{Ptr, nil}
use libtask.Tasklist.Chain.{Holds-frame}
use libtask.Sched.{Sys, taskswitch, runs}
use libtask.Waiting.Moves.{switch-Split}
use libtask.Rwlock.{Rwlock}
use libtask.Rwlock.Lists.{Stand, Fit, readers-Split}
use libtask.Rwlock.System.{World}

-- Who has the lock to write, as a sequence.
abbrev pub Owner : Ptr → List Ptr → Type 0
Owner writer ws = ((writer ≡ nil) × (ws ≡ [])) ⊎ ((writer ≢ nil) × (ws ≡ writer ∷ []))

-- The tasks `rs` are ready, `ps` wait to read and `qs` to write; `hs` have the lock to read, as often as
-- they stand in it, and `ws` to write. Those who have it have come back from their calls or, with the
-- lock handed over, not yet.
pub record Inv (w : World) (rs ps qs hs ws : List Ptr) : Type 0 where
  pub stand : Stand w.sys w.lock rs ps qs
  pub running : Fresh w.sys.running (nil ∷ rs ++ (ps ++ qs))
  pub fit : Fit w.lock ps qs
  pub readers : w.lock.readers ≡ length hs
  pub owner : Owner w.lock.writer ws
  pub readings : (a : Ptr) → count a hs + count a ps ≡ w.reads a + bit (w.rwaits a)
  pub writings : (a : Ptr) → count a ws + count a qs ≡ bit (w.writes a) + bit (w.wwaits a)
  pub read_waits : (a : Ptr) → count a ps ≤ bit (w.rwaits a)
  pub write_waits : (a : Ptr) → count a qs ≤ bit (w.wwaits a)

abbrev pub Sharing : World → Type 0
Sharing w =
    (rs : List Ptr) × (ps : List Ptr) × (qs : List Ptr) × (hs : List Ptr) × (ws : List Ptr) × Inv w
      rs ps qs hs ws

pub readers-not-nil : (rs ps qs : List Ptr) → Fresh nil (rs ++ (ps ++ qs)) → Fresh nil ps
readers-not-nil rs ps qs f = Fresh-fewer nil (rs ++ (ps ++ qs)) ps (λ a. omega counting) f

pub Owner-once : {t : Ptr} {ws : List Ptr} (a : Ptr) → Owner t ws → count a ws ≤ 1
Owner-once a (inl (_, e)) = omega (arith, ap (count a) e, count-nil a)
Owner-once {t} a (inr (_, e)) = omega (counting, ap (count a) e, hit_le a t)

pub Owner-free : {t : Ptr} {ws : List Ptr} (a : Ptr) → t ≡ nil → Owner t ws → count a ws ≡ 0
Owner-free a z (inl (_, e)) = ap (count a) e ∙ count-nil a
Owner-free a z (inr (n, _)) = absurd (n z)

pub Owner-is :
    {t : Ptr} {ws : List Ptr} (a : Ptr) → count a ws ≢ 0 → Owner t ws → (t ≡ a) × (ws ≡ a ∷ [])
Owner-is a n (inl (_, e)) = absurd (n (ap (count a) e ∙ count-nil a))
Owner-is {t} a n (inr (_, e)) = elim (ℕ_discrete a t) [
  | yes k ↦ (sym k, e ∙ ap (λ x. x ∷ []) (sym k))
  | no ne ↦ absurd (n (omega (counting, ap (count a) e, hit_ne a t ne)))
]

pub bit-zero : (b : Bool) → bit b ≡ 0 → b ≡ false
bit-zero false e = refl
bit-zero true e = absurd (omega arith)

pub length-zero : (a : Ptr) (hs : List Ptr) → length hs ≡ 0 → count a hs ≡ 0
length-zero a [] e = count-nil a
length-zero a (x ∷ hs) e = absurd (omega arith)

-- After a switch the first ready task runs, and all others stay where they are.
pub switch-Stand :
    (u v : Sys) (l : Rwlock) (rs ps qs : List Ptr)
    → taskswitch u ≡ runs v
    → Stand u l rs ps qs
    → (rest : List Ptr) × Stand v l rest ps qs × Fresh v.running (nil ∷ rest ++ (ps ++ qs))
switch-Stand u v l rs ps qs e s =
    let (rest, w) = switch-Split u v l.rwaiting rs ps e (readers-Split s) in
    let order = nil ∷ (v.running ∷ rest) ++ (ps ++ qs) in
    let all : Distinct order = subst (λ xs. Distinct (nil ∷ xs ++ (ps ++ qs))) w.front s.distinct in
    (
      rest,
      record {
        queued = w.split.queued;
        rwaiting = w.split.waiting;
        wwaiting =
            Holds-frame u.links v.links l.wwaiting rest qs w.same
              (Apart-fewer order qs rest (λ a. omega counting) all) s.wwaiting;
        distinct = Distinct-fewer order (nil ∷ rest ++ (ps ++ qs)) (λ a. omega counting) all;
      },
      (Distinct-fewer order (v.running ∷ nil ∷ rest ++ (ps ++ qs)) (λ a. omega counting) all).0,
    )
