-- ===== src/Rwlock/Same.antt =====
-- What the calls of a reader-writer lock leave as it was.
use libtask.Base.{
  ℕ, zero, suc, ◌≡◌, refl, ◌≢◌, Option, ◌∙◌, sym, ap, Bool-cases, true, some, none, inl, inr, ◌&&◌,
  ◌==◌, not,
}
use mathlib.Core.Option
use libtask.Tasklist.{nil}
use libtask.Sched.{Sys, ok, aborts}
use libtask.Waiting.Moves.{wake-running}
use libtask.Qlock.{Attempt, got, blocks}
use libtask.Rwlock.{
  Rwlock, rlock_enter, wlock_enter, grant_writer, runlock, wake_readers, wunlock, sub_int,
}

pub got-not-blocks :
    {m n : Rwlock} {u v : Sys} → ◌≡◌ {A = Attempt × Rwlock × Sys} (got, m, u) (blocks, n, v) → ⊥
got-not-blocks e = cc

pub aborts-not-ok : {A : Type 0} {a : A} → some aborts ≢ some (ok a)
aborts-not-ok e = cc

-- Who waits does not change who has the lock.
pub rlock_enter-blocked :
    (l : Rwlock) (s : Sys) (m : Rwlock) (u : Sys)
    → rlock_enter true l s ≡ (blocks, m, u)
    → (m.readers ≡ l.readers) × (m.writer ≡ l.writer)
unfolding rlock_enter
rlock_enter-blocked l s m u e = elim (Bool-cases ((l.writer == nil) && (l.wwaiting.head == nil))) [
  | inl t ↦ let k = rw t at e in absurd (got-not-blocks k)
  | inr f ↦ let k = rw f at e in (ap (λ r. r.1.readers) (sym k), ap (λ r. r.1.writer) (sym k))
]

pub wlock_enter-blocked :
    (l : Rwlock) (s : Sys) (m : Rwlock) (u : Sys)
    → wlock_enter true l s ≡ (blocks, m, u)
    → (m.readers ≡ l.readers) × (m.writer ≡ l.writer)
unfolding wlock_enter
wlock_enter-blocked l s m u e = elim (Bool-cases ((l.writer == nil) && (l.readers == 0))) [
  | inl t ↦ let k = rw t at e in absurd (got-not-blocks k)
  | inr f ↦ let k = rw f at e in (ap (λ r. r.1.readers) (sym k), ap (λ r. r.1.writer) (sym k))
]

grant_writer-running : (l : Rwlock) (s : Sys) → (grant_writer l s).1.running ≡ s.running
unfolding grant_writer
grant_writer-running l s = elim (Bool-cases ((l.readers == 0) && not (l.wwaiting.head == nil))) [
  | inl t ↦ rw t (wake-running l.wwaiting l.wwaiting.head s)
  | inr f ↦ rw f
]

pub runlock-running : (l : Rwlock) (s : Sys) → (runlock l s).1.running ≡ s.running
unfolding runlock
runlock-running l s = grant_writer-running (record l { readers = sub_int l.readers }) s

wake_readers-running :
    (fuel : ℕ) (l : Rwlock) (s : Sys) (m : Rwlock) (u : Sys)
    → wake_readers fuel l s ≡ some (m, u)
    → u.running ≡ s.running
unfolding wake_readers
wake_readers-running zero l s m u e = cc
wake_readers-running (suc fuel) l s m u e = elim (Bool-cases (l.rwaiting.head == nil)) [
  | inl t ↦ let k = rw t at e in cc
  | inr f ↦
      let k = rw f at e in
      wake_readers-running fuel _ _ m u k ∙ wake-running l.rwaiting l.rwaiting.head s
]

granted-running :
    (r : Option (Rwlock × Sys)) (s : Sys) (m : Rwlock) (u : Sys)
    → Option.map (λ (x : Rwlock × Sys). ok (grant_writer x.0 x.1)) r ≡ some (ok (m, u))
    → ((l : Rwlock) (v : Sys) → r ≡ some (l, v) → v.running ≡ s.running)
    → u.running ≡ s.running
granted-running none s m u e same = cc
granted-running (some (l, v)) s m u e same =
    let k : grant_writer l v ≡ (m, u) = cc in
    ap (λ x. x.1.running) (sym k) ∙ grant_writer-running l v ∙ same l v refl

pub wunlock-running :
    (fuel : ℕ) (l : Rwlock) (s : Sys) (m : Rwlock) (u : Sys)
    → wunlock fuel l s ≡ some (ok (m, u))
    → u.running ≡ s.running
unfolding wunlock
wunlock-running fuel l s m u e = elim (Bool-cases (l.writer == nil)) [
  | inl t ↦ let k = rw t at e in absurd (aborts-not-ok k)
  | inr f ↦ elim (Bool-cases (l.readers == 0)) [
    | inl z ↦
        let k = rw (f, z) at e in
        granted-running (wake_readers fuel (record l { writer = nil }) s) s m u k
          (λ n v x. wake_readers-running fuel (record l { writer = nil }) s n v x)
    | inr n ↦ let k = rw (f, n) at e in absurd (aborts-not-ok k)
  ]
]
