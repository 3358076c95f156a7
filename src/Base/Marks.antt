-- ===== src/Base/Marks.antt =====
-- Marks and counters of numbers, changed at one of them, by how often a number occurs.
use Prim.Native.Nat.{ℕ, suc, ◌+◌, ◌-◌, ◌≤◌}
use mathlib.Core.Path.{◌≡◌, refl, sym, ap}
use mathlib.Core.Logic.{◌≢◌}
use mathlib.Core.Bool.{Bool, true, false}
use mathlib.Core.List.{List, [], ◌∷◌}
use native.Mathlib.Omega.{arith}
use native.Mathlib.Decide.{ℕ_discrete}
use libtask.Base.Tests.{update}
use libtask.Base.Lists.{length}
use libtask.Base.Seqs.{hit, hit_self, hit_ne, count, count-nil, count-cons}

abbrev pub bit : Bool → ℕ
bit false = 0
bit true = 1

pub hit_le : (a x : ℕ) → hit a x ≤ 1
hit_le a x = elim (ℕ_discrete a x) [
  | yes e ↦ omega (arith, ap (hit a) (sym e), hit_self a)
  | no n ↦ omega (arith, hit_ne a x n)
]

pub bit-on : (f : ℕ → Bool) (x a : ℕ) → f x ≡ false → bit (update f x true a) ≡ bit (f a) + hit a x
bit-on f x a e = elim (ℕ_discrete a x) [
  | yes k ↦ ground (arith, ap f k, ap (hit a) (sym k), hit_self a)
  | no n ↦ ground (arith, hit_ne a x n)
]

pub bit-off : (f : ℕ → Bool) (x a : ℕ) → f x ≡ true → bit (update f x false a) + hit a x ≡ bit (f a)
bit-off f x a e = elim (ℕ_discrete a x) [
  | yes k ↦ ground (arith, ap f k, ap (hit a) (sym k), hit_self a)
  | no n ↦ ground (arith, hit_ne a x n)
]

pub count-up : (f : ℕ → ℕ) (x a : ℕ) → update f x (f x + 1) a ≡ f a + hit a x
count-up f x a = elim (ℕ_discrete a x) [
  | yes k ↦ ground (arith, ap f k, ap (hit a) (sym k), hit_self a)
  | no n ↦ ground (arith, hit_ne a x n)
]

pub count-down : (f : ℕ → ℕ) (x a : ℕ) → f x ≢ 0 → update f x (f x - 1) a + hit a x ≡ f a
count-down f x a n = elim (ℕ_discrete a x) [
  | yes k ↦ ground (arith, ap f k, ap (hit a) (sym k), hit_self a)
  | no m ↦ ground (arith, hit_ne a x m)
]

-- One occurrence less.
pub without :
    (x : ℕ) (xs : List ℕ)
    → count x xs ≢ 0
    → (ys : List ℕ) × (length xs ≡ suc (length ys)) × ((a : ℕ) → count a ys + hit a x ≡ count a xs)
without x [] n = absurd (n (count-nil x))
without x (y ∷ xs) n = elim (ℕ_discrete x y) [
  | yes e ↦ (xs, refl, λ a. omega (arith, count-cons a y xs, ap (hit a) e))
  | no ne ↦
      let (ys, l, h) = without x xs (λ z. n (omega (arith, count-cons x y xs, hit_ne x y ne))) in
      (y ∷ ys, ap suc l, λ a. omega (arith, count-cons a y xs, count-cons a y ys, h a))
]
