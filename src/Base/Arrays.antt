-- ===== src/Base/Arrays.antt =====
-- Arrays of numbers, of which the first entries are used: how often each number occurs, and sums.
use Prim.Native.Nat.{ℕ, zero, suc, ◌+◌, ◌≤◌, ◌<◌}
use mathlib.Core.Path.{◌≡◌, refl, sym, ap, subst}
use mathlib.Core.Logic.{◌≢◌}
use mathlib.Core.List.{List, [], ◌∷◌}
use native.Mathlib.Omega.{arith}
use native.Mathlib.Decide.{ℕ_discrete}
use libtask.Base.Lists.{length, take, set, get_or}
use libtask.Base.Seqs.{count, count-nil, count-cons, hit}

pub count-take :
    (x n : ℕ) (xs : List ℕ)
    → n < length xs
    → count x (take (suc n) xs) ≡ count x (take n xs) + hit x (get_or xs n 0)
count-take x n [] h = absurd (omega arith)
count-take x zero (y ∷ xs) h = omega (arith, count-cons x y [], count-nil x)
count-take x (suc n) (y ∷ xs) h = omega (
  arith,
  count-cons x y (take (suc n) xs),
  count-cons x y (take n xs),
  count-take x n xs (omega arith),
)

pub take-set_ge : (n i : ℕ) (v : ℕ) (xs : List ℕ) → n ≤ i → take n (set xs i v) ≡ take n xs
take-set_ge zero i v xs h = refl
take-set_ge (suc n) i v [] h = refl
take-set_ge (suc n) zero v (y ∷ xs) h = absurd (omega arith)
take-set_ge (suc n) (suc i) v (y ∷ xs) h = ap (λ ys. y ∷ ys) (take-set_ge n i v xs (omega arith))

-- Overwriting an entry swaps it for the new one.
pub count-set :
    (x n i : ℕ) (v : ℕ) (xs : List ℕ)
    → i < n
    → n ≤ length xs
    → count x (take n (set xs i v)) + hit x (get_or xs i 0) ≡ count x (take n xs) + hit x v
count-set x zero i v xs h k = absurd (omega arith)
count-set x (suc n) i v [] h k = absurd (omega arith)
count-set x (suc n) zero v (y ∷ xs) h k =
    omega (arith, count-cons x v (take n xs), count-cons x y (take n xs))
count-set x (suc n) (suc i) v (y ∷ xs) h k = omega (
  arith,
  count-cons x y (take n (set xs i v)),
  count-cons x y (take n xs),
  count-set x n i v xs (omega arith) (omega arith),
)

-- The last of `suc m` entries moves into the place of entry `i`.
pub count-moved :
    (x m i : ℕ) (xs : List ℕ)
    → i < suc m
    → suc m ≤ length xs
    → count x (take m (set xs i (get_or xs m 0))) + hit x (get_or xs i 0)
      ≡ count x (take (suc m) xs)
count-moved x m i xs h k = elim (ℕ_discrete i m) [
  | yes e ↦
      subst
        (λ j.
          count x (take m (set xs j (get_or xs m 0))) + hit x (get_or xs j 0)
          ≡ count x (take (suc m) xs))
        (sym e)
        (omega (
          arith,
          ap (count x) (take-set_ge m m (get_or xs m 0) xs (omega arith)),
          count-take x m xs (omega arith),
        ))
  | no n ↦ omega (
    arith,
    count-set x m i (get_or xs m 0) xs (omega arith) (omega arith),
    count-take x m xs (omega arith),
  )
]

-- The sum of `h 0` to `h (n - 1)`.
pub total : (ℕ → ℕ) → ℕ → ℕ
total h zero = 0
total h (suc n) = total h n + h n

total-same : (g h : ℕ → ℕ) (n : ℕ) → ((j : ℕ) → j < n → g j ≡ h j) → total g n ≡ total h n
unfolding total
total-same g h zero e = refl
total-same g h (suc n) e =
    omega (arith, total-same g h n (λ j l. e j (omega arith)), e n (omega arith))

-- Two sums that differ in one term.
total-swap :
    (g h : ℕ → ℕ) (n i : ℕ)
    → i < n
    → ((j : ℕ) → j < n → j ≢ i → g j ≡ h j)
    → total g n + h i ≡ total h n + g i
unfolding total
total-swap g h zero i l e = absurd (omega arith)
total-swap g h (suc n) i l e = elim (ℕ_discrete i n) [
  | yes k ↦
      subst (λ m. (total g n + g n) + h m ≡ (total h n + h n) + g m) (sym k)
        (omega (arith, total-same g h n (λ j l. e j (omega arith) (λ q. omega arith))))
  | no k ↦ omega (
    arith,
    total-swap g h n i (omega arith) (λ j l. e j (omega arith)),
    e n (omega arith) (λ q. k (sym q)),
  )
]

-- The last of `suc m` terms moves into the place of term `i`.
pub total-moved :
    (g h : ℕ → ℕ) (m i : ℕ)
    → i < suc m
    → ((j : ℕ) → j < m → j ≢ i → g j ≡ h j)
    → (i < m → g i ≡ h m)
    → total g m + h i ≡ total h (suc m)
unfolding total
total-moved g h m i l e k = elim (ℕ_discrete i m) [
  | yes q ↦
      subst (λ n. total g m + h n ≡ total h m + h m) (sym q)
        (omega (arith, total-same g h m (λ j l. e j l (λ z. omega arith))))
  | no n ↦ omega (arith, total-swap g h m i (omega arith) e, k (omega arith))
]

pub total-zero : (h : ℕ → ℕ) (n : ℕ) → ((j : ℕ) → j < n → h j ≡ 0) → total h n ≡ 0
unfolding total
total-zero h zero e = refl
total-zero h (suc n) e = omega (arith, total-zero h n (λ j l. e j (omega arith)), e n (omega arith))
