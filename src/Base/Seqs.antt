-- ===== src/Base/Seqs.antt =====
-- Predicates on sequences by recursion, which the tactics read: all, fresh, distinct.
use Prim.Native.Nat.{ℕ, ◌+◌, ◌≤◌}
use mathlib.Core.Path.{◌≡◌, refl, sym, ap}
use mathlib.Core.Logic.{◌≢◌}
use mathlib.Core.List.{List, [], ◌∷◌, ◌++◌}
use native.Mathlib.Omega.{arith}
use native.Mathlib.Decide.{ℕ_discrete}
use libtask.Base.Tests.{◌==◌, if◌then◌else◌}

abbrev pub All {ℓ κ} : {A : Type ℓ} → (A → Type κ) → List A → Type κ
All P [] = Unit
All P (x ∷ xs) = P x × All P xs

pub All-append {ℓ κ} :
    {A : Type ℓ} (P : A → Type κ) (xs ys : List A) → All P xs → All P ys → All P (xs ++ ys)
All-append P [] ys h k = k
All-append P (x ∷ xs) ys h k = (h.0, All-append P xs ys h.1 k)

pub All-append_left {ℓ κ} :
    {A : Type ℓ} (P : A → Type κ) (xs ys : List A) → All P (xs ++ ys) → All P xs
All-append_left P [] ys h = tt
All-append_left P (x ∷ xs) ys h = (h.0, All-append_left P xs ys h.1)

pub All-append_right {ℓ κ} :
    {A : Type ℓ} (P : A → Type κ) (xs ys : List A) → All P (xs ++ ys) → All P ys
All-append_right P [] ys h = h
All-append_right P (x ∷ xs) ys h = All-append_right P xs ys h.1

pub All-map {ℓ κ} :
    {A : Type ℓ} (P Q : A → Type κ) (xs : List A) → ((a : A) → P a → Q a) → All P xs → All Q xs
All-map P Q [] f h = tt
All-map P Q (x ∷ xs) f h = (f x h.0, All-map P Q xs f h.1)

-- `a` does not occur in the sequence.
abbrev pub Fresh : ℕ → List ℕ → Type 0
Fresh a xs = All (λ x. a ≢ x) xs

abbrev pub Distinct : List ℕ → Type 0
Distinct [] = Unit
Distinct (x ∷ xs) = Fresh x xs × Distinct xs

-- No element of the first occurs in the second.
abbrev pub Apart : List ℕ → List ℕ → Type 0
Apart xs ys = All (λ x. Fresh x ys) xs

pub Distinct-append_left : (xs ys : List ℕ) → Distinct (xs ++ ys) → Distinct xs
Distinct-append_left [] ys d = tt
Distinct-append_left (x ∷ xs) ys d =
    (All-append_left (λ y. x ≢ y) xs ys d.0, Distinct-append_left xs ys d.1)

pub Distinct-append_right : (xs ys : List ℕ) → Distinct (xs ++ ys) → Distinct ys
Distinct-append_right [] ys d = d
Distinct-append_right (x ∷ xs) ys d = Distinct-append_right xs ys d.1

pub Distinct-Apart : (xs ys : List ℕ) → Distinct (xs ++ ys) → Apart xs ys
Distinct-Apart [] ys d = tt
Distinct-Apart (x ∷ xs) ys d = (All-append_right (λ y. x ≢ y) xs ys d.0, Distinct-Apart xs ys d.1)

Apart-cons : (y : ℕ) (xs ys : List ℕ) → Fresh y xs → Apart xs ys → Apart xs (y ∷ ys)
Apart-cons y [] ys f h = tt
Apart-cons y (x ∷ xs) ys f h = ((λ e. f.0 (sym e), h.0), Apart-cons y xs ys f.1 h.1)

Apart-nil : (xs : List ℕ) → Apart xs []
Apart-nil [] = tt
Apart-nil (x ∷ xs) = (tt, Apart-nil xs)

pub Apart-symm : (xs ys : List ℕ) → Apart xs ys → Apart ys xs
Apart-symm [] ys h = Apart-nil ys
Apart-symm (x ∷ xs) ys h = Apart-cons x ys xs h.0 (Apart-symm xs ys h.1)

pub Distinct-append :
    (xs ys : List ℕ) → Distinct xs → Distinct ys → Apart xs ys → Distinct (xs ++ ys)
Distinct-append [] ys d e a = e
Distinct-append (x ∷ xs) ys d e a =
    (All-append (λ y. x ≢ y) xs ys d.0 a.0, Distinct-append xs ys d.1 e a.1)

-- An element may move across a part of the sequence.
pub Distinct-middle : (t : ℕ) (xs ys : List ℕ) → Distinct (t ∷ xs ++ ys) → Distinct (xs ++ (t ∷ ys))
Distinct-middle t [] ys d = d
Distinct-middle t (x ∷ xs) ys d = (
  All-append (λ y. x ≢ y) xs (t ∷ ys) (All-append_left (λ y. x ≢ y) xs ys d.1.0)
      (λ e. d.0.0 (sym e), All-append_right (λ y. x ≢ y) xs ys d.1.0),
  Distinct-middle t xs ys (d.0.1, d.1.1),
)

pub Distinct-front : (t : ℕ) (xs ys : List ℕ) → Distinct (xs ++ (t ∷ ys)) → Distinct (t ∷ xs ++ ys)
Distinct-front t [] ys d = d
Distinct-front t (x ∷ xs) ys d =
    let ih : Distinct (t ∷ xs ++ ys) = Distinct-front t xs ys d.1 in
    let f : Fresh x (t ∷ ys) = All-append_right (λ y. x ≢ y) xs (t ∷ ys) d.0 in
    (
      (λ e. f.0 (sym e), ih.0),
      (All-append (λ y. x ≢ y) xs ys (All-append_left (λ y. x ≢ y) xs (t ∷ ys) d.0) f.1, ih.1),
    )

-- Rearrangements, by how often each number occurs.
pub hit : ℕ → ℕ → ℕ
hit a x = if a == x then 1 else 0

pub count : ℕ → List ℕ → ℕ
count a [] = 0
count a (x ∷ xs) = hit a x + count a xs

pub count-nil : (a : ℕ) → count a [] ≡ 0
unfolding count
count-nil a = refl

pub count-cons : (a x : ℕ) (xs : List ℕ) → count a (x ∷ xs) ≡ hit a x + count a xs
unfolding count
count-cons a x xs = refl

pub count-append : (a : ℕ) (xs ys : List ℕ) → count a (xs ++ ys) ≡ count a xs + count a ys
unfolding count
count-append a [] ys = omega arith
count-append a (x ∷ xs) ys = omega (arith, count-append a xs ys)

pub hit_self : (a : ℕ) → hit a a ≡ 1
unfolding hit
hit_self a = ground arith

pub hit_ne : (a x : ℕ) → a ≢ x → hit a x ≡ 0
unfolding hit
hit_ne a x n = ground arith

pub count_of_Fresh : (a : ℕ) (xs : List ℕ) → Fresh a xs → count a xs ≡ 0
unfolding hit count
count_of_Fresh a [] f = refl
count_of_Fresh a (x ∷ xs) f = ground (arith, count_of_Fresh a xs f.1)

Fresh-of_count : (a : ℕ) (xs : List ℕ) → count a xs ≡ 0 → Fresh a xs
unfolding hit count
Fresh-of_count a [] e = tt
Fresh-of_count a (x ∷ xs) e = (λ k. ground arith, Fresh-of_count a xs (omega arith))

pub count_of_Distinct : (a : ℕ) (xs : List ℕ) → Distinct xs → count a xs ≤ 1
unfolding hit count
count_of_Distinct a [] d = omega arith
count_of_Distinct a (x ∷ xs) d = elim (ℕ_discrete a x) [
  | yes e ↦ ground (arith, count_of_Fresh x xs d.0, ap (λ y. count y xs) e)
  | no n ↦ ground (arith, count_of_Distinct a xs d.1)
]

Distinct-of_count : (xs : List ℕ) → ((a : ℕ) → count a xs ≤ 1) → Distinct xs
unfolding count
Distinct-of_count [] h = tt
Distinct-of_count (x ∷ xs) h = (
  Fresh-of_count x xs (omega (arith, h x, hit_self x)),
  Distinct-of_count xs (λ a. omega (arith, h a)),
)

-- `ys` holds no number more often than `xs`.
abbrev pub Within : List ℕ → List ℕ → Type 0
Within ys xs = (a : ℕ) → count a ys ≤ count a xs

pub Distinct-fewer : (xs ys : List ℕ) → Within ys xs → Distinct xs → Distinct ys
Distinct-fewer xs ys w d = Distinct-of_count ys (λ a. omega (arith, w a, count_of_Distinct a xs d))

pub Fresh-fewer : (a : ℕ) (xs ys : List ℕ) → Within ys xs → Fresh a xs → Fresh a ys
Fresh-fewer a xs ys w f = Fresh-of_count a ys (omega (arith, w a, count_of_Fresh a xs f))

-- Two parts of a sequence of distinct numbers.
pub Apart-fewer : (zs xs ys : List ℕ) → Within (xs ++ ys) zs → Distinct zs → Apart xs ys
Apart-fewer zs xs ys w d = Distinct-Apart xs ys (Distinct-fewer zs (xs ++ ys) w d)

-- Proves that one sequence holds no number more often than another.
pub ruleset counting = (arith, count-nil, count-cons, count-append)
