-- ===== src/Sched/Table/Users.antt =====
-- How many of the first entries of a table are user tasks, and what a change of one entry does.
use libtask.Base.{
  ℕ, zero, suc, ◌+◌, ◌≤◌, ◌<◌, ◌≡◌, refl, ◌≢◌, Bool, true, false, List, [], ◌∷◌, ◌++◌, take, arith,
  update, get_or, set, length, get_or-set_self, get_or-set_ne,
}
use native.Mathlib.Decide.{ℕ_discrete}
use libtask.Tasklist.{Ptr, nil}

abbrev pub weight : Bool → ℕ
weight true = 0
weight false = 1

-- `system` says which tasks are system tasks; the rest are user tasks.
unfoldable pub users : (Ptr → Bool) → List Ptr → ℕ → ℕ
users system table zero = 0
users system table (suc n) = users system table n + weight (system (get_or table n nil))

module _ (system : Ptr → Bool) where
  pub users-set_ge :
      (table : List Ptr) (i : ℕ) (v : Ptr) (n : ℕ)
      → n ≤ i
      → users system (set table i v) n ≡ users system table n
  unfolding users
  users-set_ge table i v zero h = refl
  users-set_ge table i v (suc n) h =
      rw (users-set_ge table i v n (omega arith), get_or-set_ne table i n v nil (λ e. omega arith))

  -- Overwriting an entry gives and takes that entry's share.
  pub users-set :
      (table : List Ptr) (i : ℕ) (v : Ptr) (n : ℕ)
      → i < n
      → n ≤ length table
      → users system (set table i v) n + weight (system (get_or table i nil))
        ≡ users system table n + weight (system v)
  unfolding users
  users-set table i v zero h k = absurd (omega arith)
  users-set table i v (suc n) h k = elim (ℕ_discrete i n) [
    | yes e ↦
        rw (users-set_ge table i v n (omega arith))
          (rw (← e) (rw (get_or-set_self table i v nil (omega arith)) (omega arith)))
    | no e ↦
        rw (get_or-set_ne table i n v nil e)
          (omega (arith, users-set table i v n (omega arith) (omega arith)))
  ]

  -- Tasks outside the table do not count.
  pub users-update :
      (table : List Ptr) (t : Ptr) (b : Bool) (n : ℕ)
      → ((i : ℕ) → i < n → get_or table i nil ≢ t)
      → users (update system t b) table n ≡ users system table n
  unfolding users
  users-update table t b zero h = refl
  users-update table t b (suc n) h =
      ground (arith, users-update table t b n (λ i k. h i (omega arith)), h n)

  pub users-same :
      (table other : List Ptr) (n : ℕ)
      → ((i : ℕ) → i < n → get_or other i nil ≡ get_or table i nil)
      → users system other n ≡ users system table n
  unfolding users
  users-same table other zero h = refl
  users-same table other (suc n) h =
      rw (users-same table other n (λ i k. h i (omega arith)), h n (omega arith))

  -- A user task of the table that turns into a system task is one user task less.
  pub users-system :
      (table : List Ptr) (j : ℕ) (n : ℕ)
      → j < n
      → system (get_or table j nil) ≡ false
      → ((i : ℕ) → i < n → get_or table i nil ≡ get_or table j nil → i ≡ j)
      → users (update system (get_or table j nil) true) table n + 1 ≡ users system table n
  unfolding users
  users-system table j zero h f u = absurd (omega arith)
  users-system table j (suc n) h f u = elim (ℕ_discrete j n) [
    | yes e ↦ ground (
      arith,
      users-update table (get_or table j nil) true n (λ i k q. omega (arith, u i (omega arith) q)),
    )
    | no e ↦ ground (arith, users-system table j n (omega arith) f (λ i k. u i (omega arith)), u n)
  ]

-- `users-same` for the table that `realloc` returns.
pub get_or-take :
    (n i : ℕ) (xs ys : List Ptr)
    → i < n
    → i < length xs
    → get_or (take n (xs ++ ys)) i nil ≡ get_or xs i nil
get_or-take zero i xs ys h k = absurd (omega arith)
get_or-take (suc n) i [] ys h k = absurd (omega arith)
get_or-take (suc n) zero (x ∷ xs) ys h k = refl
get_or-take (suc n) (suc i) (x ∷ xs) ys h k = get_or-take n i xs ys (omega arith) (omega arith)

pub length-take : (n : ℕ) (xs : List Ptr) → n ≤ length xs → length (take n xs) ≡ n
length-take zero xs h = refl
length-take (suc n) [] h = absurd (omega arith)
length-take (suc n) (x ∷ xs) h = omega (arith, length-take n xs (omega arith))
