-- ===== src/Print/Whole.antt =====
-- `vfprint`: an output that fits into its buffer is written as a whole.
use mathlib.Core.Option
use libtask.Base.{
  ℕ, zero, suc, ◌+◌, ◌<◌, ◌≡◌, refl, ◌≢◌, ◌∙◌, ap, none, some, List, [], ◌∷◌, arith, All, length,
  get_or, ◌==◌, false,
}
use libtask.Print.{Memory, Context, Arg, printed, plain, string_at, vfprint, fprint, print}
use libtask.Print.Meaning.{rendered}
use libtask.Print.Rendered.{vseprint-Out}

string_at_lem :
    (u : List ℕ) (fuel w : ℕ) (x : Memory)
    → length u < fuel
    → ((j : ℕ) → j < length u → x (w + j) ≡ get_or u j 0)
    → x (w + length u) ≡ 0
    → All (λ c. c ≢ 0) u
    → string_at fuel w x ≡ u
unfolding string_at
string_at_lem u zero w x l h e n = absurd (omega arith)
string_at_lem [] (suc fuel) w x l h e n = let at : x w ≡ 0 = ap x (omega arith) ∙ e in rw at refl
string_at_lem (c ∷ u) (suc fuel) w x l h e n =
    let at : x w ≡ c = ap x (omega arith) ∙ h 0 (omega arith) in
    let more : (c == 0) ≡ false = ground (arith, n.0) in
    let rest =
      string_at_lem u fuel (w + 1) x (omega arith)
        (λ j k. ap x (omega arith) ∙ h (suc j) (omega arith)) (ap x (omega arith) ∙ e) n.1 in
    rw (at, more) (ap (λ s. c ∷ s) rest)

-- The output of a format is written as it is, when it has less than 256 bytes and no zero among them.
pub vfprint_lem :
    (k : Context) (buf : ℕ) (format : List ℕ) (args : List Arg) (m : Memory) (u : List ℕ)
    → rendered (record k { edst = buf + 256 }) format plain args ≡ some u
    → length u < 256
    → All (λ c. c ≢ 0) u
    → vfprint k buf format args m ≡ some u
unfolding vfprint
vfprint_lem k buf format args m u r l n =
    let o = vseprint-Out (record k { edst = buf + 256 }) buf format args m u r (omega arith) in
    ap (λ p. elim p [ printed w x ↦ some (string_at 256 buf x) | _ ↦ none ]) o.result
    ∙ ap some (string_at_lem u 256 buf o.memory l o.wrote.here o.ends n)

-- `print` writes such an output to the standard output.
pub print_lem :
    (k : Context) (buf : ℕ) (format : List ℕ) (args : List Arg) (m : Memory) (u : List ℕ)
    → rendered (record k { edst = buf + 256 }) format plain args ≡ some u
    → length u < 256
    → All (λ c. c ≢ 0) u
    → print k buf format args m ≡ some (1, u)
unfolding print
print_lem k buf format args m u r l n =
    ap (Option.map (λ t. (1, t))) (vfprint_lem k buf format args m u r l n)

-- `fprint` writes it to its descriptor.
pub fprint_lem :
    (k : Context) (buf fd : ℕ) (format : List ℕ) (args : List Arg) (m : Memory) (u : List ℕ)
    → rendered (record k { edst = buf + 256 }) format plain args ≡ some u
    → length u < 256
    → All (λ c. c ≢ 0) u
    → fprint k buf fd format args m ≡ some (fd, u)
unfolding fprint
fprint_lem k buf fd format args m u r l n =
    ap (Option.map (λ t. (fd, t))) (vfprint_lem k buf format args m u r l n)
