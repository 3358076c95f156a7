-- ===== src/Print/Ends.antt =====
-- `vseprint` ends with a string when its format is complete and fits its arguments.
use libtask.Base.{
  false, ℕ, ◌+◌, ◌*◌, ◌^◌, ◌≤◌, ◌<◌, ◌≡◌, refl, sym, ◌∙◌, ◌⊎◌, inl, inr, Bool, List, [], ◌∷◌, ltb,
  leb, ◌==◌, Bool-cases, if-both, Option, none, some, subst,
}
use libtask.Print.{
  Memory, Printed, printed, asserts, overrun, no_arg, wide, finish, Mode, plain, conversion, Next,
  goes, stops, Context, Arg, word, text, Flags, no_flags, Case, case_of, minus_sign, digit, ell,
  you, number_verb, char_verb, string_verb, error_verb, unknown, show, show_number, show_char,
  show_text, bad_verb, plain_step, conversion_step, step, ended, run, vseprint,
}
use libtask.Print.Inside.{Bounded, vseprint-Bounded}
use libtask.Print.Plain.{Added, item, last, bad, added, prepend, carried}
use libtask.Print.Meaning.{rendered}
use libtask.Print.Agree.{rendered-carried}

-- A string with its zero in the buffer, and nothing changed outside of it; or the assertion, where
-- there is no buffer. There is no other end.
abbrev pub Within : ℕ → ℕ → Memory → Printed → Type 0
Within dst edst m (printed w x) =
    (dst ≤ w) × (w < edst) × (x w ≡ 0) × ((i : ℕ) → (i < dst) ⊎ (edst ≤ i) → x i ≡ m i)
Within dst edst m asserts = edst ≤ dst
Within dst edst m overrun = ⊥
Within dst edst m no_arg = ⊥
Within dst edst m wide = ⊥

abbrev Ends : Printed → Type 0
Ends (printed w x) = Unit
Ends asserts = Unit
Ends overrun = ⊥
Ends no_arg = ⊥
Ends wide = ⊥

Ends-Within :
    (dst edst : ℕ) (m : Memory) (r : Printed) → Ends r → Bounded dst edst m r → Within dst edst m r
Ends-Within dst edst m (printed w x) e b = b
Ends-Within dst edst m asserts e b = b
Ends-Within dst edst m overrun e b = e
Ends-Within dst edst m no_arg e b = e
Ends-Within dst edst m wide e b = e

finish-Ends : (edst w : ℕ) (m : Memory) → Ends (finish edst w m)
unfolding finish
finish-Ends edst w m = if-both {A = Printed} Ends (ltb w edst) tt tt

-- The code goes on as what a character adds says, or stops with a string or the assertion.
abbrev Leads : Added → Next → Type 0
Leads (item t mode rest) n =
    (w : ℕ) × (x : Memory) × (n ≡ goes (record { mode = mode; args = rest; w = w; memory = x }))
Leads (last t) n = (r : Printed) × (n ≡ stops r) × Ends r
Leads bad n = Unit

conversion_step-Leads :
    (k : Context) (c : ℕ) (v : Case) (fl : Flags) (size : ℕ) (minus : Bool) (args : List Arg)
    (w : ℕ) (m : Memory)
    → Leads (added k c v fl size minus args) (
        conversion_step k c v fl size minus
          (record { mode = conversion fl size minus; args = args; w = w; memory = m }))
unfolding conversion_step added show show_number show_char show_text bad_verb
conversion_step-Leads k c minus_sign fl size minus args w m = (w, m, refl)
conversion_step-Leads k c digit fl size minus args w m =
    elim (Bool-cases (leb (2 ^ 31) (size * 10 + c))) [ inl e ↦ rw e tt | inr e ↦ rw e (w, m, refl) ]
conversion_step-Leads k c ell fl size minus args w m = (w, m, refl)
conversion_step-Leads k c you fl size minus args w m = (w, m, refl)
conversion_step-Leads k c (number_verb b) fl size minus [] w m = tt
conversion_step-Leads k c (number_verb b) fl size minus (text t ∷ rest) w m = tt
conversion_step-Leads k c (number_verb b) fl size minus (word a ∷ rest) w m = (_, _, refl)
conversion_step-Leads k c char_verb fl size minus [] w m = tt
conversion_step-Leads k c char_verb fl size minus (text t ∷ rest) w m = tt
conversion_step-Leads k c char_verb fl size minus (word a ∷ rest) w m = (_, _, refl)
conversion_step-Leads k c string_verb fl size minus [] w m = tt
conversion_step-Leads k c string_verb fl size minus (word a ∷ rest) w m = tt
conversion_step-Leads k c string_verb fl size minus (text t ∷ rest) w m = (_, _, refl)
conversion_step-Leads k c error_verb fl size minus args w m = (_, _, refl)
conversion_step-Leads k c unknown fl size minus args w m = (_, refl, finish-Ends k.edst _ _)

-- The code ends so if there is something to put out.
abbrev Sure : Option (List ℕ) → Printed → Type 0
Sure none r = Unit
Sure (some u) r = Ends r

Sure-Ends : (o : Option (List ℕ)) (r : Printed) → Ends r → Sure o r
Sure-Ends none r e = tt
Sure-Ends (some u) r e = e

Sure-prepend : (t : List ℕ) (o : Option (List ℕ)) (r : Printed) → Sure o r → Sure (prepend t o) r
Sure-prepend t none r e = tt
Sure-prepend t (some u) r e = e

follow :
    (k : Context) (p : List ℕ)
    → ((mode : Mode) (args : List Arg) (w : ℕ) (x : Memory)
        → Sure
            (carried k p mode args)
            (run k p (record { mode = mode; args = args; w = w; memory = x })))
    → (a : Added) (n : Next) → Leads a n
    → Sure
        (elim a [
          | item t mode rest ↦ prepend t (carried k p mode rest)
          | last t ↦ some t
          | bad ↦ none
        ])
        (elim n [ goes t ↦ run k p t | stops r ↦ r ])
follow k p ih (item t mode rest) n (w, x, e) =
    rw e (Sure-prepend t (carried k p mode rest) _ (ih mode rest w x))
follow k p ih (last t) n (r, e, f) = rw e f
follow k p ih bad n f = tt

run-Sure :
    (p : List ℕ) (k : Context) (mode : Mode) (args : List Arg) (w : ℕ) (m : Memory)
    → Sure
        (carried k p mode args)
        (run k p (record { mode = mode; args = args; w = w; memory = m }))
unfolding run step ended plain_step carried
run-Sure [] k plain args w m = finish-Ends k.edst w m
run-Sure [] k (conversion fl size minus) args w m = tt
run-Sure (c ∷ p) k plain args w m = elim (Bool-cases (leb k.edst (w + 1))) [
  | inl full ↦ rw (run, full) (Sure-Ends (carried k (c ∷ p) plain args) _ (finish-Ends k.edst w m))
  | inr room ↦ elim (Bool-cases (c == b'%')) [
    | inl e ↦ rw (run, room, e) (run-Sure p k (conversion no_flags 0 false) args w m)
    | inr e ↦
        rw (run, room, e)
          (Sure-prepend (c ∷ []) (carried k p plain args) _ (run-Sure p k plain args (w + 1) _))
  ]
]
run-Sure (c ∷ p) k (conversion fl size minus) args w m =
    follow k p (run-Sure p k) _ _ (conversion_step-Leads k c (case_of c) fl size minus args w m)

-- `vseprint` with any buffer, a format that does not end inside of a conversion, arguments of the
-- types that it asks for and widths that fit an `int`: it ends with a string whose zero is inside
-- of the buffer, also when the string is cut off, and no byte outside of the buffer changes; or the
-- assertion at its end fails, which it does only if there is no buffer.
pub vseprint-Within :
    (k : Context) (dst : ℕ) (format : List ℕ) (args : List Arg) (m : Memory) (u : List ℕ)
    → rendered k format plain args ≡ some u
    → Within dst k.edst m (vseprint k dst format args m)
unfolding vseprint
vseprint-Within k dst format args m u e =
    Ends-Within dst k.edst m (vseprint k dst format args m)
      (subst (λ o. Sure o (vseprint k dst format args m))
        (sym (rendered-carried format k plain args) ∙ e) (run-Sure format k plain args dst m))
      (vseprint-Bounded k dst format args m)
