-- ===== src/Print/Rendered.antt =====
-- `vseprint` puts out what its format and its arguments stand for, if there is room for all of it.
use libtask.Base.{
  ℕ, ◌+◌, ◌-◌, ◌*◌, ◌^◌, ◌≤◌, ◌<◌, ◌≡◌, refl, sym, ◌∙◌, ap, subst, inl, inr, Bool, true, false,
  List, [], ◌∷◌, ◌++◌, arith, ltb, leb, ◌==◌, update, update_ne, update_self, length, length-append,
  get_or, Bool-cases, ℤ, Option, none, some,
}
use libtask.Print.{
  Memory, Printed, printed, finish, Radix, Flags, no_flags, Arg, word, text, Mode, plain,
  conversion, State, Next, goes, stops, Context, Case, case_of, minus_sign, digit, ell, you,
  number_verb, char_verb, string_verb, error_verb, unknown, longer, signed_width, char_text, verb,
  copy, show, show_number, show_char, show_text, bad_verb, plain_step, conversion_step, step, ended,
  run, vseprint,
}
use libtask.Print.Meaning.{rendered}
use libtask.Print.Agree.{rendered-carried}
use libtask.Print.Plain.{
  padded, Added, item, last, bad, add_number, add_char, add_text, added, prepend, carried, Wrote,
  Wrote-append, printstr-Wrote,
}

-- The code ends with `u` at `w`, and a zero behind it.
pub record Out (w : ℕ) (u : List ℕ) (m : Memory) (r : Printed) : Type 0 where
  pub memory : Memory
  pub result : r ≡ printed (w + length u) memory
  pub wrote : Wrote w u m memory
  pub ends : memory (w + length u) ≡ 0

-- So it does if there is something to put out, and room for it.
abbrev pub Promise : ℕ → ℕ → Memory → Option (List ℕ) → Printed → Type 0
Promise edst w m none r = Unit
Promise edst w m (some u) r = w + length u < edst → Out w u m r

Wrote-nothing : (w : ℕ) (m : Memory) → Wrote w [] m m
Wrote-nothing w m = record { here = λ j l. absurd (omega arith); before = λ i l. refl }

Wrote-one : (w c : ℕ) (m : Memory) → Wrote w (c ∷ []) m (update m w c)
Wrote-one w c m = record {
  here = λ j l.
      let z : j ≡ 0 = omega arith in
      ap (update m w c) (omega arith) ∙ update_self m w c ∙ sym (ap (λ k. get_or (c ∷ []) k 0) z);
  before = λ i l. update_ne m w c i (λ e. omega arith);
}

Wrote-zero :
    (w v : ℕ) (u : List ℕ) (m x : Memory)
    → v ≡ w + length u
    → Wrote w u m x
    → Wrote w u m (update x v 0)
Wrote-zero w v u m x e h = record {
  here = λ j l. update_ne x v 0 (w + j) (λ z. omega arith) ∙ h.here j l;
  before = λ i l. update_ne x v 0 i (λ z. omega arith) ∙ h.before i l;
}

finish-Out :
    (edst w : ℕ) (u : List ℕ) (m x : Memory)
    → w + length u < edst
    → Wrote w u m x
    → Out w u m (finish edst (w + length u) x)
unfolding finish
finish-Out edst w u m x l h =
    let room : ltb (w + length u) edst ≡ true = ground arith in
    record {
      memory = update x (w + length u) 0;
      result = rw room refl;
      wrote = Wrote-zero w (w + length u) u m x refl h;
      ends = update_self x (w + length u) 0;
    }

-- A step that puts out `t`, in front of the rest.
Promise-prepend :
    (o : Option (List ℕ)) (edst w : ℕ) (t : List ℕ) (m : Memory) (r : Printed)
    → (w + length t < edst → (x : Memory) × Wrote w t m x × Promise edst (w + length t) x o r)
    → Promise edst w m (prepend t o) r
Promise-prepend none edst w t m r f = tt
Promise-prepend (some u) edst w t m r f = λ l.
    let far : w + length (t ++ u) ≡ w + length t + length u = omega (arith, length-append t u) in
    let (x, h, p) = f (omega arith) in
    let o = p (omega arith) in
    record {
      memory = o.memory;
      result = o.result ∙ ap (λ k. printed k o.memory) (sym far);
      wrote = Wrote-append w (w + length t) t u m x o.memory refl h o.wrote;
      ends = ap o.memory far ∙ o.ends;
    }

-- What a character does is what it adds.
abbrev Matches : ℕ → ℕ → Memory → Added → Next → Type 0
Matches edst w m (item t mode rest) n =
    w + length t < edst
    → (x : Memory) × (n ≡ goes (record { mode = mode; args = rest; w = w + length t; memory = x }))
      × Wrote w t m x
Matches edst w m (last t) n = w + length t < edst → (r : Printed) × (n ≡ stops r) × Out w t m r
Matches edst w m bad n = Unit

show-Matches :
    (k : Context) (t : List ℕ) (z : ℤ) (rest : List Arg) (s : State)
    → Matches k.edst s.w s.memory (item (padded z t) plain rest) (show k t z rest s)
unfolding show
show-Matches k t z rest s l =
    let (x, e, h) = printstr-Wrote s.w k.edst t z s.memory l in
    (
      x,
      ap (λ (p : ℕ × Memory). goes (record { mode = plain; args = rest; w = p.0; memory = p.1 })) e,
      h,
    )

show_number-Matches :
    (k : Context) (b : Radix) (fl : Flags) (z : ℤ) (args : List Arg) (s : State)
    → Matches k.edst s.w s.memory (add_number k b fl z args) (show_number k b fl z args s)
unfolding show_number
show_number-Matches k b fl z [] s = tt
show_number-Matches k b fl z (text t ∷ rest) s = tt
show_number-Matches k b fl z (word a ∷ rest) s = show-Matches k _ z rest s

show_char-Matches :
    (k : Context) (z : ℤ) (args : List Arg) (s : State)
    → Matches k.edst s.w s.memory (add_char z args) (show_char k z args s)
unfolding show_char
show_char-Matches k z [] s = tt
show_char-Matches k z (text t ∷ rest) s = tt
show_char-Matches k z (word a ∷ rest) s = show-Matches k (char_text a) z rest s

show_text-Matches :
    (k : Context) (z : ℤ) (args : List Arg) (s : State)
    → Matches k.edst s.w s.memory (add_text z args) (show_text k z args s)
unfolding show_text
show_text-Matches k z [] s = tt
show_text-Matches k z (word a ∷ rest) s = tt
show_text-Matches k z (text t ∷ rest) s = show-Matches k t z rest s

copy-Wrote :
    (p : List ℕ) (edst w : ℕ) (m : Memory)
    → w + length p < edst
    → (x : Memory) × (copy edst p w m ≡ (w + length p, x)) × Wrote w p m x
unfolding copy
copy-Wrote [] edst w m l = (m, ap (λ k. (k, m)) (omega arith), Wrote-nothing w m)
copy-Wrote (c ∷ p) edst w m l =
    let room : ltb (w + 1) edst ≡ true = ground arith in
    let (x, e, h) = copy-Wrote p edst (w + 1) (update m w c) (omega arith) in
    (
      x,
      rw room (e ∙ ap (λ k. (k, x)) (omega arith)),
      Wrote-append w (w + 1) (c ∷ []) p m (update m w c) x refl (Wrote-one w c m) h,
    )

bad_verb-Matches :
    (k : Context) (s : State) → Matches k.edst s.w s.memory (last verb) (bad_verb k s)
unfolding bad_verb
bad_verb-Matches k s l =
    let (x, e, h) = copy-Wrote verb k.edst s.w s.memory l in
    (
      finish k.edst (s.w + length verb) x,
      ap (λ (p : ℕ × Memory). stops (finish k.edst p.0 p.1)) e,
      finish-Out k.edst s.w verb s.memory x l h,
    )

stays :
    (k : Context) (s : State) (mode : Mode)
    → Matches k.edst s.w s.memory (item [] mode s.args) (goes (record s { mode = mode }))
stays k s mode l = (
  s.memory,
  ap (λ v. goes (record { mode = mode; args = s.args; w = v; memory = s.memory })) (omega arith),
  Wrote-nothing s.w s.memory,
)

conversion_step-Matches :
    (k : Context) (c : ℕ) (v : Case) (fl : Flags) (size : ℕ) (minus : Bool) (s : State)
    → Matches k.edst s.w s.memory
        (added k c v fl size minus s.args)
        (conversion_step k c v fl size minus s)
unfolding conversion_step added
conversion_step-Matches k c minus_sign fl size minus s = stays k s (conversion fl size true)
conversion_step-Matches k c digit fl size minus s =
    elim (Bool-cases (leb (2 ^ 31) (size * 10 + c))) [
      | inl e ↦ rw e tt
      | inr e ↦ rw e (stays k s (conversion fl (size * 10 + c - b'0') minus))
    ]
conversion_step-Matches k c ell fl size minus s = stays k s (conversion (longer fl) size minus)
conversion_step-Matches k c you fl size minus s =
    stays k s (conversion (record fl { unsigned = true }) size minus)
conversion_step-Matches k c (number_verb b) fl size minus s =
    show_number-Matches k b fl (signed_width minus size) s.args s
conversion_step-Matches k c char_verb fl size minus s =
    show_char-Matches k (signed_width minus size) s.args s
conversion_step-Matches k c string_verb fl size minus s =
    show_text-Matches k (signed_width minus size) s.args s
conversion_step-Matches k c error_verb fl size minus s =
    show-Matches k k.error_text (signed_width minus size) s.args s
conversion_step-Matches k c unknown fl size minus s = bad_verb-Matches k s

-- The rest of the format behind a step that matches.
follow :
    (k : Context) (p : List ℕ) (w : ℕ) (m : Memory)
    → ((mode : Mode) (args : List Arg) (v : ℕ) (x : Memory)
        → Promise k.edst v x
            (carried k p mode args)
            (run k p (record { mode = mode; args = args; w = v; memory = x })))
    → (a : Added) (n : Next) → Matches k.edst w m a n
    → Promise k.edst w m
        (elim a [
          | item t mode rest ↦ prepend t (carried k p mode rest)
          | last t ↦ some t
          | bad ↦ none
        ])
        (elim n [ goes t ↦ run k p t | stops r ↦ r ])
follow k p w m ih (item t mode rest) n f =
    Promise-prepend (carried k p mode rest) k.edst w t m _
      (λ l. let (x, e, h) = f l in (x, h, rw e (ih mode rest (w + length t) x)))
follow k p w m ih (last t) n f = λ l. let (r, e, o) = f l in rw e o
follow k p w m ih bad n f = tt

-- In front of the last byte of the buffer the loop ends, and nothing is left to be put out.
full-Promise :
    (o : Option (List ℕ)) (edst w : ℕ) (m : Memory)
    → edst ≤ w + 1
    → Promise edst w m o (finish edst w m)
full-Promise none edst w m h = tt
full-Promise (some []) edst w m h = λ l.
    subst (λ v. Out w [] m (finish edst v m)) (omega arith)
      (finish-Out edst w [] m m l (Wrote-nothing w m))
full-Promise (some (c ∷ u)) edst w m h = λ l. absurd (omega arith)

run-Promise :
    (p : List ℕ) (k : Context) (mode : Mode) (args : List Arg) (w : ℕ) (m : Memory)
    → Promise k.edst w m
        (carried k p mode args)
        (run k p (record { mode = mode; args = args; w = w; memory = m }))
unfolding run step ended plain_step carried
run-Promise [] k plain args w m = λ l.
    subst (λ v. Out w [] m (finish k.edst v m)) (omega arith)
      (finish-Out k.edst w [] m m l (Wrote-nothing w m))
run-Promise [] k (conversion fl size minus) args w m = tt
run-Promise (c ∷ p) k plain args w m = elim (Bool-cases (leb k.edst (w + 1))) [
  | inl full ↦
      let near : k.edst ≤ w + 1 = ground arith in
      rw (run, full) (full-Promise (carried k (c ∷ p) plain args) k.edst w m near)
  | inr room ↦ elim (Bool-cases (c == b'%')) [
    | inl e ↦ rw (run, room, e) (run-Promise p k (conversion no_flags 0 false) args w m)
    | inr e ↦
        rw (run, room, e)
          (Promise-prepend (carried k p plain args) k.edst w (c ∷ []) m _ (λ l.
            (update m w c, Wrote-one w c m, run-Promise p k plain args (w + 1) (update m w c))))
  ]
]
run-Promise (c ∷ p) k (conversion fl size minus) args w m =
    let s : State = record { mode = conversion fl size minus; args = args; w = w; memory = m } in
    follow k p w m (run-Promise p k) _ _ (conversion_step-Matches k c (case_of c) fl size minus s)

pub vseprint-Out :
    (k : Context) (dst : ℕ) (format : List ℕ) (args : List Arg) (m : Memory) (u : List ℕ)
    → rendered k format plain args ≡ some u
    → dst + length u < k.edst
    → Out dst u m (vseprint k dst format args m)
unfolding vseprint
vseprint-Out k dst format args m u e l =
    subst (λ o. Promise k.edst dst m o (vseprint k dst format args m))
      (sym (rendered-carried format k plain args) ∙ e) (run-Promise format k plain args dst m) l
