-- ===== src/Print/Inside.antt =====
-- `vseprint` writes nothing outside of its buffer, whatever the format and the arguments are.
use libtask.Base.{
  ℕ, ◌+◌, ◌*◌, ◌^◌, ◌≤◌, ◌<◌, ◌≡◌, refl, ◌∙◌, ◌⊎◌, inl, inr, Bool, List, [], ◌∷◌, arith, ltb, leb,
  ◌==◌, update, update_ne, update_self, Bool-cases, if-both, ℤ, pos,
}
use libtask.Print.{
  Memory, Printed, printed, asserts, overrun, no_arg, wide, finish, Mode, plain, conversion, State,
  Next, goes, stops, Context, Arg, word, text, Flags, Radix, Case, case_of, minus_sign, digit, ell,
  you, number_verb, char_verb, string_verb, error_verb, unknown, signed_width, show, show_number,
  show_char, show_text, copy, verb, bad_verb, plain_step, conversion_step, step, ended, run,
  vseprint, printstr, char_text, strecpy,
}
use libtask.Print.Store.{Inside, printstr-Inside}

-- From `dst` on: the string that is put out has its zero in the buffer, and all outside of the buffer
-- stays. The assertion fails only where there is no buffer.
abbrev pub Bounded : ℕ → ℕ → Memory → Printed → Type 0
Bounded dst edst m (printed w x) =
    (dst ≤ w) × (w < edst) × (x w ≡ 0) × ((i : ℕ) → (i < dst) ⊎ (edst ≤ i) → x i ≡ m i)
Bounded dst edst m asserts = edst ≤ dst
Bounded dst edst m overrun = Unit
Bounded dst edst m no_arg = Unit
Bounded dst edst m wide = Unit

abbrev Kept : ℕ → ℕ → Memory → Next → Type 0
Kept dst edst m (goes t) = Inside edst dst m t.w t.memory
Kept dst edst m (stops r) = Bounded dst edst m r

Inside-trans :
    (edst w v u : ℕ) (m x y : Memory)
    → Inside edst w m v x
    → Inside edst v x u y
    → Inside edst w m u y
Inside-trans edst w v u m x y h k = record {
  ahead = omega (arith, h.ahead, k.ahead);
  below = λ l. k.below (h.below l);
  outside = λ i o.
      k.outside i (elim o [ inl a ↦ inl (omega (arith, h.ahead)) | inr b ↦ inr b ]) ∙ h.outside i o;
}

Inside-put :
    (edst w v c : ℕ) (m x : Memory)
    → v + 1 < edst
    → Inside edst w m v x
    → Inside edst w m (v + 1) (update x v c)
Inside-put edst w v c m x l h = record {
  ahead = omega (arith, h.ahead);
  below = λ k. l;
  outside = λ i o.
      update_ne x v c i
        (λ e. elim o [ inl a ↦ absurd (omega (arith, h.ahead)) | inr b ↦ absurd (omega arith) ])
      ∙ h.outside i o;
}

finish-Bounded :
    (dst edst w : ℕ) (m x : Memory) → Inside edst dst m w x → Bounded dst edst m (finish edst w x)
unfolding finish
finish-Bounded dst edst w m x h = elim (Bool-cases (ltb w edst)) [
  | inl l ↦
      let room : w < edst = ground arith in
      rw l (
        h.ahead,
        room,
        update_self x w 0,
        λ i o.
            update_ne x w 0 i (λ e. elim o [
              | inl a ↦ absurd (omega (arith, h.ahead))
              | inr b ↦ absurd (omega arith)
            ])
            ∙ h.outside i (elim o [ inl a ↦ inl a | inr b ↦ inr (omega arith) ]),
      )
  | inr g ↦
      let full : edst ≤ w = ground arith in
      let none_left : edst ≤ dst = elim (Bool-cases (ltb dst edst)) [
        | inl a ↦ let b : dst < edst = ground arith in absurd (omega (arith, h.below b))
        | inr b ↦ ground arith
      ] in
      rw g none_left
]

show-Kept :
    (k : Context) (dst : ℕ) (m : Memory) (t : List ℕ) (size : ℤ) (rest : List Arg) (s : State)
    → Inside k.edst dst m s.w s.memory
    → Kept dst k.edst m (show k t size rest s)
unfolding show
show-Kept k dst m t size rest s h =
    let (v, x) = printstr s.w k.edst t size s.memory in
    Inside-trans k.edst dst s.w v m s.memory x h (printstr-Inside s.w k.edst t size s.memory)

show_number-Kept :
    (k : Context) (dst : ℕ) (m : Memory) (b : Radix) (fl : Flags) (size : ℤ) (args : List Arg)
    (s : State)
    → Inside k.edst dst m s.w s.memory
    → Kept dst k.edst m (show_number k b fl size args s)
unfolding show_number
show_number-Kept k dst m b fl size [] s h = tt
show_number-Kept k dst m b fl size (text t ∷ rest) s h = tt
show_number-Kept k dst m b fl size (word a ∷ rest) s h = show-Kept k dst m _ size rest s h

show_char-Kept :
    (k : Context) (dst : ℕ) (m : Memory) (size : ℤ) (args : List Arg) (s : State)
    → Inside k.edst dst m s.w s.memory
    → Kept dst k.edst m (show_char k size args s)
unfolding show_char
show_char-Kept k dst m size [] s h = tt
show_char-Kept k dst m size (text t ∷ rest) s h = tt
show_char-Kept k dst m size (word a ∷ rest) s h = show-Kept k dst m (char_text a) size rest s h

show_text-Kept :
    (k : Context) (dst : ℕ) (m : Memory) (size : ℤ) (args : List Arg) (s : State)
    → Inside k.edst dst m s.w s.memory
    → Kept dst k.edst m (show_text k size args s)
unfolding show_text
show_text-Kept k dst m size [] s h = tt
show_text-Kept k dst m size (word a ∷ rest) s h = tt
show_text-Kept k dst m size (text t ∷ rest) s h = show-Kept k dst m t size rest s h

copy-Inside :
    (p : List ℕ) (edst dst w : ℕ) (m x : Memory)
    → Inside edst dst m w x
    → let (v, y) = copy edst p w x in Inside edst dst m v y
unfolding copy
copy-Inside [] edst dst w m x h = h
copy-Inside (c ∷ p) edst dst w m x h = elim (Bool-cases (ltb (w + 1) edst)) [
  | inl l ↦
      let room : w + 1 < edst = ground arith in
      rw l (copy-Inside p edst dst (w + 1) m (update x w c) (Inside-put edst dst w c m x room h))
  | inr g ↦ rw g h
]

bad_verb-Kept :
    (k : Context) (dst : ℕ) (m : Memory) (s : State)
    → Inside k.edst dst m s.w s.memory
    → Kept dst k.edst m (bad_verb k s)
unfolding bad_verb
bad_verb-Kept k dst m s h =
    let (v, y) = copy k.edst verb s.w s.memory in
    finish-Bounded dst k.edst v m y (copy-Inside verb k.edst dst s.w m s.memory h)

plain_step-Kept :
    (k : Context) (c dst : ℕ) (m : Memory) (s : State)
    → Inside k.edst dst m s.w s.memory
    → Kept dst k.edst m (plain_step k c s)
unfolding plain_step
plain_step-Kept k c dst m s h = elim (Bool-cases (leb k.edst (s.w + 1))) [
  | inl full ↦ rw full (finish-Bounded dst k.edst s.w m s.memory h)
  | inr room ↦
      let l : s.w + 1 < k.edst = ground arith in
      rw room (
        if-both {A = Next} (Kept dst k.edst m) (c == b'%') h
          (Inside-put k.edst dst s.w c m s.memory l h))
]

conversion_step-Kept :
    (k : Context) (c dst : ℕ) (m : Memory) (v : Case) (fl : Flags) (size : ℕ) (minus : Bool)
    (s : State)
    → Inside k.edst dst m s.w s.memory
    → Kept dst k.edst m (conversion_step k c v fl size minus s)
unfolding conversion_step
conversion_step-Kept k c dst m minus_sign fl size minus s h = h
conversion_step-Kept k c dst m digit fl size minus s h =
    if-both {A = Next} (Kept dst k.edst m) (leb (2 ^ 31) (size * 10 + c)) tt h
conversion_step-Kept k c dst m ell fl size minus s h = h
conversion_step-Kept k c dst m you fl size minus s h = h
conversion_step-Kept k c dst m (number_verb b) fl size minus s h =
    show_number-Kept k dst m b fl (signed_width minus size) s.args s h
conversion_step-Kept k c dst m char_verb fl size minus s h =
    show_char-Kept k dst m (signed_width minus size) s.args s h
conversion_step-Kept k c dst m string_verb fl size minus s h =
    show_text-Kept k dst m (signed_width minus size) s.args s h
conversion_step-Kept k c dst m error_verb fl size minus s h =
    show-Kept k dst m k.error_text (signed_width minus size) s.args s h
conversion_step-Kept k c dst m unknown fl size minus s h = bad_verb-Kept k dst m s h

step-Kept :
    (k : Context) (c dst : ℕ) (m : Memory) (mode : Mode) (s : State)
    → Inside k.edst dst m s.w s.memory
    → Kept dst k.edst m (step k c mode s)
unfolding step
step-Kept k c dst m plain s h = plain_step-Kept k c dst m s h
step-Kept k c dst m (conversion fl size minus) s h =
    conversion_step-Kept k c dst m (case_of c) fl size minus s h

ended-Bounded :
    (k : Context) (dst : ℕ) (m : Memory) (mode : Mode) (s : State)
    → Inside k.edst dst m s.w s.memory
    → Bounded dst k.edst m (ended k mode s)
unfolding ended
ended-Bounded k dst m plain s h = finish-Bounded dst k.edst s.w m s.memory h
ended-Bounded k dst m (conversion fl size minus) s h = tt

run-Bounded :
    (p : List ℕ) (k : Context) (dst : ℕ) (m : Memory) (s : State)
    → Inside k.edst dst m s.w s.memory
    → Bounded dst k.edst m (run k p s)
unfolding run
run-Bounded [] k dst m s h = ended-Bounded k dst m s.mode s h
run-Bounded (c ∷ p) k dst m s h =
    elim (step k c s.mode s)
        as (λ n.
          Kept dst k.edst m n
          → Bounded dst k.edst m (elim n [ goes t ↦ run k p t | stops r ↦ r ])) [
            | goes t ↦ λ i. run-Bounded p k dst m t i
            | stops r ↦ λ i. i
          ]
      (step-Kept k c dst m s.mode s h)

-- With any format and arguments, a string that `vseprint` puts out has its zero inside of the buffer,
-- and no byte outside changes. Where it ends with neither a string nor the assertion, nothing is said.
pub vseprint-Bounded :
    (k : Context) (dst : ℕ) (format : List ℕ) (args : List Arg) (m : Memory)
    → Bounded dst k.edst m (vseprint k dst format args m)
unfolding vseprint
vseprint-Bounded k dst format args m =
    run-Bounded format k dst m (record { mode = plain; args = args; w = dst; memory = m })
      (record { ahead = omega arith; below = λ l. l; outside = λ i o. refl })

-- `strecpy` to a buffer of at least one byte puts the zero of the copy inside of the buffer, also
-- when the copy is cut off, and changes no byte outside.
pub strecpy-Bounded :
    (dst edst : ℕ) (src : List ℕ) (m : Memory)
    → dst < edst
    → let (w, x) = strecpy dst edst src m in Bounded dst edst m (printed w x)
unfolding strecpy
strecpy-Bounded dst edst src m l =
    let (w, x) = printstr dst edst src (pos 0) m in
    let h = printstr-Inside dst edst src (pos 0) m in
    (
      h.ahead,
      h.below l,
      update_self x w 0,
      λ i o.
          update_ne x w 0 i (λ e. elim o [
            | inl a ↦ absurd (omega (arith, h.ahead))
            | inr b ↦ absurd (omega (arith, h.below l))
          ])
          ∙ h.outside i (elim o [ inl a ↦ inl a | inr b ↦ inr (omega arith) ]),
    )
