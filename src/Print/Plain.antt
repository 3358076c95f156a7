-- ===== src/Print/Plain.antt =====
-- What a format puts out when there is room for all of it, and that `printstr` puts out a string so.
use libtask.Base.{
  ℕ, suc, ◌+◌, ◌-◌, ◌*◌, ◌^◌, ◌≤◌, ◌<◌, ◌≡◌, refl, sym, ◌∙◌, ap, inl, inr, Bool, true, false, List,
  [], ◌∷◌, ◌++◌, arith, ltb, leb, ◌==◌, if◌then◌else◌, length, length-append, take, take_all,
  replicate, length-replicate, get_or, get_or-append_left, get_or-append_right, Bool-cases, ℤ, pos,
  negsuc, Option, none, some,
}
use libtask.Print.{
  Memory, store, blank, min, max, out_width, width, on_left, printstr, Radix, Flags, no_flags, Arg,
  word, text, Mode, plain, conversion, Context, Case, case_of, minus_sign, digit, ell, you,
  number_verb, char_verb, string_verb, error_verb, unknown, longer, signed_width, number, converted,
  char_text, verb,
}
use libtask.Print.Store.{store-outside, store-inside}

-- `t` in a field of this width.
abbrev pub padded : ℤ → List ℕ → List ℕ
padded (pos n) t = replicate (n - length t) blank ++ t
padded (negsuc n) t = t ++ replicate (suc n - length t) blank

-- What a character of the format adds to the output, with the mode and the arguments behind it. After
-- `last` nothing follows.
pub data Added : Type 0 where
  item : List ℕ → Mode → List Arg → Added
  last : List ℕ → Added
  bad : Added

abbrev pub add_number : Context → Radix → Flags → ℤ → List Arg → Added
add_number k b fl z [] = bad
add_number k b fl z (text t ∷ rest) = bad
add_number k b fl z (word a ∷ rest) =
    item (padded z (number (k.junk (length rest)) fl.unsigned b (converted fl a))) plain rest

abbrev pub add_char : ℤ → List Arg → Added
add_char z [] = bad
add_char z (text t ∷ rest) = bad
add_char z (word a ∷ rest) = item (padded z (char_text a)) plain rest

abbrev pub add_text : ℤ → List Arg → Added
add_text z [] = bad
add_text z (word a ∷ rest) = bad
add_text z (text t ∷ rest) = item (padded z t) plain rest

unfoldable pub added : Context → ℕ → Case → Flags → ℕ → Bool → List Arg → Added
added k c minus_sign fl size minus args = item [] (conversion fl size true) args
added k c digit fl size minus args =
    if leb (2 ^ 31) (size * 10 + c)
    then bad
    else item [] (conversion fl (size * 10 + c - b'0') minus) args
added k c ell fl size minus args = item [] (conversion (longer fl) size minus) args
added k c you fl size minus args =
    item [] (conversion (record fl { unsigned = true }) size minus) args
added k c (number_verb b) fl size minus args = add_number k b fl (signed_width minus size) args
added k c char_verb fl size minus args = add_char (signed_width minus size) args
added k c string_verb fl size minus args = add_text (signed_width minus size) args
added k c error_verb fl size minus args =
    item (padded (signed_width minus size) k.error_text) plain args
added k c unknown fl size minus args = last verb

abbrev pub prepend : List ℕ → Option (List ℕ) → Option (List ℕ)
prepend t none = none
prepend t (some u) = some (t ++ u)

-- The whole output, with the code's own tables and numbers, or `none` for a format that ends in a conversion, arguments of other types, or a
-- width that is too large.
unfoldable pub carried : Context → List ℕ → Mode → List Arg → Option (List ℕ)
unfolding added case_of
carried k [] plain args = some []
carried k [] (conversion fl size minus) args = none
carried k (c ∷ p) plain args =
    let conv = carried k p (conversion no_flags 0 false) args in
    let rest = carried k p plain args in if c == b'%' then conv else prepend (c ∷ []) rest
carried k (c ∷ p) (conversion fl size minus) args =
    elim (added k c (case_of c) fl size minus args) [
      | item t mode rest ↦ prepend t (carried k p mode rest)
      | last t ↦ some t
      | bad ↦ none
    ]

-- `x` is `m` with `t` at `w`, and some bytes behind it may have changed, too.
pub record Wrote (w : ℕ) (t : List ℕ) (m x : Memory) : Type 0 where
  pub here : (j : ℕ) → j < length t → x (w + j) ≡ get_or t j 0
  pub before : (i : ℕ) → i < w → x i ≡ m i

pub Wrote-store : (w : ℕ) (t : List ℕ) (m : Memory) → Wrote w t m (store w t m)
Wrote-store w t m = record {
  here = λ j l. store-inside w t m j l;
  before = λ i l. store-outside w t m i (inl l);
}

pub Wrote-append :
    (w v : ℕ) (t u : List ℕ) (m x y : Memory)
    → v ≡ w + length t
    → Wrote w t m x
    → Wrote v u x y
    → Wrote w (t ++ u) m y
Wrote-append w v t u m x y e h k = record {
  here = λ j l. elim (Bool-cases (ltb j (length t))) [
    | inl a ↦
        let in_t : j < length t = ground arith in
        k.before (w + j) (omega arith) ∙ h.here j in_t ∙ sym (get_or-append_left t u j 0 in_t)
    | inr b ↦
        let in_u : length t ≤ j = ground arith in
        ap y (omega arith)
        ∙ k.here (j - length t) (omega (arith, length-append t u))
        ∙ sym (get_or-append_right t u j 0 in_u)
  ];
  before = λ i l. k.before i (omega arith) ∙ h.before i l;
}

length-padded : (z : ℤ) (t : List ℕ) → length (padded z t) ≡ max (length t) (width z)
length-padded (pos n) t =
    ground (
      arith,
      length-append (replicate (n - length t) blank) t,
      length-replicate (n - length t) blank,
    )
length-padded (negsuc n) t = ground (
  arith,
  length-append t (replicate (suc n - length t) blank),
  length-replicate (suc n - length t) blank,
)

printstr-room :
    (w edst : ℕ) (t : List ℕ) (z : ℤ) (m : Memory)
    → w + max (length t) (width z) < edst
    → printstr w edst t z m ≡ (
      w + max (length t) (width z),
      if on_left z
          then store (w + length t) (replicate (width z - length t) blank) (store w t m)
          else store
              (w + (width z - length t))
              t
              (store w (replicate (width z - length t) blank) m),
    )
unfolding printstr
printstr-room w edst t z m h =
    let size = width z in
    let body : Bool → ℕ → ℕ → ℕ → List ℕ → ℕ × Memory = λ full n l p s. if full then (w, m) else (
      w + n,
      if on_left z
          then store (w + l) (replicate p blank) (store w s m)
          else store (w + p) s (store w (replicate p blank) m),
    ) in
    let most = max (length t) size in
    let n = out_width (edst - w) (length t) size in
    let l = min (length t) n in
    let room : leb edst w ≡ false = ground arith in
    let en : n ≡ most = ground arith in
    let el : l ≡ length t = ground arith in
    let ep : n - l ≡ size - length t = ground arith in
    ap (λ b. body b n l (n - l) (take l t)) room
    ∙ ap (λ a. body false a l (n - l) (take l t)) en
    ∙ ap (λ a. body false most a (n - l) (take a t)) el
    ∙ ap (λ a. body false most (length t) a (take (length t) t)) ep
    ∙ ap (body false most (length t) (size - length t)) (take_all (length t) t (omega arith))

pub printstr-Wrote :
    (w edst : ℕ) (t : List ℕ) (z : ℤ) (m : Memory)
    → w + length (padded z t) < edst
    → (x : Memory) × (printstr w edst t z m ≡ (w + length (padded z t), x))
      × Wrote w (padded z t) m x
printstr-Wrote w edst t (pos n) m h =
    let pad = replicate (n - length t) blank in
    let e = length-padded (pos n) t in
    let x = store (w + (n - length t)) t (store w pad m) in
    (
      x,
      printstr-room w edst t (pos n) m (omega arith) ∙ ap (λ k. (w + k, x)) (sym e),
      Wrote-append w (w + (n - length t)) pad t m (store w pad m) x
          (omega (arith, length-replicate (n - length t) blank)) (Wrote-store w pad m)
          (Wrote-store (w + (n - length t)) t (store w pad m)),
    )
printstr-Wrote w edst t (negsuc n) m h =
    let pad = replicate (suc n - length t) blank in
    let e = length-padded (negsuc n) t in
    let x = store (w + length t) pad (store w t m) in
    (
      x,
      printstr-room w edst t (negsuc n) m (omega arith) ∙ ap (λ k. (w + k, x)) (sym e),
      Wrote-append w (w + length t) t pad m (store w t m) x refl (Wrote-store w t m)
          (Wrote-store (w + length t) pad (store w t m)),
    )
