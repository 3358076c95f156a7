-- ===== src/Print/Agree.antt =====
-- The tables and the numbers of the code are those that a format stands for.
use libtask.Base.{
  ℕ, zero, suc, ◌-◌, ◌/◌, ◌%◌, ◌<◌, ◌≡◌, refl, sym, ◌∙◌, ap, inl, inr, Bool, true, false, ◌||◌,
  List, [], ◌∷◌, ◌++◌, append-nil, append_assoc, arith, ◌==◌, if◌then◌else◌, length, get_or,
  Bool-cases, none, some,
}
use libtask.Print.{
  Radix, octal, decimal, hexadecimal, radix, digits, put_digits, Flags, no_flags, Arg, word, text,
  Mode, plain, conversion, Context, Case, case_of, minus_sign, digit, ell, you, number_verb,
  char_verb, string_verb, error_verb, unknown, longer, signed_width, number, converted, char_text,
  is_negative, magnitude,
}
use libtask.Print.Number.{base, prefix, sign_text, shape-number}
use libtask.Print.Plain.{padded, Added, item, last, bad, add_number, added, prepend, carried}
use libtask.Print.Meaning.{
  kind, digit_char, numeral, amount, numeral_text, field, one_char, means_number, means, rendered,
}

kind-case_of : (c : ℕ) → kind c ≡ case_of c
unfolding case_of
kind-case_of c = ground arith

digits-digit_char : (d : ℕ) → d < 16 → get_or digits d 0 ≡ digit_char d
digits-digit_char zero h = refl
digits-digit_char (suc zero) h = refl
digits-digit_char (suc (suc zero)) h = refl
digits-digit_char (suc (suc (suc zero))) h = refl
digits-digit_char (suc (suc (suc (suc zero)))) h = refl
digits-digit_char (suc (suc (suc (suc (suc zero))))) h = refl
digits-digit_char (suc (suc (suc (suc (suc (suc zero)))))) h = refl
digits-digit_char (suc (suc (suc (suc (suc (suc (suc zero))))))) h = refl
digits-digit_char (suc (suc (suc (suc (suc (suc (suc (suc d)))))))) h = upper d (omega arith)
  where
    upper :
        (k : ℕ)
        → k < 8
        → get_or digits (suc (suc (suc (suc (suc (suc (suc (suc k)))))))) 0
          ≡ digit_char (suc (suc (suc (suc (suc (suc (suc (suc k))))))))
    upper zero l = refl
    upper (suc zero) l = refl
    upper (suc (suc zero)) l = refl
    upper (suc (suc (suc zero))) l = refl
    upper (suc (suc (suc (suc zero)))) l = refl
    upper (suc (suc (suc (suc (suc zero))))) l = refl
    upper (suc (suc (suc (suc (suc (suc zero)))))) l = refl
    upper (suc (suc (suc (suc (suc (suc (suc zero))))))) l = refl
    upper (suc (suc (suc (suc (suc (suc (suc (suc k)))))))) l = absurd (omega arith)

base-radix : (b : Radix) → radix b ≡ base b
base-radix octal = refl
base-radix decimal = refl
base-radix hexadecimal = refl

last_digit : (b : Radix) (n : ℕ) → get_or digits (n % radix b) 0 ≡ digit_char (n % base b)
last_digit octal n = digits-digit_char (n % 8) (omega arith)
last_digit decimal n = digits-digit_char (n % 10) (omega arith)
last_digit hexadecimal n = digits-digit_char (n % 16) (omega arith)

put_digits-numeral :
    (fuel : ℕ) (b : Radix) (n : ℕ) (s : List ℕ)
    → put_digits fuel b n s ≡ numeral fuel (base b) n ++ s
unfolding put_digits numeral
put_digits-numeral zero b n s = refl
put_digits-numeral (suc fuel) b n s = elim (Bool-cases (n == 0)) [
  | inl e ↦ rw e refl
  | inr e ↦ rw e (
      put_digits-numeral fuel b (n / radix b) (get_or digits (n % radix b) 0 ∷ s)
      ∙ ap (λ d. numeral fuel (base b) (n / radix b) ++ (d ∷ s)) (last_digit b n)
      ∙ ap (λ r. numeral fuel (base b) (n / r) ++ (digit_char (n % base b) ∷ s)) (base-radix b)
      ∙ sym (append_assoc (numeral fuel (base b) (n / base b)) (digit_char (n % base b) ∷ []) s))
]

sign-amount : (fl : Flags) (a : ℕ) → is_negative fl.unsigned (converted fl a) ≡ (amount fl a).0
unfolding converted
sign-amount fl a = ground arith

size-amount : (fl : Flags) (a : ℕ) → magnitude fl.unsigned (converted fl a) ≡ (amount fl a).1
unfolding converted
size-amount fl a = ground arith

number-numeral_text :
    (junk : Bool) (b : Radix) (fl : Flags) (a : ℕ)
    → numeral_text junk b fl a ≡ number junk fl.unsigned b (converted fl a)
number-numeral_text junk b fl a =
    let n : ℕ = (amount fl a).1 in
    sym (
      shape-number junk fl.unsigned b (converted fl a)
      ∙ ap
          (λ k.
            sign_text (is_negative fl.unsigned (converted fl a) || junk)
            ++ (prefix b k ++ put_digits 64 b k []))
          (size-amount fl a)
      ∙ ap (λ neg. sign_text (neg || junk) ++ (prefix b n ++ put_digits 64 b n []))
          (sign-amount fl a)
      ∙ ap (λ s. sign_text ((amount fl a).0 || junk) ++ (prefix b n ++ s))
          (put_digits-numeral 64 b n [] ∙ append-nil (numeral 64 (base b) n)))

field-padded :
    (minus : Bool) (size : ℕ) (t : List ℕ) → field minus size t ≡ padded (signed_width minus size) t
field-padded true zero t =
    let none_left : 0 - length t ≡ 0 = omega arith in rw none_left (append-nil t)
field-padded false zero t = refl
field-padded true (suc n) t = refl
field-padded false (suc n) t = refl

one_char-char_text : (a : ℕ) → one_char (a % 256) ≡ char_text a
one_char-char_text a = by_value (a % 256)
  where
    by_value : (c : ℕ) → one_char c ≡ (if c == 0 then [] else c ∷ [])
    by_value zero = refl
    by_value (suc c) = ground arith

longer_lem :
    (fl : Flags)
    → longer fl
      ≡ record { long = true; long_long = fl.long || fl.long_long; unsigned = fl.unsigned }
longer_lem fl = elim (Bool-cases fl.long) [ inl e ↦ rw e refl | inr e ↦ rw e refl ]

means_number-add_number :
    (k : Context) (b : Radix) (fl : Flags) (size : ℕ) (minus : Bool) (args : List Arg)
    → means_number k b fl size minus args ≡ add_number k b fl (signed_width minus size) args
unfolding means_number
means_number-add_number k b fl size minus [] = refl
means_number-add_number k b fl size minus (text t ∷ rest) = refl
means_number-add_number k b fl size minus (word a ∷ rest) =
    ap (λ t. item (field minus size t) plain rest)
      (number-numeral_text (k.junk (length rest)) b fl a)
    ∙ ap (λ t. item t plain rest) (field-padded minus size _)

means-added :
    (k : Context) (c : ℕ) (v : Case) (fl : Flags) (size : ℕ) (minus : Bool) (args : List Arg)
    → means k c v fl size minus args ≡ added k c v fl size minus args
unfolding means added
means-added k c minus_sign fl size minus args = refl
means-added k c digit fl size minus args = ground arith
means-added k c ell fl size minus args =
    ap (λ f. item [] (conversion f size minus) args) (sym (longer_lem fl))
means-added k c you fl size minus args = refl
means-added k c (number_verb b) fl size minus args = means_number-add_number k b fl size minus args
means-added k c char_verb fl size minus [] = refl
means-added k c char_verb fl size minus (text t ∷ rest) = refl
means-added k c char_verb fl size minus (word a ∷ rest) =
    ap (λ t. item (field minus size t) plain rest) (one_char-char_text a)
    ∙ ap (λ t. item t plain rest) (field-padded minus size (char_text a))
means-added k c string_verb fl size minus [] = refl
means-added k c string_verb fl size minus (word a ∷ rest) = refl
means-added k c string_verb fl size minus (text t ∷ rest) =
    ap (λ u. item u plain rest) (field-padded minus size t)
means-added k c error_verb fl size minus args =
    ap (λ u. item u plain args) (field-padded minus size k.error_text)
means-added k c unknown fl size minus args = refl

behind :
    (k : Context) (p : List ℕ) (x y : Added)
    → x ≡ y
    → ((mode : Mode) (args : List Arg) → rendered k p mode args ≡ carried k p mode args)
    → elim x [
      | item t mode rest ↦ prepend t (rendered k p mode rest)
      | last t ↦ some t
      | bad ↦ none
    ]
      ≡ elim y [
        | item t mode rest ↦ prepend t (carried k p mode rest)
        | last t ↦ some t
        | bad ↦ none
      ]
behind k p (item t mode rest) y e ih = rw (sym e) (ap (prepend t) (ih mode rest))
behind k p (last t) y e ih = rw (sym e) refl
behind k p bad y e ih = rw (sym e) refl

pub rendered-carried :
    (p : List ℕ) (k : Context) (mode : Mode) (args : List Arg)
    → rendered k p mode args ≡ carried k p mode args
unfolding rendered carried
rendered-carried [] k plain args = refl
rendered-carried [] k (conversion fl size minus) args = refl
rendered-carried (c ∷ p) k plain args = elim (Bool-cases (c == b'%')) [
  | inl e ↦ rw e (rendered-carried p k (conversion no_flags 0 false) args)
  | inr e ↦ rw e (ap (prepend (c ∷ [])) (rendered-carried p k plain args))
]
rendered-carried (c ∷ p) k (conversion fl size minus) args =
    behind k p _ _
      (means-added k c (kind c) fl size minus args
        ∙ ap (λ v. added k c v fl size minus args) (kind-case_of c))
      (rendered-carried p k)
