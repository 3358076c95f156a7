-- ===== src/Print/Meaning.antt =====
-- What a format and its arguments stand for, apart from the code that puts it out.
use libtask.Base.{
  ℕ, zero, suc, ◌+◌, ◌-◌, ◌*◌, ◌/◌, ◌%◌, ◌^◌, Bool, true, false, ◌||◌, ◌&&◌, List, [], ◌∷◌, ◌++◌,
  ltb, ◌==◌, if◌then◌else◌, length, replicate, Option, none, some,
}
use libtask.Print.{
  Radix, octal, decimal, hexadecimal, Flags, Arg, word, text, Mode, plain, conversion, Context,
  Case, minus_sign, digit, ell, you, number_verb, char_verb, string_verb, error_verb, unknown,
}
use libtask.Print.Number.{base, prefix, sign_text, in_word}
use libtask.Print.Plain.{Added, item, last, bad, prepend}

-- The characters of a conversion that are no digits.
abbrev pub verbs : List (ℕ × Case)
verbs =
    (b'-', minus_sign)
    ∷ (b'l', ell)
    ∷ (b'u', you)
    ∷ (b'd', number_verb decimal)
    ∷ (b'o', number_verb octal)
    ∷ (b'x', number_verb hexadecimal)
    ∷ (b'p', number_verb hexadecimal)
    ∷ (b'c', char_verb)
    ∷ (b's', string_verb)
    ∷ (b'r', error_verb)
    ∷ []

abbrev pub look_up : ℕ → List (ℕ × Case) → Case
look_up c [] = unknown
look_up c ((a, v) ∷ rest) = let other = look_up c rest in if c == a then v else other

abbrev pub kind : ℕ → Case
kind c = if ltb 47 c && ltb c 58 then digit else look_up c verbs

abbrev pub digit_char : ℕ → ℕ
digit_char d = if ltb d 10 then b'0' + d else b'a' + (d - 10)

-- The digits of a number, the lowest last: of 0 there are none.
unfoldable pub numeral : ℕ → ℕ → ℕ → List ℕ
numeral zero b n = []
numeral (suc fuel) b n =
    let front = numeral fuel b (n / b) in if n == 0 then [] else front ++ (digit_char (n % b) ∷ [])

-- The sign and the absolute value of an argument: with `ll` it has 64 bits, and 32 otherwise.
abbrev pub amount : Flags → ℕ → Bool × ℕ
amount fl a = in_word (if fl.long_long then 2 ^ 63 else 2 ^ 31) fl.unsigned a

-- The string of a number, where `junk` adds a minus sign.
abbrev pub numeral_text : Bool → Radix → Flags → ℕ → List ℕ
numeral_text junk b fl a =
    sign_text ((amount fl a).0 || junk)
    ++ (prefix b (amount fl a).1 ++ numeral 64 (base b) (amount fl a).1)

-- A string in a field, with the blanks behind it after a minus sign.
abbrev pub field : Bool → ℕ → List ℕ → List ℕ
field minus size t =
    let pad = replicate (size - length t) b' ' in if minus then t ++ pad else pad ++ t

-- A character, which is the end of the string if it is zero.
abbrev pub one_char : ℕ → List ℕ
one_char zero = []
one_char (suc c) = suc c ∷ []

unfoldable pub means_number : Context → Radix → Flags → ℕ → Bool → List Arg → Added
means_number k b fl size minus (word a ∷ rest) =
    item (field minus size (numeral_text (k.junk (length rest)) b fl a)) plain rest
means_number k b fl size minus [] = bad
means_number k b fl size minus (text t ∷ rest) = bad

-- What a character of a conversion adds to the output, with the mode and the arguments behind it.
unfoldable pub means : Context → ℕ → Case → Flags → ℕ → Bool → List Arg → Added
unfolding means_number
means k c minus_sign fl size minus args = item [] (conversion fl size true) args
means k c digit fl size minus args =
    if ltb (size * 10 + c) 2147483648
    then item [] (conversion fl (size * 10 + c - 48) minus) args
    else bad
means k c ell fl size minus args =
    item []
      (conversion
        (record { long = true; long_long = fl.long || fl.long_long; unsigned = fl.unsigned }) size
        minus)
      args
means k c you fl size minus args =
    item []
      (conversion (record { long = fl.long; long_long = fl.long_long; unsigned = true }) size minus)
      args
means k c (number_verb b) fl size minus args = means_number k b fl size minus args
means k c char_verb fl size minus [] = bad
means k c char_verb fl size minus (text t ∷ rest) = bad
means k c char_verb fl size minus (word a ∷ rest) =
    item (field minus size (one_char (a % 256))) plain rest
means k c string_verb fl size minus [] = bad
means k c string_verb fl size minus (word a ∷ rest) = bad
means k c string_verb fl size minus (text t ∷ rest) = item (field minus size t) plain rest
means k c error_verb fl size minus args = item (field minus size k.error_text) plain args
means k c unknown fl size minus args = last (b'*' ∷ b'v' ∷ b'e' ∷ b'r' ∷ b'b' ∷ b'*' ∷ [])

-- The whole output, or `none` for a format that ends in a conversion, arguments of other types, or a
-- width that is too large.
unfoldable pub rendered : Context → List ℕ → Mode → List Arg → Option (List ℕ)
unfolding means
rendered k [] plain args = some []
rendered k [] (conversion fl size minus) args = none
rendered k (c ∷ p) plain args =
    let none_set : Flags = record { long = false; long_long = false; unsigned = false } in
    let conv = rendered k p (conversion none_set 0 false) args in
    let rest = rendered k p plain args in if c == b'%' then conv else prepend (c ∷ []) rest
rendered k (c ∷ p) (conversion fl size minus) args = elim (means k c (kind c) fl size minus args) [
  | item t mode rest ↦ prepend t (rendered k p mode rest)
  | last t ↦ some t
  | bad ↦ none
]
