-- ===== src/Print/Digits.antt =====
-- print.c: the string of a number.
use libtask.Base.{
  ℕ, zero, suc, ◌+◌, ◌-◌, ◌/◌, ◌%◌, ◌^◌, Bool, true, false, not, ◌&&◌, ◌||◌, List, [], ◌∷◌, ltb,
  leb, ◌==◌, if◌then◌else◌, get_or,
}

-- The flags.
pub record Flags : Type 0 where
  pub long : Bool
  pub long_long : Bool
  pub unsigned : Bool

abbrev pub no_flags : Flags
no_flags = record { long = false; long_long = false; unsigned = false }

-- What `va_arg` finds: the bits of a number, or a string.
pub data Arg : Type 0 where
  word : ℕ → Arg
  text : List ℕ → Arg

pub data Radix : Type 0 where
  octal decimal hexadecimal : Radix

abbrev pub radix : Radix → ℕ
radix octal = 8
radix decimal = 10
radix hexadecimal = 16

abbrev pub digits : List ℕ
digits =
    b'0' ∷ b'1' ∷ b'2' ∷ b'3' ∷ b'4' ∷ b'5' ∷ b'6' ∷ b'7' ∷ b'8' ∷ b'9' ∷ b'a' ∷ b'b' ∷ b'c' ∷ b'd'
    ∷ b'e' ∷ b'f' ∷ []

-- The conversion of the argument to `uvlong`, with `long` and `int` of 32 bits.
unfoldable pub converted : Flags → ℕ → ℕ
converted fl a =
    let low = a % 2 ^ 32 in
    if fl.long_long
    then a % 2 ^ 64
    else (if fl.unsigned || ltb low (2 ^ 31) then low else 2 ^ 64 - 2 ^ 32 + low)

-- `while (luv)`: the digits of `n` in front of `s`.
unfoldable pub put_digits : ℕ → Radix → ℕ → List ℕ → List ℕ
put_digits zero b n s = s
put_digits (suc fuel) b n s =
    let rest = put_digits fuel b (n / radix b) (get_or digits (n % radix b) 0 ∷ s) in
    if n == 0 then s else rest

abbrev pub is_negative : Bool → ℕ → Bool
is_negative unsigned n = not unsigned && leb (2 ^ 63) n

-- `-luv` for a negative number.
abbrev pub magnitude : Bool → ℕ → ℕ
magnitude unsigned n = if is_negative unsigned n then 2 ^ 64 - n else n

abbrev pub is_hexadecimal : Radix → Bool
is_hexadecimal octal = false
is_hexadecimal decimal = false
is_hexadecimal hexadecimal = true

abbrev pub is_octal : Radix → Bool
is_octal octal = true
is_octal decimal = false
is_octal hexadecimal = false

-- What goes in front of the digits.
unfoldable pub dress : Bool → Radix → Bool → List ℕ → List ℕ
dress neg b is_zero plain =
    let prefixed = if is_hexadecimal b then b'0' ∷ b'x' ∷ plain else plain in
    let zeroed = if is_octal b || is_zero then b'0' ∷ prefixed else prefixed in
    if neg then b'-' ∷ zeroed else zeroed

-- The string at `p`, for the converted argument `luv`. Nothing sets `neg` when the number is not
-- negative: `junk` is what it holds then.
unfoldable pub number : Bool → Bool → Radix → ℕ → List ℕ
unfolding put_digits dress
number junk unsigned b luv =
    let n = magnitude unsigned luv in
    dress (is_negative unsigned luv || junk) b (n == 0) (put_digits 64 b n [])
