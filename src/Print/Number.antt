-- ===== src/Print/Number.antt =====
-- Numbers: the digits that the code puts out stand for the number, and always fit into its `buf`.
use libtask.Base.{
  subst, ℕ, zero, suc, ◌+◌, ◌-◌, ◌*◌, ◌/◌, ◌%◌, ◌^◌, ◌≤◌, ◌<◌, ◌≡◌, refl, sym, ◌∙◌, ap, Bool, true,
  false, List, [], ◌∷◌, ◌++◌, arith, ◌||◌, ltb, ◌==◌, if◌then◌else◌, length, length-append, get_or,
  Bool-cases, inl, inr,
}
use native.Mathlib.Decide.{ℕ_discrete}
use libtask.Print.{
  Radix, octal, decimal, hexadecimal, radix, digits, put_digits, dress, number, magnitude,
  is_negative,
}

-- The value of a digit, and of digits behind others that stand for `n`.
abbrev pub digit_value : ℕ → ℕ
digit_value c = if ltb c b'a' then c - b'0' else c - b'a' + 10

abbrev pub base : Radix → ℕ
base octal = 8
base decimal = 10
base hexadecimal = 16

pub value : Radix → ℕ → List ℕ → ℕ
value b n [] = n
value b n (c ∷ s) = value b (n * base b + digit_value c) s

value-cons :
    (b : Radix) (n c : ℕ) (s : List ℕ) → value b n (c ∷ s) ≡ value b (n * base b + digit_value c) s
unfolding value
value-cons b n c s = refl

digit_value-digits : (d : ℕ) → d < 16 → digit_value (get_or digits d 0) ≡ d
digit_value-digits zero h = refl
digit_value-digits (suc zero) h = refl
digit_value-digits (suc (suc zero)) h = refl
digit_value-digits (suc (suc (suc zero))) h = refl
digit_value-digits (suc (suc (suc (suc zero)))) h = refl
digit_value-digits (suc (suc (suc (suc (suc zero))))) h = refl
digit_value-digits (suc (suc (suc (suc (suc (suc zero)))))) h = refl
digit_value-digits (suc (suc (suc (suc (suc (suc (suc zero))))))) h = refl
digit_value-digits (suc (suc (suc (suc (suc (suc (suc (suc d)))))))) h = upper d (omega arith)
  where
    upper :
        (k : ℕ)
        → k < 8
        → digit_value (get_or digits (suc (suc (suc (suc (suc (suc (suc (suc k)))))))) 0)
          ≡ suc (suc (suc (suc (suc (suc (suc (suc k)))))))
    upper zero l = refl
    upper (suc zero) l = refl
    upper (suc (suc zero)) l = refl
    upper (suc (suc (suc zero))) l = refl
    upper (suc (suc (suc (suc zero)))) l = refl
    upper (suc (suc (suc (suc (suc zero))))) l = refl
    upper (suc (suc (suc (suc (suc (suc zero)))))) l = refl
    upper (suc (suc (suc (suc (suc (suc (suc zero))))))) l = refl
    upper (suc (suc (suc (suc (suc (suc (suc (suc k)))))))) l = absurd (omega arith)

rest-less : (b : Radix) (m n : ℕ) → n < 8 * m → n / radix b < m
rest-less octal m n h = omega arith
rest-less decimal m n h = omega arith
rest-less hexadecimal m n h = omega arith

quotient-digit : (b : Radix) (n : ℕ) → n / radix b * base b + n % radix b ≡ n
quotient-digit octal n = omega arith
quotient-digit decimal n = omega arith
quotient-digit hexadecimal n = omega arith

digit-less : (b : Radix) (n : ℕ) → n % radix b < 16
digit-less octal n = omega arith
digit-less decimal n = omega arith
digit-less hexadecimal n = omega arith

power : (k : ℕ) → 8 ^ suc k ≡ 8 * 8 ^ k
power k = omega arith

put_digits-step :
    (fuel : ℕ) (b : Radix) (n : ℕ) (s : List ℕ)
    → (n == 0) ≡ false
    → put_digits (suc fuel) b n s
      ≡ put_digits fuel b (n / radix b) (get_or digits (n % radix b) 0 ∷ s)
unfolding put_digits
put_digits-step fuel b n s e =
    ap (λ t. if t then s else put_digits fuel b (n / radix b) (get_or digits (n % radix b) 0 ∷ s)) e

put_digits-stop :
    (fuel : ℕ) (b : Radix) (n : ℕ) (s : List ℕ) → (n == 0) ≡ true → put_digits (suc fuel) b n s ≡ s
unfolding put_digits
put_digits-stop fuel b n s e =
    ap (λ t. if t then s else put_digits fuel b (n / radix b) (get_or digits (n % radix b) 0 ∷ s)) e

pub value-put_digits :
    (fuel : ℕ) (b : Radix) (n : ℕ) (s : List ℕ)
    → n < 8 ^ fuel
    → value b 0 (put_digits fuel b n s) ≡ value b n s
unfolding put_digits
value-put_digits zero b n s h = ap (λ k. value b k s) (omega arith)
value-put_digits (suc fuel) b n s h = elim (ℕ_discrete n 0) [
  | yes z ↦
      ap (value b 0) (put_digits-stop fuel b n s (ground arith)) ∙ ap (λ k. value b k s) (sym z)
  | no nz ↦
      let d = get_or digits (n % radix b) 0 in
      ap (value b 0) (put_digits-step fuel b n s (ground arith))
      ∙ value-put_digits fuel b (n / radix b) (d ∷ s)
          (rest-less b (8 ^ fuel) n (omega (arith, power fuel)))
      ∙ value-cons b (n / radix b) d s
      ∙ ap (λ k. value b k s)
          (ap (λ k. n / radix b * base b + k) (digit_value-digits (n % radix b) (digit-less b n))
            ∙ quotient-digit b n)
]

pub length-put_digits :
    (k fuel : ℕ) (b : Radix) (n : ℕ) (s : List ℕ)
    → n < 8 ^ k
    → length (put_digits fuel b n s) ≤ k + length s
unfolding put_digits
length-put_digits k zero b n s h = omega arith
length-put_digits zero (suc fuel) b n s h =
    omega (arith, ap (λ l. length l) (put_digits-stop fuel b n s (ground arith)))
length-put_digits (suc k) (suc fuel) b n s h = elim (ℕ_discrete n 0) [
  | yes z ↦ omega (arith, ap (λ l. length l) (put_digits-stop fuel b n s (ground arith)))
  | no nz ↦
      let d = get_or digits (n % radix b) 0 in
      omega (
        arith,
        ap (λ l. length l) (put_digits-step fuel b n s (ground arith)),
        length-put_digits k fuel b (n / radix b) (d ∷ s)
            (rest-less b (8 ^ k) n (omega (arith, power k))),
      )
]

-- What stands in front of the digits: of 0 there are none.
abbrev pub prefix : Radix → ℕ → List ℕ
prefix octal n = b'0' ∷ []
prefix decimal n = if n == 0 then b'0' ∷ [] else []
prefix hexadecimal n = if n == 0 then b'0' ∷ b'0' ∷ b'x' ∷ [] else b'0' ∷ b'x' ∷ []

abbrev pub sign_text : Bool → List ℕ
sign_text neg = if neg then b'-' ∷ [] else []

-- The string `t` is a sign, if `neg`, a prefix, and digits that stand for `n`. With its zero it fits
-- into `buf`.
pub record Stands (neg : Bool) (b : Radix) (n : ℕ) (t : List ℕ) : Type 0 where
  pub digits_out : List ℕ
  pub shape : t ≡ sign_text neg ++ (prefix b n ++ digits_out)
  pub stands : value b 0 digits_out ≡ n
  pub in_buf : length t + 1 ≤ 30

dress_lem :
    (neg : Bool) (b : Radix) (n : ℕ) (s : List ℕ)
    → dress neg b (n == 0) s ≡ sign_text neg ++ (prefix b n ++ s)
unfolding dress
dress_lem true octal n s = refl
dress_lem false octal n s = refl
dress_lem true decimal n s = elim (Bool-cases (n == 0)) [ inl e ↦ rw e refl | inr e ↦ rw e refl ]
dress_lem false decimal n s = elim (Bool-cases (n == 0)) [ inl e ↦ rw e refl | inr e ↦ rw e refl ]
dress_lem true hexadecimal n s = elim (Bool-cases (n == 0)) [
  | inl e ↦ rw e refl
  | inr e ↦ rw e refl
]
dress_lem false hexadecimal n s = elim (Bool-cases (n == 0)) [
  | inl e ↦ rw e refl
  | inr e ↦ rw e refl
]

pub shape-number :
    (junk unsigned : Bool) (b : Radix) (luv : ℕ)
    → number junk unsigned b luv
      ≡ sign_text (is_negative unsigned luv || junk)
        ++ (prefix b (magnitude unsigned luv) ++ put_digits 64 b (magnitude unsigned luv) [])
unfolding number
shape-number junk unsigned b luv =
    dress_lem (is_negative unsigned luv || junk) b (magnitude unsigned luv)
      (put_digits 64 b (magnitude unsigned luv) [])

pub value-nil : (b : Radix) (n : ℕ) → value b n [] ≡ n
unfolding value
value-nil b n = refl

magnitude-less : (unsigned : Bool) (n : ℕ) → n < 2 ^ 64 → magnitude unsigned n < 2 ^ 64
magnitude-less true n h = omega arith
magnitude-less false n h = ground arith

length-sign_text : (neg : Bool) → length (sign_text neg) ≤ 1
length-sign_text true = omega arith
length-sign_text false = omega arith

length-prefix : (b : Radix) (n : ℕ) → length (prefix b n) ≤ 3
length-prefix octal n = omega arith
length-prefix decimal n = elim (Bool-cases (n == 0)) [
  | inl e ↦ rw e (omega arith)
  | inr e ↦ rw e (omega arith)
]
length-prefix hexadecimal n = elim (Bool-cases (n == 0)) [
  | inl e ↦ rw e (omega arith)
  | inr e ↦ rw e (omega arith)
]

-- The sign, true for a negative number, and the absolute value of a word of twice `half` values: a
-- signed one stands for a negative number from `half` on.
abbrev pub in_word : ℕ → Bool → ℕ → Bool × ℕ
in_word half true a = (false, a % (half + half))
in_word half false a =
    let n = a % (half + half) in if ltb n half then (false, n) else (true, half + half - n)

is_negative-in_word :
    (unsigned : Bool) (n : ℕ)
    → n < 2 ^ 64
    → is_negative unsigned n ≡ (in_word (2 ^ 63) unsigned n).0
is_negative-in_word true n h = refl
is_negative-in_word false n h = ground arith

magnitude-in_word :
    (unsigned : Bool) (n : ℕ) → n < 2 ^ 64 → magnitude unsigned n ≡ (in_word (2 ^ 63) unsigned n).1
magnitude-in_word true n h = omega arith
magnitude-in_word false n h = ground arith

number-magnitude :
    (junk unsigned : Bool) (b : Radix) (luv : ℕ)
    → luv < 2 ^ 64
    → Stands
        (is_negative unsigned luv || junk)
        b
        (magnitude unsigned luv)
        (number junk unsigned b luv)
number-magnitude junk unsigned b luv h =
    let n = magnitude unsigned luv in
    let neg = is_negative unsigned luv || junk in
    let small : n < 2 ^ 64 = magnitude-less unsigned luv h in
    let s = put_digits 64 b n [] in
    let shape = shape-number junk unsigned b luv in
    record {
      digits_out = s;
      shape = shape;
      stands = value-put_digits 64 b n [] (omega (arith, small)) ∙ value-nil b n;
      in_buf = omega (
        arith,
        ap (λ l. length l) shape,
        length-append (sign_text neg) (prefix b n ++ s),
        length-append (prefix b n) s,
        length-sign_text neg,
        length-prefix b n,
        length-put_digits 22 64 b n [] (omega (arith, small)),
      );
    }

-- The string of a number of 64 bits, in each radix: a minus sign if the number is signed and at
-- least 2^63, so negative, or if the uninitialised `neg` is set, a prefix, and digits that read
-- back as its absolute value. With its zero the string fits into the 30 bytes of `buf`.
pub number-Stands :
    (junk unsigned : Bool) (b : Radix) (luv : ℕ)
    → luv < 2 ^ 64
    → Stands
        ((in_word (2 ^ 63) unsigned luv).0 || junk)
        b
        (in_word (2 ^ 63) unsigned luv).1
        (number junk unsigned b luv)
number-Stands junk unsigned b luv h =
    subst
      (λ neg. Stands (neg || junk) b (in_word (2 ^ 63) unsigned luv).1 (number junk unsigned b luv))
      (is_negative-in_word unsigned luv h)
      (subst (λ n. Stands (is_negative unsigned luv || junk) b n (number junk unsigned b luv))
        (magnitude-in_word unsigned luv h) (number-magnitude junk unsigned b luv h))
