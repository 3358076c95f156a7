-- ===== src/Tests/Print.antt =====
-- Strings that are put out in a buffer.
use libtask.Base.{true, ◌-◌, ◌^◌, ◌≡◌, refl, List, [], ◌∷◌, some, arith, false, ℕ}
use libtask.Print.{
  Context, Memory, Arg, word, text, number, hexadecimal, vseprint, plain, printed, strecpy,
}
use libtask.Print.Number.{Stands, number-Stands}
use libtask.Print.Ends.{Within, vseprint-Within}
use libtask.Print.Inside.{Bounded, strecpy-Bounded}
use libtask.Print.Meaning.{rendered, means, means_number, numeral}

abbrev memory : Memory
memory = λ i. 7

abbrev small : Context
small = record { edst = 103; error_text = b'?' ∷ []; junk = λ _. false }

abbrev large : Context
large = record { edst = 120; error_text = b'?' ∷ []; junk = λ _. false }

-- "%-4d!" of -12 and "%s"
abbrev format : List ℕ
format = b'%' ∷ b'-' ∷ b'4' ∷ b'd' ∷ b'!' ∷ b'%' ∷ b's' ∷ []

abbrev args : List Arg
args = word (2 ^ 32 - 12) ∷ text (b'o' ∷ b'k' ∷ []) ∷ []

abbrev output : List ℕ
output = b'-' ∷ b'1' ∷ b'2' ∷ b' ' ∷ b'!' ∷ b'o' ∷ b'k' ∷ []

small-rendered : rendered small format plain args ≡ some output
unfolding rendered means means_number numeral
small-rendered = refl

vseprint-Within_example : Within 100 103 memory (vseprint small 100 format args memory)
vseprint-Within_example = vseprint-Within small 100 format args memory output small-rendered

number-Stands_example : Stands true hexadecimal 255 (number false false hexadecimal (2 ^ 64 - 255))
number-Stands_example = number-Stands false false hexadecimal (2 ^ 64 - 255) (omega arith)

strecpy-Bounded_example :
    let (w, x) = strecpy 100 103 output memory in Bounded 100 103 memory (printed w x)
strecpy-Bounded_example = strecpy-Bounded 100 103 output memory (omega arith)
