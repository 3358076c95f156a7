-- ===== src/Print.antt =====
-- print.c: formatted printing to a buffer.
mod Field
mod Digits
pub mod Number
pub mod Store
pub mod Inside
pub mod Plain
pub mod Meaning
pub mod Agree
pub mod Ends
pub mod Rendered
pub mod Whole
use mathlib.Core.Option
use libtask.Base.{
  ℕ, zero, suc, ◌+◌, ◌-◌, ◌*◌, ◌/◌, ◌%◌, ◌^◌, Bool, true, false, not, ◌&&◌, ◌||◌, List, [], ◌∷◌,
  ◌++◌, ltb, leb, ◌==◌, if◌then◌else◌, update, length, take, replicate, get_or, ℤ, pos, negsuc,
  Option, none, some,
}
unfoldable pub use Field.*
unfoldable pub use Digits.*

-- `size * sign`.
abbrev pub signed_width : Bool → ℕ → ℤ
signed_width minus zero = pos 0
signed_width minus (suc n) = if minus then negsuc n else pos (suc n)

abbrev pub char_text : ℕ → List ℕ
char_text c = if c % 256 == 0 then [] else c % 256 ∷ []

-- How `vseprint` ends: with the string in the memory and its zero at the address; with the assertion;
-- by reading the format behind its zero; with no argument of the type that `va_arg` asks for; or with a
-- width that is no `int`.
pub data Printed : Type 0 where
  printed : ℕ → Memory → Printed
  asserts overrun no_arg wide : Printed

unfoldable pub finish : ℕ → ℕ → Memory → Printed
finish edst w m = if ltb w edst then printed w (update m w 0) else asserts

-- Between two characters of the format: outside of a conversion, or in one with these flags, this
-- `size`, and a minus sign or none.
pub data Mode : Type 0 where
  plain : Mode
  conversion : Flags → ℕ → Bool → Mode

pub record State : Type 0 where
  pub mode : Mode
  pub args : List Arg
  pub w : ℕ
  pub memory : Memory

-- What a character leads to.
pub data Next : Type 0 where
  goes : State → Next
  stops : Printed → Next

-- What the code reads elsewhere: the end of the buffer, `strerror(errno)`, and what `neg` holds when
-- nothing has set it, at each argument by the number of those behind it.
pub record Context : Type 0 where
  pub edst : ℕ
  pub error_text : List ℕ
  pub junk : ℕ → Bool

abbrev pub stay : Mode → State → Next
stay mode s = goes (record s { mode = mode })

unfoldable pub show : Context → List ℕ → ℤ → List Arg → State → Next
unfolding printstr
show k t size rest s =
    let (w, m) = printstr s.w k.edst t size s.memory in
    goes (record { mode = plain; args = rest; w = w; memory = m })

unfoldable pub show_number : Context → Radix → Flags → ℤ → List Arg → State → Next
unfolding show number converted
show_number k b fl size [] s = stops no_arg
show_number k b fl size (text t ∷ rest) s = stops no_arg
show_number k b fl size (word a ∷ rest) s =
    show k (number (k.junk (length rest)) fl.unsigned b (converted fl a)) size rest s

unfoldable pub show_char : Context → ℤ → List Arg → State → Next
unfolding show
show_char k size [] s = stops no_arg
show_char k size (text t ∷ rest) s = stops no_arg
show_char k size (word a ∷ rest) s = show k (char_text a) size rest s

unfoldable pub show_text : Context → ℤ → List Arg → State → Next
unfolding show
show_text k size [] s = stops no_arg
show_text k size (word a ∷ rest) s = stops no_arg
show_text k size (text t ∷ rest) s = show k t size rest s

-- The loop over characters that are no `%`.
unfoldable pub copy : ℕ → List ℕ → ℕ → Memory → ℕ × Memory
copy edst [] w m = (w, m)
copy edst (c ∷ p) w m =
    let rest = copy edst p (w + 1) (update m w c) in if ltb (w + 1) edst then rest else (w, m)

-- `"X*verb*"` takes the place of the format, from its second character on.
abbrev pub verb : List ℕ
verb = b'*' ∷ b'v' ∷ b'e' ∷ b'r' ∷ b'b' ∷ b'*' ∷ []

unfoldable pub bad_verb : Context → State → Next
unfolding copy finish
bad_verb k s = let (w, m) = copy k.edst verb s.w s.memory in stops (finish k.edst w m)

unfoldable pub plain_step : Context → ℕ → State → Next
unfolding finish
plain_step k c s =
    if leb k.edst (s.w + 1)
    then stops (finish k.edst s.w s.memory)
    else (if c == b'%'
        then stay (conversion no_flags 0 false) s
        else goes (record s { w = s.w + 1; memory = update s.memory s.w c }))

abbrev pub is_digit : ℕ → Bool
is_digit c = leb b'0' c && leb c b'9'

abbrev pub is_hex_verb : ℕ → Bool
is_hex_verb c = (c == b'p') || (c == b'x')

-- The cases of the inner `switch`.
pub data Case : Type 0 where
  minus_sign digit ell you : Case
  number_verb : Radix → Case
  char_verb string_verb error_verb unknown : Case

unfoldable pub case_of : ℕ → Case
case_of c =
    if c == b'-'
    then minus_sign
    else (if is_digit c
        then digit
        else (if c == b'l'
            then ell
            else (if c == b'u'
                then you
                else (if c == b'd'
                    then number_verb decimal
                    else (if c == b'o'
                        then number_verb octal
                        else (if is_hex_verb c
                            then number_verb hexadecimal
                            else (if c == b'c'
                                then char_verb
                                else (if c == b's'
                                    then string_verb
                                    else (if c == b'r' then error_verb else unknown)))))))))

abbrev pub longer : Flags → Flags
longer fl = if fl.long then record fl { long_long = true } else record fl { long = true }

unfoldable pub conversion_step : Context → ℕ → Case → Flags → ℕ → Bool → State → Next
unfolding show show_number show_char show_text bad_verb
conversion_step k c minus_sign fl size minus s = stay (conversion fl size true) s
conversion_step k c digit fl size minus s =
    if leb (2 ^ 31) (size * 10 + c)
    then stops wide
    else stay (conversion fl (size * 10 + c - b'0') minus) s
conversion_step k c ell fl size minus s = stay (conversion (longer fl) size minus) s
conversion_step k c you fl size minus s =
    stay (conversion (record fl { unsigned = true }) size minus) s
conversion_step k c (number_verb b) fl size minus s =
    show_number k b fl (signed_width minus size) s.args s
conversion_step k c char_verb fl size minus s = show_char k (signed_width minus size) s.args s
conversion_step k c string_verb fl size minus s = show_text k (signed_width minus size) s.args s
conversion_step k c error_verb fl size minus s =
    show k k.error_text (signed_width minus size) s.args s
conversion_step k c unknown fl size minus s = bad_verb k s

unfoldable pub step : Context → ℕ → Mode → State → Next
unfolding plain_step conversion_step case_of
step k c plain s = plain_step k c s
step k c (conversion fl size minus) s = conversion_step k c (case_of c) fl size minus s

unfoldable pub ended : Context → Mode → State → Printed
unfolding finish
ended k plain s = finish k.edst s.w s.memory
ended k (conversion fl size minus) s = overrun

unfoldable pub run : Context → List ℕ → State → Printed
unfolding step ended
run k [] s = ended k s.mode s
run k (c ∷ p) s = elim (step k c s.mode s) [ goes t ↦ run k p t | stops r ↦ r ]

unfoldable pub vseprint : Context → ℕ → List ℕ → List Arg → Memory → Printed
unfolding run
vseprint k dst format args m =
    run k format (record { mode = plain; args = args; w = dst; memory = m })

-- `strecpy`, and where its zero is.
unfoldable pub strecpy : ℕ → ℕ → List ℕ → Memory → ℕ × Memory
unfolding printstr
strecpy dst edst src m = let (w, m') = printstr dst edst src (pos 0) m in (w, update m' w 0)

-- `vsnprint`, and `snprint` with its arguments.
unfoldable pub vsnprint : Context → ℕ → ℕ → List ℕ → List Arg → Memory → Printed
unfolding vseprint
vsnprint k dst n format args m = vseprint (record k { edst = dst + n }) dst format args m

-- The string at `w`, with its zero within `fuel` bytes.
unfoldable pub string_at : ℕ → ℕ → Memory → List ℕ
string_at zero w m = []
string_at (suc fuel) w m =
    let rest = string_at fuel (w + 1) m in if m w == 0 then [] else m w ∷ rest

-- What `vfprint` writes to its descriptor: `buf` is the address of its 256 bytes.
unfoldable pub vfprint : Context → ℕ → List ℕ → List Arg → Memory → Option (List ℕ)
unfolding vseprint string_at
vfprint k buf format args m = elim (vseprint (record k { edst = buf + 256 }) buf format args m) [
  | printed w x ↦ some (string_at 256 buf x)
  | _ ↦ none
]

-- A function that returns its first argument instead of where the string ends.
unfoldable pub returning : ℕ → Printed → Printed
returning dst (printed w m) = printed dst m
returning dst asserts = asserts
returning dst overrun = overrun
returning dst no_arg = no_arg
returning dst wide = wide

unfoldable pub snprint : Context → ℕ → ℕ → List ℕ → List Arg → Memory → Printed
unfolding vsnprint returning
snprint k dst n format args m = returning dst (vsnprint k dst n format args m)

unfoldable pub seprint : Context → ℕ → List ℕ → List Arg → Memory → Printed
unfolding vseprint returning
seprint k dst format args m = returning dst (vseprint k dst format args m)

-- The descriptor, and what is written to it.
unfoldable pub fprint : Context → ℕ → ℕ → List ℕ → List Arg → Memory → Option (ℕ × List ℕ)
unfolding vfprint
fprint k buf fd format args m = Option.map (λ t. (fd, t)) (vfprint k buf format args m)

unfoldable pub vprint : Context → ℕ → List ℕ → List Arg → Memory → Option (ℕ × List ℕ)
unfolding vfprint
vprint k buf format args m = Option.map (λ t. (1, t)) (vfprint k buf format args m)

unfoldable pub print : Context → ℕ → List ℕ → List Arg → Memory → Option (ℕ × List ℕ)
unfolding vprint
print k buf format args m = vprint k buf format args m
