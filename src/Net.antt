-- ===== src/Net.antt =====
-- net.c: addresses as text, and connections over what the socket calls return.
pub mod Text
pub mod Descriptors
use libtask.Base.{
  ℕ, zero, suc, ◌+◌, ◌-◌, ◌*◌, ◌/◌, ◌%◌, ◌^◌, Bool, true, false, not, ◌&&◌, ◌||◌, Option, none,
  some, List, [], ◌∷◌, ◌++◌, ltb, leb, ◌==◌, if◌then◌else◌, set, get_or, String,
}
use libtask.Sched.{Sys, taskstate}
use libtask.Print.{Memory, Arg, word, Context, Printed, vsnprint}

-- `strtoul` in base 0: the value, and the text from where it ends.
abbrev pub Strtoul : Type 0
Strtoul = List ℕ → ℕ × List ℕ

-- The text behind a part and its dot.
abbrev pub behind_part : List ℕ → Option (List ℕ)
behind_part [] = some []
behind_part (c ∷ p) = if c == b'.' then some p else none

-- The `for` of `parseip`: from part `i` on, `left` parts at most. The conversion to `int` keeps the value
-- modulo 2^32, and a negative `x` is one of at least 256 here.
unfoldable pub parse_parts : Strtoul → ℕ → ℕ → List ℕ → List ℕ → Option (ℕ × List ℕ)
parse_parts strtoul zero i p addr = some (i, addr)
parse_parts strtoul (suc left) i [] addr = some (i, addr)
parse_parts strtoul (suc left) i (c ∷ p) addr =
    let (v, rest) = strtoul (c ∷ p) in
    let x = v % 2 ^ 32 in
    if leb 256 x then none else elim (behind_part rest) [
      | none ↦ none
      | some q ↦ parse_parts strtoul left (i + 1) q (set addr i x)
    ]

abbrev pub byte : List ℕ → ℕ → ℕ
byte addr i = get_or addr i 0

-- `CLASS`, and the `switch` on it.
abbrev pub class : List ℕ → ℕ
class addr = byte addr 0 / 64

unfoldable pub fill_class_a : ℕ → List ℕ → Option (List ℕ)
fill_class_a i addr =
    if i == 3
    then some (byte addr 0 ∷ 0 ∷ byte addr 1 ∷ byte addr 2 ∷ [])
    else (if i == 2
        then some (byte addr 0 ∷ 0 ∷ 0 ∷ byte addr 1 ∷ [])
        else (if i == 4 then some addr else none))

unfoldable pub fill_class_b : ℕ → List ℕ → Option (List ℕ)
fill_class_b i addr =
    if i == 3
    then some (byte addr 0 ∷ byte addr 1 ∷ 0 ∷ byte addr 2 ∷ [])
    else (if i == 4 then some addr else none)

unfoldable pub fill_in : ℕ → List ℕ → Option (List ℕ)
unfolding fill_class_a fill_class_b
fill_in i addr =
    if ltb (class addr) 2
    then fill_class_a i addr
    else (if class addr == 2 then fill_class_b i addr else some addr)

-- The bytes of the address, in network order; `junk` is what `addr` holds at first.
unfoldable pub parseip : Strtoul → List ℕ → List ℕ → Option (List ℕ)
unfolding parse_parts fill_in
parseip strtoul junk name = elim (parse_parts strtoul 4 0 name junk) [
  | none ↦ none
  | some (i, addr) ↦ fill_in i addr
]

-- With `gethostbyname`.
unfoldable pub netlookup :
    Strtoul → (List ℕ → Option (List ℕ)) → List ℕ → List ℕ → Sys → Option (List ℕ) × Sys
unfolding parseip
netlookup strtoul hosts junk name s = elim (parseip strtoul junk name) [
  | some ip ↦ (some ip, s)
  | none ↦ elim (hosts name) [
    | some ip ↦ (some ip, taskstate "netlookup succeeded" (taskstate "netlookup" s))
    | none ↦ (none, taskstate "netlookup failed" (taskstate "netlookup" s))
  ]
]

-- "%d.%d.%d.%d"
abbrev pub dotted : List ℕ
dotted = b'%' ∷ b'd' ∷ b'.' ∷ b'%' ∷ b'd' ∷ b'.' ∷ b'%' ∷ b'd' ∷ b'.' ∷ b'%' ∷ b'd' ∷ []

abbrev pub ip_args : List ℕ → List Arg
ip_args ip = word (byte ip 0) ∷ word (byte ip 1) ∷ word (byte ip 2) ∷ word (byte ip 3) ∷ []

-- `snprint(server, 16, ...)` of `netaccept`.
unfoldable pub print_ip : Context → ℕ → List ℕ → Memory → Printed
unfolding vsnprint
print_ip k server ip m = vsnprint k server 16 dotted (ip_args ip) m

-- The descriptors that are open, and the state of the tasks.
pub record Net : Type 0 where
  pub descriptors : List ℕ
  pub sys : Sys

abbrev pub opened : ℕ → Net → Net
opened fd w = record w { descriptors = fd ∷ w.descriptors }

unfoldable pub remove : ℕ → List ℕ → List ℕ
remove fd [] = []
remove fd (d ∷ ds) = if d == fd then ds else d ∷ remove fd ds

abbrev pub closed : ℕ → Net → Net
closed fd w = record w { descriptors = remove fd w.descriptors }

abbrev pub says : String → Net → Net
says text w = record w { sys = taskstate text w.sys }

-- `netdial` up to `fdwait`: `ip` is from `netlookup`, `socket` and `connect` are what these return, the
-- latter `true` also for EINPROGRESS. It waits for the descriptor that it has, or returns -1.
unfoldable pub netdial_enter : Option (List ℕ) → Option ℕ → Bool → Net → Option ℕ × Net
unfolding remove
netdial_enter none socket connect w = (none, w)
netdial_enter (some ip) none connect w = (none, says "socket failed" (says "netdial" w))
netdial_enter (some ip) (some fd) connect w =
    let made = opened fd (says "netdial" w) in
    if connect then (some fd, made) else (none, closed fd (says "connect failed" made))

-- Behind it: whether the peer has a name, and the error of the socket, which becomes `errno`.
abbrev pub econnrefused : ℕ
econnrefused = 111

unfoldable pub netdial_resume : ℕ → Bool → ℕ → Net → Option ℕ × ℕ × Net
unfolding remove
netdial_resume fd true error w = (some fd, 0, says "connect succeeded" w)
netdial_resume fd false error w =
    (none, if error == 0 then econnrefused else error, says "connect failed" (closed fd w))

-- Both parts, when nothing else opens or closes a descriptor while the task waits.
unfoldable pub netdial : Option (List ℕ) → Option ℕ → Bool → Bool → ℕ → Net → Option ℕ × Net
unfolding netdial_enter netdial_resume
netdial ip socket connect named error w =
    let (made, x) = netdial_enter ip socket connect w in
    elim made [
      | none ↦ (none, x)
      | some fd ↦ let (r, errno, y) = netdial_resume fd named error x in (r, y)
    ]

-- `netannounce`, with the result of `netlookup` if a server is given, of `socket` and of `bind`.
unfoldable pub netannounce : Option (Option (List ℕ)) → Option ℕ → Bool → Net → Option ℕ × Net
unfolding remove
netannounce (some none) socket bind w = (none, says "netlookup failed" (says "netannounce" w))
netannounce (some (some ip)) none bind w = (none, says "socket failed" (says "netannounce" w))
netannounce none none bind w = (none, says "socket failed" (says "netannounce" w))
netannounce (some (some ip)) (some fd) bind w =
    let made = opened fd (says "netannounce" w) in
    if bind
    then (some fd, says "netannounce succeeded" made)
    else (none, closed fd (says "bind failed" made))
netannounce none (some fd) bind w =
    let made = opened fd (says "netannounce" w) in
    if bind
    then (some fd, says "netannounce succeeded" made)
    else (none, closed fd (says "bind failed" made))

-- The peer: its descriptor, the bytes of its address, and its port in network order.
pub record Peer : Type 0 where
  pub fd : ℕ
  pub ip : List ℕ
  pub port : ℕ

abbrev pub ntohs : ℕ → ℕ
ntohs p = p % 256 * 256 + p / 256

-- `netaccept` behind `fdwait`, with what `accept` returns: the descriptor, the text of the address if there
-- is a place for it, and the port.
unfoldable pub netaccept_resume :
    Context → Option ℕ → Option Peer → Memory → Net → Option (ℕ × Option Printed × ℕ) × Net
unfolding print_ip
netaccept_resume k server none m w = (none, says "accept failed" (says "netaccept" w))
netaccept_resume k none (some p) m w =
    (some (p.fd, none, ntohs p.port), says "netaccept succeeded" (opened p.fd (says "netaccept" w)))
netaccept_resume k (some server) (some p) m w = (
  some (p.fd, some (print_ip k server p.ip m), ntohs p.port),
  says "netaccept succeeded" (opened p.fd (says "netaccept" w)),
)
