-- ===== src/Channel/Arrays.antt =====
-- channel.c: the arrays of waiting `Alt`s.
use libtask.Base.{
  ℕ, zero, suc, ◌+◌, ◌-◌, ◌%◌, ◌^◌, Bool, false, not, ◌||◌, Option, none, some, List, [], ◌∷◌, ◌++◌,
  ◌==◌, if◌then◌else◌, replicate, take, set, get_or,
}
use libtask.Tasklist.{Ptr, nil}
use libtask.Sched.{Result, ok, aborts, out_of_fuel, ◌>>=◌}
use libtask.Channel.Types.{
  Altarray, Channel, World, chanend, chansnd, chanrcv, channop, channoblk, add_uint, dec_uint,
  chan_of, put_chan,
}

-- `realloc` to `m` entries. New entries are indeterminate: null stands for them.
unfoldable pub resize : ℕ → List Ptr → List Ptr
resize m xs = take m (xs ++ replicate m nil)

unfoldable pub grow_array : Altarray → Altarray
unfolding resize
grow_array ar =
    if ar.n == ar.m
    then record ar { m = add_uint ar.m 16; a = resize (add_uint ar.m 16) ar.a }
    else ar

unfoldable pub addarray : Altarray → Ptr → Altarray
unfolding grow_array
addarray ar alt =
    let room = grow_array ar in record room { a = set room.a room.n alt; n = add_uint room.n 1 }

unfoldable pub delarray : Altarray → ℕ → Altarray
delarray ar i = let n = dec_uint ar.n in record ar { a = set ar.a i (get_or ar.a n nil); n = n }

unfoldable pub otherop : ℕ → ℕ
otherop op = (chansnd + chanrcv + 2 ^ 32 - op) % 2 ^ 32

-- Which of a channel's two arrays.
pub data Side : Type 0 where
  senders receivers : Side

abbrev pub array : Side → Channel → Altarray
array senders c = c.asend
array receivers c = c.arecv

abbrev pub put_array : Side → Altarray → Channel → Channel
put_array senders ar c = record c { asend = ar }
put_array receivers ar c = record c { arecv = ar }

unfoldable pub chanarray : ℕ → Option Side
chanarray op =
    if op == chansnd then some senders else (if op == chanrcv then some receivers else none)

-- `ar && ar->n`.
unfoldable pub is_used : Option Side → Channel → Bool
is_used none c = false
is_used (some side) c = not ((array side c).n == 0)

queue_on : Option Side → Ptr → World → Result World
queue_on none a w = aborts
queue_on (some side) a w =
    let c = chan_of w a in
    ok (put_chan (w.alts a).c (put_array side (addarray (array side c) a) c) w)

unfoldable pub altqueue : Ptr → World → Result World
unfolding queue_on addarray chanarray
altqueue a w = queue_on (chanarray (w.alts a).op) a w

-- The index at which the first `n` entries hold `x`.
unfoldable pub find_alt : List Ptr → ℕ → Ptr → Option ℕ
find_alt xs zero x = none
find_alt [] (suc n) x = none
find_alt (y ∷ ys) (suc n) x =
    if y == x then some 0 else elim (find_alt ys n x) [ none ↦ none | some i ↦ some (suc i) ]

drop_at : Option ℕ → Side → Ptr → World → Result World
drop_at none side a w = aborts
drop_at (some i) side a w =
    let c = chan_of w a in
    ok (put_chan (w.alts a).c (put_array side (delarray (array side c) i) c) w)

dequeue_from : Option Side → Ptr → World → Result World
unfolding drop_at
dequeue_from none a w = aborts
dequeue_from (some side) a w =
    let ar = array side (chan_of w a) in drop_at (find_alt ar.a ar.n a) side a w

unfoldable pub altdequeue : Ptr → World → Result World
unfolding dequeue_from delarray chanarray find_alt
altdequeue a w = dequeue_from (chanarray (w.alts a).op) a w

-- The end of a group of `Alt`s.
unfoldable pub is_end : ℕ → Bool
is_end op = (op == chanend) || (op == channoblk)

-- `a` is `&a[i]` in round `i` of the loop.
unfoldable pub altalldequeue : ℕ → Ptr → World → Result World
unfolding is_end altdequeue
altalldequeue zero a w = out_of_fuel
altalldequeue (suc fuel) a w =
    let op = (w.alts a).op in
    let here = if op == channop then ok w else altdequeue a w in
    let rest = here >>= altalldequeue fuel (a + 1) in if is_end op then ok w else rest
