-- ===== src/Channel/Select.antt =====
-- channel.c: choosing and carrying out one of a group of channel operations.
use libtask.Base.{
  ℕ, zero, suc, ◌+◌, ◌-◌, ◌%◌, Bool, false, Option, none, some, ◌==◌, if◌then◌else◌, ltb, get_or, ℤ,
  sub_ℕ,
}
use libtask.Tasklist.{Ptr, nil}
use libtask.Sched.{Result, ok, out_of_fuel, ◌>>=◌, taskready}
use libtask.Channel.Types.{World, chanend, chansnd, chanrcv, channop, chan_of, put_alt}
use libtask.Channel.Arrays.{
  Side, array, chanarray, otherop, is_used, altqueue, altalldequeue, is_end,
}
use libtask.Channel.Copy.{altcopy}

unfoldable pub altcanexec : Ptr → World → Bool
unfolding chanarray otherop is_used
altcanexec a w =
    let op = (w.alts a).op in
    let c = chan_of w a in
    if op == channop
    then false
    else (if c.bufsize == 0
        then is_used (chanarray (otherop op)) c
        else (if op == chansnd
            then ltb c.nbuf c.bufsize
            else (if op == chanrcv then ltb 0 c.nbuf else false)))

-- `other->xalt[0].xalt = other; taskready(other->task)`.
unfoldable pub release : Ptr → World → World
release other w =
    let base = (w.alts other).xalt in
    let told = put_alt base (record (w.alts base) { xalt = other }) w in
    record told { sys = taskready (told.alts other).task told.sys }

-- The operation meets the waiting `Alt` `other`.
unfoldable pub meet : ℕ → Ptr → Ptr → World → Result World
unfolding altcopy altalldequeue release
meet fuel a other w = do
  copied ← altcopy a other w
  left ← altalldequeue fuel (copied.alts other).xalt copied
  ok (release other left)

exec_with : Option Side → ℕ → Ptr → ℕ → World → Result World
unfolding meet
exec_with none fuel a rand w = altcopy a nil w
exec_with (some side) fuel a rand w =
    let ar = array side (chan_of w a) in
    if ar.n == 0 then altcopy a nil w else meet fuel a (get_or ar.a (rand % ar.n) nil) w

-- `rand` is what `rand()` returns.
unfoldable pub altexec : ℕ → Ptr → ℕ → World → Result World
unfolding exec_with chanarray otherop
altexec fuel a rand w = exec_with (chanarray (otherop (w.alts a).op)) fuel a rand w

-- The number of `Alt`s before the end of the group.
unfoldable pub group_size : ℕ → Ptr → World → Result ℕ
unfolding is_end
group_size zero a w = out_of_fuel
group_size (suc fuel) a w =
    let rest = group_size fuel (a + 1) w >>= λ n. ok (n + 1) in
    if is_end (w.alts a).op then ok 0 else rest

-- The four loops over a group. `a` is the address `&a[i]` of the next of the `n` that are left.
unfoldable pub mark : ℕ → Ptr → Ptr → World → World
mark zero base a w = w
mark (suc n) base a w =
    mark n base (a + 1) (put_alt a (record (w.alts a) { task = w.sys.running; xalt = base }) w)

unfoldable pub count_can : ℕ → Ptr → World → ℕ
unfolding altcanexec
count_can zero a w = 0
count_can (suc n) a w = (if altcanexec a w then 1 else 0) + count_can n (a + 1) w

-- The index of the operation that can be done and has `j` such operations before it.
unfoldable pub nth_can : ℕ → Ptr → ℕ → ℕ → World → Option ℕ
unfolding altcanexec
nth_can zero a i j w = none
nth_can (suc n) a i j w =
    let same = nth_can n (a + 1) (i + 1) j w in
    let fewer = nth_can n (a + 1) (i + 1) (j - 1) w in
    if altcanexec a w then (if j == 0 then some i else fewer) else same

unfoldable pub queue_all : ℕ → Ptr → World → Result World
unfolding altqueue
queue_all zero a w = ok w
queue_all (suc n) a w =
    (if (w.alts a).op == channop then ok w else altqueue a w) >>= queue_all n (a + 1)

-- How far `chanalt` got: it did operation `i`, it returns -1, or it reached its `taskswitch`.
pub data Choice : Type 0 where
  did : ℕ → Choice
  nothing : Choice
  blocks : Choice

unfoldable pub wait_for : ℕ → Ptr → Bool → World → Result (Choice × World)
unfolding queue_all
wait_for n a canblock w = do
  let queued = (do w' ← queue_all n a w; ok (blocks, w'))
  if canblock then queued else ok (nothing, w)

choose : ℕ → Option ℕ → ℕ → Ptr → ℕ → Bool → World → Result (Choice × World)
unfolding altexec wait_for
choose fuel none n a rand canblock w = wait_for n a canblock w
choose fuel (some i) n a rand canblock w = do w' ← altexec fuel (a + i) rand w; ok (did i, w')

-- `chanalt` up to its `taskswitch`, with the values of its two calls of `rand`.
unfoldable pub chanalt_enter : ℕ → Ptr → ℕ → ℕ → World → Result (Choice × World)
unfolding choose group_size mark count_can nth_can
chanalt_enter fuel a rand₁ rand₂ w = do
  n ← group_size fuel a w
  let canblock = (w.alts (a + n)).op == chanend
  let marked = mark n a a w
  let ncan = count_can n a marked
  choose fuel (if ncan == 0 then none else nth_can n a 0 (rand₁ % ncan) marked) n a rand₂ canblock
      marked

-- What it returns when it is resumed: the index of the operation that another task did for it.
unfoldable pub chanalt_resume : Ptr → World → ℤ
chanalt_resume a w = sub_ℕ (w.alts a).xalt a
