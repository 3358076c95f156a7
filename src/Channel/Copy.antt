-- ===== src/Channel/Copy.antt =====
-- channel.c: moving an element between a sender, a receiver and the buffer.
use libtask.Base.{ℕ, ◌%◌, Bool, not, ◌&&◌, ◌||◌, ◌==◌, if◌then◌else◌, update, set, get_or}
use libtask.Tasklist.{Ptr, nil}
use libtask.Sched.{Result, ok, aborts}
use libtask.Channel.Types.{
  low, merge, Elem, Channel, World, chansnd, chanrcv, add_uint, dec_uint, put_chan,
}

-- `amove` with the caller's element as its source, and as the destination of `n` bytes.
abbrev pub fetch : Ptr → World → Elem
fetch v w = if v == nil then 0 else w.mem v

abbrev pub store : ℕ → Ptr → Elem → World → World
store n v x w = record w { mem = if v == nil then w.mem else update w.mem v (merge n x (w.mem v)) }

-- `if(r)`: the oldest element of the buffer goes to the receiver.
unfoldable pub take_out : Channel → Channel
take_out c = record c {
  nbuf = dec_uint c.nbuf;
  off = if add_uint c.off 1 == c.bufsize then 0 else add_uint c.off 1;
}

-- `if(s)`: the sender's element goes behind the others.
unfoldable pub put_in : Elem → Channel → Channel
put_in x c = record c {
  buf = set c.buf (add_uint c.off c.nbuf % c.bufsize) (low c.elemsize x);
  nbuf = add_uint c.nbuf 1;
}

unfoldable pub receive_step : Ptr → Ptr → World → World
unfolding take_out
receive_step c r w =
    if r == nil
    then w
    else put_chan c (take_out (w.chans c))
        (store (w.chans c).elemsize (w.alts r).v (get_or (w.chans c).buf (w.chans c).off 0) w)

unfoldable pub send_step : Ptr → Ptr → World → World
unfolding put_in
send_step c s w = if s == nil then w else put_chan c (put_in (fetch (w.alts s).v w) (w.chans c)) w

-- The part of `altcopy` behind the exchange: `s` sends and `r` receives, either may be null.
unfoldable pub move : Ptr → Ptr → Ptr → World → World
unfolding receive_step send_step
move c s r w =
    if not (s == nil) && not (r == nil) && ((w.chans c).nbuf == 0)
    then store (w.chans c).elemsize (w.alts r).v (fetch (w.alts s).v w) w
    else send_step c s (receive_step c r w)

-- `assert(p == nil || p->op == op)`.
unfoldable pub has_op : Ptr → ℕ → World → Bool
has_op p op w = (p == nil) || ((w.alts p).op == op)

checked : Ptr → Ptr → Ptr → World → Result World
unfolding has_op move
checked c s r w = if has_op s chansnd w && has_op r chanrcv w then ok (move c s r w) else aborts

unfoldable pub altcopy : Ptr → Ptr → World → Result World
unfolding checked
altcopy s r w =
    if (s == nil) && (r == nil)
    then ok w
    else (if s == nil
        then aborts
        else (let c = (w.alts s).c in
            if (w.alts s).op == chanrcv then checked c r s w else checked c s r w))
