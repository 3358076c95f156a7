-- ===== src/Channel/Exchange.antt =====
-- `altcopy` between a sender and a receiver that meet at a channel.
use libtask.Base.{
  ℕ, ◌≡◌, refl, ◌≢◌, sym, ◌∙◌, ap, subst, [], ◌∷◌, ◌++◌, arith, ==-ne, get_or, update, update_ne,
  update_self, ◌<◌,
}
use native.Mathlib.Decide.{ℕ_discrete}
use libtask.Tasklist.{Ptr, nil}
use libtask.Sched.{ok}
use libtask.Channel.Types.{Elem, low, merge, Channel, World, chansnd, chanrcv, chan_of, put_chan}
use libtask.Channel.Copy.{altcopy, move, store, fetch, take_out, put_in, receive_step, send_step}
use libtask.Channel.Ring.{low-merge, Ring, contents, put_in-contents, take_out-contents}

-- `s` sends to and `r` receives from the same channel, with elements at different places.
pub record Meets (s r : Ptr) (w : World) : Type 0 where
  pub sender : s ≢ nil
  pub receiver : r ≢ nil
  pub sends : (w.alts s).op ≡ chansnd
  pub receives : (w.alts r).op ≡ chanrcv
  pub same : (w.alts r).c ≡ (w.alts s).c
  pub from : (w.alts s).v ≢ nil
  pub to : (w.alts r).v ≢ nil
  pub apart : (w.alts s).v ≢ (w.alts r).v

pub altcopy-move :
    (s r : Ptr) (w : World)
    → Meets s r w
    → (altcopy s r w ≡ ok (move (w.alts s).c s r w))
      × (altcopy r s w ≡ ok (move (w.alts s).c s r w))
unfolding altcopy
altcopy-move s r w m = (
  ground (arith, m.sender, m.receiver, m.sends, m.receives, m.same),
  ground (arith, m.sender, m.receiver, m.sends, m.receives, m.same),
)

-- The queue `c` of the world `w`, lengthened by what `s` sends, is what `r` got and the queue after.
pub record Exchanged (s r : Ptr) (w x : World) : Type 0 where
  pub order :
      contents (chan_of w s) ++ (low (chan_of w s).elemsize (w.mem (w.alts s).v) ∷ [])
      ≡ low (chan_of w s).elemsize (x.mem (w.alts r).v) ∷ contents (x.chans (w.alts s).c)
  pub ring : Ring (x.chans (w.alts s).c)
  pub others : (d : Ptr) → d ≢ (w.alts s).c → x.chans d ≡ w.chans d

pub fetch_lem : (v : Ptr) (w : World) → v ≢ nil → fetch v w ≡ w.mem v
fetch_lem v w n = ground arith

pub store_lem :
    (m : ℕ) (v : Ptr) (x : ℕ) (w : World)
    → v ≢ nil
    → store m v x w ≡ record w { mem = update w.mem v (merge m x (w.mem v)) }
store_lem m v x w n = ground arith

pub move-direct :
    (s r : Ptr) (w : World)
    → Meets s r w
    → (chan_of w s).nbuf ≡ 0
    → move (w.alts s).c s r w ≡ record w {
      mem =
          update w.mem
            (w.alts r).v
            (merge (chan_of w s).elemsize (w.mem (w.alts s).v) (w.mem (w.alts r).v));
    }
unfolding move
move-direct s r w m e =
    rw (==-ne s nil m.sender, ==-ne r nil m.receiver, e, fetch_lem (w.alts s).v w m.from)
      (store_lem (chan_of w s).elemsize (w.alts r).v (w.mem (w.alts s).v) w m.to)

pub move-through :
    (s r : Ptr) (w : World)
    → Meets s r w
    → (chan_of w s).nbuf ≢ 0
    → move (w.alts s).c s r w ≡ send_step (w.alts s).c s (receive_step (w.alts s).c r w)
unfolding move
move-through s r w m n =
    rw (==-ne s nil m.sender, ==-ne r nil m.receiver, ==-ne (chan_of w s).nbuf 0 n) refl

-- What a receive from the buffer makes of the receiver's element.
abbrev pub taken : Ptr → Ptr → World → Elem
taken c r w =
    merge (w.chans c).elemsize (get_or (w.chans c).buf (w.chans c).off 0) (w.mem (w.alts r).v)

-- The state after a receive from the buffer, and the one after a send into it as well.
abbrev pub received : Ptr → Ptr → World → World
received c r w =
    put_chan c (take_out (w.chans c)) (record w { mem = update w.mem (w.alts r).v (taken c r w) })

abbrev pub through : Ptr → Ptr → World → World
through s r w =
    put_chan (w.alts s).c (put_in (w.mem (w.alts s).v) (take_out (chan_of w s)))
      (received (w.alts s).c r w)

receive_lem :
    (c r : Ptr) (w : World) → r ≢ nil → (w.alts r).v ≢ nil → receive_step c r w ≡ received c r w
unfolding receive_step
receive_lem c r w n k = rw (==-ne r nil n) (
    ap (put_chan c (take_out (w.chans c)))
      (store_lem (w.chans c).elemsize (w.alts r).v (get_or (w.chans c).buf (w.chans c).off 0) w k))

send_lem :
    (c s : Ptr) (w : World)
    → s ≢ nil
    → (w.alts s).v ≢ nil
    → send_step c s w ≡ put_chan c (put_in (w.mem (w.alts s).v) (w.chans c)) w
unfolding send_step
send_lem c s w n k =
    rw (==-ne s nil n) (ap (λ z. put_chan c (put_in z (w.chans c)) w) (fetch_lem (w.alts s).v w k))

pub steps-through :
    (s r : Ptr) (w : World)
    → Meets s r w
    → send_step (w.alts s).c s (receive_step (w.alts s).c r w) ≡ through s r w
steps-through s r w m =
    let c = (w.alts s).c in
    let now = received c r w in
    let kept : now.mem (w.alts s).v ≡ w.mem (w.alts s).v =
      update_ne w.mem (w.alts r).v (taken c r w) (w.alts s).v m.apart in
    let there : now.chans c ≡ take_out (w.chans c) = update_self w.chans c (take_out (w.chans c)) in
    ap (send_step c s) (receive_lem c r w m.receiver m.to)
    ∙ send_lem c s now m.sender m.from
    ∙ ap (λ z. put_chan c (put_in z (now.chans c)) now) kept
    ∙ ap (λ k. put_chan c (put_in (w.mem (w.alts s).v) k) now) there

room_after : (c : Channel) → Ring c → c.nbuf ≢ 0 → (take_out c).nbuf < (take_out c).bufsize
unfolding take_out
room_after c v n = omega (arith, v.nbuf, v.small)

through-Exchanged :
    (s r : Ptr) (w : World)
    → Ring (chan_of w s)
    → (chan_of w s).nbuf ≢ 0
    → Exchanged s r w (through s r w)
unfolding take_out
through-Exchanged s r w v n =
    let (ring, out) = take_out-contents (chan_of w s) v n in
    let (ring', queue) =
      put_in-contents (take_out (chan_of w s)) (w.mem (w.alts s).v) ring
        (room_after (chan_of w s) v n) in
    let now : (through s r w).chans (w.alts s).c
        ≡ put_in (w.mem (w.alts s).v) (take_out (chan_of w s)) =
      update_self (received (w.alts s).c r w).chans (w.alts s).c
        (put_in (w.mem (w.alts s).v) (take_out (chan_of w s))) in
    let got : low (chan_of w s).elemsize ((through s r w).mem (w.alts r).v)
        ≡ low (chan_of w s).elemsize (get_or (chan_of w s).buf (chan_of w s).off 0) =
      ap (low (chan_of w s).elemsize) (update_self w.mem (w.alts r).v (taken (w.alts s).c r w))
      ∙ low-merge (chan_of w s).elemsize (get_or (chan_of w s).buf (chan_of w s).off 0)
          (w.mem (w.alts r).v) in
    record {
      order = rw (now, got, out, queue) refl;
      ring = rw now ring';
      others = λ d k.
          update_ne (received (w.alts s).c r w).chans (w.alts s).c
            (put_in (w.mem (w.alts s).v) (take_out (chan_of w s))) d k
          ∙ update_ne w.chans (w.alts s).c (take_out (chan_of w s)) d k;
    }

-- `altcopy` between a sender and a receiver of one buffered channel, named in either order, with
-- elements at two different places that are not null, keeps the order of elements: the elements of
-- the buffer and then the sent one are, in this order, the received one and the elements of the
-- buffer afterwards. The indices stay in bounds, and no other channel changes.
pub altcopy-Exchanged :
    (s r : Ptr) (w : World)
    → Meets s r w
    → Ring (chan_of w s)
    → (x : World) × (altcopy s r w ≡ ok x) × (altcopy r s w ≡ ok x) × Exchanged s r w x
altcopy-Exchanged s r w m v =
    let (there, back) = altcopy-move s r w m in
    (
      move (w.alts s).c s r w,
      there,
      back,
      elim (ℕ_discrete (chan_of w s).nbuf 0) [
        | yes e ↦ subst (Exchanged s r w) (sym (move-direct s r w m e)) (record {
          order =
              rw (update_self w.mem (w.alts r).v _, e)
                (ap (λ y. y ∷ [])
                  (sym
                    (low-merge (chan_of w s).elemsize (w.mem (w.alts s).v) (w.mem (w.alts r).v))));
          ring = v;
          others = λ d n. refl;
        })
        | no n ↦
            subst (Exchanged s r w) (sym (move-through s r w m n ∙ steps-through s r w m))
              (through-Exchanged s r w v n)
      ],
    )
