-- ===== src/Channel/Buffered.antt =====
-- One operation on a buffered channel that no task waits at.
use libtask.Base.{ℕ, ◌≡◌, refl, ◌≢◌, ◌∙◌, ap, arith, ==-ne, Bool, ltb, update, get_or, some}
use libtask.Tasklist.{Ptr, nil}
use libtask.Sched.{ok}
use libtask.Channel.Types.{Elem, merge, Alt, chan_of, Channel, World, chansnd, chanrcv, put_chan}
use libtask.Channel.Arrays.{Side, array, senders, receivers, chanarray, otherop}
use libtask.Channel.Copy.{altcopy, put_in, take_out}
use libtask.Channel.Ring.{Ring}
use libtask.Channel.Exchange.{taken, fetch_lem, store_lem}
use libtask.Channel.Select.{altcanexec, altexec, mark}
use libtask.Channel.Group.{marked, alts-marked}
use libtask.Channel.Api.{set_up}

-- A channel with a buffer and with no task waiting.
pub record Idle (ch : Channel) : Type 0 where
  pub ring : Ring ch
  pub no_senders : ch.asend.n ≡ 0
  pub no_receivers : ch.arecv.n ≡ 0

-- An operation on a buffer, with nobody to meet.
module _ (fuel at rand : ℕ) (x : World) (n : at ≢ nil) (v : (x.alts at).v ≢ nil) where
  altexec-altcopy :
      (side : Side)
      → chanarray (otherop (x.alts at).op) ≡ some side
      → (array side (chan_of x at)).n ≡ 0
      → altexec fuel at rand x ≡ altcopy at nil x
  unfolding altexec
  altexec-altcopy side e z = rw e (rw z refl)

  send_alone :
      (x.alts at).op ≡ chansnd
      → altcopy at nil x
        ≡ ok (put_chan (x.alts at).c (put_in (x.mem (x.alts at).v) (chan_of x at)) x)
  unfolding altcopy
  send_alone e =
      rw (==-ne at nil n, e)
        (ap (λ z. ok (put_chan (x.alts at).c (put_in z (chan_of x at)) x))
          (fetch_lem (x.alts at).v x v))

  receive_alone :
      (x.alts at).op ≡ chanrcv
      → altcopy at nil x
        ≡ ok (
            put_chan
              (x.alts at).c
              (take_out (chan_of x at))
              (record x { mem = update x.mem (x.alts at).v (taken (x.alts at).c at x) }))
  unfolding altcopy
  receive_alone e =
      rw (==-ne at nil n, e)
        (ap (λ y. ok (put_chan (x.alts at).c (take_out (chan_of x at)) y))
          (store_lem (chan_of x at).elemsize (x.alts at).v
            (get_or (chan_of x at).buf (chan_of x at).off 0) x v))

-- What a receive from the buffer of `c` makes of the element at `p`.
abbrev pub head_into : Ptr → Ptr → World → Elem
head_into c p w = merge (w.chans c).elemsize (get_or (w.chans c).buf (w.chans c).off 0) (w.mem p)

module _ (at c p : Ptr) (canblock : Bool) (w : World) where
  abbrev sends : World
  sends = marked at c chansnd p canblock w

  abbrev receives : World
  receives = marked at c chanrcv p canblock w

  pub can_send : Idle (w.chans c) → altcanexec at sends ≡ ltb (w.chans c).nbuf (w.chans c).bufsize
  unfolding altcanexec mark set_up
  can_send i =
      let n : (w.chans c).bufsize ≢ 0 = omega (arith, i.ring.off) in
      rw (alts-marked at c chansnd p canblock w, ==-ne (w.chans c).bufsize 0 n) refl

  pub can_receive : Idle (w.chans c) → altcanexec at receives ≡ ltb 0 (w.chans c).nbuf
  unfolding altcanexec mark set_up
  can_receive i =
      let n : (w.chans c).bufsize ≢ 0 = omega (arith, i.ring.off) in
      rw (alts-marked at c chanrcv p canblock w, ==-ne (w.chans c).bufsize 0 n) refl

  pub exec_send :
      (fuel rand : ℕ)
      → at ≢ nil
      → p ≢ nil
      → Idle (w.chans c)
      → altexec fuel at rand sends ≡ ok (put_chan c (put_in (w.mem p) (w.chans c)) sends)
  unfolding mark set_up chanarray otherop
  exec_send fuel rand n k i =
      let e = alts-marked at c chansnd p canblock w in
      let v : (sends.alts at).v ≢ nil = rw e k in
      altexec-altcopy fuel at rand sends n v receivers (rw e refl) (rw e i.no_receivers)
      ∙ send_alone fuel at rand sends n v (ap (λ (r : Alt). r.op) e)
      ∙ ap (λ (r : Alt). ok (put_chan r.c (put_in (w.mem r.v) (w.chans r.c)) sends)) e

  pub exec_receive :
      (fuel rand : ℕ)
      → at ≢ nil
      → p ≢ nil
      → Idle (w.chans c)
      → altexec fuel at rand receives
        ≡ ok (
            put_chan c
              (take_out (w.chans c))
              (record receives { mem = update w.mem p (head_into c p w) }))
  unfolding mark set_up chanarray otherop
  exec_receive fuel rand n k i =
      let e = alts-marked at c chanrcv p canblock w in
      let v : (receives.alts at).v ≢ nil = rw e k in
      altexec-altcopy fuel at rand receives n v senders (rw e refl) (rw e i.no_senders)
      ∙ receive_alone fuel at rand receives n v (ap (λ (r : Alt). r.op) e)
      ∙ ap
          (λ (r : Alt). ok (
            put_chan r.c (take_out (w.chans r.c))
              (record receives { mem = update w.mem r.v (head_into r.c r.v w) })))
          e
