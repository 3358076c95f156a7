-- ===== src/Channel/Nonblocking.antt =====
-- A buffered channel that no task waits at is a queue of at most `bufsize` elements: `channbsend` and
-- `channbrecv`.
use libtask.Base.{
  ℕ, zero, suc, ◌<◌, ◌≡◌, refl, ◌≢◌, sym, ◌∙◌, ap, subst, arith, ◌⊎◌, inl, inr, [], ◌∷◌, ◌++◌,
  length, false, Bool-cases, ltb, update, update_ne, update_self, get_or,
}
use mathlib.Core.List.{map}
use libtask.Tasklist.{Ptr, nil}
use libtask.Sched.{Result, ok}
use libtask.Channel.Types.{low, Channel, World, chansnd, chanrcv, put_chan, Elem}
use libtask.Channel.Copy.{put_in, take_out}
use libtask.Channel.Ring.{
  low-merge, length-map-low, contents, length-window, window, put_in-contents, take_out-contents,
}
use libtask.Channel.Select.{mark}
use libtask.Channel.Group.{marked, chanop-failure, chanop-success}
use libtask.Channel.Api.{set_up, Reply, success, failure, channbsend, channbrecv}
use libtask.Channel.Buffered.{head_into, Idle, can_send, can_receive, exec_send, exec_receive}

-- The result `r` of a send of the first bytes of `e`: a failure at a full buffer, or they are behind
-- the other elements.
abbrev pub Sent : Result (Reply × World) → Ptr → Elem → World → Type 0
Sent r c e w =
    ((length (contents (w.chans c)) ≡ (w.chans c).bufsize)
      × (x : World) × (r ≡ ok (failure, x))
      × (x.chans ≡ w.chans)
      × (x.sys ≡ w.sys))
    ⊎ ((length (contents (w.chans c)) < (w.chans c).bufsize)
        × (x : World) × (r ≡ ok (success, x))
        × (contents (x.chans c) ≡ contents (w.chans c) ++ (low (w.chans c).elemsize e ∷ []))
        × Idle (x.chans c)
        × ((x.chans c).elemsize ≡ (w.chans c).elemsize)
        × ((d : Ptr) → d ≢ c → x.chans d ≡ w.chans d)
        × (x.sys ≡ w.sys))

elemsize-put_in : (e : Elem) (ch : Channel) → (put_in e ch).elemsize ≡ ch.elemsize
unfolding put_in
elemsize-put_in e ch = refl

elemsize-take_out : (ch : Channel) → (take_out ch).elemsize ≡ ch.elemsize
unfolding take_out
elemsize-take_out ch = refl

put_in-Idle :
    (ch : Channel) (e : Elem)
    → Idle ch
    → ch.nbuf < ch.bufsize
    → Idle (put_in e ch) × (contents (put_in e ch) ≡ contents ch ++ (low ch.elemsize e ∷ []))
unfolding put_in
put_in-Idle ch e i room =
    let (ring, queue) = put_in-contents ch e i.ring room in
    (record { ring = ring; no_senders = i.no_senders; no_receivers = i.no_receivers }, queue)

-- `channbsend` at a buffered channel that no task waits at, with two rounds of fuel and with
-- addresses that are not null: it returns -1, and changes no channel, if the buffer is full;
-- otherwise it returns 1 and appends the element, the first `elemsize` bytes at the caller's
-- address, to the channel's queue, and changes no other channel. No task is switched to or made
-- ready.
pub channbsend-Sent :
    (fuel at c p rand₁ rand₂ : ℕ) (w : World)
    → 1 < fuel
    → at ≢ nil
    → p ≢ nil
    → Idle (w.chans c)
    → Sent (channbsend fuel at c p rand₁ rand₂ w) c (w.mem p) w
unfolding channbsend mark set_up
channbsend-Sent zero at c p rand₁ rand₂ w enough n k i = absurd (omega arith)
channbsend-Sent (suc zero) at c p rand₁ rand₂ w enough n k i = absurd (omega arith)
channbsend-Sent (suc (suc fuel)) at c p rand₁ rand₂ w enough n k i =
    let can = can_send at c p false w i in
    let len : length (contents (w.chans c)) ≡ (w.chans c).nbuf =
      length-map-low (w.chans c).elemsize _
      ∙ length-window (w.chans c).buf (w.chans c).bufsize (w.chans c).off (w.chans c).nbuf in
    elim (Bool-cases (ltb (w.chans c).nbuf (w.chans c).bufsize)) [
      | inl room ↦
          let less : (w.chans c).nbuf < (w.chans c).bufsize = ground arith in
          let (idle, queue) = put_in-Idle (w.chans c) (w.mem p) i less in
          let now = update_self w.chans c (put_in (w.mem p) (w.chans c)) in
          inr (
            omega (arith, len, less),
            put_chan c (put_in (w.mem p) (w.chans c)) (marked at c chansnd p false w),
            chanop-success fuel at c chansnd p false rand₁ rand₂ w _ (λ e. omega arith)
                (λ e. omega arith) (can ∙ room)
                (exec_send at c p false w (suc (suc fuel)) rand₂ n k i),
            ap contents now ∙ queue,
            subst Idle (sym now) idle,
            ap (λ (ch : Channel). ch.elemsize) now ∙ elemsize-put_in (w.mem p) (w.chans c),
            (λ d o. update_ne w.chans c (put_in (w.mem p) (w.chans c)) d o),
            refl,
          )
      | inr full ↦
          let all : (w.chans c).nbuf ≡ (w.chans c).bufsize = ground (arith, i.ring.nbuf) in
          inl (
            len ∙ all,
            marked at c chansnd p false w,
            chanop-failure fuel at c chansnd p rand₁ rand₂ w (λ e. omega arith) (λ e. omega arith)
                (can ∙ full),
            refl,
            refl,
          )
    ]

-- The result `r` of a receive into the first bytes at `p`: a failure, or the oldest element.
abbrev pub Received : Result (Reply × World) → Ptr → Ptr → World → Type 0
Received r c p w =
    ((contents (w.chans c) ≡ [])
      × (x : World) × (r ≡ ok (failure, x))
      × (x.chans ≡ w.chans)
      × (x.sys ≡ w.sys)
      × (x.mem ≡ w.mem))
    ⊎ ((e : Elem) × (x : World) × (r ≡ ok (success, x))
        × (contents (w.chans c) ≡ e ∷ contents (x.chans c))
        × (low (w.chans c).elemsize (x.mem p) ≡ e)
        × Idle (x.chans c)
        × ((x.chans c).elemsize ≡ (w.chans c).elemsize)
        × ((d : Ptr) → d ≢ c → x.chans d ≡ w.chans d)
        × (x.sys ≡ w.sys))

take_out-Idle :
    (ch : Channel)
    → Idle ch
    → ch.nbuf ≢ 0
    → Idle (take_out ch)
      × (contents ch ≡ low ch.elemsize (get_or ch.buf ch.off 0) ∷ contents (take_out ch))
unfolding take_out
take_out-Idle ch i left =
    let (ring, queue) = take_out-contents ch i.ring left in
    (record { ring = ring; no_senders = i.no_senders; no_receivers = i.no_receivers }, queue)

-- `channbrecv` at a buffered channel that no task waits at, with two rounds of fuel and with
-- addresses that are not null: it returns -1, and changes no channel, if the buffer is empty;
-- otherwise it returns 1, moves the oldest element from the channel's queue to the first `elemsize`
-- bytes at the caller's address, and changes no other channel. No task is switched to or made
-- ready.
pub channbrecv-Received :
    (fuel at c p rand₁ rand₂ : ℕ) (w : World)
    → 1 < fuel
    → at ≢ nil
    → p ≢ nil
    → Idle (w.chans c)
    → Received (channbrecv fuel at c p rand₁ rand₂ w) c p w
unfolding channbrecv mark set_up
channbrecv-Received zero at c p rand₁ rand₂ w enough n k i = absurd (omega arith)
channbrecv-Received (suc zero) at c p rand₁ rand₂ w enough n k i = absurd (omega arith)
channbrecv-Received (suc (suc fuel)) at c p rand₁ rand₂ w enough n k i =
    let can = can_receive at c p false w i in
    elim (Bool-cases (ltb 0 (w.chans c).nbuf)) [
      | inl more ↦
          let left : (w.chans c).nbuf ≢ 0 = ground arith in
          let (idle, queue) = take_out-Idle (w.chans c) i left in
          let now = update_self w.chans c (take_out (w.chans c)) in
          let n_bytes = (w.chans c).elemsize in
          let slot = get_or (w.chans c).buf (w.chans c).off 0 in
          let e = low n_bytes slot in
          inr (
            e,
            put_chan c (take_out (w.chans c))
                (record (marked at c chanrcv p false w) { mem = update w.mem p (head_into c p w) }),
            chanop-success fuel at c chanrcv p false rand₁ rand₂ w _ (λ e. omega arith)
                (λ e. omega arith) (can ∙ more)
                (exec_receive at c p false w (suc (suc fuel)) rand₂ n k i),
            queue ∙ ap (λ ch. e ∷ contents ch) (sym now),
            ap (low n_bytes) (update_self w.mem p (head_into c p w))
                ∙ low-merge n_bytes slot (w.mem p),
            subst Idle (sym now) idle,
            ap (λ (ch : Channel). ch.elemsize) now ∙ elemsize-take_out (w.chans c),
            (λ d o. update_ne w.chans c (take_out (w.chans c)) d o),
            refl,
          )
      | inr empty ↦
          let nothing : (w.chans c).nbuf ≡ 0 = ground arith in
          inl (
            ap
                (λ k.
                  map (low (w.chans c).elemsize)
                    (window (w.chans c).buf (w.chans c).bufsize (w.chans c).off k))
                nothing,
            marked at c chanrcv p false w,
            chanop-failure fuel at c chanrcv p rand₁ rand₂ w (λ e. omega arith) (λ e. omega arith)
                (can ∙ empty),
            refl,
            refl,
            refl,
          )
    ]
