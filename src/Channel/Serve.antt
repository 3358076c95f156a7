-- ===== src/Channel/Serve.antt =====
-- A receiver that meets a sender that waits at a channel with a buffer.
use libtask.Base.{
  ℕ, zero, suc, ◌+◌, ◌%◌, ◌<◌, ◌≡◌, refl, ◌≢◌, sym, ◌∙◌, ap, subst, inl, inr, List, [], ◌∷◌, ◌++◌,
  get_or, arith, count, hit, Fresh, Distinct, ==-ne, some, true,
}
use native.Mathlib.Nat.{mod-lt}
use native.Mathlib.Decide.{ℕ_discrete}
use libtask.Tasklist.{Ptr, nil}
use libtask.Sched.{ok, taskready}
use libtask.Sched.Queue.{Queued, taskready-append}
use libtask.Channel.Types.{low, Alt, World, chan_of, chansnd, chanrcv}
use libtask.Channel.Arrays.{senders, chanarray, otherop, altdequeue, is_end}
use libtask.Channel.Copy.{move, take_out, put_in}
use libtask.Channel.Ring.{Ring, contents, SameBuffer, SameBuffer-contents, SameBuffer-Ring}
use libtask.Channel.Waiters.{Room, entries}
use libtask.Channel.Dequeue.{Left, altdequeue-Left}
use libtask.Channel.Exchange.{
  Meets, Exchanged, altcopy-move, altcopy-Exchanged, move-direct, move-through, steps-through,
  through,
}
use libtask.Channel.Select.{altexec, meet, release}
use libtask.Channel.Meet.{
  Alone, Fresh-get_or, sends-Pending, altalldequeue-one, meet-steps, released,
}

ok-injective : {x y : World} → ok x ≡ ok y → x ≡ y
ok-injective e = cc

-- What a copy of elements leaves as it was.
record Kept (w y : World) : Type 0 where
  alts : y.alts ≡ w.alts
  sys : y.sys ≡ w.sys
  asend : (d : Ptr) → (y.chans d).asend ≡ (w.chans d).asend

through-asend :
    (s r : Ptr) (w : World) (d : Ptr) → ((through s r w).chans d).asend ≡ (w.chans d).asend
unfolding put_in take_out
through-asend s r w d = elim (ℕ_discrete d (w.alts s).c) [
  | yes e ↦ ground (arith, ap w.chans e)
  | no n ↦ ground arith
]

move-Kept : (s r : Ptr) (w : World) → Meets s r w → Kept w (move (w.alts s).c s r w)
move-Kept s r w m = elim (ℕ_discrete (chan_of w s).nbuf 0) [
  | yes e ↦
      subst (Kept w) (sym (move-direct s r w m e))
        (record { alts = refl; sys = refl; asend = λ d. refl })
  | no n ↦
      subst (Kept w) (sym (move-through s r w m n ∙ steps-through s r w m))
        (record { alts = refl; sys = refl; asend = through-asend s r w })
]

-- What a meeting of the receiver `a` with the sender `b` makes of the world.
pub record Served (w x : World) (a b : Ptr) (rs : List Ptr) : Type 0 where
  pub order :
      contents (chan_of w b) ++ (low (chan_of w b).elemsize (w.mem (w.alts b).v) ∷ [])
      ≡ low (chan_of w b).elemsize (x.mem (w.alts a).v) ∷ contents (x.chans (w.alts b).c)
  pub ring : Ring (x.chans (w.alts b).c)
  pub told : (x.alts b).xalt ≡ b
  pub ready : Queued x.sys (rs ++ ((w.alts b).task ∷ []))
  pub waiters :
      (d : Ptr)
      → count d (entries (x.chans (w.alts b).c).asend) + hit d b
        ≡ count d (entries (chan_of w b).asend)

altexec-serve :
    (fuel a rand : ℕ) (w : World) (b : Ptr)
    → chanarray (otherop (w.alts a).op) ≡ some senders
    → (chan_of w a).asend.n ≢ 0
    → get_or (chan_of w a).asend.a (rand % (chan_of w a).asend.n) nil ≡ b
    → altexec fuel a rand w ≡ meet fuel a b w
unfolding altexec
altexec-serve fuel a rand w b side n e =
    rw side (rw (==-ne (chan_of w a).asend.n 0 n) (ap (λ o. meet fuel a o w) e))

from_receiver : (o : ℕ) → o ≡ chanrcv → chanarray (otherop o) ≡ some senders
unfolding chanarray otherop
from_receiver o e = ap (λ p. chanarray (otherop p)) e

-- The sender leaves its array after the copy.
unqueued :
    (w y : World) (b : Ptr) (i : ℕ)
    → (w.alts b).op ≡ chansnd
    → Kept w y
    → Room (chan_of w b).asend
    → i < (chan_of w b).asend.n
    → get_or (chan_of w b).asend.a i nil ≡ b
    → (z : World) × (altdequeue b y ≡ ok z) × Left y z b senders
unfolding chanarray
unqueued w y b i op k room l e =
    let same : (chan_of y b).asend ≡ (chan_of w b).asend =
      ap (λ (f : Ptr → Alt). (y.chans (f b).c).asend) k.alts ∙ k.asend (w.alts b).c in
    let sends : (y.alts b).op ≡ chansnd = ap (λ (f : Ptr → Alt). (f b).op) k.alts ∙ op in
    elim (altdequeue-Left b y senders (ap chanarray sends) (subst Room (sym same) room)) [
      | inl (f, _) ↦ absurd (
          Fresh-get_or b (chan_of w b).asend.n i (chan_of w b).asend.a l
            (omega (arith, room.size, room.used)) (subst (λ ar. Fresh b (entries ar)) same f) e)
      | inr z ↦ z
    ]

served :
    (w y z : World) (a b : Ptr) (rs : List Ptr)
    → Alone w b
    → Kept w y
    → Exchanged b a w y
    → Left y z b senders
    → Distinct (nil ∷ (w.alts b).task ∷ rs)
    → Queued w.sys rs
    → Served w (release b z) a b rs
unfolding release
served w y z a b rs one k x left d q =
    let alts : z.alts ≡ w.alts = left.alts ∙ k.alts in
    let same : z.alts b ≡ w.alts b = ap (λ (f : Ptr → Alt). f b) alts in
    let here : (y.alts b).c ≡ (w.alts b).c = ap (λ (f : Ptr → Alt). (f b).c) k.alts in
    let (told, sys) = released b z (ap (λ (r : Alt). r.xalt) same ∙ one.base) in
    let ran : (release b z).sys ≡ taskready (w.alts b).task w.sys =
      sys
      ∙ ap (λ (r : Alt). taskready r.task z.sys) same
      ∙ ap (taskready (w.alts b).task) (left.sys ∙ k.sys) in
    let c : Ptr = (w.alts b).c in
    let buffer : SameBuffer (z.chans c) (y.chans c) =
      subst (λ e. SameBuffer (z.chans e) (y.chans c)) (ap (λ (r : Alt). r.c) same)
        (subst (λ e. SameBuffer (chan_of z b) (y.chans e)) here left.buffer) in
    record {
      order =
          x.order
          ∙ ap (λ (f : Ptr → ℕ). low (chan_of w b).elemsize (f (w.alts a).v) ∷ contents (y.chans c))
              (sym left.mem)
          ∙ ap (λ l. low (chan_of w b).elemsize (z.mem (w.alts a).v) ∷ l)
              (sym (SameBuffer-contents (z.chans c) (y.chans c) buffer));
      ring = SameBuffer-Ring (z.chans c) (y.chans c) buffer x.ring;
      told = told;
      ready =
          subst (λ s. Queued s (rs ++ ((w.alts b).task ∷ []))) (sym ran)
            (taskready-append w.sys (w.alts b).task rs d q).0;
      waiters = λ e.
          ap (λ j. count e (entries (z.chans j).asend) + hit e b) (sym (ap (λ (r : Alt). r.c) same))
          ∙ left.waiters e
          ∙ ap (λ j. count e (entries (y.chans j).asend)) here
          ∙ ap (λ ar. count e (entries ar)) (k.asend c);
    }

-- `altexec` of a receiver at a channel with a buffer, when the sender that it picks among those
-- that wait is the only operation of its group, the task of that sender is not null and not on the
-- run queue, whose tasks are distinct and well-linked, their elements are at two different places
-- that are not null, the indices of the buffer are in bounds, the array of the senders has room for
-- its used entries, and the fuel is at least two rounds: the elements of the buffer and then the
-- sender's are, in this order, the received one and the elements of the buffer afterwards; the
-- sender is off its channel's array, once, and all others stay, its task is told which operation
-- was done and stands at the end of the run queue.
pub altexec-Served :
    (fuel a rand : ℕ) (w : World) (b : Ptr) (rs : List Ptr)
    → Meets b a w
    → Alone w b
    → Ring (chan_of w b)
    → Room (chan_of w b).asend
    → (chan_of w b).asend.n ≢ 0
    → get_or (chan_of w b).asend.a (rand % (chan_of w b).asend.n) nil ≡ b
    → Distinct (nil ∷ (w.alts b).task ∷ rs)
    → Queued w.sys rs
    → 1 < fuel
    → (x : World) × (altexec fuel a rand w ≡ ok x) × Served w x a b rs
altexec-Served zero a rand w b rs m one ring room n e d q enough = absurd (omega arith)
altexec-Served (suc zero) a rand w b rs m one ring room n e d q enough = absurd (omega arith)
altexec-Served (suc (suc fuel)) a rand w b rs m one ring room n e d q enough =
    let some_one : 0 < (chan_of w b).asend.n = omega arith in
    let y = move (w.alts b).c b a w in
    let kept : Kept w y = move-Kept b a w m in
    let (z, out, left) =
      unqueued w y b (rand % (chan_of w b).asend.n) m.sends kept room (mod-lt rand some_one) e in
    let alone : (y.alts b).xalt ≡ b = ap (λ (f : Ptr → Alt). (f b).xalt) kept.alts ∙ one.base in
    let (v, _, back, exchanged) = altcopy-Exchanged b a w m ring in
    let copied : v ≡ y = ok-injective (sym back ∙ (altcopy-move b a w m).1) in
    let number = subst (λ c. (w.chans c).asend.n ≢ 0) (sym m.same) n in
    let picked =
      subst (λ c. get_or (w.chans c).asend.a (rand % (w.chans c).asend.n) nil ≡ b) (sym m.same) e in
    let sends : (y.alts b).op ≡ chansnd = ap (λ (f : Ptr → Alt). (f b).op) kept.alts ∙ m.sends in
    let end : is_end (y.alts (b + 1)).op ≡ true =
      ap (λ (f : Ptr → Alt). is_end (f (b + 1)).op) kept.alts ∙ one.end in
    (
      release b z,
      altexec-serve (suc (suc fuel)) a rand w b (from_receiver (w.alts a).op m.receives) number
            picked
          ∙ meet-steps (suc (suc fuel)) a b w y z (altcopy-move b a w m).1 alone
              (altalldequeue-one fuel b y z (sends-Pending (y.alts b).op sends) out left.alts end),
      served w y z a b rs one kept (subst (Exchanged b a w) copied exchanged) left d q,
    )
