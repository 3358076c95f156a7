-- ===== src/Channel/Meet.antt =====
-- A sender that meets a receiver that waits at an empty or unbuffered channel.
use libtask.Base.{
  ℕ, zero, suc, ◌+◌, ◌%◌, ◌<◌, ◌≤◌, ◌≡◌, refl, ◌≢◌, sym, ◌∙◌, ap, subst, inl, inr, List, [], ◌∷◌,
  ◌++◌, length, take, get_or, arith, count, hit, Fresh, Distinct, ◌==◌, ==-ne, some, true, false,
  update_self, update, if◌then◌else◌,
}
use native.Mathlib.Nat.{mod-lt}
use libtask.Channel.Ring.{low-merge}
use libtask.Tasklist.{Ptr, nil}
use libtask.Sched.{ok, taskready, ◌>>=◌}
use libtask.Sched.Queue.{Queued, taskready-append}
use libtask.Channel.Types.{low, merge, Alt, World, chan_of, chansnd, chanrcv, channop}
use libtask.Channel.Arrays.{receivers, chanarray, otherop, altdequeue, altalldequeue, is_end}
use libtask.Channel.Copy.{altcopy}
use libtask.Channel.Waiters.{Room, entries}
use libtask.Channel.Dequeue.{Left, altdequeue-Left}
use libtask.Channel.Exchange.{Meets, altcopy-move, move-direct}
use libtask.Channel.Select.{altexec, meet, release}

-- The only operation of its group.
pub record Alone (w : World) (a : Ptr) : Type 0 where
  pub base : (w.alts a).xalt ≡ a
  pub end : is_end (w.alts (a + 1)).op ≡ true

pub Fresh-get_or :
    (x : Ptr) (n i : ℕ) (xs : List Ptr)
    → i < n
    → n ≤ length xs
    → Fresh x (take n xs)
    → get_or xs i nil ≢ x
Fresh-get_or x zero i xs h k f = absurd (omega arith)
Fresh-get_or x (suc n) i [] h k f = absurd (omega arith)
Fresh-get_or x (suc n) zero (y ∷ xs) h k f = λ e. f.0 (sym e)
Fresh-get_or x (suc n) (suc i) (y ∷ xs) h k f =
    Fresh-get_or x n i xs (omega arith) (omega arith) f.1

-- An operation that may wait in an array.
abbrev pub Pending : ℕ → Type 0
Pending op = (is_end op ≡ false) × ((op == channop) ≡ false)

pub receives-Pending : (op : ℕ) → op ≡ chanrcv → Pending op
unfolding is_end
receives-Pending op e = subst Pending (sym e) (refl, refl)

pub sends-Pending : (op : ℕ) → op ≡ chansnd → Pending op
unfolding is_end
sends-Pending op e = subst Pending (sym e) (refl, refl)

-- A round at such an operation, and the one at the end of the group.
altalldequeue-round :
    (fuel : ℕ) (b : Ptr) (w : World)
    → Pending (w.alts b).op
    → altalldequeue (suc fuel) b w ≡ (altdequeue b w >>= altalldequeue fuel (b + 1))
unfolding altalldequeue
altalldequeue-round fuel b w (more, queued) = rw (more, queued) refl

altalldequeue-end :
    (fuel : ℕ) (b : Ptr) (w : World)
    → is_end (w.alts b).op ≡ true
    → altalldequeue (suc fuel) b w ≡ ok w
unfolding altalldequeue
altalldequeue-end fuel b w e =
    ap
      (λ t.
        if t
        then ok w
        else ((if (w.alts b).op == channop then ok w else altdequeue b w)
            >>= altalldequeue fuel (b + 1)))
      e

-- With one operation in the group, `altalldequeue` takes that one off its array.
pub altalldequeue-one :
    (fuel : ℕ) (b : Ptr) (w x : World)
    → Pending (w.alts b).op
    → altdequeue b w ≡ ok x
    → x.alts ≡ w.alts
    → is_end (w.alts (b + 1)).op ≡ true
    → altalldequeue (suc (suc fuel)) b w ≡ ok x
altalldequeue-one fuel b w x op e same end =
    altalldequeue-round (suc fuel) b w op
    ∙ ap (λ r. r >>= altalldequeue (suc fuel) (b + 1)) e
    ∙ altalldequeue-end fuel (b + 1) x (ap (λ (f : Ptr → Alt). is_end (f (b + 1)).op) same ∙ end)

-- What a meeting of the sender `a` with the receiver `b` makes of the world.
pub record Met (w x : World) (a b : Ptr) (rs : List Ptr) : Type 0 where
  pub moved :
      low (chan_of w a).elemsize (x.mem (w.alts b).v)
      ≡ low (chan_of w a).elemsize (w.mem (w.alts a).v)
  pub told : (x.alts b).xalt ≡ b
  pub ready : Queued x.sys (rs ++ ((w.alts b).task ∷ []))
  pub waiters :
      (d : Ptr)
      → count d (entries (x.chans (w.alts a).c).arecv) + hit d b
        ≡ count d (entries (chan_of w a).arecv)

pub meet-steps :
    (fuel : ℕ) (a b : Ptr) (w y z : World)
    → altcopy a b w ≡ ok y
    → (y.alts b).xalt ≡ b
    → altalldequeue fuel b y ≡ ok z
    → meet fuel a b w ≡ ok (release b z)
unfolding meet
meet-steps fuel a b w y z e base d =
    ap
      (λ r. r >>= λ copied.
        altalldequeue fuel (copied.alts b).xalt copied >>= λ left. ok (release b left))
      e
    ∙ ap (λ p. altalldequeue fuel p y >>= λ left. ok (release b left)) base
    ∙ ap (λ r. r >>= λ left. ok (release b left)) d

altexec-meet :
    (fuel a rand : ℕ) (w : World) (b : Ptr)
    → chanarray (otherop (w.alts a).op) ≡ some receivers
    → (chan_of w a).arecv.n ≢ 0
    → get_or (chan_of w a).arecv.a (rand % (chan_of w a).arecv.n) nil ≡ b
    → altexec fuel a rand w ≡ meet fuel a b w
unfolding altexec
altexec-meet fuel a rand w b side n e =
    rw side (rw (==-ne (chan_of w a).arecv.n 0 n) (ap (λ o. meet fuel a o w) e))

pub released :
    (b : Ptr) (z : World)
    → (z.alts b).xalt ≡ b
    → (((release b z).alts b).xalt ≡ b) × ((release b z).sys ≡ taskready (z.alts b).task z.sys)
unfolding release
released b z e = (
  ground (arith, e),
  subst
      (λ p.
        taskready (update z.alts p (record (z.alts p) { xalt = b }) b).task z.sys
        ≡ taskready (z.alts b).task z.sys)
      (sym e)
      (ap (λ (r : Alt). taskready r.task z.sys)
        (update_self z.alts b (record (z.alts b) { xalt = b }))),
)

from_sender : (o : ℕ) → o ≡ chansnd → chanarray (otherop o) ≡ some receivers
unfolding chanarray otherop
from_sender o e = ap (λ p. chanarray (otherop p)) e

-- The world after the element was copied.
abbrev copied : World → Ptr → Ptr → World
copied w a b = record w {
  mem =
      update w.mem (w.alts b).v
        (merge (chan_of w a).elemsize (w.mem (w.alts a).v) (w.mem (w.alts b).v));
}

-- The receiver leaves its array after the copy.
unqueued :
    (w : World) (a b : Ptr) (i : ℕ)
    → Meets a b w
    → Room (chan_of w a).arecv
    → i < (chan_of w a).arecv.n
    → get_or (chan_of w a).arecv.a i nil ≡ b
    → (z : World) × (altdequeue b (copied w a b) ≡ ok z) × Left (copied w a b) z b receivers
unfolding chanarray
unqueued w a b i m room l e =
    let there : Room (w.chans (w.alts b).c).arecv =
      subst (λ c. Room (w.chans c).arecv) (sym m.same) room in
    elim (altdequeue-Left b (copied w a b) receivers (ap chanarray m.receives) there) [
      | inl (f, _) ↦ absurd (
          Fresh-get_or b (chan_of w a).arecv.n i (chan_of w a).arecv.a l
            (omega (arith, room.size, room.used))
            (subst (λ c. Fresh b (entries (w.chans c).arecv)) m.same f) e)
      | inr z ↦ z
    ]

met :
    (w z : World) (a b : Ptr) (rs : List Ptr)
    → Meets a b w
    → Alone w b
    → Left (copied w a b) z b receivers
    → Distinct (nil ∷ (w.alts b).task ∷ rs)
    → Queued w.sys rs
    → Met w (release b z) a b rs
unfolding release
met w z a b rs m one left d q =
    let same : z.alts b ≡ w.alts b = ap (λ (f : Ptr → Alt). f b) left.alts in
    let (told, sys) = released b z (ap (λ (r : Alt). r.xalt) same ∙ one.base) in
    let ran : (release b z).sys ≡ taskready (w.alts b).task w.sys =
      sys
      ∙ ap (λ (r : Alt). taskready r.task z.sys) same
      ∙ ap (taskready (w.alts b).task) left.sys in
    let channel : (z.alts b).c ≡ (w.alts a).c = ap (λ (r : Alt). r.c) same ∙ m.same in
    record {
      moved =
          ap (λ (f : Ptr → ℕ). low (chan_of w a).elemsize (f (w.alts b).v)) left.mem
          ∙ ap (low (chan_of w a).elemsize) (update_self w.mem (w.alts b).v _)
          ∙ low-merge (chan_of w a).elemsize (w.mem (w.alts a).v) (w.mem (w.alts b).v);
      told = told;
      ready =
          subst (λ s. Queued s (rs ++ ((w.alts b).task ∷ []))) (sym ran)
            (taskready-append w.sys (w.alts b).task rs d q).0;
      waiters = λ k.
          ap (λ c. count k (entries (z.chans c).arecv) + hit k b) (sym channel)
          ∙ left.waiters k
          ∙ ap (λ c. count k (entries (w.chans c).arecv)) m.same;
    }

-- `altexec` of a sender at a channel with an empty buffer or none, when the receiver that it picks
-- among those that wait is the only operation of its group, the task of that receiver is not null
-- and not on the run queue, whose tasks are distinct, their elements are at two different places
-- that are not null, the channel's array has room for its used entries, and the fuel is at least
-- two rounds: the element goes to the receiver, the receiver is off its channel's array, once, and
-- all others stay, its task is told which operation was done and stands at the end of the run
-- queue.
pub altexec-Met :
    (fuel a rand : ℕ) (w : World) (b : Ptr) (rs : List Ptr)
    → Meets a b w
    → Alone w b
    → (chan_of w a).nbuf ≡ 0
    → Room (chan_of w a).arecv
    → (chan_of w a).arecv.n ≢ 0
    → get_or (chan_of w a).arecv.a (rand % (chan_of w a).arecv.n) nil ≡ b
    → Distinct (nil ∷ (w.alts b).task ∷ rs)
    → Queued w.sys rs
    → 1 < fuel
    → (x : World) × (altexec fuel a rand w ≡ ok x) × Met w x a b rs
altexec-Met zero a rand w b rs m one empty room n e d q enough = absurd (omega arith)
altexec-Met (suc zero) a rand w b rs m one empty room n e d q enough = absurd (omega arith)
altexec-Met (suc (suc fuel)) a rand w b rs m one empty room n e d q enough =
    let some_one : 0 < (chan_of w a).arecv.n = omega arith in
    let (z, out, left) =
      unqueued w a b (rand % (chan_of w a).arecv.n) m room (mod-lt rand some_one) e in
    let y = copied w a b in
    (
      release b z,
      altexec-meet (suc (suc fuel)) a rand w b (from_sender (w.alts a).op m.sends) n e
          ∙ meet-steps (suc (suc fuel)) a b w y z
              ((altcopy-move a b w m).0 ∙ ap ok (move-direct a b w m empty)) one.base
              (altalldequeue-one fuel b y z (receives-Pending (w.alts b).op m.receives) out
                left.alts one.end),
      met w z a b rs m one left d q,
    )
