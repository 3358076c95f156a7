-- ===== src/Channel/Dequeue.antt =====
-- Joining and leaving the array of the tasks that wait at a channel.
use libtask.Base.{
  ℕ, zero, suc, ◌+◌, ◌^◌, ◌≤◌, ◌<◌, ◌≡◌, refl, ◌≢◌, sym, ◌∙◌, ap, subst, ◌⊎◌, inl, inr, List, [],
  ◌∷◌, length, take, get_or, arith, count, hit, Fresh, ==-ne, some, none, update_self, update_ne,
}
use native.Mathlib.Decide.{ℕ_discrete}
use libtask.Tasklist.{Ptr, nil}
use libtask.Sched.{ok, aborts}
use libtask.Channel.Types.{Altarray, Channel, World, chan_of, put_chan}
use libtask.Channel.Arrays.{
  Side, senders, receivers, array, put_array, chanarray, addarray, delarray, find_alt, altqueue,
  altdequeue,
}
use libtask.Channel.Ring.{SameBuffer}
use libtask.Channel.Waiters.{Room, entries, addarray-count, delarray-count}

find_alt-cases :
    (xs : List Ptr) (n : ℕ) (x : Ptr)
    → n ≤ length xs
    → ((find_alt xs n x ≡ none) × Fresh x (take n xs))
      ⊎ ((i : ℕ) × (find_alt xs n x ≡ some i) × (i < n) × (get_or xs i nil ≡ x))
unfolding find_alt
find_alt-cases xs zero x h = inl (refl, tt)
find_alt-cases [] (suc n) x h = absurd (omega arith)
find_alt-cases (y ∷ ys) (suc n) x h = elim (ℕ_discrete y x) [
  | yes e ↦ inr (0, ground arith, omega arith, e)
  | no ne ↦ elim (find_alt-cases ys n x (omega arith)) [
    | inl (e, f) ↦ inl (rw (==-ne y x ne, e) refl, (λ k. ne (sym k), f))
    | inr (i, e, l, g) ↦ inr (suc i, rw (==-ne y x ne, e) refl, omega arith, g)
  ]
]

array-put : (side : Side) (ar : Altarray) (c : Channel) → array side (put_array side ar c) ≡ ar
array-put senders ar c = refl
array-put receivers ar c = refl

-- `a` is one more, or one less, of those that wait on its side of its channel.
pub record Joined (w x : World) (a : Ptr) (side : Side) : Type 0 where
  pub room : Room (array side (chan_of x a))
  pub waiters :
      (b : Ptr)
      → count b (entries (array side (chan_of x a)))
        ≡ count b (entries (array side (chan_of w a))) + hit b a
  pub others : (d : Ptr) → d ≢ (w.alts a).c → x.chans d ≡ w.chans d
  pub sys : x.sys ≡ w.sys

pub record Left (w x : World) (a : Ptr) (side : Side) : Type 0 where
  pub room : Room (array side (chan_of x a))
  pub waiters :
      (b : Ptr)
      → count b (entries (array side (chan_of x a))) + hit b a
        ≡ count b (entries (array side (chan_of w a)))
  pub buffer : SameBuffer (chan_of x a) (chan_of w a)
  pub others : (d : Ptr) → d ≢ (w.alts a).c → x.chans d ≡ w.chans d
  pub sys : x.sys ≡ w.sys
  pub alts : x.alts ≡ w.alts
  pub mem : x.mem ≡ w.mem

-- The state with `ar` as that array.
abbrev with_array : Ptr → Side → Altarray → World → World
with_array a side ar w = put_chan (w.alts a).c (put_array side ar (chan_of w a)) w

buffer-put : (side : Side) (ar : Altarray) (c : Channel) → SameBuffer (put_array side ar c) c
buffer-put senders ar c = (refl, refl, refl, refl, refl)
buffer-put receivers ar c = (refl, refl, refl, refl, refl)

buffer-with :
    (a : Ptr) (side : Side) (ar : Altarray) (w : World)
    → SameBuffer (chan_of (with_array a side ar w) a) (chan_of w a)
buffer-with a side ar w =
    subst (λ c. SameBuffer c (chan_of w a))
      (sym (update_self w.chans (w.alts a).c (put_array side ar (chan_of w a))))
      (buffer-put side ar (chan_of w a))

array-with :
    (a : Ptr) (side : Side) (ar : Altarray) (w : World)
    → array side (chan_of (with_array a side ar w) a) ≡ ar
array-with a side ar w =
    ap (array side) (update_self w.chans (w.alts a).c (put_array side ar (chan_of w a)))
    ∙ array-put side ar (chan_of w a)

-- `altqueue` of an operation that sends or receives adds it, once, to those that wait in its
-- channel's array, which grows by 16 entries when it is full, and whose size does not overflow; the
-- others stay, and no other channel changes.
pub altqueue-Joined :
    (a : Ptr) (w : World) (side : Side)
    → chanarray (w.alts a).op ≡ some side
    → Room (array side (chan_of w a))
    → (array side (chan_of w a)).m + 16 < 2 ^ 32
    → (x : World) × (altqueue a w ≡ ok x) × Joined w x a side
unfolding altqueue
altqueue-Joined a w side e r big =
    let ar = array side (chan_of w a) in
    let (room, more) = addarray-count ar a r big in
    let now = array-with a side (addarray ar a) w in
    (
      with_array a side (addarray ar a) w,
      rw e refl,
      record {
        room = subst Room (sym now) room;
        waiters = λ b. ap (λ k. count b (entries k)) now ∙ more b;
        others = λ d n.
            update_ne w.chans (w.alts a).c (put_array side (addarray ar a) (chan_of w a)) d n;
        sys = refl;
      },
    )

-- `altdequeue` of an operation that sends or receives, with room for the used entries in its
-- channel's array, aborts if the operation is not in the array. Otherwise one occurrence of it is
-- gone, all other operations stay as often as they were, the buffer stays, and no other channel
-- changes.
pub altdequeue-Left :
    (a : Ptr) (w : World) (side : Side)
    → chanarray (w.alts a).op ≡ some side
    → Room (array side (chan_of w a))
    → (Fresh a (entries (array side (chan_of w a))) × (altdequeue a w ≡ aborts))
      ⊎ ((x : World) × (altdequeue a w ≡ ok x) × Left w x a side)
unfolding altdequeue
altdequeue-Left a w side e r =
    let ar = array side (chan_of w a) in
    elim (find_alt-cases ar.a ar.n a (omega (arith, r.size, r.used))) [
      | inl (k, f) ↦ inl (f, rw (e, k) refl)
      | inr (i, k, l, g) ↦
          let (room, less) = delarray-count ar i r l in
          let now = array-with a side (delarray ar i) w in
          inr (
            with_array a side (delarray ar i) w,
            rw (e, k) refl,
            record {
              room = subst Room (sym now) room;
              waiters = λ b.
                  ap (λ z. count b (entries z) + hit b a) now
                  ∙ subst (λ y. count b (entries (delarray ar i)) + hit b y ≡ count b (entries ar))
                      g (less b);
              buffer = buffer-with a side (delarray ar i) w;
              others = λ d n.
                  update_ne w.chans (w.alts a).c (put_array side (delarray ar i) (chan_of w a)) d n;
              sys = refl;
              alts = refl;
              mem = refl;
            },
          )
    ]
