-- ===== src/Channel/Api.antt =====
-- channel.c: sending and receiving one element.
use libtask.Base.{ℕ, ◌+◌, Bool, true, false, if◌then◌else◌, update, Option, some, none}
use libtask.Tasklist.{Ptr}
use libtask.Sched.{Result, ok, ◌>>=◌}
use libtask.Channel.Types.{low, merge, Elem, World, chanend, chansnd, chanrcv, channoblk, put_alt}
use libtask.Channel.Select.{Choice, did, nothing, blocks, chanalt_enter}

-- What `_chanop` returns: 1, -1, or nothing yet.
pub data Reply : Type 0 where
  success failure pending : Reply

unfoldable pub reply : Choice → Reply
reply (did i) = success
reply nothing = failure
reply blocks = pending

-- The two `Alt`s on the caller's stack, at `at` and `at + 1`.
unfoldable pub set_up : Ptr → Ptr → ℕ → Ptr → Bool → World → World
set_up at c op p canblock w =
    put_alt (at + 1) (record (w.alts (at + 1)) { op = if canblock then chanend else channoblk })
      (put_alt at (record (w.alts at) { c = c; op = op; v = p }) w)

-- `_chanop` up to the `taskswitch` of `chanalt`. `fuel` bounds the loop over its own group, which has
-- one `Alt` and its end, and the one over the group of the task that it meets.
unfoldable pub chanop : ℕ → Ptr → Ptr → ℕ → Ptr → Bool → ℕ → ℕ → World → Result (Reply × World)
unfolding set_up reply chanalt_enter
chanop fuel at c op p canblock rand₁ rand₂ w = do
  (choice, w') ← chanalt_enter fuel at rand₁ rand₂ (set_up at c op p canblock w)
  ok (reply choice, w')

module _ (fuel : ℕ) (at c p : Ptr) (rand₁ rand₂ : ℕ) where
  unfoldable pub chansend : World → Result (Reply × World)
  unfolding chanop
  chansend = chanop fuel at c chansnd p true rand₁ rand₂

  unfoldable pub channbsend : World → Result (Reply × World)
  unfolding chanop
  channbsend = chanop fuel at c chansnd p false rand₁ rand₂

  unfoldable pub chanrecv : World → Result (Reply × World)
  unfolding chanop
  chanrecv = chanop fuel at c chanrcv p true rand₁ rand₂

  unfoldable pub channbrecv : World → Result (Reply × World)
  unfolding chanop
  channbrecv = chanop fuel at c chanrcv p false rand₁ rand₂

-- The variants for a word: the element is a local variable or parameter of four bytes at the address
-- `p`, whatever the size of the channel's elements is.
module _ (fuel : ℕ) (at c p : Ptr) (rand₁ rand₂ : ℕ) where
  unfoldable pub chansendul : Elem → World → Result (Reply × World)
  unfolding chansend
  chansendul val w =
      chansend fuel at c p rand₁ rand₂ (record w { mem = update w.mem p (merge 4 val (w.mem p)) })

  unfoldable pub channbsendul : Elem → World → Result (Reply × World)
  unfolding channbsend
  channbsendul val w =
      channbsend fuel at c p rand₁ rand₂ (record w { mem = update w.mem p (merge 4 val (w.mem p)) })

  -- The local variable is not initialised: with nothing received, what its memory held is returned.
  unfoldable pub channbrecvul : World → Result (Elem × World)
  unfolding channbrecv
  channbrecvul w = do (r, w') ← channbrecv fuel at c p rand₁ rand₂ w; ok (low 4 (w'.mem p), w')

  -- `none` if it blocks.
  unfoldable pub chanrecvul : World → Result (Option Elem × World)
  unfolding chanrecv
  chanrecvul w = do
    (r, w') ← chanrecv fuel at c p rand₁ rand₂ w
    ok (elim r [ pending ↦ none | _ ↦ some (low 4 (w'.mem p)) ], w')

-- The variants for a pointer, which differ from those for a word only in the type of the element.
module _ (fuel : ℕ) (at c p : Ptr) (rand₁ rand₂ : ℕ) where
  unfoldable pub chansendp : Elem → World → Result (Reply × World)
  unfolding chansend
  chansendp v w =
      chansend fuel at c p rand₁ rand₂ (record w { mem = update w.mem p (merge 4 v (w.mem p)) })

  unfoldable pub channbsendp : Elem → World → Result (Reply × World)
  unfolding channbsend
  channbsendp v w =
      channbsend fuel at c p rand₁ rand₂ (record w { mem = update w.mem p (merge 4 v (w.mem p)) })

  unfoldable pub channbrecvp : World → Result (Elem × World)
  unfolding channbrecv
  channbrecvp w = do (r, w') ← channbrecv fuel at c p rand₁ rand₂ w; ok (low 4 (w'.mem p), w')

  unfoldable pub chanrecvp : World → Result (Option Elem × World)
  unfolding chanrecv
  chanrecvp w = do
    (r, w') ← chanrecv fuel at c p rand₁ rand₂ w
    ok (elim r [ pending ↦ none | _ ↦ some (low 4 (w'.mem p)) ], w')
