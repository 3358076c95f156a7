-- ===== src/Channel/Group.antt =====
-- The group of one `Alt` that `_chanop` makes: how `chanalt` goes through it.
use libtask.Base.{ℕ, suc, ◌+◌, ◌≡◌, refl, ◌≢◌, arith, Bool, true, false}
use native.Mathlib.Nat.{mod-one, add-zero}
use libtask.Tasklist.{Ptr}
use libtask.Sched.{ok}
use libtask.Channel.Types.{Alt, World, chanend, channoblk}
use libtask.Channel.Arrays.{is_end}
use libtask.Channel.Select.{
  altcanexec, altexec, group_size, mark, count_can, nth_can, wait_for, chanalt_enter,
}
use libtask.Channel.Api.{reply, success, failure, set_up, chanop}

-- The `Alt` of the call, and the state in which `chanalt` makes its choice.
abbrev pub own : Ptr → Ptr → ℕ → Ptr → World → Alt
own at c op p w = record { c = c; v = p; op = op; task = w.sys.running; xalt = at }

abbrev pub marked : Ptr → Ptr → ℕ → Ptr → Bool → World → World
marked at c op p canblock w = mark 1 at at (set_up at c op p canblock w)

pub alts-marked :
    (at c : Ptr) (op : ℕ) (p : Ptr) (canblock : Bool) (w : World)
    → (marked at c op p canblock w).alts at ≡ own at c op p w
unfolding mark set_up
alts-marked at c op p canblock w = ground arith

group_size-one :
    (fuel : ℕ) (at c : Ptr) (op : ℕ) (p : Ptr) (canblock : Bool) (w : World)
    → op ≢ chanend
    → op ≢ channoblk
    → group_size (suc (suc fuel)) at (set_up at c op p canblock w) ≡ ok 1
unfolding group_size set_up is_end
group_size-one fuel at c op p canblock w n k = ground arith

last-noblk :
    (at c : Ptr) (op : ℕ) (p : Ptr) (w : World)
    → ((set_up at c op p false w).alts (at + 1)).op ≡ channoblk
unfolding set_up
last-noblk at c op p w = ground arith

-- A call that may not block, and cannot proceed, returns -1 and leaves all channels alone.
pub chanop-failure :
    (fuel : ℕ) (at c : Ptr) (op : ℕ) (p : Ptr) (rand₁ rand₂ : ℕ) (w : World)
    → op ≢ chanend
    → op ≢ channoblk
    → altcanexec at (marked at c op p false w) ≡ false
    → chanop (suc (suc fuel)) at c op p false rand₁ rand₂ w ≡ ok (failure, marked at c op p false w)
unfolding chanop chanalt_enter wait_for reply count_can
chanop-failure fuel at c op p rand₁ rand₂ w n k e =
    rw (group_size-one fuel at c op p false w n k, e, last-noblk at c op p w) refl

-- A call that can proceed carries out its operation and returns 1.
pub chanop-success :
    (fuel : ℕ) (at c : Ptr) (op : ℕ) (p : Ptr) (canblock : Bool) (rand₁ rand₂ : ℕ) (w x : World)
    → op ≢ chanend
    → op ≢ channoblk
    → altcanexec at (marked at c op p canblock w) ≡ true
    → altexec (suc (suc fuel)) at rand₂ (marked at c op p canblock w) ≡ ok x
    → chanop (suc (suc fuel)) at c op p canblock rand₁ rand₂ w ≡ ok (success, x)
unfolding chanop chanalt_enter reply count_can nth_can
chanop-success fuel at c op p canblock rand₁ rand₂ w x n k e d =
    rw (group_size-one fuel at c op p canblock w n k, e, mod-one rand₁, add-zero at, d) refl
