-- ===== src/Sched/Boot/Halves.antt =====
-- `taskstart` gets back the address that `taskalloc` took apart.
use libtask.Base.{ℕ, zero, suc, ◌+◌, ◌*◌, ◌/◌, ◌%◌, ◌^◌, ◌<◌, ◌≡◌, refl, ◌∙◌, ap, arith}
use native.Mathlib.Nat.{mul_left_comm}
use libtask.Tasklist.{Ptr}
use libtask.Sched.Boot.{bit_or, address_halves, address_of}

bit_or-zero : (n h : ℕ) → h < 2 ^ n → bit_or n h 0 ≡ h
unfolding bit_or
bit_or-zero zero h l = omega arith
bit_or-zero (suc n) h l = ground (arith, bit_or-zero n (h / 2) (omega arith))

bit_or-even : (n c b : ℕ) → bit_or (suc n) (2 * c) b ≡ b % 2 + 2 * bit_or n c (b / 2)
unfolding bit_or
bit_or-even n c b =
    let even : (2 * c) % 2 ≡ 0 = omega arith in
    let half : (2 * c) / 2 ≡ c = omega arith in rw half (ground arith)

-- With the low bits of one word and the high ones of another zero, it is the sum.
bit_or-apart :
    (k n m h y : ℕ) → m ≡ k + n → y < 2 ^ k → h < 2 ^ n → bit_or m (h * 2 ^ k) y ≡ h * 2 ^ k + y
bit_or-apart zero n m h y e l s =
    let z : y ≡ 0 = omega arith in
    let one : h * 2 ^ 0 ≡ h = omega arith in
    let size : m ≡ n = omega arith in rw (one, z, size) (bit_or-zero n h s ∙ omega arith)
bit_or-apart (suc k) n zero h y e l s = absurd (omega arith)
bit_or-apart (suc k) n (suc m) h y e l s =
    let double : 2 ^ suc k ≡ 2 * 2 ^ k = omega arith in
    let ih = bit_or-apart k n m h (y / 2) (omega arith) (omega arith) s in
    let twice : h * 2 ^ suc k ≡ 2 * (h * 2 ^ k) =
      ap (λ p. h * p) double ∙ mul_left_comm h 2 (2 ^ k) in
    ap (λ a. bit_or (suc m) a y) twice ∙ bit_or-even m (h * 2 ^ k) y ∙ omega (arith, ih, twice)

-- `taskstart` gets the very address of 32 bits that `taskalloc` took apart.
pub address_of-address_halves :
    (t : Ptr) → t < 2 ^ 32 → address_of (address_halves t).0 (address_halves t).1 ≡ t
unfolding address_of address_halves
address_of-address_halves t l =
    let low : t % 2 ^ 32 % 2 ^ 32 ≡ t = omega arith in
    let high : ((t % 2 ^ 32 / 2 ^ 16) / 2 ^ 16 % 2 ^ 32 * 2 ^ 16 % 2 ^ 32) * 2 ^ 16 % 2 ^ 32
        ≡ 0 * 2 ^ 32 =
      omega arith in
    ap (λ a. bit_or 32 a (t % 2 ^ 32 % 2 ^ 32)) high
    ∙ bit_or-apart 32 0 32 0 (t % 2 ^ 32 % 2 ^ 32) refl (omega arith) (omega arith)
    ∙ omega (arith, low)
