-- ===== src/Fd/Timeout.antt =====
-- `fdtask` in front of `poll`: how long `poll` may wait.
use libtask.Base.{
  ℕ, ◌+◌, ◌-◌, ◌*◌, ◌/◌, ◌%◌, ◌^◌, ◌≤◌, ◌<◌, ◌≡◌, refl, ◌≢◌, ◌⊎◌, inl, inr, arith, true, false,
  Bool-cases, leb, ◌==◌, pos, negsuc,
}
use native.Mathlib.Decide.{ℕ_discrete}
use libtask.Tasklist.{Ptr, nil}
use libtask.Fd.Task.{poll_timeout}

-- `poll` ends `ms` milliseconds after `now` at the latest, which is not later than `alarm`, and less
-- than a millisecond too early or after five seconds.
pub record Timely (now alarm ms : ℕ) : Type 0 where
  pub most : ms ≤ 5000
  pub in_time : ms * 1000000 ≤ alarm - now
  pub no_spin : (alarm - now < ms * 1000000 + 1000000) ⊎ (ms ≡ 5000)

Timely-soon :
    (now alarm : ℕ)
    → now < alarm
    → alarm ≤ now + 5000000000
    → Timely now alarm ((alarm - now) / 1000000)
Timely-soon now alarm l s =
    let low : (alarm - now) / 1000000 * 1000000 ≤ alarm - now = omega arith in
    let high : alarm - now < (alarm - now) / 1000000 * 1000000 + 1000000 = omega arith in
    record { most = omega arith; in_time = low; no_spin = inl high }

-- The timeout that `fdtask` gives `poll`, when the clock is not within five seconds of its largest
-- value: -1 just when nobody sleeps. Otherwise it is at most 5000 milliseconds, does not end after
-- the first alarm, and ends less than a millisecond before that alarm unless it is 5000.
pub poll_timeout-Timely :
    (now : ℕ) (t : Ptr) (alarm : Ptr → ℕ)
    → now + 5000000000 < 2 ^ 64
    → ((t ≡ nil) × (poll_timeout now t alarm ≡ negsuc 0))
      ⊎ ((t ≢ nil) × ((ms : ℕ) × (poll_timeout now t alarm ≡ pos ms) × Timely now (alarm t) ms))
unfolding poll_timeout
poll_timeout-Timely now t alarm fits = elim (ℕ_discrete t nil) [
  | yes e ↦ let null : (t == nil) ≡ true = ground arith in inl (e, rw null refl)
  | no n ↦
      let set : (t == nil) ≡ false = ground arith in
      elim (Bool-cases (leb (alarm t) now)) [
        | inl past ↦
            let over : alarm t ≤ now = ground arith in
            inr (
              n,
              (
                0,
                rw (set, past) refl,
                record { most = omega arith; in_time = omega arith; no_spin = inl (omega arith) },
              ),
            )
        | inr ahead ↦
            let before : now < alarm t = ground arith in
            elim (Bool-cases (leb (alarm t) ((now + 5000000000) % 2 ^ 64))) [
              | inl soon ↦
                  let near : alarm t ≤ (now + 5000000000) % 2 ^ 64 = ground arith in
                  inr (
                    n,
                    (
                      (alarm t - now) / 1000000,
                      rw (set, ahead, soon) refl,
                      Timely-soon now (alarm t) before (omega arith),
                    ),
                  )
              | inr late ↦
                  let far : (now + 5000000000) % 2 ^ 64 < alarm t = ground arith in
                  inr (
                    n,
                    (
                      5000,
                      rw (set, ahead, late) refl,
                      record { most = omega arith; in_time = omega arith; no_spin = inr refl },
                    ),
                  )
            ]
      ]
]
