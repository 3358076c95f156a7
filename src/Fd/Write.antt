-- ===== src/Fd/Write.antt =====
-- `fdwrite` writes a prefix of the buffer, and all of it if the calls of `write` get that far.
use libtask.Base.{
  ℕ, ◌+◌, ◌≤◌, ◌<◌, ◌≡◌, refl, sym, ◌∙◌, subst, ap, ◌⊎◌, inl, inr, true, false, List, [], ◌∷◌, ◌++◌,
  append_assoc, append-nil, arith, ltb, ◌==◌, Bool-cases, take, drop, take_add,
}
use native.Mathlib.Decide.{ℕ_discrete}
use libtask.Fd.Transfer.{
  Answer, moved, would_block, failed, Outcome, returns, fails, suspended, written, fdwrite_from,
  fdwrite,
}

-- What the calls of `write` have accepted.
abbrev pub bytes : List Answer → ℕ
bytes [] = 0
bytes (moved m ∷ calls) = m + bytes calls
bytes (would_block ∷ calls) = bytes calls
bytes (failed ∷ calls) = bytes calls

-- `write` never accepts more bytes than it is given.
abbrev pub Fits : ℕ → ℕ → List Answer → Type 0
Fits n tot [] = Unit
Fits n tot (moved m ∷ calls) = (tot + m ≤ n) × Fits n (tot + m) calls
Fits n tot (would_block ∷ calls) = Fits n tot calls
Fits n tot (failed ∷ calls) = Fits n tot calls

-- One of the calls has this answer.
abbrev pub Gives : Answer → List Answer → Type 0
Gives a [] = ⊥
Gives a (b ∷ calls) = (a ≡ b) ⊎ Gives a calls

-- How `fdwrite` ends, with `k` of the `n` bytes written, `tot` of them before these calls: it returns
-- `k`, which is `n` unless a call wrote nothing; it fails, with an answer that says so; or it goes on.
abbrev pub Ends : ℕ → ℕ → ℕ → List Answer → Outcome → Type 0
Ends n tot k calls (returns t waits) = (t ≡ k) × ((k ≡ n) ⊎ Gives (moved 0) calls)
Ends n tot k calls (fails waits) = (k < n) × Gives failed calls
Ends n tot k calls (suspended waits) = (k < n) × (k ≡ tot + bytes calls)

pub record Wrote (n tot : ℕ) (calls : List Answer) (buf start : List ℕ) (r : Outcome × List ℕ)
    (k : ℕ) : Type 0 where
  pub out : r.1 ≡ start ++ take k buf
  pub most : k ≤ n
  pub ends : Ends n tot k calls r.0

Ends-cons :
    (n tot tot' k : ℕ) (a : Answer) (calls : List Answer) (o : Outcome)
    → tot' + bytes calls ≡ tot + bytes (a ∷ calls)
    → Ends n tot' k calls o
    → Ends n tot k (a ∷ calls) o
Ends-cons n tot tot' k a calls (returns t waits) e (h, inl g) = (h, inl g)
Ends-cons n tot tot' k a calls (returns t waits) e (h, inr g) = (h, inr (inr g))
Ends-cons n tot tot' k a calls (fails waits) e (l, g) = (l, inr g)
Ends-cons n tot tot' k a calls (suspended waits) e (l, g) = (l, g ∙ e)

Wrote-cons :
    (n tot tot' k : ℕ) (a : Answer) (calls : List Answer) (buf start : List ℕ)
    (r : Outcome × List ℕ)
    → tot' + bytes calls ≡ tot + bytes (a ∷ calls)
    → Wrote n tot' calls buf start r k
    → Wrote n tot (a ∷ calls) buf start r k
Wrote-cons n tot tot' k a calls buf start r e h = record {
  out = h.out;
  most = h.most;
  ends = Ends-cons n tot tot' k a calls r.0 e h.ends;
}

written-take :
    (m tot : ℕ) (buf start : List ℕ)
    → written m tot buf (start ++ take tot buf) ≡ start ++ take (tot + m) buf
unfolding written
written-take m tot buf start =
    append_assoc start (take tot buf) (take m (drop tot buf))
    ∙ ap (λ l. start ++ l) (sym (take_add tot m buf))

-- With all bytes written the loop ends, whatever further calls would do.
fdwrite_from-done :
    (calls : List Answer) (waits tot n : ℕ) (buf out : List ℕ)
    → ltb tot n ≡ false
    → fdwrite_from calls waits tot n buf out ≡ (returns tot waits, out)
unfolding fdwrite_from
fdwrite_from-done [] waits tot n buf out e = rw e refl
fdwrite_from-done (moved m ∷ calls) waits tot n buf out e = rw e refl
fdwrite_from-done (would_block ∷ calls) waits tot n buf out e = rw e refl
fdwrite_from-done (failed ∷ calls) waits tot n buf out e = rw e refl

Wrote-done :
    (calls : List Answer) (waits tot n : ℕ) (buf start : List ℕ)
    → tot ≤ n
    → ltb tot n ≡ false
    → (k : ℕ) × Wrote n tot calls buf start
        (fdwrite_from calls waits tot n buf (start ++ take tot buf))
        k
Wrote-done calls waits tot n buf start h past =
    let whole : tot ≡ n = ground arith in
    (
      tot,
      subst (λ r. Wrote n tot calls buf start r tot)
          (sym (fdwrite_from-done calls waits tot n buf (start ++ take tot buf) past))
          (record { out = refl; most = h; ends = (refl, inl whole) }),
    )

fdwrite_from-Wrote :
    (calls : List Answer) (waits tot n : ℕ) (buf start : List ℕ)
    → tot ≤ n
    → Fits n tot calls
    → (k : ℕ) × Wrote n tot calls buf start
        (fdwrite_from calls waits tot n buf (start ++ take tot buf))
        k
unfolding fdwrite_from
fdwrite_from-Wrote [] waits tot n buf start h g = elim (Bool-cases (ltb tot n)) [
  | inr past ↦ Wrote-done [] waits tot n buf start h past
  | inl e ↦
      let l : tot < n = ground arith in
      (tot, rw e (record { out = refl; most = h; ends = (l, omega arith) }))
]
fdwrite_from-Wrote (moved m ∷ cs) waits tot n buf start h g = elim (Bool-cases (ltb tot n)) [
  | inr past ↦ Wrote-done (moved m ∷ cs) waits tot n buf start h past
  | inl e ↦
      let l : tot < n = ground arith in
      elim (ℕ_discrete m 0) [
        | yes z ↦
            let zero_bytes : (m == 0) ≡ true = ground arith in
            (
              tot,
              rw (e, zero_bytes)
                  (record { out = refl; most = h; ends = (refl, inr (inl (ap moved (sym z)))) }),
            )
        | no nz ↦
            let some_bytes : (m == 0) ≡ false = ground arith in
            let (k, r) = fdwrite_from-Wrote cs waits (tot + m) n buf start g.0 g.1 in
            (
              k,
              rw (e, some_bytes, written-take m tot buf start)
                  (Wrote-cons n tot (tot + m) k (moved m) cs buf start _ (omega arith) r),
            )
      ]
]
fdwrite_from-Wrote (would_block ∷ cs) waits tot n buf start h g = elim (Bool-cases (ltb tot n)) [
  | inr past ↦ Wrote-done (would_block ∷ cs) waits tot n buf start h past
  | inl e ↦
      let (k, r) = fdwrite_from-Wrote cs (waits + 1) tot n buf start h g in
      (k, rw e (Wrote-cons n tot tot k would_block cs buf start _ refl r))
]
fdwrite_from-Wrote (failed ∷ cs) waits tot n buf start h g = elim (Bool-cases (ltb tot n)) [
  | inr past ↦ Wrote-done (failed ∷ cs) waits tot n buf start h past
  | inl e ↦
      let l : tot < n = ground arith in
      (tot, rw e (record { out = refl; most = h; ends = (l, inl refl) }))
]

-- `fdwrite`, with calls of `write` that accept no more bytes than they get, whatever they return:
-- what has been written to the descriptor is a prefix of the buffer. The function returns the
-- length of it, which is `n` unless a call wrote nothing; it returns -1 only after a call that
-- failed; and it is still going only with less than `n` bytes written, which are all that the calls
-- accepted.
pub fdwrite-Wrote :
    (calls : List Answer) (n : ℕ) (buf start : List ℕ)
    → Fits n 0 calls
    → (k : ℕ) × Wrote n 0 calls buf start (fdwrite calls n buf start) k
unfolding fdwrite
fdwrite-Wrote calls n buf start f =
    subst (λ o. (k : ℕ) × Wrote n 0 calls buf start (fdwrite_from calls 0 0 n buf o) k)
      (append-nil start) (fdwrite_from-Wrote calls 0 0 n buf start (omega arith) f)
