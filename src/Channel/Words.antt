-- ===== src/Channel/Words.antt =====
-- Sending and receiving words at a buffered channel that no task waits at.
use libtask.Base.{
  subst, ◌^◌, ℕ, ◌<◌, ◌≡◌, ◌≢◌, ◌∙◌, ap, ◌⊎◌, inl, inr, List, [], ◌∷◌, ◌++◌, arith, update,
  update_self, length,
}
use libtask.Tasklist.{Ptr, nil}
use libtask.Sched.{ok, ◌>>=◌}
use libtask.Channel.Types.{low, merge, Elem, World}
use libtask.Channel.Ring.{low-merge, contents}
use libtask.Channel.Buffered.{Idle}
use libtask.Channel.Nonblocking.{channbsend-Sent, channbrecv-Received}
use libtask.Channel.Api.{success, channbsendul, channbrecvul}

-- `channbrecvul` at a buffered channel of words that no task waits at, with two rounds of fuel and with
-- addresses that are not null, returns the oldest element and takes it out of the channel's queue;
-- with an empty buffer it returns what the memory of its local variable held.
pub channbrecvul_lem :
    (fuel at c p rand₁ rand₂ : ℕ) (w : World)
    → 1 < fuel
    → at ≢ nil
    → p ≢ nil
    → Idle (w.chans c)
    → (w.chans c).elemsize ≡ 4
    → ((contents (w.chans c) ≡ [])
        × (x : World) × (channbrecvul fuel at c p rand₁ rand₂ w ≡ ok (low 4 (w.mem p), x)))
      ⊎ ((e : Elem) × (x : World) × (channbrecvul fuel at c p rand₁ rand₂ w ≡ ok (e, x))
          × (contents (w.chans c) ≡ e ∷ contents (x.chans c)))
unfolding channbrecvul
channbrecvul_lem fuel at c p rand₁ rand₂ w enough n k i wide =
    elim (channbrecv-Received fuel at c p rand₁ rand₂ w enough n k i) [
      | inl (e, x, r, _, _, mem) ↦ inl (
        e,
        x,
        ap (λ y. y >>= λ q. ok (low 4 (q.1.mem p), q.1)) r
            ∙ ap (λ (f : Ptr → Elem). ok (low 4 (f p), x)) mem,
      )
      | inr (e, x, r, queue, got, _, _, _, _) ↦ inr (
        e,
        x,
        ap (λ y. y >>= λ q. ok (low 4 (q.1.mem p), q.1)) r
            ∙ ap (λ g. ok (g, x)) (subst (λ n. low n (x.mem p) ≡ e) wide got),
        queue,
      )
    ]

-- What `chansendul` puts at `p` is the word.
stored :
    (w : World) (c p : Ptr) (val : Elem)
    → (w.chans c).elemsize ≡ 4
    → val < 2 ^ 32
    → low (w.chans c).elemsize (update w.mem p (merge 4 val (w.mem p)) p) ≡ val
stored w c p val wide small =
    ap (λ n. low n (update w.mem p (merge 4 val (w.mem p)) p)) wide
    ∙ ap (low 4) (update_self w.mem p (merge 4 val (w.mem p)))
    ∙ low-merge 4 val (w.mem p)
    ∙ omega arith

sent_one :
    {xs ys : List Elem} {val e : Elem} → xs ≡ [] → ys ≡ xs ++ (e ∷ []) → e ≡ val → ys ≡ val ∷ []
sent_one {e} a b c = b ∙ ap (λ zs. zs ++ (e ∷ [])) a ∙ ap (λ d. d ∷ []) c

-- At an empty buffered channel that no task waits at, whose elements have four bytes, the size of a
-- word, with two rounds of fuel and with addresses that are not null, `channbsendul` of a word
-- returns 1, and a `channbrecvul` after it, by the same or another caller, returns that word and
-- leaves the channel empty.
pub channbrecvul-channbsendul :
    (fuel at c p rand₁ rand₂ : ℕ) (at' p' rand₃ rand₄ : ℕ) (val : Elem) (w : World)
    → 1 < fuel
    → at ≢ nil
    → p ≢ nil
    → at' ≢ nil
    → p' ≢ nil
    → Idle (w.chans c)
    → (w.chans c).elemsize ≡ 4
    → val < 2 ^ 32
    → contents (w.chans c) ≡ []
    → (x : World) × (y : World) × (channbsendul fuel at c p rand₁ rand₂ val w ≡ ok (success, x))
      × (channbrecvul fuel at' c p' rand₃ rand₄ x ≡ ok (val, y))
      × (contents (y.chans c) ≡ [])
unfolding channbsendul
channbrecvul-channbsendul fuel at c p rand₁ rand₂ at' p' rand₃ rand₄ val w enough n k n' k' i wide
      small empty =
    elim (channbsend-Sent fuel at c p rand₁ rand₂
      (record w { mem = update w.mem p (merge 4 val (w.mem p)) }) enough n k i) [
        | inl (full, _, _, _, _) ↦
            let length_0 : length (contents (w.chans c)) ≡ 0 = ap length empty in
            absurd (omega (arith, full, length_0, i.ring.off))
        | inr (_, x, r, queue, idle, same, _, _) ↦
            let one : contents (x.chans c) ≡ val ∷ [] =
              sent_one empty queue (stored w c p val wide small) in
            elim (channbrecvul_lem fuel at' c p' rand₃ rand₄ x enough n' k' idle (same ∙ wide)) [
              | inl (nothing, _, _) ↦ absurd cc
              | inr (e, y, got, rest) ↦ (x, y, r, got ∙ ap (λ z. ok (z, y)) cc, cc)
            ]
      ]
