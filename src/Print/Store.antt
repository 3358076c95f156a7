-- ===== src/Print/Store.antt =====
-- What `printstr` writes: nothing outside of its part of the memory.
use libtask.Base.{
  ℕ, zero, suc, ◌+◌, ◌-◌, ◌≤◌, ◌<◌, ◌≡◌, refl, ◌∙◌, ap, subst, ◌⊎◌, inl, inr, Bool, List, [], ◌∷◌,
  arith, leb, if◌then◌else◌, update, update_ne, update_self, length, take, replicate,
  length-replicate, get_or, Bool-cases, if-both, ℤ,
}
use libtask.Print.{Memory, store, blank, min, out_width, width, on_left, printstr}

pub store-outside :
    (w : ℕ) (s : List ℕ) (m : Memory) (i : ℕ) → (i < w) ⊎ (w + length s ≤ i) → store w s m i ≡ m i
unfolding store
store-outside w [] m i h = refl
store-outside w (c ∷ s) m i (inl l) =
    update_ne (store (w + 1) s m) w c i (λ e. omega arith)
    ∙ store-outside (w + 1) s m i (inl (omega arith))
store-outside w (c ∷ s) m i (inr l) =
    update_ne (store (w + 1) s m) w c i (λ e. omega arith)
    ∙ store-outside (w + 1) s m i (inr (omega arith))

pub store-inside :
    (w : ℕ) (s : List ℕ) (m : Memory) (j : ℕ) → j < length s → store w s m (w + j) ≡ get_or s j 0
unfolding store
store-inside w [] m j h = absurd (omega arith)
store-inside w (c ∷ s) m zero h =
    ap (update (store (w + 1) s m) w c) (omega arith) ∙ update_self (store (w + 1) s m) w c
store-inside w (c ∷ s) m (suc j) h =
    update_ne (store (w + 1) s m) w c (w + suc j) (λ e. omega arith)
    ∙ ap (store (w + 1) s m) (omega arith)
    ∙ store-inside (w + 1) s m j (omega arith)

-- From `w` on to `v`, `m` has become `x`, and `v` is in front of `edst` if `w` was. The last byte in front
-- of `edst` is left for a zero.
pub record Inside (edst w : ℕ) (m : Memory) (v : ℕ) (x : Memory) : Type 0 where
  pub ahead : w ≤ v
  pub below : w < edst → v < edst
  pub outside : (i : ℕ) → (i < w) ⊎ (edst ≤ i + 1) → x i ≡ m i

-- Two strings, one behind the other.
store-twice :
    (w a b : ℕ) (s t : List ℕ) (m : Memory) (i : ℕ)
    → (i < w) ⊎ (w + (a + b) ≤ i)
    → length s ≤ a
    → length t ≤ b
    → store (w + a) t (store w s m) i ≡ m i
store-twice w a b s t m i (inl h) ls lt =
    store-outside (w + a) t (store w s m) i (inl (omega arith)) ∙ store-outside w s m i (inl h)
store-twice w a b s t m i (inr h) ls lt =
    store-outside (w + a) t (store w s m) i (inr (omega arith))
    ∙ store-outside w s m i (inr (omega arith))

length-take_le : (n : ℕ) (s : List ℕ) → length (take n s) ≤ n
length-take_le zero s = omega arith
length-take_le (suc n) [] = omega arith
length-take_le (suc n) (c ∷ s) = omega (arith, length-take_le n s)

out_width-less : (room l size : ℕ) → 0 < room → out_width room l size < room
out_width-less room l size h = ground arith

min-le : (l n : ℕ) → min l n ≤ n
min-le l n = ground arith

pub printstr-Inside :
    (w edst : ℕ) (s : List ℕ) (size : ℤ) (m : Memory)
    → let (v, x) = printstr w edst s size m in Inside edst w m v x
unfolding printstr
printstr-Inside w edst s size m = elim (Bool-cases (leb edst w)) [
  | inl full ↦ rw full (record { ahead = omega arith; below = λ h. h; outside = λ i h. refl })
  | inr room ↦
      let n = out_width (edst - w) (length s) (width size) in
      let l = min (length s) n in
      let pad = replicate (n - l) blank in
      let space : w < edst = ground arith in
      let less : n < edst - w = out_width-less (edst - w) (length s) (width size) (omega arith) in
      let short : l ≤ n = min-le (length s) n in
      let near = length-take_le l s in
      let blanks : length pad ≤ n - l = omega (arith, length-replicate (n - l) blank) in
      let far : (i : ℕ) → (i < w) ⊎ (edst ≤ i + 1) → (i < w) ⊎ (w + n ≤ i) =
        λ i h. elim h [ inl a ↦ inl a | inr b ↦ inr (omega arith) ] in
      let left = store (w + l) pad (store w (take l s) m) in
      let right = store (w + (n - l)) (take l s) (store w pad m) in
      let clear : (b : Bool) (i : ℕ) → (i < w) ⊎ (w + n ≤ i) → (if b then left else right) i ≡ m i =
        λ b i h.
          if-both {A = Memory} (λ y. y i ≡ m i) b
            (store-twice w l (n - l) (take l s) pad m i
              (subst (λ k. (i < w) ⊎ (w + k ≤ i)) (omega arith) h) near blanks)
            (store-twice w (n - l) l pad (take l s) m i
              (subst (λ k. (i < w) ⊎ (w + k ≤ i)) (omega arith) h) blanks near) in
      rw room (record {
        ahead = omega arith;
        below = λ h. omega arith;
        outside = λ i h. clear (on_left size) i (far i h);
      })
]
