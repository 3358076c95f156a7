-- ===== src/Channel/Ring.antt =====
-- The buffer of a channel as a queue: `nbuf` elements from `off` on, around the end of the array.
use libtask.Base.{
  ◌/◌, ℕ, zero, suc, ◌+◌, ◌-◌, ◌%◌, ◌^◌, ◌≤◌, ◌<◌, ◌≡◌, refl, ◌≢◌, sym, ◌∙◌, inl, inr, Bool-cases,
  ap, subst, List, [], ◌∷◌, ◌++◌, ◌==◌, if◌then◌else◌, ltb, set, get_or, length, arith,
  get_or-set_self, get_or-set_ne, length-set,
}
use native.Mathlib.Nat.{mod-mod, mul-add-mod_self_right, mod-eq_of_lt, mod-eq-sub-mod}
use mathlib.Core.List.{map}
use libtask.Channel.Types.{low, merge, Elem, Channel, add_uint, dec_uint}
use libtask.Channel.Copy.{take_out, put_in}

-- The index behind `o`, and the one `k` places on.
abbrev pub next : ℕ → ℕ → ℕ
next b o = if (o + 1) == b then 0 else o + 1

abbrev pub index : ℕ → ℕ → ℕ → ℕ
index b o k = if ltb (o + k) b then o + k else (o + k) - b

-- The `n` elements from `o` on.
abbrev pub window : List Elem → ℕ → ℕ → ℕ → List Elem
window xs b o zero = []
window xs b o (suc n) = get_or xs o 0 ∷ window xs b (next b o) n

-- What waits in the buffer, the oldest first.
abbrev pub contents : Channel → List Elem
contents c = map (low c.elemsize) (window c.buf c.bufsize c.off c.nbuf)

pub low-low : (n x : ℕ) → low n (low n x) ≡ low n x
low-low n x = mod-mod x (256 ^ n)

pub low-merge : (n x old : ℕ) → low n (merge n x old) ≡ low n x
low-merge n x old =
    mul-add-mod_self_right (old / 256 ^ n) (256 ^ n) (x % 256 ^ n) ∙ mod-mod x (256 ^ n)

pub length-map-low : (n : ℕ) (xs : List Elem) → length (map (low n) xs) ≡ length xs
length-map-low n [] = refl
length-map-low n (x ∷ xs) = ap suc (length-map-low n xs)

map-snoc :
    (n : ℕ) (xs : List Elem) (x : Elem)
    → map (low n) (xs ++ (low n x ∷ [])) ≡ map (low n) xs ++ (low n x ∷ [])
map-snoc n [] x = ap (λ y. y ∷ []) (low-low n x)
map-snoc n (y ∷ xs) x = ap (λ ys. low n y ∷ ys) (map-snoc n xs x)

-- A channel with a buffer whose indices are in bounds.
pub record Ring (c : Channel) : Type 0 where
  pub off : c.off < c.bufsize
  pub fits : c.bufsize ≤ length c.buf
  pub nbuf : c.nbuf ≤ c.bufsize
  pub small : c.bufsize ≤ 2 ^ 31

pub length-window : (xs : List Elem) (b o n : ℕ) → length (window xs b o n) ≡ n
length-window xs b o zero = refl
length-window xs b o (suc n) = ap suc (length-window xs b (next b o) n)

index-next : (b o k : ℕ) → o < b → k < b → index b (next b o) k ≡ index b o (suc k)
index-next b o k h g = ground arith

index-ne : (b o k : ℕ) → o < b → suc k < b → index b o (suc k) ≢ o
index-ne b o k h g e = ground arith

window-snoc :
    (xs : List Elem) (b o n : ℕ)
    → o < b
    → n < b
    → window xs b o (suc n) ≡ window xs b o n ++ (get_or xs (index b o n) 0 ∷ [])
window-snoc xs b o zero h g = ground arith
window-snoc xs b o (suc n) h g =
    let e = window-snoc xs b (next b o) n (ground arith) (omega arith) in
    let i = index-next b o n h (omega arith) in
    ap (λ ys. get_or xs o 0 ∷ ys) (e ∙ ap (λ j. window xs b (next b o) n ++ (get_or xs j 0 ∷ [])) i)

-- A write at an index behind the window does not show in it.
window-set :
    (xs : List Elem) (b o n k : ℕ) (x : Elem)
    → o < b
    → n ≤ k
    → k < b
    → window (set xs (index b o k) x) b o n ≡ window xs b o n
window-set xs b o zero k x h g l = refl
window-set xs b o (suc n) zero x h g l = absurd (omega arith)
window-set xs b o (suc n) (suc k) x h g l =
    let i = index-next b o k h (omega arith) in
    let here = get_or-set_ne xs (index b o (suc k)) o x 0 (index-ne b o k h l) in
    let there = window-set xs b (next b o) n k x (ground arith) (omega arith) (omega arith) in
    let moved : window (set xs (index b o (suc k)) x) b (next b o) n ≡ window xs b (next b o) n =
      subst (λ j. window (set xs j x) b (next b o) n ≡ window xs b (next b o) n) i there in
    ap (λ a. a ∷ window (set xs (index b o (suc k)) x) b (next b o) n) here
    ∙ ap (λ ys. get_or xs o 0 ∷ ys) moved

-- The index that `put_in` computes.
index-mod : (b o k : ℕ) → o < b → k < b → b ≤ 2 ^ 31 → add_uint o k % b ≡ index b o k
index-mod b o k h g s = elim (Bool-cases (ltb (o + k) b)) [
  | inl below ↦
      let less : o + k < b = ground arith in
      let e : add_uint o k ≡ o + k = omega arith in rw (e, mod-eq_of_lt less, below) refl
  | inr past ↦
      let more : b ≤ o + k = ground arith in
      let rest : (o + k) - b < b = omega arith in
      let e : add_uint o k ≡ o + k = omega arith in
      rw (e, mod-eq-sub-mod more, mod-eq_of_lt rest, past) refl
]

appended :
    (xs : List Elem) (b o n : ℕ) (x : Elem)
    → o < b
    → n < b
    → b ≤ length xs
    → window (set xs (index b o n) x) b o (suc n) ≡ window xs b o n ++ (x ∷ [])
appended xs b o n x h g l =
    let same = window-set xs b o n n x h (omega arith) g in
    let new = get_or-set_self xs (index b o n) x 0 (ground arith) in
    window-snoc (set xs (index b o n) x) b o n h g ∙ rw (same, new) refl

-- Storing an element in a buffer with room, whose indices are in bounds, appends it to the queue
-- that the buffer stands for, also around the end of the array, and keeps the indices in bounds.
pub put_in-contents :
    (c : Channel) (x : Elem)
    → Ring c
    → c.nbuf < c.bufsize
    → Ring (put_in x c) × (contents (put_in x c) ≡ contents c ++ (low c.elemsize x ∷ []))
unfolding put_in
put_in-contents c x v room =
    let i = index-mod c.bufsize c.off c.nbuf v.off room v.small in
    let n : add_uint c.nbuf 1 ≡ suc c.nbuf = omega (arith, v.small) in
    let e = low c.elemsize x in
    (
      record {
        off = v.off;
        fits = omega (
          arith,
          v.fits,
          length-set c.buf (add_uint c.off c.nbuf % c.bufsize) (low c.elemsize x),
        );
        nbuf = omega arith;
        small = v.small;
      },
      subst
          (λ j.
            map (low c.elemsize) (window (set c.buf j e) c.bufsize c.off (add_uint c.nbuf 1))
            ≡ contents c ++ (e ∷ []))
          (sym i)
          (ap
              (λ k.
                map (low c.elemsize)
                  (window (set c.buf (index c.bufsize c.off c.nbuf) e) c.bufsize c.off k))
              n
            ∙ ap (map (low c.elemsize))
                (appended c.buf c.bufsize c.off c.nbuf e v.off room (omega (arith, v.fits)))
            ∙ map-snoc c.elemsize (window c.buf c.bufsize c.off c.nbuf) x),
    )

-- Taking an element out of a buffer that is not empty, whose indices are in bounds, removes the
-- first one of the queue that the buffer stands for, the one at `off`, and keeps the indices in
-- bounds.
pub take_out-contents :
    (c : Channel)
    → Ring c
    → c.nbuf ≢ 0
    → Ring (take_out c)
      × (contents c ≡ low c.elemsize (get_or c.buf c.off 0) ∷ contents (take_out c))
unfolding take_out
take_out-contents c v some =
    let o : add_uint c.off 1 ≡ c.off + 1 = omega (arith, v.small, v.off) in
    let n : c.nbuf ≡ suc (dec_uint c.nbuf) = omega (arith, v.small, v.nbuf) in
    (
      record {
        off = rw o (ground (arith, v.off));
        fits = v.fits;
        nbuf = omega (arith, v.nbuf, n);
        small = v.small;
      },
      rw o (ap (λ k. map (low c.elemsize) (window c.buf c.bufsize c.off k)) n),
    )

-- The same buffer, with the same elements in use.
abbrev pub SameBuffer : Channel → Channel → Type 0
SameBuffer c d =
    (c.elemsize ≡ d.elemsize)
    × (c.bufsize ≡ d.bufsize)
    × (c.buf ≡ d.buf)
    × (c.nbuf ≡ d.nbuf)
    × (c.off ≡ d.off)

pub SameBuffer-contents : (c d : Channel) → SameBuffer c d → contents c ≡ contents d
SameBuffer-contents c d (wide, size, buf, n, off) = rw (wide, size, buf, n, off) refl

pub SameBuffer-Ring : (c d : Channel) → SameBuffer c d → Ring d → Ring c
SameBuffer-Ring c d (_, size, buf, n, off) v = record {
  off = rw (off, size) v.off;
  fits = rw (size, buf) v.fits;
  nbuf = rw (n, size) v.nbuf;
  small = rw size v.small;
}
