-- ===== src/Channel/Waiters.antt =====
-- The arrays of waiting operations as multisets: what an array holds, whatever its order.
use libtask.Base.{
  ℕ, zero, suc, ◌+◌, ◌^◌, ◌≤◌, ◌<◌, ◌≡◌, refl, sym, ◌∙◌, ap, subst, List, [], ◌∷◌, ◌++◌, length,
  take, set, get_or, replicate, length-set, length-append, length-replicate, arith, count, hit,
  count-take, take-set_ge, count-moved, get_or-set_self, ◌==◌, true, false, if◌then◌else◌,
}
use native.Mathlib.Decide.{ℕ_discrete}
use libtask.Tasklist.{Ptr, nil}
use libtask.Channel.Types.{Altarray, add_uint, dec_uint}
use libtask.Channel.Arrays.{addarray, grow_array, delarray, resize}

-- The used entries.
abbrev pub entries : Altarray → List Ptr
entries ar = take ar.n ar.a

-- The array has `m` entries, of which `n` are used.
pub record Room (ar : Altarray) : Type 0 where
  pub size : length ar.a ≡ ar.m
  pub used : ar.n ≤ ar.m
  pub small : ar.m < 2 ^ 32

take-append : (n : ℕ) (xs ys : List Ptr) → n ≤ length xs → take n (xs ++ ys) ≡ take n xs
take-append zero xs ys h = refl
take-append (suc n) [] ys h = absurd (omega arith)
take-append (suc n) (x ∷ xs) ys h = ap (λ zs. x ∷ zs) (take-append n xs ys (omega arith))

take-take : (n m : ℕ) (xs : List Ptr) → n ≤ m → take n (take m xs) ≡ take n xs
take-take zero m xs h = refl
take-take (suc n) zero xs h = absurd (omega arith)
take-take (suc n) (suc m) [] h = refl
take-take (suc n) (suc m) (x ∷ xs) h = ap (λ zs. x ∷ zs) (take-take n m xs (omega arith))

length-take_le : (m : ℕ) (xs : List Ptr) → m ≤ length xs → length (take m xs) ≡ m
length-take_le zero xs h = refl
length-take_le (suc m) [] h = absurd (omega arith)
length-take_le (suc m) (x ∷ xs) h = omega (arith, length-take_le m xs (omega arith))

pub delarray-count :
    (ar : Altarray) (i : ℕ)
    → Room ar
    → i < ar.n
    → Room (delarray ar i)
      × ((x : Ptr)
          → count x (entries (delarray ar i)) + hit x (get_or ar.a i nil) ≡ count x (entries ar))
unfolding delarray
delarray-count ar i r h =
    let n : ar.n ≡ suc (dec_uint ar.n) = omega (arith, r.used, r.small) in
    (
      record {
        size = length-set ar.a i (get_or ar.a (dec_uint ar.n) nil) ∙ r.size;
        used = omega (arith, r.used, n);
        small = r.small;
      },
      λ x.
          count-moved x (dec_uint ar.n) i ar.a (omega arith) (omega (arith, r.used, r.size))
          ∙ ap (λ k. count x (take k ar.a)) (sym n),
    )

resized : (m : ℕ) (xs : List Ptr) → length xs ≤ m → length (resize m xs) ≡ m
unfolding resize
resized m xs h =
    length-take_le m (xs ++ replicate m nil)
      (omega (arith, length-append xs (replicate m nil), length-replicate m nil))

take-resize : (n m : ℕ) (xs : List Ptr) → n ≤ m → n ≤ length xs → take n (resize m xs) ≡ take n xs
unfolding resize
take-resize n m xs h k =
    take-take n m (xs ++ replicate m nil) h ∙ take-append n xs (replicate m nil) k

-- After `grow_array` there is room for one more entry, and the entries are the same.
record Roomy (ar br : Altarray) : Type 0 where
  size : length br.a ≡ br.m
  free : br.n < br.m
  small : br.m < 2 ^ 32
  same_n : br.n ≡ ar.n
  same : take ar.n br.a ≡ take ar.n ar.a

grow_array-Roomy : (ar : Altarray) → Room ar → ar.m + 16 < 2 ^ 32 → Roomy ar (grow_array ar)
unfolding grow_array
grow_array-Roomy ar r big = elim (ℕ_discrete ar.n ar.m) [
  | yes e ↦
      let m : add_uint ar.m 16 ≡ ar.m + 16 = omega (arith, big) in
      let full : (ar.n == ar.m) ≡ true = ground arith in
      let longer : length ar.a ≤ add_uint ar.m 16 = omega (arith, r.size) in
      subst
        (λ b. Roomy ar (
          if b then record ar { m = add_uint ar.m 16; a = resize (add_uint ar.m 16) ar.a } else ar))
        (sym full)
        (record {
          size = resized (add_uint ar.m 16) ar.a longer;
          free = omega arith;
          small = omega (arith, big);
          same_n = refl;
          same =
              take-resize ar.n (add_uint ar.m 16) ar.a (omega (arith, r.used))
                (omega (arith, r.size, r.used));
        })
  | no n ↦
      let room : (ar.n == ar.m) ≡ false = ground arith in
      subst
        (λ b. Roomy ar (
          if b then record ar { m = add_uint ar.m 16; a = resize (add_uint ar.m 16) ar.a } else ar))
        (sym room)
        (record {
          size = r.size;
          free = omega (arith, r.used);
          small = r.small;
          same_n = refl;
          same = refl;
        })
]

-- `addarray` adds one entry, also when the array is full and grows.
pub addarray-count :
    (ar : Altarray) (alt : Ptr)
    → Room ar
    → ar.m + 16 < 2 ^ 32
    → Room (addarray ar alt)
      × ((x : Ptr) → count x (entries (addarray ar alt)) ≡ count x (entries ar) + hit x alt)
unfolding addarray
addarray-count ar alt r big =
    let g = grow_array-Roomy ar r big in
    let br = grow_array ar in
    let n : add_uint br.n 1 ≡ suc br.n = omega (arith, g.free, g.small) in
    let within : br.n < length br.a = omega (arith, g.size, g.free) in
    (
      record {
        size = length-set br.a br.n alt ∙ g.size;
        used = omega (arith, g.free, n);
        small = g.small;
      },
      λ x.
          ap (λ k. count x (take k (set br.a br.n alt))) n
          ∙ count-take x br.n (set br.a br.n alt) (omega (arith, within, length-set br.a br.n alt))
          ∙ omega (
            arith,
            ap (count x) (take-set_ge br.n br.n alt br.a (omega arith)),
            ap (hit x) (get_or-set_self br.a br.n alt nil within),
            ap (λ k. count x (take k br.a)) g.same_n,
            ap (count x) g.same,
          ),
    )
