-- ===== src/Fd/Place.antt =====
-- `taskdelay` links the running task into the list of sleepers, before any of them or at the end.
use libtask.Base.{
  ◌≡◌, refl, ◌≢◌, sym, ◌∙◌, ap, List, [], ◌∷◌, ◌++◌, arith, Fresh, Distinct, ◌==◌, ==-ne, update,
  if◌then◌else◌, append-nil, Apart, All-append_right, All-append_left,
}
use native.Mathlib.Decide.{ℕ_discrete}
use libtask.Tasklist.{Ptr, nil, Links, Tasklist}
use libtask.Tasklist.Chain.{first, last, Chain, Chain-frame, Holds, Same, SameOutside, last-ne}
use libtask.Tasklist.Append.{last-append}
use libtask.Tasklist.Delete.{Chain-at, ne-first, last-skip}
use libtask.Fd.{place}

-- `g` is `h` with `r` linked between `q` and `n`; the null pointer has no links.
record Between (h g : Links) (q r n : Ptr) : Type 0 where
  next_same : (a : Ptr) → a ≢ q → a ≢ r → g.next a ≡ h.next a
  prev_same : (a : Ptr) → a ≢ n → a ≢ r → g.prev a ≡ h.prev a
  next_new : g.next r ≡ n
  prev_new : g.prev r ≡ q
  next_set : q ≢ nil → g.next q ≡ r
  prev_set : n ≢ nil → g.prev n ≡ r

Apart-three :
    (q r n : Ptr) (ys : List Ptr) → Fresh q ys → Fresh r ys → Fresh n ys → Apart ys (q ∷ r ∷ n ∷ [])
Apart-three q r n [] f g k = tt
Apart-three q r n (y ∷ ys) f g k = (
  (λ e. f.0 (sym e), (λ e. g.0 (sym e), (λ e. k.0 (sym e), tt))),
  Apart-three q r n ys f.1 g.1 k.1,
)

-- The chain goes on behind the new task.
Chain-behind :
    (h g : Links) (q r : Ptr) (ys : List Ptr)
    → Between h g q r (first ys)
    → Distinct (q ∷ ys)
    → Fresh r ys
    → Fresh nil ys
    → Chain h q ys
    → Chain g r ys
Chain-behind h g q r [] j d f k c = tt
Chain-behind h g q r (y ∷ ys) j d f k c = (
  j.prev_set (λ e. k.0 (sym e)),
  j.next_same y (λ e. d.0.0 (sym e)) (λ e. f.0 (sym e)) ∙ c.1,
  Chain-frame h g (q ∷ r ∷ y ∷ []) ys
      (λ a o. (j.next_same a o.0 o.1.0, j.prev_same a o.1.1.0 o.1.0)) y
      (Apart-three q r y ys d.0.1 f.1 d.1.0) c.2,
)

Chain-put :
    (h g : Links) (r p : Ptr) (xs ys : List Ptr)
    → Between h g (last p xs) r (first ys)
    → Distinct (p ∷ xs ++ ys)
    → Fresh r (xs ++ ys)
    → Fresh nil (xs ++ ys)
    → Chain h p (xs ++ ys)
    → Chain g p (xs ++ (r ∷ ys))
Chain-put h g r p [] ys j d f k c = (j.prev_new, j.next_new, Chain-behind h g p r ys j d f k c)
Chain-put h g r p (x ∷ []) ys j d f k c = (
  j.prev_same x (ne-first x ys (λ e. k.0 (sym e)) d.1.0) (λ e. f.0 (sym e)) ∙ c.0,
  j.next_set (λ e. k.0 (sym e)),
  Chain-put h g r x [] ys j d.1 f.1 k.1 c.2,
)
Chain-put h g r p (x ∷ z ∷ zs) ys j d f k c =
    let rest : Fresh x (z ∷ zs ++ ys) = d.1.0 in
    let before : Fresh x zs = All-append_left (λ y. x ≢ y) zs ys rest.1 in
    (
      j.prev_same x
            (ne-first x ys (λ e. k.0 (sym e)) (All-append_right (λ y. x ≢ y) (z ∷ zs) ys rest))
            (λ e. f.0 (sym e))
          ∙ c.0,
      j.next_same x (last-ne x z zs rest.0 before) (λ e. f.0 (sym e)) ∙ c.1,
      Chain-put h g r x (z ∷ zs) ys j d.1 f.1 k.1 c.2,
    )

-- The result of `place`, by the new neighbours of the task.
put : Tasklist → Links → (q r n : Ptr) → Tasklist × Links
put l h q r n = (
  record { head = if q == nil then r else l.head; tail = if n == nil then r else l.tail },
  record {
    next = if q == nil then update h.next r n else update (update h.next r n) q r;
    prev = if n == nil then update h.prev r q else update (update h.prev r q) n r;
  },
)

place-put :
    (h : Links) (l : Tasklist) (q r n : Ptr)
    → r ≢ q
    → r ≢ n
    → (n ≡ nil → l.tail ≡ q)
    → (n ≢ nil → h.prev n ≡ q)
    → place r n l h ≡ put l h q r n
unfolding place put
place-put h l q r n a b c d = elim (ℕ_discrete n nil) [
  | yes e ↦ ground (arith, c e, ap (update h.next r) e)
  | no k ↦ ground (arith, d k)
]

put-Between :
    (l : Tasklist) (h : Links) (q r n : Ptr) → r ≢ q → r ≢ n → Between h (put l h q r n).1 q r n
unfolding put
put-Between l h q r n a b = record {
  next_same = λ a o p. ground arith;
  prev_same = λ a o p. ground arith;
  next_new = ground arith;
  prev_new = ground arith;
  next_set = λ e. ground arith;
  prev_set = λ e. ground arith;
}

put-head :
    (l : Tasklist) (h : Links) (r : Ptr) (xs ys : List Ptr)
    → Fresh nil xs
    → l.head ≡ first (xs ++ ys)
    → (put l h (last nil xs) r (first ys)).0.head ≡ first (xs ++ (r ∷ ys))
unfolding put
put-head l h r [] ys f e = refl
put-head l h r (x ∷ xs) ys f e =
    rw (==-ne (last x xs) nil (λ k. last-ne nil x xs f.0 f.1 (sym k))) e

put-tail :
    (l : Tasklist) (h : Links) (r : Ptr) (xs ys : List Ptr)
    → Fresh nil ys
    → l.tail ≡ last nil (xs ++ ys)
    → (put l h (last nil xs) r (first ys)).0.tail ≡ last nil (xs ++ (r ∷ ys))
unfolding put
put-tail l h r xs [] f e = sym (last-append nil r xs)
put-tail l h r xs (y ∷ ys) f e =
    rw (==-ne y nil (λ k. f.0 (sym k))) (e ∙ sym (last-skip nil r y xs ys))

put-Same :
    (l : Tasklist) (h : Links) (r : Ptr) (xs ys : List Ptr) (a : Ptr)
    → a ≢ r
    → Fresh a xs
    → Fresh a ys
    → Same h (put l h (last nil xs) r (first ys)).1 a
unfolding put
put-Same l h r [] [] a n f k = (ground arith, ground arith)
put-Same l h r [] (y ∷ ys) a n f k = (ground arith, ground arith)
put-Same l h r (x ∷ xs) [] a n f k =
    let o : a ≢ last x xs = last-ne a x xs f.0 f.1 in (ground arith, ground arith)
put-Same l h r (x ∷ xs) (y ∷ ys) a n f k =
    let o : a ≢ last x xs = last-ne a x xs f.0 f.1 in (ground arith, ground arith)

-- What stands before the tasks `ys`, or at the end of the list if there are none.
tail-last :
    (l : Tasklist) (xs ys : List Ptr)
    → Fresh nil ys
    → l.tail ≡ last nil (xs ++ ys)
    → first ys ≡ nil
    → l.tail ≡ last nil xs
tail-last l xs [] f e z = e ∙ ap (last nil) (append-nil xs)
tail-last l xs (y ∷ ys) f e z = absurd (f.0 (sym z))

prev-last :
    (h : Links) (xs ys : List Ptr)
    → Chain h nil (xs ++ ys)
    → first ys ≢ nil
    → h.prev (first ys) ≡ last nil xs
prev-last h xs [] c n = absurd (n refl)
prev-last h xs (y ∷ ys) c n = (Chain-at h y nil xs ys c).0

pub place-Holds :
    (h : Links) (l : Tasklist) (r : Ptr) (xs ys : List Ptr)
    → Distinct (r ∷ nil ∷ xs ++ ys)
    → Holds h l (xs ++ ys)
    → let (l', h') = place r (first ys) l h in
      Holds h' l' (xs ++ (r ∷ ys)) × SameOutside (r ∷ xs ++ ys) h h'
place-Holds h l r xs ys d v =
    let new = All-append_left (λ y. r ≢ y) xs ys d.0.1 in
    let null_ys = All-append_right (λ y. nil ≢ y) xs ys d.1.0 in
    let away : r ≢ last nil xs = last-ne r nil xs d.0.0 new in
    let apart : r ≢ first ys = ne-first r ys d.0.0 (All-append_right (λ y. r ≢ y) xs ys d.0.1) in
    rw
      (place-put h l (last nil xs) r (first ys) away apart (tail-last l xs ys null_ys v.tail)
        (prev-last h xs ys v.chain))
      (
        record {
          head = put-head l h r xs ys (All-append_left (λ y. nil ≢ y) xs ys d.1.0) v.head;
          tail = put-tail l h r xs ys null_ys v.tail;
          chain =
              Chain-put h _ r nil xs ys (put-Between l h (last nil xs) r (first ys) away apart) d.1
                d.0.1 d.1.0 v.chain;
        },
        λ a o.
            put-Same l h r xs ys a o.0 (All-append_left (λ y. a ≢ y) xs ys o.1)
              (All-append_right (λ y. a ≢ y) xs ys o.1),
      )
