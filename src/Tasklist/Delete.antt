-- ===== src/Tasklist/Delete.antt =====
-- `deltask` takes a task out of its list, wherever it stands.
use libtask.Base.{
  ◌≡◌, refl, ◌≢◌, sym, ◌∙◌, List, [], ◌∷◌, ◌++◌, arith, Fresh, Distinct, ◌==◌, ==-ne, update,
  if◌then◌else◌, append-nil, Apart, All-append_right, All-append_left, Distinct-front,
}
use libtask.Tasklist.{Ptr, nil, Links, Tasklist, deltask}
use libtask.Tasklist.Chain.{first, last, Chain, Chain-frame, Holds, Same, SameOutside, last-ne}

-- `g` is `h` with `q` and `n` linked to one another; the null pointer has no links.
record Joined (h g : Links) (q n : Ptr) : Type 0 where
  next_same : (a : Ptr) → a ≢ q → g.next a ≡ h.next a
  prev_same : (a : Ptr) → a ≢ n → g.prev a ≡ h.prev a
  next_set : q ≢ nil → g.next q ≡ n
  prev_set : n ≢ nil → g.prev n ≡ q

pub Chain-at :
    (h : Links) (t p : Ptr) (xs ys : List Ptr)
    → Chain h p (xs ++ (t ∷ ys))
    → (h.prev t ≡ last p xs) × (h.next t ≡ first ys)
Chain-at h t p [] ys c = (c.0, c.1)
Chain-at h t p (x ∷ xs) ys c = Chain-at h t x xs ys c.2

Apart-joined : (q n : Ptr) (ys : List Ptr) → Fresh q ys → Fresh n ys → Apart ys (q ∷ n ∷ [])
Apart-joined q n [] f k = tt
Apart-joined q n (y ∷ ys) f k =
    ((λ e. f.0 (sym e), (λ e. k.0 (sym e), tt)), Apart-joined q n ys f.1 k.1)

pub ne-first : (x : Ptr) (ys : List Ptr) → x ≢ nil → Fresh x ys → x ≢ first ys
ne-first x [] n f = n
ne-first x (y ∷ ys) n f = f.0

-- The chain goes on behind the gap.
Chain-rest :
    (h g : Links) (q : Ptr) (ys : List Ptr)
    → Joined h g q (first ys)
    → Distinct (q ∷ ys)
    → Fresh nil ys
    → (t : Ptr) → Chain h t ys
    → Chain g q ys
Chain-rest h g q [] j d f t c = tt
Chain-rest h g q (y ∷ ys) j d f t c = (
  j.prev_set (λ e. f.0 (sym e)),
  j.next_same y (λ e. d.0.0 (sym e)) ∙ c.1,
  Chain-frame h g (q ∷ y ∷ []) ys (λ a o. (j.next_same a o.0, j.prev_same a o.1.0)) y
      (Apart-joined q y ys d.0.1 d.1.0) c.2,
)

Chain-cut :
    (h g : Links) (t p : Ptr) (xs ys : List Ptr)
    → Joined h g (last p xs) (first ys)
    → Distinct (p ∷ xs ++ ys)
    → Fresh nil (xs ++ ys)
    → Chain h p (xs ++ (t ∷ ys))
    → Chain g p (xs ++ ys)
Chain-cut h g t p [] ys j d f c = Chain-rest h g p ys j d f t c.2
Chain-cut h g t p (x ∷ []) ys j d f c = (
  j.prev_same x (ne-first x ys (λ e. f.0 (sym e)) d.1.0) ∙ c.0,
  j.next_set (λ e. f.0 (sym e)),
  Chain-rest h g x ys j d.1 f.1 t c.2.2,
)
Chain-cut h g t p (x ∷ z ∷ zs) ys j d f c =
    let rest : Fresh x (z ∷ zs ++ ys) = d.1.0 in
    let before : Fresh x zs = All-append_left (λ y. x ≢ y) zs ys rest.1 in
    (
      j.prev_same x
            (ne-first x ys (λ e. f.0 (sym e)) (All-append_right (λ y. x ≢ y) (z ∷ zs) ys rest))
          ∙ c.0,
      j.next_same x (last-ne x z zs rest.0 before) ∙ c.1,
      Chain-cut h g t x (z ∷ zs) ys j d.1 f.1 c.2,
    )

pub last-skip :
    (p t y : Ptr) (xs ys : List Ptr) → last p (xs ++ (t ∷ y ∷ ys)) ≡ last p (xs ++ (y ∷ ys))
last-skip p t y [] ys = refl
last-skip p t y (x ∷ xs) ys = last-skip x t y xs ys

-- The result of `deltask`, by the neighbours of the task.
cut : Tasklist → Links → (q n : Ptr) → Tasklist × Links
cut l h q n = (
  record { head = if q == nil then n else l.head; tail = if n == nil then q else l.tail },
  record {
    next = if q == nil then h.next else update h.next q n;
    prev = if n == nil then h.prev else update h.prev n q;
  },
)

deltask-cut :
    (h : Links) (l : Tasklist) (t q n : Ptr)
    → t ≢ q
    → h.prev t ≡ q
    → h.next t ≡ n
    → deltask l t h ≡ cut l h q n
unfolding deltask cut
deltask-cut h l t q n a b c = ground arith

cut-Joined : (l : Tasklist) (h : Links) (q n : Ptr) → Joined h (cut l h q n).1 q n
unfolding cut
cut-Joined l h q n = record {
  next_same = λ a o. ground arith;
  prev_same = λ a o. ground arith;
  next_set = λ e. ground arith;
  prev_set = λ e. ground arith;
}

cut-head :
    (l : Tasklist) (h : Links) (t : Ptr) (xs ys : List Ptr)
    → Fresh nil xs
    → l.head ≡ first (xs ++ (t ∷ ys))
    → (cut l h (last nil xs) (first ys)).0.head ≡ first (xs ++ ys)
unfolding cut
cut-head l h t [] ys f e = refl
cut-head l h t (x ∷ xs) ys f e =
    rw (==-ne (last x xs) nil (λ k. last-ne nil x xs f.0 f.1 (sym k))) e

cut-tail :
    (l : Tasklist) (h : Links) (t : Ptr) (xs ys : List Ptr)
    → Fresh nil ys
    → l.tail ≡ last nil (xs ++ (t ∷ ys))
    → (cut l h (last nil xs) (first ys)).0.tail ≡ last nil (xs ++ ys)
unfolding cut
cut-tail l h t xs [] f e = rw (append-nil)
cut-tail l h t xs (y ∷ ys) f e = rw (==-ne y nil (λ k. f.0 (sym k))) (e ∙ last-skip nil t y xs ys)

cut-Same :
    (l : Tasklist) (h : Links) (xs ys : List Ptr) (a : Ptr)
    → Fresh a xs
    → Fresh a ys
    → Same h (cut l h (last nil xs) (first ys)).1 a
unfolding cut
cut-Same l h [] [] a f k = (refl, refl)
cut-Same l h [] (y ∷ ys) a f k = (refl, ground arith)
cut-Same l h (x ∷ xs) [] a f k =
    let o : a ≢ last x xs = last-ne a x xs f.0 f.1 in (ground arith, refl)
cut-Same l h (x ∷ xs) (y ∷ ys) a f k =
    let o : a ≢ last x xs = last-ne a x xs f.0 f.1 in (ground arith, ground arith)

-- `deltask` of a task of a well-linked list, whose tasks are distinct and not null, leaves a
-- well-linked list of the other tasks in their order. It relinks at most those others: of the task
-- itself and of tasks outside the list it writes no link.
pub deltask-remove :
    (h : Links) (l : Tasklist) (t : Ptr) (xs ys : List Ptr)
    → Distinct (nil ∷ xs ++ (t ∷ ys))
    → Holds h l (xs ++ (t ∷ ys))
    → let (l', h') = deltask l t h in Holds h' l' (xs ++ ys) × SameOutside (xs ++ ys) h h'
deltask-remove h l t xs ys d v =
    let apart : Distinct (t ∷ nil ∷ xs ++ ys) = Distinct-front t (nil ∷ xs) ys d in
    let at = Chain-at h t nil xs ys v.chain in
    let away : t ≢ last nil xs =
      last-ne t nil xs apart.0.0 (All-append_left (λ y. t ≢ y) xs ys apart.0.1) in
    rw (deltask-cut h l t (last nil xs) (first ys) away at.0 at.1) (
      record {
        head = cut-head l h t xs ys (All-append_left (λ y. nil ≢ y) xs ys apart.1.0) v.head;
        tail = cut-tail l h t xs ys (All-append_right (λ y. nil ≢ y) xs ys apart.1.0) v.tail;
        chain =
            Chain-cut h _ t nil xs ys (cut-Joined l h (last nil xs) (first ys)) apart.1 apart.1.0
              v.chain;
      },
      λ a o.
          cut-Same l h xs ys a (All-append_left (λ y. a ≢ y) xs ys o)
            (All-append_right (λ y. a ≢ y) xs ys o),
    )
