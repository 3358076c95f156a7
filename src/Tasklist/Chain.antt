-- ===== src/Tasklist/Chain.antt =====
-- What a `struct Tasklist` stands for: the sequence of tasks that its links lead through.
use libtask.Base.{◌≡◌, refl, ◌≢◌, sym, ◌∙◌, List, [], ◌∷◌, Fresh, Apart, ap}
use libtask.Tasklist.{Ptr, nil, Links, Tasklist, empty_list}

abbrev pub first : List Ptr → Ptr
first [] = nil
first (x ∷ xs) = x

-- The last task, or `p` if there is none.
abbrev pub last : Ptr → List Ptr → Ptr
last p [] = p
last p (x ∷ xs) = last x xs

-- The tasks `xs` are linked both ways, `p` stands before the first and null behind the last.
abbrev pub Chain : Links → Ptr → List Ptr → Type 0
Chain h p [] = Unit
Chain h p (x ∷ xs) = (h.prev x ≡ p) × (h.next x ≡ first xs) × Chain h x xs

-- The list `l` holds the tasks `xs`, in this order.
pub record Holds (h : Links) (l : Tasklist) (xs : List Ptr) : Type 0 where
  pub head : l.head ≡ first xs
  pub tail : l.tail ≡ last nil xs
  pub chain : Chain h nil xs

pub Holds-empty : (h : Links) → Holds h empty_list []
Holds-empty h = record { head = refl; tail = refl; chain = tt }

-- `g` links the task `a` as `h` does.
abbrev pub Same : Links → Links → Ptr → Type 0
Same h g a = (g.next a ≡ h.next a) × (g.prev a ≡ h.prev a)

-- `g` differs from `h` at most at the tasks `xs`.
abbrev pub SameOutside : List Ptr → Links → Links → Type 0
SameOutside xs h g = (a : Ptr) → Fresh a xs → Same h g a

pub Chain-frame :
    (h g : Links) (xs ys : List Ptr)
    → SameOutside xs h g
    → (p : Ptr) → Apart ys xs
    → Chain h p ys
    → Chain g p ys
Chain-frame h g xs [] same p apart c = tt
Chain-frame h g xs (y ∷ ys) same p apart c =
    ((same y apart.0).1 ∙ c.0, (same y apart.0).0 ∙ c.1, Chain-frame h g xs ys same y apart.1 c.2)

-- A list keeps its tasks while others are relinked.
pub Holds-frame :
    (h g : Links) (l : Tasklist) (xs ys : List Ptr)
    → SameOutside xs h g
    → Apart ys xs
    → Holds h l ys
    → Holds g l ys
Holds-frame h g l xs ys same apart v = record {
  head = v.head;
  tail = v.tail;
  chain = Chain-frame h g xs ys same nil apart v.chain;
}

pub last-ne : (a x : Ptr) (xs : List Ptr) → a ≢ x → Fresh a xs → a ≢ last x xs
last-ne a x [] n f = n
last-ne a x (y ∷ ys) n f = last-ne a y ys f.0 f.1

-- The head is null just for the empty list.
pub first-ne : (x : Ptr) (xs : List Ptr) → Fresh nil (x ∷ xs) → first (x ∷ xs) ≢ nil
first-ne x xs f e = f.0 (sym e)

-- A list that starts at one task leads through one sequence.
Chain-unique :
    (h : Links) (p q : Ptr) (xs ys : List Ptr)
    → Chain h p xs
    → Chain h q ys
    → Fresh nil xs
    → Fresh nil ys
    → first xs ≡ first ys
    → xs ≡ ys
Chain-unique h p q [] [] c d f g e = refl
Chain-unique h p q [] (y ∷ ys) c d f g e = absurd (g.0 e)
Chain-unique h p q (x ∷ xs) [] c d f g e = absurd (f.0 (sym e))
Chain-unique h p q (x ∷ xs) (y ∷ ys) c d f g e =
    let rest = Chain-unique h x y xs ys c.2 d.2 f.1 g.1 (sym c.1 ∙ ap h.next e ∙ d.1) in cc

pub Holds-unique :
    (h : Links) (l : Tasklist) (xs ys : List Ptr)
    → Holds h l xs
    → Holds h l ys
    → Fresh nil xs
    → Fresh nil ys
    → xs ≡ ys
Holds-unique h l xs ys v w f g =
    Chain-unique h nil nil xs ys v.chain w.chain f g (sym v.head ∙ w.head)
