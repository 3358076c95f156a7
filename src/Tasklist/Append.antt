-- ===== src/Tasklist/Append.antt =====
-- `addtask` is an append at the end.
use libtask.Base.{
  ◌≡◌, refl, ◌≢◌, sym, List, [], ◌∷◌, ◌++◌, arith, Fresh, Distinct, ==-ne, subst, ◌∙◌,
}
use libtask.Tasklist.{Ptr, nil, Links, Tasklist, set_next, set_prev, addtask}
use libtask.Tasklist.Chain.{last, Chain, Holds, SameOutside, last-ne}

-- The links after `t` is put behind `q`.
abbrev behind : Ptr → Ptr → Links → Links
behind q t h = set_next t nil (set_prev t q (set_next q t h))

pub last-append : (p t : Ptr) (xs : List Ptr) → last p (xs ++ (t ∷ [])) ≡ t
last-append p t [] = refl
last-append p t (x ∷ xs) = last-append x t xs

Chain-behind :
    (h : Links) (t p : Ptr) (xs : List Ptr)
    → Distinct xs
    → Fresh t xs
    → Chain h p xs
    → Chain (behind (last p xs) t h) p (xs ++ (t ∷ []))
Chain-behind h t p [] d f c = ground arith
Chain-behind h t p (x ∷ []) d f c = ground arith
Chain-behind h t p (x ∷ y ∷ ys) d f c =
    let away : x ≢ last y ys = last-ne x y ys d.0.0 d.0.1 in
    (ground arith, ground arith, Chain-behind h t x (y ∷ ys) d.1 f.1 c.2)

-- `addtask` of a task that is neither null nor on the list puts it at the end of a well-linked list
-- of distinct tasks, the result is well-linked, and no task outside the list but the new one is
-- relinked.
pub addtask-append :
    (h : Links) (l : Tasklist) (t : Ptr) (xs : List Ptr)
    → Distinct (nil ∷ t ∷ xs)
    → Holds h l xs
    → let (l', h') = addtask l t h in Holds h' l' (xs ++ (t ∷ [])) × SameOutside (t ∷ xs) h h'
unfolding addtask
addtask-append h l t [] d v = ground arith
addtask-append h l t (x ∷ xs) d v =
    let used : l.tail ≢ nil = λ e. last-ne nil x xs d.0.1.0 d.0.1.1 (sym e ∙ v.tail) in
    rw (==-ne l.tail nil used) (
      record {
        head = v.head;
        tail = sym (last-append nil t (x ∷ xs));
        chain =
            subst (λ q. Chain (behind q t h) nil (x ∷ xs ++ (t ∷ []))) (sym v.tail)
              (Chain-behind h t nil (x ∷ xs) d.1.1 d.1.0 v.chain);
      },
      λ a o.
          let away : a ≢ l.tail = λ e. last-ne a x xs o.1.0 o.1.1 (e ∙ v.tail) in
          (ground arith, ground arith),
    )
