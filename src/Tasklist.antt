-- ===== src/Tasklist.antt =====
-- task.h's `struct Tasklist`, and `addtask` and `deltask` of task.c: a doubly linked list that
-- runs through the `next` and `prev` fields of the tasks themselves.
pub mod Chain
pub mod Append
pub mod Delete
use libtask.Base.{ℕ, ◌==◌, if◌then◌else◌, update}

-- The address of a `Task`; `nil` is the null pointer.
abbrev pub Ptr : Type 0
Ptr = ℕ

abbrev pub nil : Ptr
nil = 0

-- The fields `next` and `prev` of every `struct Task`, by its address.
pub record Links : Type 0 where
  pub next : Ptr → Ptr
  pub prev : Ptr → Ptr

pub record Tasklist : Type 0 where
  pub head : Ptr
  pub tail : Ptr

abbrev pub empty_list : Tasklist
empty_list = record { head = nil; tail = nil }

-- `p->next = q` and `p->prev = q`.
abbrev pub set_next : Ptr → Ptr → Links → Links
set_next p q h = record h { next = update h.next p q }

abbrev pub set_prev : Ptr → Ptr → Links → Links
set_prev p q h = record h { prev = update h.prev p q }

-- `addtask(l, t)`: both the list head and the links of the tasks change.
unfoldable pub addtask : Tasklist → Ptr → Links → Tasklist × Links
addtask l t h =
    if l.tail == nil
    then (record { head = t; tail = t }, set_next t nil (set_prev t nil h))
    else (record l { tail = t }, set_next t nil (set_prev t l.tail (set_next l.tail t h)))

-- The first conditional of `deltask`.
unlink_prev : Tasklist → Ptr → Links → Tasklist × Links
unlink_prev l t h =
    if h.prev t == nil
    then (record l { head = h.next t }, h)
    else (l, set_next (h.prev t) (h.next t) h)

-- The second one, which runs on what the first one left.
unlink_next : Tasklist → Ptr → Links → Tasklist × Links
unlink_next l t h =
    if h.next t == nil
    then (record l { tail = h.prev t }, h)
    else (l, set_prev (h.next t) (h.prev t) h)

unfoldable pub deltask : Tasklist → Ptr → Links → Tasklist × Links
unfolding unlink_prev unlink_next
deltask l t h = let (l', h') = unlink_prev l t h in unlink_next l' t h'
