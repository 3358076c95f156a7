-- ===== src/Sched/Table/Create.antt =====
-- `taskcreate` and `tasksystem` on the table of tasks.
use libtask.Base.{
  ℕ, suc, ◌+◌, ◌%◌, ◌^◌, ◌≤◌, ◌<◌, ◌≡◌, refl, ◌≢◌, sym, ◌∙◌, ap, Bool, true, false, List, ◌++◌,
  arith, update, update_self, get_or, set, length, length-set, get_or-set_self, get_or-set_ne,
  Bool-cases, ◌==◌, ==-ne, ==-eq, length-append, length-replicate, replicate, ◌⊎◌, ◌↔◌, inl, inr,
  [], ◌∷◌,
}
use native.Mathlib.Decide.{ℕ_discrete}
use libtask.Tasklist.{Ptr, nil}
use libtask.Tasklist.Chain.{SameOutside}
use libtask.Sched.{
  Sys, ok, aborts, zeroed, taskready, grow, resize, enter_table, taskcreate, tasksystem,
}
use libtask.Sched.Table.Users.{
  users, weight, users-set_ge, users-system, users-update, users-same, get_or-take, length-take,
}
use libtask.Sched.Table.Defs.{IsTable, Listed, Unlisted}

-- A table with the old entries and room for one more.
record Grown (n : ℕ) (old table : List Ptr) : Type 0 where
  room : length table % 64 ≡ 0
  space : n < length table
  same : (i : ℕ) → i < n → get_or table i nil ≡ get_or old i nil

grow-Grown :
    (s : Sys)
    → length s.alltask % 64 ≡ 0
    → s.nalltask ≤ length s.alltask
    → (table : List Ptr) × (grow true s ≡ ok (record s { alltask = table }))
      × Grown s.nalltask s.alltask table
unfolding grow resize
grow-Grown s room fits = elim (Bool-cases (s.nalltask % 64 == 0)) [
  | inl full ↦
      let n : ℕ = s.nalltask + 64 in
      let size : length (resize n s.alltask) ≡ n =
        length-take n (s.alltask ++ replicate n nil)
          (omega (arith, length-append s.alltask (replicate n nil), length-replicate n nil)) in
      let aligned : s.nalltask % 64 ≡ 0 = ==-eq (s.nalltask % 64) 0 full in
      (
        resize n s.alltask,
        rw full,
        record {
          room = omega (arith, size, aligned);
          space = omega (arith, size);
          same = λ i h. get_or-take n i s.alltask (replicate n nil) (omega arith) (omega arith);
        },
      )
  | inr partial ↦
      (s.alltask, rw partial, record { room = room; space = ground arith; same = λ i h. refl })
]

-- The new entry at the end of the table.
module _ (s : Sys) (t : Ptr) (table : List Ptr) (new : Unlisted s t)
    (g : Grown s.nalltask s.alltask table) where
  abbrev entered_slot : Ptr → ℕ
  entered_slot = update (update s.slot t 0) t s.nalltask

  entered-slots :
      ((i : ℕ) → i < s.nalltask → s.slot (get_or s.alltask i nil) ≡ i)
      → (i : ℕ) → i < s.nalltask + 1
      → entered_slot (get_or (set table s.nalltask t) i nil) ≡ i
  entered-slots slots i h = elim (ℕ_discrete s.nalltask i) [
    | yes e ↦
        ground
          (arith, get_or-set_self table i t nil, g.space, ap (λ n. get_or (set table n t) i nil) e)
    | no e ↦ ground (arith, get_or-set_ne table s.nalltask i t nil e, g.same i, new i, slots i)
  ]

  entered-Listed :
      (a : Ptr)
      → Listed s a
      → (entered_slot a < s.nalltask + 1)
        × (get_or (set table s.nalltask t) (entered_slot a) nil ≡ a)
  entered-Listed a l =
      let ne : a ≢ t = λ e. new (s.slot a) l.0 (l.1 ∙ e) in
      ground (
        arith,
        get_or-set_ne table s.nalltask (s.slot a) t nil (λ e. omega arith),
        g.same (s.slot a),
      )

  -- No other task comes in.
  entered-only :
      (a : Ptr)
      → a ≢ t
      → entered_slot a < s.nalltask + 1
      → get_or (set table s.nalltask t) (entered_slot a) nil ≡ a
      → Listed s a
  entered-only a o l e = elim (ℕ_discrete s.nalltask (s.slot a)) [
    | yes k ↦ ground (
      arith,
      get_or-set_self table s.nalltask t nil g.space,
      ap (λ i. get_or (set table s.nalltask t) i nil) k,
    )
    | no k ↦ ground (arith, get_or-set_ne table s.nalltask (s.slot a) t nil k, g.same (s.slot a))
  ]

entered-users :
    (system : Ptr → Bool) (t : Ptr) (old table : List Ptr) (n : ℕ)
    → ((i : ℕ) → i < n → get_or old i nil ≢ t)
    → n < length table
    → ((i : ℕ) → i < n → get_or table i nil ≡ get_or old i nil)
    → users (update system t false) (set table n t) (suc n) ≡ users system old n + 1
unfolding users
entered-users system t old table n new space same =
    rw
      (
        users-set_ge (update system t false) table n t n (omega arith),
        get_or-set_self table n t nil space,
        update_self system t false,
        users-same (update system t false) old table n same,
        users-update system old t false n new,
      )
      refl

-- How the queue gets the new task, whose fields are zero.
pub record Made (s u : Sys) (t : Ptr) : Type 0 where
  pub before : Sys
  pub enqueued : u ≡ taskready t before
  pub queue : before.runqueue ≡ s.runqueue
  pub links : SameOutside (t ∷ []) s.links before.links
  pub running : before.running ≡ s.running
  pub alarm : before.alarmtime ≡ update s.alarmtime t 0
  pub system : before.system ≡ update s.system t false
  pub exiting : before.exiting ≡ update s.exiting t false

pub running-Made : (s u : Sys) (t : Ptr) → Made s u t → u.running ≡ s.running
unfolding taskready
running-Made s u t m = ap (λ x. x.running) m.enqueued ∙ m.running

pub exiting-Made : (s u : Sys) (t : Ptr) → Made s u t → u.exiting ≡ update s.exiting t false
unfolding taskready
exiting-Made s u t m = ap (λ x. x.exiting) m.enqueued ∙ m.exiting

-- The table with the new task `t`.
pub record Created (s u : Sys) (t : Ptr) (extra : ℕ) : Type 0 where
  pub table : IsTable u extra
  pub made : Made s u t
  pub listed : Listed u t
  pub kept : (a : Ptr) → Listed s a → Listed u a
  pub only : (a : Ptr) → a ≢ t → Listed u a → Listed s a
  pub taskcount : u.taskcount ≡ s.taskcount + 1
  pub nalltask : u.nalltask ≡ s.nalltask + 1
  pub user : u.system t ≡ false
  pub id : u.id t ≡ (s.idgen + 1) % 2 ^ 32

-- `taskcreate` with memory for the task and for the table, on a table whose tasks know their slots
-- and whose count is right, returns the next id, enters the new task as a user task inside the
-- array's bounds, keeps all others, and no other, in the table with their slots, and keeps the
-- count right.
pub taskcreate-Created :
    (s : Sys) (t : Ptr) (extra : ℕ)
    → t ≢ nil
    → Unlisted s t
    → IsTable s extra
    → (u : Sys) × (taskcreate t true s ≡ ok ((s.idgen + 1) % 2 ^ 32, u)) × Created s u t extra
unfolding taskcreate
taskcreate-Created s t extra ne new v =
    let counted = record (zeroed t s) { taskcount = s.taskcount + 1 } in
    let (table, e, g) = grow-Grown counted v.room v.fits in
    let n : ℕ = s.nalltask in
    let size : n + 1 ≡ suc n = omega arith in
    (
      taskready t (enter_table t (record counted { alltask = table })),
      rw (==-ne t nil ne, e, update_self s.id t ((s.idgen + 1) % 2 ^ 32)),
      record {
        table = record {
          room = rw (length-set table n t) g.room;
          fits = rw (length-set table n t) (omega arith);
          slots = entered-slots s t table new g v.slots;
          counted = ground (
            arith,
            entered-users s.system t s.alltask table n new g.space g.same,
            ap (users (update s.system t false) (set table n t)) size,
          );
        };
        made = record {
          before = enter_table t (record counted { alltask = table });
          enqueued = refl;
          queue = refl;
          links = λ a f. (ground arith, ground arith);
          running = refl;
          alarm = refl;
          system = refl;
          exiting = refl;
        };
        listed = ground (arith, get_or-set_self table n t nil);
        kept = λ a l. entered-Listed s t table new g a l;
        only = λ a o l. entered-only s t table new g a o l.0 l.1;
        taskcount = refl;
        nalltask = refl;
        user = update_self s.system t false;
        id = update_self s.id t ((s.idgen + 1) % 2 ^ 32);
      },
    )

-- `taskcreate` aborts just when there is no memory for the task, or when the table is full, that is
-- its size is a multiple of 64, and cannot grow.
pub taskcreate-aborts :
    (s : Sys) (t : Ptr) (grown : Bool)
    → (taskcreate t grown s ≡ aborts) ↔ ((t ≡ nil) ⊎ ((s.nalltask % 64 ≡ 0) × (grown ≡ false)))
unfolding taskcreate
taskcreate-aborts s t grown = ground arith

-- `tasksystem` by a task of the table makes it a system task, keeps every slot and the count of
-- user tasks right, and counts the task off just if it was a user task.
pub tasksystem-IsTable :
    (s : Sys) (extra : ℕ)
    → Listed s s.running
    → IsTable s extra
    → IsTable (tasksystem s) extra
      × ((tasksystem s).system s.running ≡ true)
      × ((tasksystem s).taskcount + weight (s.system s.running) ≡ s.taskcount)
unfolding tasksystem
tasksystem-IsTable s extra l v = elim (Bool-cases (s.system s.running)) [
  | inl already ↦ rw already (v, already, omega arith)
  | inr user ↦ rw user (
      let unique =
        λ (i : ℕ) (h : i < s.nalltask)
            (q : get_or s.alltask i nil ≡ get_or s.alltask (s.slot s.running) nil).
          sym (v.slots i h) ∙ ap s.slot q ∙ v.slots (s.slot s.running) l.0 in
      let here = ap s.system l.1 ∙ user in
      let less = users-system s.system s.alltask (s.slot s.running) s.nalltask l.0 here unique in
      let at = ap (λ r. users (update s.system r true) s.alltask s.nalltask) l.1 in
      (
        record {
          room = v.room;
          fits = v.fits;
          slots = v.slots;
          counted = ground (arith, less, at);
        },
        update_self s.system s.running true,
        ground (arith, less),
      ))
]
