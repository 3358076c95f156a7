-- ===== src/Sched/Table/Retire.antt =====
-- What the scheduler does to the table when a task has exited, and `tasksystem`.
use libtask.Base.{
  ℕ, suc, ◌+◌, ◌-◌, ◌≤◌, ◌<◌, ◌≡◌, ◌≢◌, sym, ◌∙◌, ap, Bool, true, List, arith, update, update_self,
  get_or, set, length, length-set, get_or-set_self, get_or-set_ne,
}
use native.Mathlib.Decide.{ℕ_discrete}
use libtask.Tasklist.{Ptr, nil}
use libtask.Sched.{Sys, retire}
use libtask.Sched.Table.Users.{users, weight, users-set, users-set_ge}
use libtask.Sched.Table.Defs.{IsTable, Listed, Unlisted}

-- Moving the last entry into the slot `i` of an array of `suc n` entries.
module _ (slot : Ptr → ℕ) (table : List Ptr) (n i : ℕ) (fits : suc n ≤ length table)
    (within : i ≤ n) (slots : (j : ℕ) → j < suc n → slot (get_or table j nil) ≡ j) where
  abbrev moved : List Ptr
  moved = set table i (get_or table n nil)

  abbrev moved_slot : Ptr → ℕ
  moved_slot = update slot (get_or moved i nil) i

  moved-hole : get_or moved i nil ≡ get_or table n nil
  moved-hole = get_or-set_self table i (get_or table n nil) nil (omega arith)

  moved-slots : (j : ℕ) → j < n → moved_slot (get_or moved j nil) ≡ j
  moved-slots j h = elim (ℕ_discrete i j) [
    | yes e ↦ rw (← e) (update_self slot (get_or moved i nil) i)
    | no e ↦
        rw (moved-hole, get_or-set_ne table i j (get_or table n nil) nil e)
          (ground (arith, slots j (omega arith), slots n (omega arith)))
  ]

  moved-listed :
      (u : Ptr)
      → slot u < suc n
      → get_or table (slot u) nil ≡ u
      → u ≢ get_or table i nil
      → (moved_slot u < n) × (get_or moved (moved_slot u) nil ≡ u)
  moved-listed u h e ne = elim (ℕ_discrete u (get_or table n nil)) [
    | yes last ↦
        let inner : i ≢ n = λ k. ne (last ∙ ap (λ j. get_or table j nil) (sym k)) in
        ground (arith, moved-hole)
    | no other ↦
        let before : slot u ≢ n = λ k. other (sym e ∙ ap (λ j. get_or table j nil) k) in
        let elsewhere : i ≢ slot u = λ k. ne (sym e ∙ ap (λ j. get_or table j nil) (sym k)) in
        ground
          (arith, moved-hole, get_or-set_ne table i (slot u) (get_or table n nil) nil elsewhere)
  ]

  moved-unlisted : (j : ℕ) → j < n → get_or moved j nil ≢ get_or table i nil
  moved-unlisted j h e = elim (ℕ_discrete i j) [
    | yes k ↦ ground (arith, moved-hole, slots i, slots n, ap (λ m. get_or moved m nil) k)
    | no k ↦ ground (arith, slots i, slots j, get_or-set_ne table i j (get_or table n nil) nil k)
  ]

  -- Each entry was one before.
  moved-entry : (j : ℕ) → j < n → (k : ℕ) × (k < suc n) × (get_or moved j nil ≡ get_or table k nil)
  moved-entry j h = elim (ℕ_discrete i j) [
    | yes e ↦ (n, omega arith, ap (λ m. get_or moved m nil) (sym e) ∙ moved-hole)
    | no e ↦ (j, omega arith, get_or-set_ne table i j (get_or table n nil) nil e)
  ]

  moved-users :
      (system : Ptr → Bool)
      → users system moved n + weight (system (get_or table i nil)) ≡ users system table (suc n)
  unfolding users
  moved-users system = elim (ℕ_discrete i n) [
    | yes k ↦
        rw (users-set_ge system table i (get_or table n nil) n (omega arith))
          (ap (λ j. users system table n + weight (system (get_or table j nil))) k)
    | no k ↦ users-set system table i (get_or table n nil) n (omega arith) (omega arith)
  ]

-- Whatever stands in the table knows its slot.
pub entry-Listed :
    (s : Sys) (extra : ℕ)
    → IsTable s extra
    → (a : Ptr) (j : ℕ) → j < s.nalltask
    → get_or s.alltask j nil ≡ a
    → Listed s a
entry-Listed s extra v a j h e =
    let k : s.slot a ≡ j = ap s.slot (sym e) ∙ v.slots j h in
    (omega arith, ap (λ i. get_or s.alltask i nil) k ∙ e)

-- The table without the task `t`.
pub record Retired (s u : Sys) (t : Ptr) (extra : ℕ) : Type 0 where
  pub table : IsTable u extra
  pub gone : Unlisted u t
  pub kept : (a : Ptr) → a ≢ t → Listed s a → Listed u a
  pub only : (a : Ptr) → Listed u a → Listed s a
  pub taskcount : u.taskcount + weight (s.system t) ≡ s.taskcount
  pub nalltask : u.nalltask + 1 ≡ s.nalltask

-- When a task of the table has exited, the scheduler takes it and no other out of the table; every
-- task left knows its slot, the table's size stays in bounds, and the task is counted off just if
-- it was a user task, so that the count, less the constant that sleeping tasks add to it, is that
-- of the user tasks left.
pub retire-Retired :
    (s : Sys) (t : Ptr) (extra : ℕ)
    → s.exiting t ≡ true
    → Listed s t
    → IsTable s extra
    → Retired s (retire t s) t extra
unfolding retire
retire-Retired s t extra e l v =
    let n = s.nalltask - 1 in
    let fits : suc n ≤ length s.alltask = omega arith in
    let within : s.slot t ≤ n = omega arith in
    let slots = λ (j : ℕ) (h : j < suc n). v.slots j (omega arith) in
    let size : s.nalltask ≡ suc n = omega arith in
    let all : users s.system s.alltask s.nalltask ≡ users s.system s.alltask (suc n) =
      ap (users s.system s.alltask) size in
    let count = moved-users s.slot s.alltask n (s.slot t) fits within slots s.system in
    let here = ap (λ a. weight (s.system a)) l.1 in
    rw e (record {
      table = record {
        room = rw (length-set s.alltask (s.slot t) (get_or s.alltask n nil)) v.room;
        fits = rw (length-set s.alltask (s.slot t) (get_or s.alltask n nil)) (omega arith);
        slots = moved-slots s.slot s.alltask n (s.slot t) fits within slots;
        counted = ground (arith, count, all, here);
      };
      gone =
          λ j h k. moved-unlisted s.slot s.alltask n (s.slot t) fits within slots j h (k ∙ sym l.1);
      kept = λ a ne k.
          moved-listed s.slot s.alltask n (s.slot t) fits within slots a (omega arith) k.1
            (λ q. ne (q ∙ l.1));
      only = λ a k.
          let (j, l, q) = moved-entry s.slot s.alltask n (s.slot t) fits within slots _ k.0 in
          entry-Listed s extra v a j (omega arith) (sym q ∙ k.1);
      taskcount = ground (arith, count, all, here);
      nalltask = omega arith;
    })
