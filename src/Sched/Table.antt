-- ===== src/Sched/Table.antt =====
-- The table `alltask` and the counter `taskcount` of task.c: what they hold, and the operations
-- that change them.
pub mod Users
pub mod Defs
pub mod Create
pub mod Retire
