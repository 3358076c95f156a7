-- ===== src/Fd/Loop.antt =====
-- `fdtask` polls only when no other task can run.
