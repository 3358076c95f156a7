-- ===== src/Tests/Listing.antt =====
-- The list of the sample system's tasks, of which 1 has a name and a state.
use libtask.Base.{replicate, ◌++◌, ◌≡◌, [], ◌∷◌, some, arith, false, ◌==◌, if◌then◌else◌, ◌+◌, ◌%◌}
use mathlib.Core.List.{map}
use libtask.Sched.{Sys}
use libtask.Print.{Context}
use libtask.Taskinfo.{Sprintf, bytes, extra, taskinfo}
use libtask.Taskinfo.Rows.{line, task_line, taskinfo-line}
use libtask.Tests.Samples.{sys}

abbrev context : Context
context = record { edst = 0; error_text = []; junk = λ _. false }

abbrev named : Sys
named = record sys {
  name = λ a. if a == 1 then "taskmain" else "worker";
  state = λ a. "yield";
  nalltask = 2;
}

-- One decimal digit.
abbrev sprintf : Sprintf
sprintf n c = (n % 10 + 48) ∷ c ∷ []

taskinfo-line_example : taskinfo sprintf context 1000 (λ _. 7) named ≡ (
    some (2, bytes "task list:\n")
    ∷ some (2, replicate 67 b'-' ++ (b'\n' ∷ []))
    ∷ some (2, line (bytes "TaskID") (bytes "TaskName") (bytes "State") (bytes "Extra"))
    ∷ some (2, replicate 67 b'-' ++ (b'\n' ∷ []))
    ∷ map (λ t. some (2, task_line sprintf named t)) (1 ∷ 2 ∷ []))
unfolding extra
taskinfo-line_example = taskinfo-line sprintf context 1000 (λ _. 7) named (omega arith)
