-- ===== src/Taskinfo/Rows.antt =====
-- What `taskinfo` writes: a heading, and a line for each task of the table.
use libtask.Base.{
  replicate, ◌==◌, if◌then◌else◌, ℕ, ◌+◌, ◌<◌, ◌≡◌, refl, ◌∙◌, ap, ◌≢◌, List, [], ◌∷◌, ◌++◌, some,
  All, arith, length, take, negsuc,
}
use mathlib.Core.List.{map}
use libtask.Tasklist.{Ptr}
use libtask.Sched.{Sys}
use libtask.Print.{Context, Memory, text, plain}
use libtask.Print.Plain.{padded}
use libtask.Print.Meaning.{rendered}
use libtask.Print.Whole.{fprint_lem}
use libtask.Taskinfo.{
  Sprintf, bytes, row_format, title, rule, headings, extra, flag, row, print_rows, taskinfo,
}

-- Four columns, of 6, 15, 25 and 15 characters, with tabs between them.
abbrev pub line : List ℕ → List ℕ → List ℕ → List ℕ → List ℕ
line a b c d =
    padded (negsuc 5) a
    ++ (b'\t' ∷ padded (negsuc 14) b
        ++ (b'\t' ∷ padded (negsuc 24) c ++ (b'\t' ∷ padded (negsuc 14) d ++ (b'\n' ∷ []))))

rendered-row :
    (k : Context) (a b c d : List ℕ)
    → rendered k row_format plain (text a ∷ text b ∷ text c ∷ text d ∷ []) ≡ some (line a b c d)
unfolding rendered
rendered-row k a b c d = refl

-- Whether a task runs, or else is ready.
abbrev pub shown : Sys → Ptr → List ℕ
shown s t =
    if t == s.running
    then b'(' ∷ b'r' ∷ b'u' ∷ b'n' ∷ b'n' ∷ b'i' ∷ b'n' ∷ b'g' ∷ b')' ∷ []
    else (if s.ready t then b'(' ∷ b'r' ∷ b'e' ∷ b'a' ∷ b'd' ∷ b'y' ∷ b')' ∷ [] else b'-' ∷ [])

-- The line of the task `t`: a system task has the mark `s`, and any other a blank.
abbrev pub task_line : Sprintf → Sys → Ptr → List ℕ
task_line sprintf s t =
    line (sprintf (s.id t) (if s.system t then b's' else b' ')) (bytes (s.name t))
      (bytes (s.state t)) (shown s t)

extra_lem : (s : Sys) (t : Ptr) → extra s t ≡ shown s t
unfolding extra
extra_lem s t = refl

flag_lem : (s : Sys) (t : Ptr) → flag s t ≡ (if s.system t then b's' else b' ')
flag_lem s t = refl

-- A line that `vfprint` does not cut off.
abbrev pub Fits : List ℕ → Type 0
Fits u = (length u < 256) × All (λ c. c ≢ 0) u

row-line :
    (sprintf : Sprintf) (k : Context) (s : Sys) (t : Ptr)
    → rendered k row_format plain (row sprintf s t) ≡ some (task_line sprintf s t)
unfolding row
row-line sprintf k s t =
    rendered-row k (sprintf (s.id t) (flag s t)) (bytes (s.name t)) (bytes (s.state t)) (extra s t)
    ∙ ap (λ c. some (line (sprintf (s.id t) c) (bytes (s.name t)) (bytes (s.state t)) (extra s t)))
        (flag_lem s t)
    ∙ ap
        (λ e. some (
          line (sprintf (s.id t) (if s.system t then b's' else b' ')) (bytes (s.name t))
            (bytes (s.state t)) e))
        (extra_lem s t)

print_rows-line :
    (sprintf : Sprintf) (k : Context) (buf : ℕ) (m : Memory) (s : Sys) (ts : List Ptr)
    → All (λ t. Fits (task_line sprintf s t)) ts
    → print_rows sprintf k buf m s ts ≡ map (λ t. some (2, task_line sprintf s t)) ts
unfolding print_rows
print_rows-line sprintf k buf m s [] f = refl
print_rows-line sprintf k buf m s (t ∷ ts) f =
    let r = row-line sprintf (record k { edst = buf + 256 }) s t in
    ap (λ u. u ∷ print_rows sprintf k buf m s ts)
      (fprint_lem k buf 2 row_format _ m (task_line sprintf s t) r f.0.0 f.0.1)
    ∙ ap (λ us. some (2, task_line sprintf s t) ∷ us) (print_rows-line sprintf k buf m s ts f.1)

-- `taskinfo` writes to the descriptor 2 its four heading lines and then one line for each task of
-- the table, in the order of the table, when each of these lines has less than 256 bytes and no
-- zero: the id with the mark `s` of a system task or a blank in 6 columns, the name in 15, the
-- state in 25, and in 15 `(running)`, `(ready)` or a dash, all on the left, with tabs between them.
-- The texts are ASCII.
pub taskinfo-line :
    (sprintf : Sprintf) (k : Context) (buf : ℕ) (m : Memory) (s : Sys)
    → All (λ t. Fits (task_line sprintf s t)) (take s.nalltask s.alltask)
    → taskinfo sprintf k buf m s ≡ (
        some (2, bytes "task list:\n")
        ∷ some (2, replicate 67 b'-' ++ (b'\n' ∷ []))
        ∷ some (2, line (bytes "TaskID") (bytes "TaskName") (bytes "State") (bytes "Extra"))
        ∷ some (2, replicate 67 b'-' ++ (b'\n' ∷ []))
        ∷ map (λ t. some (2, task_line sprintf s t)) (take s.nalltask s.alltask))
unfolding taskinfo rendered
taskinfo-line sprintf k buf m s f =
    let at : Context = record k { edst = buf + 256 } in
    let a = fprint_lem k buf 2 title [] m title refl (omega arith) (omega arith) in
    let b = fprint_lem k buf 2 rule [] m rule refl (omega arith) (omega arith) in
    let c =
      fprint_lem k buf 2 row_format headings m _
        (rendered-row at (bytes "TaskID") (bytes "TaskName") (bytes "State") (bytes "Extra"))
        (omega arith) (omega arith) in
    rw (a, b, c, print_rows-line sprintf k buf m s (take s.nalltask s.alltask) f) refl
