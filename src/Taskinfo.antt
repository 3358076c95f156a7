-- ===== src/Taskinfo.antt =====
-- task.c: the list of all tasks that `taskinfo` prints when the program gets the signal for it.
pub mod Rows
use Prim.Native.Char.{code}
use libtask.Base.{ℕ, String, List, Option, [], ◌∷◌, ◌++◌, take, ◌==◌, if◌then◌else◌}
use libtask.Tasklist.{Ptr}
use libtask.Sched.{Sys}
use libtask.Print.{Context, Memory, Arg, text, fprint}

-- The bytes of a text of ASCII characters.
abbrev pub bytes : String → List ℕ
bytes String.[] = []
bytes (String.◌∷◌ c s) = code c ∷ bytes s

abbrev pub row_format : List ℕ
row_format = bytes "%-6s\t%-15s\t%-25s\t%-15s\n"

abbrev pub title : List ℕ
title = bytes "task list:\n"

abbrev pub rule : List ℕ
rule = bytes "-------------------------------------------------------------------\n"

abbrev pub headings : List Arg
headings =
    text (bytes "TaskID")
    ∷ text (bytes "TaskName")
    ∷ text (bytes "State")
    ∷ text (bytes "Extra")
    ∷ []

unfoldable pub extra : Sys → Ptr → List ℕ
extra s t =
    if t == s.running then bytes "(running)" else (if s.ready t then bytes "(ready)" else bytes "-")

abbrev pub flag : Sys → Ptr → ℕ
flag s t = if s.system t then b's' else b' '

-- What `sprintf(buf, "%d%c", id, flag)` puts into `buf`.
abbrev pub Sprintf : Type 0
Sprintf = ℕ → ℕ → List ℕ

unfoldable pub row : Sprintf → Sys → Ptr → List Arg
unfolding extra
row sprintf s t =
    text (sprintf (s.id t) (flag s t))
    ∷ text (bytes (s.name t))
    ∷ text (bytes (s.state t))
    ∷ text (extra s t)
    ∷ []

-- The loop over the table, of whose entries these are left.
unfoldable pub print_rows :
    Sprintf → Context → ℕ → Memory → Sys → List Ptr → List (Option (ℕ × List ℕ))
unfolding row
print_rows sprintf k buf m s [] = []
print_rows sprintf k buf m s (t ∷ ts) =
    fprint k buf 2 row_format (row sprintf s t) m ∷ print_rows sprintf k buf m s ts

-- The descriptor of each call of `fprint`, and what it writes. `buf` is the address of the bytes that `vfprint` fills.
unfoldable pub taskinfo : Sprintf → Context → ℕ → Memory → Sys → List (Option (ℕ × List ℕ))
unfolding print_rows
taskinfo sprintf k buf m s =
    fprint k buf 2 title [] m
    ∷ fprint k buf 2 rule [] m
    ∷ fprint k buf 2 row_format headings m
    ∷ fprint k buf 2 rule [] m
    ∷ print_rows sprintf k buf m s (take s.nalltask s.alltask)
