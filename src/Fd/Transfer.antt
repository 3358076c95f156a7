-- ===== src/Fd/Transfer.antt =====
-- fd.c: `fdread1`, `fdread` and `fdwrite`, over what `read` and `write` return, call after call.
use libtask.Base.{ℕ, ◌+◌, List, [], ◌∷◌, ◌++◌, ltb, ◌==◌, if◌then◌else◌, take, drop}

-- What a call of `read` or `write` does: it moves so many bytes, it would block (`EAGAIN`), or it
-- fails in another way.
pub data Answer : Type 0 where
  moved : ℕ → Answer
  would_block failed : Answer

-- How a function ends: it returns a count or -1, after so many calls of `fdwait`. `suspended` after
-- the last answer: the function has called `fdwait`, or is to call `read` or `write` once more.
pub data Outcome : Type 0 where
  returns : ℕ → ℕ → Outcome
  fails : ℕ → Outcome
  suspended : ℕ → Outcome

unfoldable pub fdread_from : ℕ → List Answer → Outcome
fdread_from waits [] = suspended waits
fdread_from waits (moved m ∷ calls) = returns m waits
fdread_from waits (would_block ∷ calls) = fdread_from (waits + 1) calls
fdread_from waits (failed ∷ calls) = fails waits

unfoldable pub fdread : List Answer → Outcome
unfolding fdread_from
fdread calls = fdread_from 0 calls

-- `fdwait` comes first, and again before each further `read`.
unfoldable pub fdread1_from : ℕ → List Answer → Outcome
fdread1_from waits [] = suspended waits
fdread1_from waits (moved m ∷ calls) = returns m waits
fdread1_from waits (would_block ∷ calls) = fdread1_from (waits + 1) calls
fdread1_from waits (failed ∷ calls) = fails waits

unfoldable pub fdread1 : List Answer → Outcome
unfolding fdread1_from
fdread1 calls = fdread1_from 1 calls

-- `write(fd, buf + tot, n - tot)`, when it returns `m`: what has been written to `fd`, `out`, grows.
unfoldable pub written : ℕ → ℕ → List ℕ → List ℕ → List ℕ
written m tot buf out = out ++ take m (drop tot buf)

-- The two loops of `fdwrite`, with what it has written to `fd`.
unfoldable pub fdwrite_from : List Answer → ℕ → ℕ → ℕ → List ℕ → List ℕ → Outcome × List ℕ
unfolding written
fdwrite_from [] waits tot n buf out =
    (if ltb tot n then suspended waits else returns tot waits, out)
fdwrite_from (moved m ∷ calls) waits tot n buf out =
    let rest = fdwrite_from calls waits (tot + m) n buf (written m tot buf out) in
    if ltb tot n
    then (if m == 0 then (returns tot waits, out) else rest)
    else (returns tot waits, out)
fdwrite_from (would_block ∷ calls) waits tot n buf out =
    let rest = fdwrite_from calls (waits + 1) tot n buf out in
    if ltb tot n then rest else (returns tot waits, out)
fdwrite_from (failed ∷ calls) waits tot n buf out =
    if ltb tot n then (fails waits, out) else (returns tot waits, out)

unfoldable pub fdwrite : List Answer → ℕ → List ℕ → List ℕ → Outcome × List ℕ
unfolding fdwrite_from
fdwrite calls n buf out = fdwrite_from calls 0 0 n buf out
