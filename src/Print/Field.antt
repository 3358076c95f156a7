-- ===== src/Print/Field.antt =====
-- print.c: the memory, and `printstr`, which stores a string in a field.
use libtask.Base.{
  ℕ, suc, ◌+◌, ◌-◌, Bool, true, false, List, [], ◌∷◌, ltb, leb, if◌then◌else◌, update, length, take,
  replicate, ℤ, pos, negsuc,
}

-- The bytes of the memory. A string in it is the list of the bytes in front of its zero.
abbrev pub Memory : Type 0
Memory = ℕ → ℕ

-- `memmove` of the bytes `s` to `w`.
unfoldable pub store : ℕ → List ℕ → Memory → Memory
store w [] m = m
store w (c ∷ s) m = update (store (w + 1) s m) w c

abbrev pub blank : ℕ
blank = 32

abbrev pub min : ℕ → ℕ → ℕ
min m n = if ltb n m then n else m

abbrev pub max : ℕ → ℕ → ℕ
max m n = if ltb m n then n else m

-- The width, and whether the string is to stand on the left.
abbrev pub width : ℤ → ℕ
width (pos n) = n
width (negsuc n) = suc n

abbrev pub on_left : ℤ → Bool
on_left (pos n) = false
on_left (negsuc n) = true

-- The `n` of `printstr`, for a string of length `l`, with `room` bytes up to `edst`.
abbrev pub out_width : ℕ → ℕ → ℕ → ℕ
out_width room l size = let n = max l size in if leb room n then room - 1 else n

unfoldable pub printstr : ℕ → ℕ → List ℕ → ℤ → Memory → ℕ × Memory
unfolding store
printstr dst edst s size m =
    let n = out_width (edst - dst) (length s) (width size) in
    let l = min (length s) n in
    let pad = replicate (n - l) blank in
    let left = store (dst + l) pad (store dst (take l s) m) in
    let right = store (dst + (n - l)) (take l s) (store dst pad m) in
    if leb edst dst then (dst, m) else (dst + n, if on_left size then left else right)
