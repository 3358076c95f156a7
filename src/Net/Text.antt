-- ===== src/Net/Text.antt =====
-- The text of an address: `netaccept` prints it into 16 bytes, and `parseip` reads it back.
use libtask.Base.{
  ℕ, suc, ◌+◌, ◌-◌, ◌%◌, ◌^◌, ◌≤◌, ◌<◌, ◌≡◌, ◌≢◌, refl, sym, ◌∙◌, ap, inl, inr, false, Option, none,
  some, List, [], ◌∷◌, ◌++◌, arith, ltb, leb, ◌==◌, if◌then◌else◌, Bool-cases, length,
  length-append, set, replicate, pos, append-nil, ◌||◌,
}
use native.Mathlib.Decide.{ℕ_discrete}
use libtask.Print.{
  Memory, Context, number, is_negative, magnitude, decimal, no_flags, converted, put_digits, plain,
  vsnprint, blank, case_of,
}
use libtask.Print.Number.{
  length-put_digits, shape-number, value, value-put_digits, value-nil, prefix, sign_text,
}
use libtask.Print.Plain.{padded, carried, added}
use libtask.Print.Meaning.{rendered}
use libtask.Print.Agree.{rendered-carried}
use libtask.Print.Rendered.{Out, vseprint-Out}
use libtask.Net.{
  Strtoul, behind_part, parse_parts, fill_in, fill_class_a, fill_class_b, parseip, class, dotted,
  ip_args, print_ip,
}

-- A byte in decimal.
abbrev pub dec : ℕ → List ℕ
dec n = number false false decimal n

abbrev pub ip_text : ℕ → ℕ → ℕ → ℕ → List ℕ
ip_text a b c d = dec a ++ (b'.' ∷ dec b ++ (b'.' ∷ dec c ++ (b'.' ∷ dec d)))

dec-shape : (n : ℕ) → n < 256 → dec n ≡ prefix decimal n ++ put_digits 64 decimal n []
dec-shape n h =
    let unsigned_one : is_negative false n ≡ false = ground arith in
    let same : magnitude false n ≡ n = ground arith in
    shape-number false false decimal n
    ∙ ap
        (λ b.
          sign_text (b || false)
          ++ (prefix decimal (magnitude false n) ++ put_digits 64 decimal (magnitude false n) []))
        unsigned_one
    ∙ ap (λ k. prefix decimal k ++ put_digits 64 decimal k []) same

length-dec : (n : ℕ) → n < 256 → length (dec n) ≤ 3
length-dec n h =
    let s = put_digits 64 decimal n [] in
    let shape = ap (λ l. length l) (dec-shape n h) ∙ length-append (prefix decimal n) s in
    elim (ℕ_discrete n 0) [
      | yes z ↦
          let one : length (prefix decimal n) ≡ 1 = ground arith in
          omega (arith, shape, one, length-put_digits 0 64 decimal n [] (omega arith))
      | no nz ↦
          let none_more : length (prefix decimal n) ≡ 0 = ground arith in
          omega (arith, shape, none_more, length-put_digits 3 64 decimal n [] (omega arith))
    ]

padded-zero : (t : List ℕ) → padded (pos 0) t ≡ t
padded-zero t =
    let none_left : 0 - length t ≡ 0 = omega arith in ap (λ k. replicate k blank ++ t) none_left

converted-byte : (n : ℕ) → n < 256 → converted no_flags n ≡ n
unfolding converted
converted-byte n h = ground arith

-- What `%d` puts out for a byte.
shown :
    (k : Context) (j n : ℕ)
    → k.junk j ≡ false
    → n < 256
    → padded (pos 0) (number (k.junk j) false decimal (converted no_flags n)) ≡ dec n
shown k j n e h =
    padded-zero _
    ∙ ap (λ b. number b false decimal (converted no_flags n)) e
    ∙ ap dec (converted-byte n h)

carried-ip :
    (k : Context) (a b c d : ℕ)
    → ((j : ℕ) → k.junk j ≡ false)
    → (a < 256) × (b < 256) × (c < 256) × (d < 256)
    → carried k dotted plain (ip_args (a ∷ b ∷ c ∷ d ∷ [])) ≡ some (ip_text a b c d)
unfolding carried added case_of
carried-ip k a b c d clean (ha, hb, hc, hd) =
    rw
      (
        shown k 3 a (clean 3) ha,
        shown k 2 b (clean 2) hb,
        shown k 1 c (clean 1) hc,
        shown k 0 d (clean 0) hd,
      )
      (ap (λ l. some (dec a ++ (b'.' ∷ dec b ++ (b'.' ∷ dec c ++ (b'.' ∷ l)))))
        (append-nil (dec d)))

rendered-ip :
    (k : Context) (a b c d : ℕ)
    → ((j : ℕ) → k.junk j ≡ false)
    → (a < 256) × (b < 256) × (c < 256) × (d < 256)
    → rendered k dotted plain (ip_args (a ∷ b ∷ c ∷ d ∷ [])) ≡ some (ip_text a b c d)
rendered-ip k a b c d clean bytes =
    rendered-carried dotted k plain (ip_args (a ∷ b ∷ c ∷ d ∷ []))
    ∙ carried-ip k a b c d clean bytes

-- The text of an address that `netaccept` prints, each of the four bytes in decimal with dots
-- between them, is whole and with its zero inside of the 16 bytes of the caller's buffer, when the
-- uninitialised `neg` of print.c is not set.
pub print_ip-Out :
    (k : Context) (server a b c d : ℕ) (m : Memory)
    → ((j : ℕ) → k.junk j ≡ false)
    → (a < 256) × (b < 256) × (c < 256) × (d < 256)
    → Out server (ip_text a b c d) m (print_ip k server (a ∷ b ∷ c ∷ d ∷ []) m)
unfolding print_ip vsnprint
print_ip-Out k server a b c d m clean bytes =
    let (ha, hb, hc, hd) = bytes in
    let few : length (ip_text a b c d) ≤ 15 = omega (
      arith,
      length-append (dec a) (b'.' ∷ dec b ++ (b'.' ∷ dec c ++ (b'.' ∷ dec d))),
      length-append (dec b) (b'.' ∷ dec c ++ (b'.' ∷ dec d)),
      length-append (dec c) (b'.' ∷ dec d),
      length-dec a ha,
      length-dec b hb,
      length-dec c hc,
      length-dec d hd,
    ) in
    vseprint-Out (record k { edst = server + 16 }) server dotted (ip_args (a ∷ b ∷ c ∷ d ∷ [])) m
      (ip_text a b c d) (rendered-ip (record k { edst = server + 16 }) a b c d clean bytes)
      (omega (arith, few))

-- `strtoul` reads the byte in front of `rest`, which is empty or begins with a dot.
abbrev pub Reads : Strtoul → ℕ → List ℕ → Type 0
Reads strtoul n rest = strtoul (dec n ++ rest) ≡ (n, rest)

digits-cons : (t : List ℕ) → value decimal 0 t ≢ 0 → (c : ℕ) × (s : List ℕ) × (t ≡ c ∷ s)
digits-cons [] h = absurd (h (value-nil decimal 0))
digits-cons (c ∷ s) h = (c, s, refl)

dec-cons : (n : ℕ) → n < 256 → (c : ℕ) × (s : List ℕ) × (dec n ≡ c ∷ s)
dec-cons n h = elim (ℕ_discrete n 0) [
  | yes z ↦
      let one : prefix decimal n ≡ b'0' ∷ [] = ground arith in
      (
        b'0',
        put_digits 64 decimal n [],
        dec-shape n h ∙ ap (λ l. l ++ put_digits 64 decimal n []) one,
      )
  | no nz ↦
      let none_more : prefix decimal n ≡ [] = ground arith in
      let (c, s, e) = digits-cons (put_digits 64 decimal n []) (λ z.
        nz (sym (value-put_digits 64 decimal n [] (omega arith) ∙ value-nil decimal n) ∙ z)) in
      (c, s, dec-shape n h ∙ ap (λ l. l ++ put_digits 64 decimal n []) none_more ∙ e)
]

-- One part, with what the loop does behind it.
parse_parts-step :
    (strtoul : Strtoul) (left i n x : ℕ) (p rest q addr : List ℕ)
    → n < 256
    → strtoul (x ∷ p) ≡ (n, rest)
    → behind_part rest ≡ some q
    → parse_parts strtoul (suc left) i (x ∷ p) addr
      ≡ parse_parts strtoul left (i + 1) q (set addr i n)
unfolding parse_parts
parse_parts-step strtoul left i n x p rest q addr h e f =
    let kept : n % 2 ^ 32 ≡ n = omega arith in
    let small : leb 256 (n % 2 ^ 32) ≡ false = ground arith in
    let next : ℕ × List ℕ → Option (ℕ × List ℕ) = λ r.
      if leb 256 (r.0 % 2 ^ 32) then none else elim (behind_part r.1) [
        | none ↦ none
        | some k ↦ parse_parts strtoul left (i + 1) k (set addr i (r.0 % 2 ^ 32))
      ] in
    let last : Option (List ℕ) → Option (ℕ × List ℕ) = λ o. elim o [
      | none ↦ none
      | some k ↦ parse_parts strtoul left (i + 1) k (set addr i (n % 2 ^ 32))
    ] in
    ap next e
    ∙ ap (λ t. if t then none else last (behind_part rest)) small
    ∙ ap last f
    ∙ ap (λ v. parse_parts strtoul left (i + 1) q (set addr i v)) kept

parse_parts-part :
    (strtoul : Strtoul) (left i n : ℕ) (rest q addr : List ℕ)
    → n < 256
    → Reads strtoul n rest
    → behind_part rest ≡ some q
    → parse_parts strtoul (suc left) i (dec n ++ rest) addr
      ≡ parse_parts strtoul left (i + 1) q (set addr i n)
parse_parts-part strtoul left i n rest q addr h e f =
    let (x, s, shape) = dec-cons n h in
    ap (λ t. parse_parts strtoul (suc left) i (t ++ rest) addr) shape
    ∙ parse_parts-step strtoul left i n x (s ++ rest) rest q addr h
        (ap (λ t. strtoul (t ++ rest)) (sym shape) ∙ e) f

parse_parts-end :
    (strtoul : Strtoul) (i : ℕ) (addr : List ℕ) → parse_parts strtoul 0 i [] addr ≡ some (i, addr)
unfolding parse_parts
parse_parts-end strtoul i addr = refl

-- All four parts are there, so that no class needs a filling.
fill_in-four : (addr : List ℕ) → fill_in 4 addr ≡ some addr
unfolding fill_in fill_class_a fill_class_b
fill_in-four addr = elim (Bool-cases (ltb (class addr) 2)) [
  | inl e ↦ rw e refl
  | inr e ↦ elim (Bool-cases (class addr == 2)) [ inl f ↦ rw (e, f) refl | inr f ↦ rw (e, f) refl ]
]

-- `parseip` of the four decimal parts of an address, when `strtoul` reads each of the parts and
-- stops behind it, gives the bytes of the address, in each class and whatever the local array held.
pub parseip-ip_text :
    (strtoul : Strtoul) (a b c d j₀ j₁ j₂ j₃ : ℕ)
    → (a < 256) × (b < 256) × (c < 256) × (d < 256)
    → Reads strtoul a (b'.' ∷ dec b ++ (b'.' ∷ dec c ++ (b'.' ∷ dec d)))
    → Reads strtoul b (b'.' ∷ dec c ++ (b'.' ∷ dec d))
    → Reads strtoul c (b'.' ∷ dec d)
    → Reads strtoul d []
    → parseip strtoul (j₀ ∷ j₁ ∷ j₂ ∷ j₃ ∷ []) (ip_text a b c d) ≡ some (a ∷ b ∷ c ∷ d ∷ [])
unfolding parseip
parseip-ip_text strtoul a b c d j₀ j₁ j₂ j₃ bytes ra rb rc rd =
    let (ha, hb, hc, hd) = bytes in
    let four : parse_parts strtoul 4 0 (ip_text a b c d) (j₀ ∷ j₁ ∷ j₂ ∷ j₃ ∷ [])
        ≡ some (4, a ∷ b ∷ c ∷ d ∷ []) =
      parse_parts-part strtoul 3 0 a _ _ _ ha ra refl
      ∙ parse_parts-part strtoul 2 1 b _ _ _ hb rb refl
      ∙ parse_parts-part strtoul 1 2 c _ _ _ hc rc refl
      ∙ ap (λ t. parse_parts strtoul 1 3 t (a ∷ b ∷ c ∷ j₃ ∷ [])) (sym (append-nil (dec d)))
      ∙ parse_parts-part strtoul 0 3 d [] [] _ hd rd refl
      ∙ parse_parts-end strtoul 4 (a ∷ b ∷ c ∷ d ∷ []) in
    rw (parseip, four) (fill_in-four (a ∷ b ∷ c ∷ d ∷ []))
