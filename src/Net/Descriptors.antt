-- ===== src/Net/Descriptors.antt =====
-- No function of net.c loses a descriptor: what it has opened it returns or closes.
use libtask.Base.{ℕ, ◌≡◌, refl, Option, none, some, List, ◌∷◌, arith, Bool, true, false}
use libtask.Net.{Net, remove, netdial, netannounce}

-- `x` has one descriptor more than `w`, the result, if there is one.
abbrev pub Owned : List ℕ → Option ℕ → List ℕ → Type 0
Owned before none after = after ≡ before
Owned before (some fd) after = after ≡ fd ∷ before

remove-first : (fd : ℕ) (ds : List ℕ) → remove fd (fd ∷ ds) ≡ ds
unfolding remove
remove-first fd ds = ground arith

pub netannounce-Owned :
    (lookup : Option (Option (List ℕ))) (socket : Option ℕ) (bind : Bool) (w : Net)
    → let (r, x) = netannounce lookup socket bind w in Owned w.descriptors r x.descriptors
unfolding netannounce
netannounce-Owned (some none) socket bind w = refl
netannounce-Owned (some (some ip)) none bind w = refl
netannounce-Owned none none bind w = refl
netannounce-Owned (some (some ip)) (some fd) true w = refl
netannounce-Owned (some (some ip)) (some fd) false w = remove-first fd w.descriptors
netannounce-Owned none (some fd) true w = refl
netannounce-Owned none (some fd) false w = remove-first fd w.descriptors

-- `netdial`, whatever the socket calls return, and with no other change of descriptors while it
-- waits: the one descriptor that it has opened is the result or closed again, and all others stay
-- open.
pub netdial-Owned :
    (ip : Option (List ℕ)) (socket : Option ℕ) (connect named : Bool) (error : ℕ) (w : Net)
    → let (r, x) = netdial ip socket connect named error w in Owned w.descriptors r x.descriptors
unfolding netdial
netdial-Owned none socket connect named error w = refl
netdial-Owned (some ip) none connect named error w = refl
netdial-Owned (some ip) (some fd) true true error w = refl
netdial-Owned (some ip) (some fd) true false error w = remove-first fd w.descriptors
netdial-Owned (some ip) (some fd) false named error w = remove-first fd w.descriptors
