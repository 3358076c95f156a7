-- ===== src/Tests/Net.antt =====
-- Addresses and descriptors of net.c.
use libtask.Base.{
  ◌+◌, ◌-◌, ◌*◌, ◌≡◌, refl, [], ◌∷◌, some, arith, true, false, ℕ, leb, ◌&&◌, if◌then◌else◌,
}
use libtask.Print.{Context, Memory, number, put_digits, dress}
use libtask.Net.{Net, Strtoul, parseip, netdial}
use libtask.Net.Text.{ip_text, parseip-ip_text}
use libtask.Net.Descriptors.{Owned, netdial-Owned}
use libtask.Tests.Samples.{sys}

abbrev clean : Context
clean = record { edst = 0; error_text = []; junk = λ _. false }

abbrev memory : Memory
memory = λ _. 1

-- A reader of decimal numbers.
read_from : ℕ → Strtoul
read_from n [] = (n, [])
read_from n (c ∷ p) =
    let rest = read_from (n * 10 + (c - b'0')) p in
    if leb b'0' c && leb c b'9' then rest else (n, c ∷ p)

parseip-ip_text_example :
    parseip (read_from 0) (9 ∷ 9 ∷ 9 ∷ 9 ∷ []) (ip_text 192 168 0 255)
    ≡ some (192 ∷ 168 ∷ 0 ∷ 255 ∷ [])
unfolding read_from number put_digits dress
parseip-ip_text_example =
    parseip-ip_text (read_from 0) 192 168 0 255 9 9 9 9
      (omega arith, omega arith, omega arith, omega arith) refl refl refl refl

abbrev net : Net
net = record { descriptors = 3 ∷ 4 ∷ []; sys = sys }

netdial-Owned_example :
    let (r, x) = netdial (some (127 ∷ 0 ∷ 0 ∷ 1 ∷ [])) (some 5) true false 0 net in
    Owned (3 ∷ 4 ∷ []) r x.descriptors
netdial-Owned_example = netdial-Owned (some (127 ∷ 0 ∷ 0 ∷ 1 ∷ [])) (some 5) true false 0 net
