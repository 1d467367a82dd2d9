-- ===== src/Relay/Address.antt =====
-- `publicIpv4` of apps/api/src/relay/service.ts. Its `isIP` is node:net's, a parameter.
pub mod Blocks
use awg_control.Base.{
  ℕ, suc, ◌+◌, ◌*◌, ◌/◌, ◌≡◌, ◌<◌, ◌-◌, refl, String, Bool, true, false, not, ◌&&◌, ◌||◌, Option,
  none, some, List, [], ◌∷◌, ◌++◌, ltb, leb, ◌==◌, any, Text, codes, split, has_char, split-append,
  split-eq_single, if◌then◌else◌, arith,
}

-- `Number` of a text of decimal digits.
unfoldable digits_from : ℕ → Text → Option ℕ
digits_from n [] = some n
digits_from n (c ∷ s) =
    let rest = digits_from (n * 10 + (c - b'0')) s in
    if leb b'0' c && leb c b'9' then rest else none

unfoldable pub number : Text → Option ℕ
unfolding digits_from
number s = digits_from 0 s

unfoldable pub public_octets : ℕ → ℕ → Bool
public_octets a b =
    not (a == 0)
    && not (a == 10)
    && not (a == 127)
    && ltb a 224
    && not (a == 169 && b == 254)
    && not (a == 172 && leb 16 b && leb b 31)
    && not (a == 192 && b == 168)
    && not (a == 100 && leb 64 b && leb b 127)

-- `const [a, b] = value.split(".").map(Number)` and the tests of `a` and `b`.
unfoldable pub public_parts : List Text → Bool
public_parts (s ∷ t ∷ rest) = elim (number s) [
  | none ↦ false
  | some a ↦ elim (number t) [ none ↦ false | some b ↦ public_octets a b ]
]
public_parts _ = false

unfoldable pub public_ipv4 : (String → Bool) → String → Bool
public_ipv4 is_ipv4 value = if is_ipv4 value then public_parts (split b'.' (codes value)) else false

-- A block of addresses: those that agree with its base, divided by its size.
abbrev pub in_block : ℕ → ℕ → ℕ → Bool
in_block address base size = (address / size) == (base / size)

abbrev pub address_of : ℕ → ℕ → ℕ → ℕ → ℕ
address_of a b c d = a * 16_777_216 + b * 65_536 + c * 256 + d

-- The blocks that no relay may serve, by the prefixes of RFC 1122, 1918, 3927, 5771 and 6598:
-- 0/8, 10/8, 127/8, 169.254/16, 172.16/12, 192.168/16, 100.64/10, and 224/3.
abbrev pub is_reserved : ℕ → Bool
is_reserved x =
    in_block x (address_of 0 0 0 0) 16_777_216
    || in_block x (address_of 10 0 0 0) 16_777_216
    || in_block x (address_of 127 0 0 0) 16_777_216
    || in_block x (address_of 169 254 0 0) 65_536
    || in_block x (address_of 172 16 0 0) 1_048_576
    || in_block x (address_of 192 168 0 0) 65_536
    || in_block x (address_of 100 64 0 0) 4_194_304
    || in_block x (address_of 224 0 0 0) 536_870_912
