-- ===== src/Relay/Address/Blocks.antt =====
-- The tests of `publicIpv4` against the reserved blocks of addresses.
use awg_control.Base.{ℕ, ◌≡◌, ◌<◌, not, arith}
use awg_control.Relay.Address.{public_octets, address_of, is_reserved}

-- The tests of the first two octets decide whether the whole address lies outside every reserved
-- block.
pub public_octets_lem :
    (a b c d : ℕ)
    → a < 256
    → b < 256
    → c < 256
    → d < 256
    → public_octets a b ≡ not (is_reserved (address_of a b c d))
unfolding public_octets
public_octets_lem a b c d ha hb hc hd = ground arith
