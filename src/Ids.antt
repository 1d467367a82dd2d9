-- ===== src/Ids.antt =====
-- `uuidv7` of apps/api/src/lib/ids.ts, as the sixteen bytes of the identifier. Elsewhere in the model
-- an identifier is a number.
pub mod Time
use awg_control.Base.{ℕ, ◌+◌, ◌*◌, ◌/◌, ◌%◌, Option, none, some, List, [], ◌∷◌, ltb, if◌then◌else◌}

-- What `randomBytes(16)` gives from the seventh byte on; the first six are overwritten.
pub record Random : Type 0 where
  pub byte6 : ℕ
  pub byte7 : ℕ
  pub byte8 : ℕ
  pub rest : List ℕ

-- `(byte & 0x0f) | 0x70` and `(byte & 0x3f) | 0x80`, of a byte.
abbrev pub with_version : ℕ → ℕ
with_version byte = byte % 16 + 112

abbrev pub with_variant : ℕ → ℕ
with_variant byte = byte % 64 + 128

-- `Math.floor(now / 2 ** (8 * k)) & 0xff`
abbrev pub time_byte : ℕ → ℕ → ℕ
time_byte now unit = now / unit % 256

-- None where the code throws a RangeError: 0xffffffffffff is the last instant.
unfoldable pub uuidv7 : ℕ → Random → Option (List ℕ)
uuidv7 now random =
    if ltb 281_474_976_710_655 now
    then none
    else some (
        time_byte now 1_099_511_627_776
        ∷ time_byte now 4_294_967_296
        ∷ time_byte now 16_777_216
        ∷ time_byte now 65_536
        ∷ time_byte now 256
        ∷ time_byte now 1
        ∷ with_version random.byte6
        ∷ random.byte7
        ∷ with_variant random.byte8
        ∷ random.rest)
