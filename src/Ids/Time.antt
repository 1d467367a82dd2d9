-- ===== src/Ids/Time.antt =====
-- The instant of an identifier.
use awg_control.Base.{
  ℕ, ◌+◌, ◌*◌, ◌/◌, ◌≤◌, ◌<◌, ◌≡◌, refl, some, List, ◌∷◌, arith, ltb, Bool-cases, inl, inr,
}
use awg_control.Ids.{Random, uuidv7, time_byte}

-- The first six bytes, read as one number.
abbrev pub time_of : List ℕ → ℕ
time_of (a ∷ b ∷ c ∷ d ∷ e ∷ f ∷ rest) = ((((a * 256 + b) * 256 + c) * 256 + d) * 256 + e) * 256 + f
time_of _ = 0

-- The upper half of the seventh byte, and the upper quarter of the ninth.
abbrev pub version_of : List ℕ → ℕ
version_of (a ∷ b ∷ c ∷ d ∷ e ∷ f ∷ g ∷ rest) = g / 16
version_of _ = 0

abbrev pub variant_of : List ℕ → ℕ
variant_of (a ∷ b ∷ c ∷ d ∷ e ∷ f ∷ g ∷ h ∷ i ∷ rest) = i / 64
variant_of _ = 0

digits :
    (n : ℕ)
    → n < 281_474_976_710_656
    → ((((time_byte n 1_099_511_627_776 * 256 + time_byte n 4_294_967_296) * 256
                    + time_byte n 16_777_216)
                  * 256
                + time_byte n 65_536)
              * 256
            + time_byte n 256)
          * 256
        + time_byte n 1
      ≡ n
digits n h = omega arith

-- An identifier of version 7 carries the instant at which it was made: for any instant up to the
-- last one of 48 bits, `uuidv7` gives an identifier, its first six bytes are the instant, and its
-- version and variant are those of the format.
pub uuidv7_lem :
    (now : ℕ) (random : Random)
    → now ≤ 281_474_976_710_655
    → (bytes : List ℕ) × (uuidv7 now random ≡ some bytes)
      × (time_of bytes ≡ now)
      × (version_of bytes ≡ 7)
      × (variant_of bytes ≡ 2)
unfolding uuidv7
uuidv7_lem now random h = elim (Bool-cases (ltb 281_474_976_710_655 now)) [
  | inl e ↦ absurd (ground (arith, e, h))
  | inr e ↦ rw (e, uuidv7) (_, refl, digits now (omega (arith, h)), omega arith, omega arith)
]
