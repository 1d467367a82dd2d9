-- ===== src/Base/Texts/Laws.antt =====
-- Splitting and joining text.
use Prim.Native.Nat.{ℕ}
use mathlib.Core.Path.{◌≡◌, refl}
use mathlib.Core.Bool.{false}
use mathlib.Core.List.{[], ◌∷◌, ◌++◌}
use native.Mathlib.Omega.{arith}
use awg_control.Base.Texts.{Text, has_char, split}

-- A text without the separator is one part.
pub split-eq_single : (c : ℕ) (s : Text) → has_char c s ≡ false → split c s ≡ s ∷ []
unfolding split
split-eq_single c [] h = refl
split-eq_single c (d ∷ s) h = ground (arith, split-eq_single c s)

-- The first part is what stands before the first separator.
pub split-append :
    (c : ℕ) (s t : Text) → has_char c s ≡ false → split c (s ++ c ∷ t) ≡ s ∷ split c t
unfolding split
split-append c [] t h = ground arith
split-append c (d ∷ s) t h = ground (arith, split-append c s t)
