-- ===== src/Base/Texts.antt =====
-- Text that the program takes apart is the list of its characters' codes.
pub mod Laws
use Prim.Native.Nat.{ℕ, suc}
use Prim.Native.Char.{code}
use Prim.Native.String.{String}
use mathlib.Core.Bool.{Bool, true, false, ◌&&◌, ◌||◌}
use mathlib.Core.List.{List, [], ◌∷◌, ◌++◌}
use awg_control.Base.Tests.{if◌then◌else◌, ◌==◌, leb}
use awg_control.Base.Lists.{any}

abbrev pub Text : Type 0
Text = List ℕ

-- The characters of a literal.
abbrev pub codes : String → Text
codes String.[] = []
codes (String.◌∷◌ c s) = code c ∷ codes s

abbrev pub text_eq : Text → Text → Bool
text_eq [] [] = true
text_eq (a ∷ s) (b ∷ t) = a == b && text_eq s t
text_eq _ _ = false

-- `s.includes(c)` for a single character.
abbrev pub has_char : ℕ → Text → Bool
has_char c = any (λ d. d == c)

abbrev pub push_front : ℕ → List Text → List Text
push_front c [] = (c ∷ []) ∷ []
push_front c (w ∷ ws) = (c ∷ w) ∷ ws

-- `s.split(c)` for a single character: never empty.
unfoldable pub split : ℕ → Text → List Text
split c [] = [] ∷ []
split c (d ∷ s) = let rest = split c s in if d == c then [] ∷ rest else push_front d rest

-- `parts.join(c)`.
unfoldable pub join : ℕ → List Text → Text
join c [] = []
join c (w ∷ []) = w
join c (w ∷ v ∷ ws) = w ++ (c ∷ join c (v ∷ ws))

-- White space of ECMAScript: `\s`, and what parseInt skips.
abbrev pub is_space : ℕ → Bool
is_space c =
    c == 9
    || c == 11
    || c == 12
    || c == 32
    || c == 160
    || c == 5_760
    || leb 8_192 c && leb c 8_202
    || c == 8_232
    || c == 8_233
    || c == 8_239
    || c == 8_287
    || c == 12_288
    || c == 65_279
