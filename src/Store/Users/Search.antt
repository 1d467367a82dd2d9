-- ===== src/Store/Users/Search.antt =====
-- What a search of users finds.
use awg_control.Base.{
  leb, ◌+◌, ℕ, ◌≡◌, refl, ap, ◌∙◌, Bool, true, false, not, ◌&&◌, ◌||◌, [], ◌∷◌, ◌++◌, Text, codes,
  String, arith, all, ◌==◌, if◌then◌else◌, Bool-cases, inl, inr,
}
use awg_control.Panel.{VpnUserRow}
use awg_control.Store.Users.{same_letter, any_suffix, on_first, like, escape, matches}

-- The same character, or an ASCII letter in either case.
abbrev pub is_same : ℕ → ℕ → Bool
is_same d c =
    d == c || leb b'A' d && leb d b'Z' && c == d + 32 || leb b'A' c && leb c b'Z' && d == c + 32

same_letter_lem : (d c : ℕ) → same_letter d c ≡ is_same d c
same_letter_lem d c = ground arith

-- A text begins with another one; ASCII letters in whatever case.
abbrev pub begins : Text → Text → Bool
begins [] s = true
begins (d ∷ q) [] = false
begins (d ∷ q) (c ∷ s) = is_same d c && begins q s

-- A text holds another one.
abbrev pub holds : Text → Text → Bool
holds q = any_suffix (begins q)

-- No backslash, which the search does not escape.
abbrev pub is_plain : Text → Bool
is_plain = all (λ c. not (c == 92))

any_suffix-cong :
    (f g : Text → Bool) (s : Text) → ((t : Text) → f t ≡ g t) → any_suffix f s ≡ any_suffix g s
any_suffix-cong f g [] h = h []
any_suffix-cong f g (c ∷ s) h = ground (arith, h (c ∷ s), any_suffix-cong f g s h)

any_suffix-end : (s : Text) → any_suffix (like false []) s ≡ true
unfolding like
any_suffix-end [] = refl
any_suffix-end (c ∷ s) = ground (arith, any_suffix-end s)

last_branch :
    {A : Type 0} (x y z : Bool) (a b c d : A)
    → x ≡ false
    → y ≡ false
    → z ≡ false
    → (if x then a else if y then b else if z then c else d) ≡ d
last_branch x y z a b c d p q r = ground (arith, p, q, r)

-- A character that means nothing to LIKE stands for itself.
like_literal :
    (d : ℕ) (p s : Text)
    → (d == b'%') ≡ false
    → (d == b'_') ≡ false
    → (d == 92) ≡ false
    → like false (d ∷ p) s ≡ on_first (λ c t. same_letter d c && like false p t) s
unfolding like
like_literal d p s x y z =
    ap (λ (f : Text → Bool). f s) (last_branch (d == b'%') (d == b'_') (d == 92) _ _ _ _ x y z)

like_escaped :
    (d : ℕ) (p s : Text)
    → like false (92 ∷ d ∷ p) s ≡ on_first (λ c t. same_letter d c && like false p t) s
unfolding like
like_escaped d p s = refl

escape_special :
    (d : ℕ) (q : Text) → (d == b'%' || d == b'_') ≡ true → escape (d ∷ q) ≡ 92 ∷ d ∷ escape q
unfolding escape
escape_special d q h = ground (arith, h)

escape_other : (d : ℕ) (q : Text) → (d == b'%' || d == b'_') ≡ false → escape (d ∷ q) ≡ d ∷ escape q
unfolding escape
escape_other d q h = ground (arith, h)

-- What an escaped or a literal character must meet.
meets :
    (d : ℕ) (q p s : Text)
    → ((t : Text) → like false p t ≡ begins q t)
    → on_first (λ c t. same_letter d c && like false p t) s ≡ begins (d ∷ q) s
meets d q p [] h = refl
meets d q p (c ∷ s) h =
    ap (λ b. same_letter d c && b) (h s) ∙ ap (λ b. b && begins q s) (same_letter_lem d c)

like-begins : (q s : Text) → is_plain q ≡ true → like false (escape q ++ codes "%") s ≡ begins q s
like-begins [] s h = unfold like escape in any_suffix-end s
like-begins (d ∷ q) s h =
    let rest : Text = escape q ++ codes "%" in
    let inner : (t : Text) → like false rest t ≡ begins q t =
      λ t. like-begins q t (ground (arith, h)) in
    elim (Bool-cases (d == b'%' || d == b'_')) [
      | inl e ↦
          ap (λ x. like false (x ++ codes "%") s) (escape_special d q e)
          ∙ (like_escaped d rest s ∙ meets d q rest s inner)
      | inr e ↦
          ap (λ x. like false (x ++ codes "%") s) (escape_other d q e)
          ∙ (like_literal d rest s (ground (arith, e)) (ground (arith, e)) (ground (arith, h))
              ∙ meets d q rest s inner)
    ]

-- A search without a backslash finds exactly the users whose names hold it, where ASCII letters are
-- compared without regard to case, and its percent signs and underscores stand for themselves.
pub matches_lem :
    (search : String) (u : VpnUserRow)
    → is_plain (codes search) ≡ true
    → matches search u ≡ holds (codes search) (codes u.display_name)
unfolding matches like
matches_lem search u h =
    any_suffix-cong (like false (escape (codes search) ++ codes "%")) (begins (codes search))
      (codes u.display_name) (λ t. like-begins (codes search) t h)
