-- ===== src/Crypto/Canonical.antt =====
-- The fingerprint of an object does not depend on the order of its members.
use awg_control.Base.{
  ◌≡◌, ◌≢◌, refl, ap, ◌∙◌, String, true, false, List, [], ◌∷◌, ◌++◌, arith, Text, codes,
}
use awg_control.Crypto.{
  Hashes, Json, obj, Members, member, text_le, Printed, insert_member, sort_members, stable_json,
  print_members, request_fingerprint, join_members,
}

text_le_total : (s t : Text) → text_le s t ≡ false → text_le t s ≡ true
text_le_total [] t h = cc
text_le_total (a ∷ s) [] h = refl
text_le_total (a ∷ s) (b ∷ t) h = ground (arith, text_le_total s t)

text_le_antisym : (s t : Text) → text_le s t ≡ true → text_le t s ≡ true → s ≡ t
text_le_antisym [] [] h k = refl
text_le_antisym [] (b ∷ t) h k = cc
text_le_antisym (a ∷ s) [] h k = cc
text_le_antisym (a ∷ s) (b ∷ t) h k = ground (arith, text_le_antisym s t)

text_le_trans : (s t u : Text) → text_le s t ≡ true → text_le t u ≡ true → text_le s u ≡ true
text_le_trans [] t u h k = refl
text_le_trans (a ∷ s) [] u h k = cc
text_le_trans (a ∷ s) (b ∷ t) [] h k = cc
text_le_trans (a ∷ s) (b ∷ t) (c ∷ u) h k = ground (arith, text_le_trans s t u)

-- Two insertions under different keys commute.
insert_comm :
    (m n : Printed) (l : List Printed)
    → m.0 ≢ n.0
    → insert_member m (insert_member n l) ≡ insert_member n (insert_member m l)
unfolding insert_member
insert_comm m n [] ne = ground (arith, text_le_total m.0 n.0, text_le_antisym m.0 n.0)
insert_comm m n (p ∷ l) ne = ground (
  arith,
  insert_comm m n l ne,
  text_le_total m.0 n.0,
  text_le_total n.0 m.0,
  text_le_antisym m.0 n.0,
  text_le_trans m.0 n.0 p.0,
  text_le_trans n.0 m.0 p.0,
  text_le_total m.0 p.0,
  text_le_total n.0 p.0,
  text_le_trans m.0 p.0 n.0,
  text_le_trans n.0 p.0 m.0,
)

-- The same members with the same values in another order: neighbours under different keys are
-- exchanged, at any place, any number of times.
pub data Reordered : Members → Members → Type 0 where
  same : (ms : Members) → Reordered ms ms
  swap :
      (j k : String) (v w : Json) (ms : Members)
      → codes j ≢ codes k
      → Reordered (member j v (member k w ms)) (member k w (member j v ms))
  under :
      (k : String) (v : Json) {ms ns : Members}
      → Reordered ms ns
      → Reordered (member k v ms) (member k v ns)
  after : {ms ns os : Members} → Reordered ms ns → Reordered ns os → Reordered ms os

module _ (h : Hashes) where
  sorted_same :
      {ms ns : Members}
      → Reordered ms ns
      → sort_members (print_members h ms) ≡ sort_members (print_members h ns)
  unfolding sort_members print_members
  sorted_same (same ms) = refl
  sorted_same (swap j k v w ms ne) = insert_comm _ _ (sort_members (print_members h ms)) ne
  sorted_same (under k v s) = ap (insert_member _) (sorted_same s)
  sorted_same (after s t) = sorted_same s ∙ sorted_same t

  -- Two requests whose bodies differ in the order of their members only have one fingerprint.
  pub request_fingerprint-Reordered :
      {ms ns : Members}
      → Reordered ms ns
      → request_fingerprint h (obj ms) ≡ request_fingerprint h (obj ns)
  unfolding request_fingerprint stable_json
  request_fingerprint-Reordered s =
      ap (λ ps. h.sha256_hex (b'{' ∷ join_members ps ++ codes "}")) (sorted_same s)
