-- ===== src/Crypto.antt =====
-- Hashes and request fingerprints of apps/api/src/security/crypto.ts. SHA-256 (node:crypto) and the
-- printing of scalars by JSON.stringify are parameters.
pub mod Canonical
use awg_control.Base.{
  ℕ, String, Bool, true, false, ◌&&◌, ◌||◌, List, [], ◌∷◌, ◌++◌, Text, codes, ltb, ◌==◌,
  if◌then◌else◌,
}

pub record Hashes : Type 0 where
  pub sha256_base64url : String → String
  pub sha256_hex : Text → String
  pub print_number : ℕ → Text
  pub print_string : String → Text
  pub print_uuid : ℕ → Text

-- `hashOpaque`.
abbrev pub hash_opaque : Hashes → String → String
hash_opaque h value = h.sha256_base64url value

-- JSON values; the members of an object stand in the order in which they were added.
mutual
  pub data Json : Type 0 where
    null : Json
    bool : Bool → Json
    num : ℕ → Json
    str : String → Json
    uuid : ℕ → Json
    arr : Items → Json
    obj : Members → Json

  pub data Items : Type 0 where
    nil : Items
    item : Json → Items → Items

  pub data Members : Type 0 where
    end : Members
    member : String → Json → Members → Members

-- The order of `.sort()` on keys, by the codes of their characters.
abbrev pub text_le : Text → Text → Bool
text_le [] t = true
text_le (a ∷ s) [] = false
text_le (a ∷ s) (b ∷ t) = ltb a b || a == b && text_le s t

-- A member of an object, printed: its key, and the text `"key":value`.
abbrev pub Printed : Type 0
Printed = Text × Text

unfoldable pub insert_member : Printed → List Printed → List Printed
insert_member m [] = m ∷ []
insert_member m (n ∷ ns) =
    let rest = insert_member m ns in if text_le m.0 n.0 then m ∷ n ∷ ns else n ∷ rest

unfoldable pub sort_members : List Printed → List Printed
unfolding insert_member
sort_members [] = []
sort_members (m ∷ ms) = insert_member m (sort_members ms)

-- `….join(",")`.
unfoldable pub join_members : List Printed → Text
join_members [] = []
join_members (m ∷ []) = m.1
join_members (m ∷ n ∷ ns) = m.1 ++ (b',' ∷ join_members (n ∷ ns))

unfoldable pub join_items : List Text → Text
join_items [] = []
join_items (t ∷ []) = t
join_items (t ∷ u ∷ us) = t ++ (b',' ∷ join_items (u ∷ us))

module _ (h : Hashes) where
  unfoldable mutual
    -- `stableJson`.
    pub stable_json : Json → Text
    stable_json null = codes "null"
    stable_json (bool true) = codes "true"
    stable_json (bool false) = codes "false"
    stable_json (num n) = h.print_number n
    stable_json (str s) = h.print_string s
    stable_json (uuid id) = h.print_uuid id
    stable_json (arr xs) = b'[' ∷ join_items (print_items xs) ++ codes "]"
    stable_json (obj ms) = b'{' ∷ join_members (sort_members (print_members ms)) ++ codes "}"

    pub print_items : Items → List Text
    print_items nil = []
    print_items (item x xs) = stable_json x ∷ print_items xs

    pub print_members : Members → List Printed
    print_members end = []
    print_members (member key value ms) =
        (codes key, h.print_string key ++ (b':' ∷ stable_json value)) ∷ print_members ms

  unfoldable pub request_fingerprint : Json → String
  request_fingerprint value = h.sha256_hex (stable_json value)
