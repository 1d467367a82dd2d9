-- ===== src/Web/RelayConfig.antt =====
-- `withRelayEndpoint` of apps/web/src/relayConfig.ts: the endpoint of a client configuration is
-- replaced in place, and every other character is kept.
pub mod OneLine
use awg_control.Base.{
  ℕ, suc, ◌+◌, ◌*◌, ◌-◌, Bool, true, false, not, ◌&&◌, ◌||◌, Option, none, some, List, [], ◌∷◌,
  ◌++◌, Text, codes, is_space, text_eq, length, all, split, leb, ltb, ◌==◌, if◌then◌else◌, map,
}
use awg_control.Exec.{Result, ok, err, other_error}
use awg_control.Helper.Transport.{after_prefix, lower}

abbrev is_digit : ℕ → Bool
is_digit c = leb b'0' c && leb c b'9'

-- `Number` of a text of digits.
unfoldable pub value_of : ℕ → Text → ℕ
value_of n [] = n
value_of n (c ∷ s) = value_of (n * 10 + (c - b'0')) s

-- /^(0|[1-9]\d{0,2})$/, and at most 255.
unfoldable pub is_octet : Text → Bool
unfolding value_of
is_octet [] = false
is_octet (c ∷ s) =
    (c == b'0' && length s == 0 || leb b'1' c && leb c b'9' && all is_digit s && leb (length s) 2)
    && leb (value_of 0 (c ∷ s)) 255

unfoldable pub is_endpoint : Text → ℕ → Bool
unfolding is_octet
is_endpoint host port =
    let octets = split b'.' host in
    length octets == 4 && all is_octet octets && leb 1024 port && leb port 65535

-- What /[^\r\n]+/g finds in a text, and what stands between.
pub data Piece : Type 0 where
  line : Text → Piece
  newline : ℕ → Piece

abbrev pub push : ℕ → List Piece → List Piece
push c [] = line (c ∷ []) ∷ []
push c (line t ∷ ps) = line (c ∷ t) ∷ ps
push c (newline d ∷ ps) = line (c ∷ []) ∷ newline d ∷ ps

unfoldable pub pieces : Text → List Piece
pieces [] = []
pieces (c ∷ s) = let rest = pieces s in if c == 10 || c == 13 then newline c ∷ rest else push c rest

abbrev pub text_of : List Piece → Text
text_of [] = []
text_of (line t ∷ ps) = t ++ text_of ps
text_of (newline c ∷ ps) = c ∷ text_of ps

-- A text without the spaces at its start, and those spaces.
unfoldable pub trimmed : Text → Text
trimmed [] = []
trimmed (c ∷ s) = let rest = trimmed s in if is_space c then rest else c ∷ s

unfoldable pub spaces : Text → Text
spaces [] = []
spaces (c ∷ s) = let rest = spaces s in if is_space c then c ∷ rest else []

-- `[#;].*`, to the end of the text.
abbrev is_comment : Text → Bool
is_comment [] = true
is_comment (c ∷ s) = (c == b'#' || c == b';') && all (λ d. not (d == 8_232 || d == 8_233)) s

-- `\s*(?:[#;].*)?$`
unfoldable pub is_tail : Text → Bool
unfolding trimmed
is_tail s = is_comment (trimmed s)

-- The name before the first `]`, where what follows is a tail.
unfoldable pub name_before : Text → Option Text
unfolding is_tail
name_before [] = none
name_before (c ∷ s) =
    let rest = name_before s in
    if c == b']'
    then (if is_tail s then some [] else none)
    else elim rest [ none ↦ none | some name ↦ some (c ∷ name) ]

abbrev nonempty : Option Text → Option Text
nonempty none = none
nonempty (some []) = none
nonempty (some (c ∷ s)) = some (c ∷ s)

abbrev bracketed : Text → Option Text
bracketed [] = none
bracketed (c ∷ s) = if c == b'[' then nonempty (name_before s) else none

-- /^\s*\[([^\]]+)\]\s*(?:[#;].*)?$/
unfoldable pub section : Text → Option Text
unfolding trimmed name_before
section s = bracketed (trimmed s)

-- `([^#;]*?)(\s*(?:[#;].*)?)$`: the value is as short as it can be; what follows it.
unfoldable pub suffix_of : Text → Option Text
unfolding is_tail
suffix_of [] = some []
suffix_of (c ∷ s) =
    let rest = suffix_of s in
    if is_tail (c ∷ s) then some (c ∷ s) else if c == b'#' || c == b';' then none else rest

-- An Endpoint line: what stands before its value, and what stands after it.
pub record Field : Type 0 where
  pub before : Text
  pub after : Text

abbrev pub field_with : Text → Option Text → Option Field
field_with before none = none
field_with before (some after) = some (record { before = before; after = after })

abbrev pub assigned : Text → Text → Option Field
assigned before [] = none
assigned before (c ∷ s) =
    if c == b'=' then field_with (before ++ b'=' ∷ spaces s) (suffix_of (trimmed s)) else none

abbrev pub named : Text → Option Text → Option Field
named before none = none
named before (some s) = assigned (before ++ codes "Endpoint" ++ spaces s) (trimmed s)

-- /^(\s*Endpoint\s*=\s*)([^#;]*?)(\s*(?:[#;].*)?)$/
unfoldable pub field : Text → Option Field
unfolding trimmed spaces suffix_of
field s = named (spaces s) (after_prefix (codes "Endpoint") (trimmed s))

-- The variables of the replacement.
pub record Scan : Type 0 where
  pub peer_count : ℕ
  pub in_peer : Bool
  pub count : ℕ

abbrev pub start : Scan
start = record { peer_count = 0; in_peer = false; count = 0 }

abbrev pub is_peer : Text → Bool
is_peer name = text_eq (map lower name) (codes "peer")

abbrev pub in_section : Text → Scan → Scan
in_section name s =
    if is_peer name
    then record s { in_peer = true; peer_count = suc s.peer_count }
    else record s { in_peer = false }

-- The line with another value, if it is an Endpoint line.
abbrev pub with_value : Text → Text → Option Field → Text
with_value address l none = l
with_value address l (some f) = f.before ++ address ++ f.after

abbrev pub counted : Option Field → Scan → Scan
counted none s = s
counted (some f) s = record s { count = suc s.count }

-- The callback of `replace`.
unfoldable pub on_line : Text → Text → Scan → Text × Scan
on_line address l s = elim (section l) [
  | some name ↦ (l, in_section name s)
  | none ↦ if s.in_peer then (with_value address l (field l), counted (field l) s) else (l, s)
]

unfoldable pub replaced : Text → List Piece → Scan → List Piece × Scan
unfolding on_line
replaced address [] s = ([], s)
replaced address (newline c ∷ ps) s =
    let rest = replaced address ps s in (newline c ∷ rest.0, rest.1)
replaced address (line l ∷ ps) s =
    let first = on_line address l s in
    let rest = replaced address ps first.1 in (line first.0 ∷ rest.0, rest.1)

-- `print` writes a number.
module _ (print : ℕ → Text) (config host : Text) (port : ℕ) where
  unfoldable pub with_relay_endpoint : Result Text
  unfolding is_endpoint
  with_relay_endpoint =
      let (result, scan) = replaced (host ++ b':' ∷ print port) (pieces config) start in
      if not (is_endpoint host port)
      then err (other_error "Invalid relay endpoint")
      else if not (scan.peer_count == 1) || not (scan.count == 1)
      then err (other_error "Unsupported client configuration")
      else ok (text_of result)
