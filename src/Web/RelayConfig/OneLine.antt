-- ===== src/Web/RelayConfig/OneLine.antt =====
-- What the replacement of the endpoint changes.
use awg_control.Base.{on_some, Option, none, true, false, ◌≡◌, some, List, [], ◌∷◌, ◌++◌, Text}
use awg_control.Web.RelayConfig.{is_peer, Piece, line, newline, section, Field, field}

-- An Endpoint line is what stands before its value, the value, and what stands after it.
abbrev HasValue : Text → Field → Type 0
HasValue s f = (value : Text) × (s ≡ f.before ++ (value ++ f.after))

-- The section in which the text goes on after some pieces.
abbrev pub later : Option Text → Option Text → Option Text
later none name = name
later (some new) name = some new

abbrev pub last_section : Option Text → List Piece → Option Text
last_section name [] = name
last_section name (newline c ∷ ps) = last_section name ps
last_section name (line l ∷ ps) = last_section (later (section l) name) ps

-- One Endpoint line with another value: a whole line, of a Peer section, of which what stands before
-- and after the value is kept. `name` is the section in which the pieces begin.
pub record IsReplaced (address : Text) (name : Option Text) (ps qs : List Piece) : Type 0 where
  pub above : List Piece
  pub below : List Piece
  pub old : Text
  pub value : Text
  pub endpoint : Field
  pub is_field : field old ≡ some endpoint
  pub was_value : old ≡ endpoint.before ++ (value ++ endpoint.after)
  pub of_peer : on_some false is_peer (last_section name above) ≡ true
  pub was : ps ≡ above ++ (line old ∷ below)
  pub is : qs ≡ above ++ (line (endpoint.before ++ address ++ endpoint.after) ∷ below)
