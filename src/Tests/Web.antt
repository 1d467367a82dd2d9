-- ===== src/Tests/Web.antt =====
-- The theorem on the client configuration at a concrete one.
use awg_control.Base.{ℕ, String, [], ◌∷◌, ◌++◌, Text, codes}

abbrev with_endpoint : String → Text
with_endpoint address =
    codes "[Interface]"
    ++ 10 ∷ codes "Endpoint = none"
    ++ 10 ∷ 10 ∷ codes " [peer] # one"
    ++ 13 ∷ 10 ∷ codes "Endpoint = "
    ++ codes address
    ++ codes " ; kept"
    ++ 10 ∷ []

abbrev print : ℕ → Text
print n = codes "40000"
