-- ===== src/Js/Strings.antt =====
-- `trim`, `slice(0, n)` (the prelude's `take`), `toUpperCase` and the class [A-Z].
mod Trim
mod Split
unfoldable pub use Trim.*
unfoldable pub use Split.*
use factory_network_server.Prelude.{
  ℕ, ◌-◌, ◌+◌, Bool, List, [], ◌∷◌, ◌++◌, ◌&&◌, ◌||◌, if◌then◌else◌, leb, nat_eq,
}
use factory_network_server.Prelude.Texts.{Text}

unfoldable pub is_letter : ℕ → Bool
is_letter c = leb 65 c && leb c 90

-- The upper case of a code unit. Exact on ASCII and on each unit whose upper case holds an ASCII
-- letter; any other unit is kept, which no caller can tell, for they drop or compare ASCII only.
unfoldable pub upper_unit : ℕ → Text
upper_unit c =
    if leb 97 c && leb c 122
    then (c - 32) ∷ []
    else if nat_eq c 0xdf
    then 83 ∷ 83 ∷ []
    else if nat_eq c 0x131
    then 73 ∷ []
    else if nat_eq c 0x149
    then 0x2bc ∷ 78 ∷ []
    else if nat_eq c 0x17f
    then 83 ∷ []
    else if nat_eq c 0x1f0
    then 74 ∷ 0x30c ∷ []
    else if nat_eq c 0x1e96
    then 72 ∷ 0x331 ∷ []
    else if nat_eq c 0x1e97
    then 84 ∷ 0x308 ∷ []
    else if nat_eq c 0x1e98
    then 87 ∷ 0x30a ∷ []
    else if nat_eq c 0x1e99
    then 89 ∷ 0x30a ∷ []
    else if nat_eq c 0x1e9a
    then 65 ∷ 0x2be ∷ []
    else if nat_eq c 0xfb00
    then 70 ∷ 70 ∷ []
    else if nat_eq c 0xfb01
    then 70 ∷ 73 ∷ []
    else if nat_eq c 0xfb02
    then 70 ∷ 76 ∷ []
    else if nat_eq c 0xfb03
    then 70 ∷ 70 ∷ 73 ∷ []
    else if nat_eq c 0xfb04
    then 70 ∷ 70 ∷ 76 ∷ []
    else if nat_eq c 0xfb05 || nat_eq c 0xfb06
    then 83 ∷ 84 ∷ []
    else c ∷ []

unfoldable pub to_upper : Text → Text
unfolding upper_unit
to_upper [] = []
to_upper (c ∷ s) = upper_unit c ++ to_upper s
