-- ===== src/Js/Strings/Trim.antt =====
-- `String.prototype.trim`: white space and line terminators go from both ends.
use factory_network_server.Prelude.{
  all, not, ℕ, ◌≤◌, ◌+◌, ◌≡◌, refl, ap, ◌∙◌, Bool, true, false, [], ◌∷◌, ◌&&◌, ◌||◌, if◌then◌else◌,
  leb, nat_eq, arith, length,
}
use factory_network_server.Prelude.Texts.{Text}

unfoldable pub is_space : ℕ → Bool
is_space c =
    (leb 9 c && leb c 13)
    || nat_eq c 32
    || nat_eq c 0xa0
    || nat_eq c 0x1680
    || (leb 0x2000 c && leb c 0x200a)
    || nat_eq c 0x2028
    || nat_eq c 0x2029
    || nat_eq c 0x202f
    || nat_eq c 0x205f
    || nat_eq c 0x3000
    || nat_eq c 0xfeff

unfoldable pub trim_start : Text → Text
trim_start [] = []
trim_start (c ∷ s) = let rest = trim_start s in if is_space c then rest else c ∷ s

-- Puts `c` before what is left of the tail, unless nothing is left and `c` is white space.
unfoldable pub trim_cons : ℕ → Text → Text
trim_cons c [] = if is_space c then [] else c ∷ []
trim_cons c (d ∷ s) = c ∷ d ∷ s

unfoldable pub trim_end : Text → Text
unfolding trim_cons
trim_end [] = []
trim_end (c ∷ s) = trim_cons c (trim_end s)

unfoldable pub trim : Text → Text
unfolding trim_start trim_end
trim s = trim_end (trim_start s)

-- No white space stands first.
abbrev pub starts_solid : Text → Bool
starts_solid [] = true
starts_solid (c ∷ s) = if is_space c then false else true

length-trim_cons : (c : ℕ) (s : Text) → length (trim_cons c s) ≤ length s + 1
unfolding trim_cons
length-trim_cons c [] = ground arith
length-trim_cons c (d ∷ s) = omega arith

pub length-trim_end : (s : Text) → length (trim_end s) ≤ length s
unfolding trim_end
length-trim_end [] = omega arith
length-trim_end (c ∷ s) = omega (arith, length-trim_end s, length-trim_cons c (trim_end s))

length-trim_start : (s : Text) → length (trim_start s) ≤ length s
unfolding trim_start
length-trim_start [] = omega arith
length-trim_start (c ∷ s) = ground (arith, length-trim_start s)

pub length-trim : (s : Text) → length (trim s) ≤ length s
unfolding trim
length-trim s = omega (arith, length-trim_start s, length-trim_end (trim_start s))

trim_start-starts_solid : (s : Text) → starts_solid (trim_start s) ≡ true
unfolding trim_start
trim_start-starts_solid [] = refl
trim_start-starts_solid (c ∷ s) = ground (arith, trim_start-starts_solid s)

trim_end-starts_solid : (s : Text) → starts_solid s ≡ true → starts_solid (trim_end s) ≡ true
unfolding trim_end trim_cons
trim_end-starts_solid [] h = refl
trim_end-starts_solid (c ∷ s) h = ground arith

pub trim-starts_solid : (s : Text) → starts_solid (trim s) ≡ true
unfolding trim
trim-starts_solid s = trim_end-starts_solid (trim_start s) (trim_start-starts_solid s)

trim_start_of_starts_solid : (s : Text) → starts_solid s ≡ true → trim_start s ≡ s
unfolding trim_start
trim_start_of_starts_solid [] h = refl
trim_start_of_starts_solid (c ∷ s) h = ground arith

trim_end_idem : (s : Text) → trim_end (trim_end s) ≡ trim_end s
unfolding trim_end trim_cons
trim_end_idem [] = refl
trim_end_idem (c ∷ s) = ground (arith, trim_end_idem s)

pub trim_idem : (s : Text) → trim (trim s) ≡ trim s
unfolding trim
trim_idem s =
    ap trim_end (trim_start_of_starts_solid _ (trim-starts_solid s)) ∙ trim_end_idem (trim_start s)

abbrev pub has_no_space : Text → Bool
has_no_space = all (λ c. not (is_space c))

trim_end_of_no_space : (s : Text) → has_no_space s ≡ true → trim_end s ≡ s
unfolding trim_end trim_cons
trim_end_of_no_space [] h = refl
trim_end_of_no_space (c ∷ s) h = ground (arith, trim_end_of_no_space s)

-- A text with no white space is kept.
pub trim_of_no_space : (s : Text) → has_no_space s ≡ true → trim s ≡ s
unfolding trim trim_start
trim_of_no_space [] h = trim_end_of_no_space [] h
trim_of_no_space (c ∷ s) h = ground (arith, trim_end_of_no_space (c ∷ s) h)
