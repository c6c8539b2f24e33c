-- ===== src/Text.antt =====
-- The methods of Python's `str` that the code calls, on the characters of a text.
mod Fuel
pub mod Split
pub mod Star
use Prim.Native.Char.{Char, code}
use Prim.Native.String
use Prim.Native.Nat.{◌/◌, ◌%◌}
use electa.Base.{
  ℕ, zero, suc, ◌+◌, String, Bool, true, false, ◌&&◌, ◌||◌, ◌==◌, Option, none, some, List, [], ◌∷◌,
  if◌then◌else◌, leb, nat_eq,
}
pub use text.Mathlib.Text.{starts_with}

-- The whitespace of `str.strip`.
unfoldable pub is_space : Char → Bool
is_space c =
    let n = code c in
    (leb 9 n && leb n 13)
    || ((leb 28 n && leb n 32)
        || (nat_eq n 0x85
            || (nat_eq n 0xa0
                || (nat_eq n 0x1680
                    || ((leb 0x2000 n && leb n 0x200a)
                        || (nat_eq n 0x2028
                            || (nat_eq n 0x2029
                                || (nat_eq n 0x202f || (nat_eq n 0x205f || nat_eq n 0x3000)))))))))

unfoldable pub lstrip : String → String
lstrip String.[] = ""
lstrip (String.◌∷◌ c s) = if is_space c then lstrip s else String.◌∷◌ c s

abbrev keep_unless_blank : Bool → Char → String → String
keep_unless_blank blank c String.[] = if blank then "" else String.◌∷◌ c ""
keep_unless_blank blank c (String.◌∷◌ d s) = String.◌∷◌ c (String.◌∷◌ d s)

unfoldable pub rstrip : String → String
rstrip String.[] = ""
rstrip (String.◌∷◌ c s) = keep_unless_blank (is_space c) c (rstrip s)

unfoldable pub strip : String → String
unfolding lstrip rstrip is_space
strip s = rstrip (lstrip s)

-- A character put before the first part.
abbrev pub onto_first : Char → List String → List String
onto_first c [] = String.◌∷◌ c "" ∷ []
onto_first c (part ∷ parts) = String.◌∷◌ c part ∷ parts

-- `s.split(sep)` for a separator of one character
unfoldable pub split : Char → String → List String
split sep String.[] = "" ∷ []
split sep (String.◌∷◌ c s) =
    let parts = split sep s in if nat_eq (code c) (code sep) then "" ∷ parts else onto_first c parts

-- `s[:-1]` where `s.endswith("*")`
unfoldable pub before_star : String → Option String
before_star String.[] = none
before_star (String.◌∷◌ c String.[]) = if nat_eq (code c) b'*' then some "" else none
before_star (String.◌∷◌ c (String.◌∷◌ d s)) = elim (before_star (String.◌∷◌ d s)) [
  | none ↦ none
  | some rest ↦ some (String.◌∷◌ c rest)
]

-- `s[:n]`
unfoldable pub first_chars : ℕ → String → String
first_chars zero s = ""
first_chars (suc n) String.[] = ""
first_chars (suc n) (String.◌∷◌ c s) = String.◌∷◌ c (first_chars n s)

-- `len(s)`
unfoldable pub text_length : String → ℕ
text_length String.[] = 0
text_length (String.◌∷◌ c s) = suc (text_length s)

abbrev digit : ℕ → Char
digit d =
    if nat_eq d 0
    then "0"
    else if nat_eq d 1
    then "1"
    else if nat_eq d 2
    then "2"
    else if nat_eq d 3
    then "3"
    else if nat_eq d 4
    then "4"
    else if nat_eq d 5
    then "5"
    else if nat_eq d 6
    then "6"
    else if nat_eq d 7
    then "7"
    else if nat_eq d 8
    then "8"
    else "9"

-- The digits of a number before a text, with fuel.
unfoldable decimal_from : ℕ → ℕ → String → String
decimal_from zero n text = text
decimal_from (suc fuel) n text =
    let more = decimal_from fuel (n / 10) (String.◌∷◌ (digit (n % 10)) text) in
    if leb n 9 then String.◌∷◌ (digit n) text else more

-- `str(n)`
unfoldable pub decimal : ℕ → String
unfolding decimal_from
decimal n = decimal_from (suc n) n ""
