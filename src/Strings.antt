-- ===== src/Strings.antt =====
-- StringFunctions.hh, with the conversions between numbers and texts that its callers take from the
-- standard library (`ostringstream <<`, `atoi`).
pub mod Decimal
use mathlib.Core.List.{reverse}
use cse511_project.Prelude.{
  ℕ, zero, suc, ◌+◌, ◌-◌, ◌*◌, ◌/◌, ◌%◌, Bool, ◌&&◌, ◌||◌, [], ◌∷◌, ◌++◌, map, ltb, leb, ◌==◌, ℤ,
  pos, negsuc, neg, int_of, Text, if◌then◌else◌,
}

-- `nextToken`: the text up to the first space, and what stays in `str`, after the space.
unfoldable pub next_token : Text → Text × Text
next_token [] = ([], [])
next_token (c ∷ s) =
    let (token, rest) = next_token s in if c == b' ' then ([], s) else (c ∷ token, rest)

-- `tolower` in the "C" locale.
abbrev pub lower_char : ℕ → ℕ
lower_char c = if leb b'A' c && leb c b'Z' then c + 32 else c

abbrev pub to_lower : Text → Text
to_lower s = map lower_char s

-- `isspace` in the "C" locale.
abbrev pub is_space : ℕ → Bool
is_space c = c == b' ' || leb 9 c && leb c 13

unfoldable pub ltrim : Text → Text
ltrim [] = []
ltrim (c ∷ s) = if is_space c then ltrim s else c ∷ s

-- `rtrim` looks for the last character to keep from the end.
unfoldable pub rtrim : Text → Text
unfolding ltrim
rtrim s = reverse (ltrim (reverse s))

unfoldable pub trim : Text → Text
unfolding rtrim ltrim
trim s = ltrim (rtrim s)

-- `ostringstream() << n`: decimal digits. The fuel bounds their number.
unfoldable pub decimal : ℕ → ℕ → Text
decimal zero n = []
decimal (suc f) n =
    let front = decimal f (n / 10) in
    if ltb n 10 then (b'0' + n) ∷ [] else front ++ (b'0' + n % 10) ∷ []

unfoldable pub to_string : ℕ → Text
unfolding decimal
to_string n = decimal (suc n) n

abbrev pub is_digit : ℕ → Bool
is_digit c = leb b'0' c && leb c b'9'

-- The number that the leading digits stand for.
unfoldable pub digits_value : ℕ → Text → ℕ
digits_value acc [] = acc
digits_value acc (c ∷ s) =
    let rest = digits_value (acc * 10 + (c - b'0')) s in if is_digit c then rest else acc

-- The sign, for `atoi`.
unfoldable pub signed_value : Text → ℤ
unfolding digits_value
signed_value [] = pos 0
signed_value (c ∷ s) =
    if c == b'-'
    then neg (int_of (digits_value 0 s))
    else if c == b'+'
    then int_of (digits_value 0 s)
    else int_of (digits_value 0 (c ∷ s))

-- `atoi`: white space, a sign, digits; the low 32 bits of the value.
unfoldable pub atoi : Text → ℤ
unfolding signed_value ltrim
atoi s = signed_value (ltrim s)

-- `ostringstream() << n` for an `int`.
unfoldable pub int_to_string : ℤ → Text
unfolding to_string
int_to_string (pos n) = to_string n
int_to_string (negsuc n) = b'-' ∷ to_string (suc n)
