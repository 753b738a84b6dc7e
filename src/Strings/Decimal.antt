-- ===== src/Strings/Decimal.antt =====
-- Numbers written to a message are read back.
use mathlib.Core.List.{reverse, reverse-cons, reverse-reverse}
use cse511_project.Prelude.{
  ℕ, zero, suc, ◌+◌, ◌-◌, ◌*◌, ◌/◌, ◌^◌, ◌<◌, ◌≡◌, refl, inl, inr, true, false, [], ◌∷◌, ◌++◌, ltb,
  arith, int_of, pos, to_unsigned, to_unsigned-int_of, Text, All, All-append, Bool-cases,
}
use cse511_project.Strings.{
  next_token, is_digit, is_space, ltrim, rtrim, trim, decimal, to_string, digits_value,
  signed_value, atoi,
}

abbrev pub IsDigit : ℕ → Type 0
IsDigit c = is_digit c ≡ true

abbrev pub NotSpace : ℕ → Type 0
NotSpace c = is_space c ≡ false

decimal-IsDigit : (f n : ℕ) → All IsDigit (decimal f n)
unfolding decimal
decimal-IsDigit zero n = tt
decimal-IsDigit (suc f) n = elim (Bool-cases (ltb n 10)) [
  | inl t ↦ rw t (ground arith, tt)
  | inr g ↦
      rw g
        (All-append IsDigit (decimal f (n / 10)) _ (decimal-IsDigit f (n / 10)) (ground arith, tt))
]

pub digits_value-append :
    (acc : ℕ) (xs ys : Text)
    → All IsDigit xs
    → digits_value acc (xs ++ ys) ≡ digits_value (digits_value acc xs) ys
unfolding digits_value
digits_value-append acc [] ys h = refl
digits_value-append acc (c ∷ xs) ys h =
    rw (h.0) (digits_value-append (acc * 10 + (c - b'0')) xs ys h.1)

digits_value-decimal : (f n : ℕ) → n < f → digits_value 0 (decimal f n) ≡ n
unfolding decimal digits_value
digits_value-decimal zero n h = absurd (omega arith)
digits_value-decimal (suc f) n h = elim (Bool-cases (ltb n 10)) [
  | inl t ↦ rw t (ground arith)
  | inr g ↦ rw g (
      rw (digits_value-append 0 (decimal f (n / 10)) _ (decimal-IsDigit f (n / 10)))
        (rw (digits_value-decimal f (n / 10) (ground arith)) (ground arith)))
]

pub to_string-IsDigit : (n : ℕ) → All IsDigit (to_string n)
unfolding to_string
to_string-IsDigit n = decimal-IsDigit (suc n) n

pub digits_value-to_string : (n : ℕ) → digits_value 0 (to_string n) ≡ n
unfolding to_string
digits_value-to_string n = digits_value-decimal (suc n) n (omega arith)

signed_value_digits : (s : Text) → All IsDigit s → signed_value s ≡ int_of (digits_value 0 s)
unfolding signed_value
signed_value_digits [] h = refl
signed_value_digits (c ∷ s) h = ground arith

pub ltrim_solid : (s : Text) → All NotSpace s → ltrim s ≡ s
unfolding ltrim
ltrim_solid [] h = refl
ltrim_solid (c ∷ s) h = rw h.0

All-reverse : (s : Text) → All NotSpace s → All NotSpace (reverse s)
All-reverse [] h = tt
All-reverse (c ∷ s) h =
    rw reverse-cons (All-append NotSpace (reverse s) (c ∷ []) (All-reverse s h.1) (h.0, tt))

-- A text without white space stays as it is.
pub trim_solid : (s : Text) → All NotSpace s → trim s ≡ s
unfolding trim rtrim
trim_solid s h =
    rw (ltrim_solid (reverse s) (All-reverse s h)) (rw reverse-reverse (ltrim_solid s h))

IsDigit-NotSpace : (s : Text) → All IsDigit s → All NotSpace s
IsDigit-NotSpace [] h = tt
IsDigit-NotSpace (c ∷ s) h = (ground arith, IsDigit-NotSpace s h.1)

pub to_string-NotSpace : (n : ℕ) → All NotSpace (to_string n)
to_string-NotSpace n = IsDigit-NotSpace (to_string n) (to_string-IsDigit n)

-- `atoi(trim(...))` reads back the number that `ostringstream <<` wrote, once the `int` is converted
-- to the `unsigned int` that it came from.
pub atoi-to_string : (n : ℕ) → n < 2 ^ 32 → to_unsigned (atoi (trim (to_string n))) ≡ n
unfolding atoi
atoi-to_string n h = rw (trim_solid (to_string n) (to_string-NotSpace n)) (
    rw (ltrim_solid (to_string n) (to_string-NotSpace n)) (
      rw (signed_value_digits (to_string n) (to_string-IsDigit n))
        (rw (digits_value-to_string n) (to_unsigned-int_of n h))))

-- A field of a message ends at the first space.
pub next_token-append : (xs ys : Text) → All NotSpace xs → next_token (xs ++ b' ' ∷ ys) ≡ (xs, ys)
unfolding next_token
next_token-append [] ys h = refl
next_token-append (c ∷ xs) ys h = rw (next_token-append xs ys h.1) (ground arith)

pub next_token_last : (xs : Text) → All NotSpace xs → next_token xs ≡ (xs, [])
unfolding next_token
next_token_last [] h = refl
next_token_last (c ∷ xs) h = rw (next_token_last xs h.1) (ground arith)

-- `atoi` of a number below 2 ^ 31.
pub atoi-to_string_int : (n : ℕ) → n < 2 ^ 31 → atoi (to_string n) ≡ pos n
unfolding atoi
atoi-to_string_int n h = rw (ltrim_solid (to_string n) (to_string-NotSpace n)) (
    rw (signed_value_digits (to_string n) (to_string-IsDigit n))
      (rw (digits_value-to_string n) (ground arith)))
