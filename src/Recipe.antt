-- ===== src/Recipe.antt =====
-- `struct fileRecipe` of data_types.hh and mt_data_types.hh: over how many servers a file is striped,
-- and which. The recipe travels from the metadata manager to the client as a text.
pub mod Transfer
use mathlib.Core.Option
use mathlib.Core.List.{reverse}
use cse511_project.Prelude.{
  ℕ, zero, suc, Bool, true, false, List, [], ◌∷◌, ◌++◌, map, Option, none, some, ℤ, pos, Text, ◌==◌,
  take, replicate, length, ◌-◌, set, if◌then◌else◌,
}
use cse511_project.Strings.{int_to_string, next_token, atoi}

abbrev pub num_file_servers : ℕ
num_file_servers = 5

-- The bits of the mask from bit 0.
pub record FileRecipe : Type 0 where
  pub stripe_width : ℤ
  pub stripe_mask : List Bool

-- `bitset<NUM_FILE_SERVERS>()`.
abbrev pub empty_mask : List Bool
empty_mask = replicate num_file_servers false

-- `fileRecipe()` of mt_data_types.hh.
abbrev pub new_recipe : FileRecipe
new_recipe = record { stripe_width = pos 0; stripe_mask = empty_mask }

abbrev pub bit_char : Bool → ℕ
bit_char true = b'1'
bit_char false = b'0'

-- `bitset::to_string`: the highest bit first.
abbrev pub mask_to_string : List Bool → Text
mask_to_string mask = map bit_char (reverse mask)

-- `fileRecipe::toString`.
unfoldable pub recipe_to_string : FileRecipe → Text
recipe_to_string r = int_to_string r.stripe_width ++ b' ' ∷ mask_to_string r.stripe_mask

abbrev pub char_bit : ℕ → Option Bool
char_bit c = if c == b'0' then some false else if c == b'1' then some true else none

unfoldable pub bits : Text → Option (List Bool)
bits [] = some []
bits (c ∷ s) = elim (char_bit c) [ none ↦ none | some b ↦ Option.map (λ l. b ∷ l) (bits s) ]

-- `bitset<NUM_FILE_SERVERS>(text)`: the first five characters, the last of them bit 0; the bits that
-- are missing are 0, and a character other than '0' or '1' is an exception, `none`.
unfoldable pub mask_of : Text → Option (List Bool)
unfolding bits
mask_of s =
    Option.map (λ l. reverse l ++ replicate (num_file_servers - length l) false)
      (bits (take num_file_servers s))

-- The recipe that `pfs_open` makes of the answer.
unfoldable pub recipe_of_response : Text → Option FileRecipe
unfolding mask_of next_token atoi
recipe_of_response response =
    let (width, rest) = next_token response in
    Option.map (λ mask. record { stripe_width = atoi width; stripe_mask = mask })
      (mask_of (next_token rest).0)
