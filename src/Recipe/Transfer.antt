-- ===== src/Recipe/Transfer.antt =====
-- A recipe that the metadata manager sends is the recipe that the client reads.
use mathlib.Core.List.{reverse}
use cse511_project.Prelude.{
  ℕ, ◌^◌, ◌<◌, ◌≡◌, refl, Bool, true, false, List, [], ◌∷◌, map, some, pos, length, arith, All,
}
use cse511_project.Strings.{to_string, int_to_string}
use cse511_project.Strings.Decimal.{
  NotSpace, to_string-NotSpace, next_token-append, next_token_last, atoi-to_string_int,
}
use cse511_project.Recipe.{
  FileRecipe, num_file_servers, bit_char, mask_to_string, recipe_to_string, bits, mask_of,
  recipe_of_response,
}

bits-bit_char : (l : List Bool) → bits (map bit_char l) ≡ some l
unfolding bits
bits-bit_char [] = refl
bits-bit_char (true ∷ l) = rw (bits-bit_char l) refl
bits-bit_char (false ∷ l) = rw (bits-bit_char l) refl

bit_char-NotSpace : (l : List Bool) → All NotSpace (map bit_char l)
bit_char-NotSpace [] = tt
bit_char-NotSpace (true ∷ l) = (refl, bit_char-NotSpace l)
bit_char-NotSpace (false ∷ l) = (refl, bit_char-NotSpace l)

mask_of-mask_to_string :
    (mask : List Bool) → length mask ≡ num_file_servers → mask_of (mask_to_string mask) ≡ some mask
unfolding mask_of
mask_of-mask_to_string (a ∷ b ∷ c ∷ d ∷ e ∷ []) h = rw (bits-bit_char (e ∷ d ∷ c ∷ b ∷ a ∷ [])) refl
mask_of-mask_to_string mask h = absurd (omega arith)

-- For a width from 0 to 2 ^ 31 - 1 and a mask of five bits, the recipe that `pfs_open` makes of the
-- text that `fileRecipe::toString` wrote is the recipe itself.
pub recipe_of_response-recipe_to_string :
    (w : ℕ) (mask : List Bool)
    → w < 2 ^ 31
    → length mask ≡ num_file_servers
    → let r : FileRecipe = record { stripe_width = pos w; stripe_mask = mask } in
      recipe_of_response (recipe_to_string r) ≡ some r
unfolding recipe_of_response recipe_to_string int_to_string
recipe_of_response-recipe_to_string w mask h five =
    rw (next_token-append (to_string w) (mask_to_string mask) (to_string-NotSpace w)) (
      rw (next_token_last (mask_to_string mask) (bit_char-NotSpace (reverse mask)))
        (rw (mask_of-mask_to_string mask five) (rw (atoi-to_string_int w h) refl)))
