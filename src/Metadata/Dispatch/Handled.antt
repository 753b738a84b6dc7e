-- ===== src/Metadata/Dispatch/Handled.antt =====
-- What a whole message does.
use cse511_project.Prelude.{
  ℕ, ◌≤◌, ◌<◌, ◌≡◌, refl, ◌∙◌, ap, false, List, [], ◌∷◌, ◌++◌, Text, All, arith, length, if_true,
  if_false, leb, ◌==◌, length-append,
}
use cse511_project.Strings.{to_lower}
use cse511_project.Strings.Decimal.{NotSpace, next_token-append}
use cse511_project.Metadata.{Mdm, faults}
use cse511_project.Metadata.Dispatch.{c_string, run_command, handle_client, rcv_buf_size}

abbrev pub NotZero : ℕ → Type 0
NotZero c = (c == 0) ≡ false

pub c_string_lem : (s : Text) → All NotZero s → c_string s ≡ s
unfolding c_string
c_string_lem [] h = refl
c_string_lem (c ∷ s) h = if_false (c == 0) _ _ h.0 ∙ ap (◌∷◌ c) (c_string_lem s h.1)

-- A message of less than 64 characters, none of them 0, that is a command word, a space and arguments
-- runs the handler that the word names in lower case.
pub handle_client_runs :
    (reply : ℕ → Text → Text) (replies : List Text) (address word arguments : Text) (s : Mdm)
    → All NotSpace word
    → All NotZero (word ++ b' ' ∷ arguments)
    → length (word ++ b' ' ∷ arguments) < rcv_buf_size
    → handle_client reply replies address (word ++ b' ' ∷ arguments) s
      ≡ run_command reply replies address (to_lower word) arguments s
unfolding handle_client
handle_client_runs reply replies address word arguments s solid plain short =
    let sent = word ++ b' ' ∷ arguments in
    let some_sent : (length sent == 0) ≡ false =
      ground (arith, length-append word (b' ' ∷ arguments)) in
    if_false (length sent == 0) _ _ some_sent
    ∙ if_false (leb rcv_buf_size (length sent)) _ _ (ground (arith, short))
    ∙ rw (c_string_lem sent plain) (rw (next_token-append word arguments solid) refl)

-- A message that fills the buffer of 64 characters makes the server write behind it.
pub handle_client_faults :
    (reply : ℕ → Text → Text) (replies : List Text) (address sent : Text) (s : Mdm)
    → rcv_buf_size ≤ length sent
    → handle_client reply replies address sent s ≡ faults
unfolding handle_client
handle_client_faults reply replies address sent s long =
    if_false (length sent == 0) _ _ (ground (arith, long))
    ∙ if_true (leb rcv_buf_size (length sent)) _ _ (ground (arith, long))
