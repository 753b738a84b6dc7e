-- ===== src/Client/Calls/Messages.antt =====
-- The client's requests as the metadata manager reads them.
use cse511_project.Prelude.{
  ℕ, ◌^◌, ◌%◌, ◌<◌, ◌≡◌, refl, ◌∙◌, ap, false, [], ◌∷◌, ◌++◌, pos, Text, All, arith, append_assoc,
}
use cse511_project.Interval.{mk}
use cse511_project.Strings.{next_token, to_string, is_space}
use cse511_project.Strings.Decimal.{
  NotSpace, trim_solid, to_string-NotSpace, next_token-append, next_token_last, atoi-to_string_int,
}
use cse511_project.Metadata.Tokens.{parse_request}
use cse511_project.Client.Calls.{token_message}

module _ (s e mode port : ℕ) (address : Text) where
  -- The fields of the message, with the address that the metadata manager adds.
  mode_field : Text
  mode_field = mode ∷ b' ' ∷ (to_string port ++ b' ' ∷ address)

  end_field : Text
  unfolding mode_field
  end_field = to_string e ++ b' ' ∷ mode_field

  start_field : Text
  unfolding end_field
  start_field = to_string s ++ b' ' ∷ end_field

  message_fields :
      (name : Text)
      → (next_token (token_message name (pos s) (pos e) mode (pos port))).1 ++ b' ' ∷ address
        ≡ name ++ b' ' ∷ start_field
  unfolding token_message next_token start_field end_field mode_field
  message_fields name =
      let z = b' ' ∷ address in
      let t4 : Text = mode ∷ b' ' ∷ to_string port in
      let t3 = to_string e ++ b' ' ∷ t4 in
      let t2 = to_string s ++ b' ' ∷ t3 in
      append_assoc name (b' ' ∷ t2) z
      ∙ ap (λ t. name ++ b' ' ∷ t)
          (append_assoc (to_string s) (b' ' ∷ t3) z
            ∙ ap (λ t. to_string s ++ b' ' ∷ t) (append_assoc (to_string e) (b' ' ∷ t4) z))

  -- For a file name, a mode and an address without white space, and numbers below 2^31, the request
  -- that `requestToken` writes is read by `execFunc_request_token`, behind its command word and with the
  -- client's address added, as the file, the range, the mode and the client that were given.
  pub parse_request-token_message :
      (name : Text)
      → All NotSpace name
      → s < 2 ^ 31
      → e < 2 ^ 31
      → port < 2 ^ 31
      → is_space mode ≡ false
      → All NotSpace address
      → parse_request
          ((next_token (token_message name (pos s) (pos e) mode (pos port))).1 ++ b' ' ∷ address)
        ≡ record { file_name = name; interval = mk s e; mode = mode; client = (address, pos port) }
  unfolding parse_request start_field end_field mode_field
  parse_request-token_message name solid hs he hp hm ha =
      let us : s % 2 ^ 32 ≡ s = omega arith in
      let ue : e % 2 ^ 32 ≡ e = omega arith in
      rw (message_fields name) (
        rw (next_token-append name start_field solid) (
          rw (next_token-append (to_string s) end_field (to_string-NotSpace s)) (
            rw (next_token-append (to_string e) mode_field (to_string-NotSpace e)) (
              rw (next_token-append (mode ∷ []) (to_string port ++ b' ' ∷ address) (hm, tt)) (
                rw (next_token-append (to_string port) address (to_string-NotSpace port)) (
                  rw (next_token_last address ha) (
                    rw (trim_solid (to_string s) (to_string-NotSpace s)) (
                      rw (trim_solid (to_string e) (to_string-NotSpace e)) (
                        rw (trim_solid (mode ∷ []) (hm, tt)) (
                          rw (trim_solid (to_string port) (to_string-NotSpace port)) (
                            rw (trim_solid address ha) (
                              rw (atoi-to_string_int s hs) (
                                rw (atoi-to_string_int e he)
                                  (rw (atoi-to_string_int port hp) (rw (us, ue) refl)))))))))))))))
