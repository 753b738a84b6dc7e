-- ===== src/Cache/Revoker/Answers.antt =====
-- The metadata manager's messages as the client's revoker reads them.
use mathlib.Core.Option
use cse511_project.Prelude.{
  ℕ, ◌^◌, ◌<◌, ◌≡◌, refl, ap, [], ◌∷◌, ◌++◌, some, pos, Text, All, append_assoc, text_eq,
}
use cse511_project.Interval.{Interval}
use cse511_project.Strings.{next_token, to_string}
use cse511_project.Strings.Decimal.{
  NotSpace, trim_solid, to_string-NotSpace, next_token-append, atoi-to_string_int,
}
use cse511_project.FileDesc.{FileDescriptor, revoke_permission, not_open_response}
use cse511_project.FileDesc.Revoke.{Unnamed, revoke_permission-Unnamed}
use cse511_project.Metadata.Tokens.{ends_string, read_message, write_message}
use cse511_project.Cache.Revoker.{answer_with, revoke_command}

-- For a file name without white space and a range of blocks below 2^31, the message that the metadata
-- manager sends for a reader makes the revoker take the tokens of this file and range.
pub revoke_command-read_message :
    (fuel : ℕ) (name : Text) (x : Interval) (d : FileDescriptor)
    → All NotSpace name
    → x.m_start < 2 ^ 31
    → x.m_end < 2 ^ 31
    → revoke_command fuel (read_message name x) d
      ≡ Option.map answer_with (revoke_permission fuel d name (pos x.m_start) (pos x.m_end))
unfolding revoke_command read_message next_token text_eq
revoke_command-read_message fuel name x d solid hs he =
    let start = to_string x.m_start in
    let end = to_string x.m_end in
    let tail = end ++ b' ' ∷ (b'r' ∷ []) in
    let whole : ends_string x ++ b' ' ∷ (b'r' ∷ []) ≡ start ++ b' ' ∷ tail =
      append_assoc start (b' ' ∷ end) (b' ' ∷ (b'r' ∷ [])) in
    rw (next_token-append name (ends_string x ++ b' ' ∷ (b'r' ∷ [])) solid) (
      rw whole (
        rw (next_token-append start tail (to_string-NotSpace x.m_start)) (
          rw (next_token-append end (b'r' ∷ []) (to_string-NotSpace x.m_end)) (
            rw (trim_solid start (to_string-NotSpace x.m_start)) (
              rw (trim_solid end (to_string-NotSpace x.m_end)) (
                rw (atoi-to_string_int x.m_start hs) (rw (atoi-to_string_int x.m_end he) refl)))))))

-- The message that it sends for a writer has no file name: where no entry of the table is named by the
-- number of the first block, the revoker answers with the range of all blocks and takes no token away.
pub revoke_command-write_message :
    (fuel : ℕ) (x : Interval) (d : FileDescriptor)
    → Unnamed (to_string x.m_start) d.ofdt
    → revoke_command fuel (write_message x) d ≡ some (some not_open_response, d)
unfolding revoke_command write_message next_token text_eq
revoke_command-write_message fuel x d unnamed =
    let start = to_string x.m_start in
    let tail = to_string x.m_end ++ b' ' ∷ (b'w' ∷ []) in
    let whole : ends_string x ++ b' ' ∷ (b'w' ∷ []) ≡ start ++ b' ' ∷ tail =
      append_assoc start (b' ' ∷ to_string x.m_end) (b' ' ∷ (b'w' ∷ [])) in
    rw whole (
      rw (next_token-append start tail (to_string-NotSpace x.m_start))
        (ap (Option.map answer_with) (revoke_permission-Unnamed fuel d start _ _ unnamed)))
