-- ===== src/Network/Served.antt =====
-- What the metadata manager's table is after a request that is served.
use cse511_project.Prelude.{
  ◌≡◌, ◌∙◌, sym, ◌∷◌, ◌++◌, All, text_eq, if_false, refl, List, [], none, some, Text, arith,
  Bool-cases, inl, inr,
}
use cse511_project.Interval.{Interval}
use cse511_project.TokenMap.{TokenMap, find, insert}
use cse511_project.Metadata.{Holder}
use cse511_project.Metadata.Tokens.{ends_string, read_message}
use cse511_project.Metadata.{FileEntry, Mdm, find_file, update_file, Outcome, responds}
use cse511_project.Metadata.Tokens.{
  Sent, parse_request, exec_request_token, serve_request, grant_read, write_readers, grant_write,
  revoke_writers, write_message,
}
use cse511_project.Metadata.Tokens.Readers.{Misses, revoke_readers_missed}
use cse511_project.Metadata.Tokens.Requests.{Ready, with_entry, granted_lem, request_served}

revoke_writers-none :
    (message : Text) (x : Interval) (replies : List Text) (m : TokenMap Holder)
    → find x m ≡ none
    → revoke_writers message x replies m ≡ some (m, replies, [])
unfolding revoke_writers
revoke_writers-none message x [] m h = rw (h, revoke_writers) refl
revoke_writers-none message x (response ∷ replies) m h = rw (h, revoke_writers) refl

pub find_file-update_file :
    (n : Text) (old e : FileEntry) (t : List (Text × FileEntry))
    → find_file n t ≡ some old
    → find_file n (update_file n e t) ≡ some e
unfolding find_file update_file
find_file-update_file n old e [] h = absurd (ground (arith, h))
find_file-update_file n old e ((k, x) ∷ t) h = elim (Bool-cases (text_eq k n)) [
  | inl q ↦ rw q (rw q refl)
  | inr q ↦ rw q (rw q (find_file-update_file n old e t (sym (if_false (text_eq k n) _ _ q) ∙ h)))
]

-- What a request leaves.
abbrev pub left_by : Mdm → Outcome → Mdm
left_by s (responds response s') = s'
left_by s _ = s

abbrev pub response_of : Outcome → Text
response_of (responds response s') = response
response_of _ = []

module _ (arguments : Text) (s : Mdm) (e : FileEntry) (ready : Ready (parse_request arguments) s e)
    (replies : List Text) where
  -- A request to read whose writers have answered.
  pub read_served :
      (m : TokenMap Holder) (sent : Sent)
      → (parse_request arguments).mode ≡ b'r'
      → revoke_writers
          (read_message (parse_request arguments).file_name (parse_request arguments).interval)
          (parse_request arguments).interval
          replies
          e.mdw_tokens
        ≡ some (m, [], sent)
      → exec_request_token replies arguments s
        ≡ responds (ends_string (parse_request arguments).interval) (
            with_entry
              (parse_request arguments)
              (record e {
                mdw_tokens = m;
                mdr_tokens =
                    e.mdr_tokens
                    ++ ((parse_request arguments).interval, (parse_request arguments).client) ∷ [];
              })
              s)
  unfolding serve_request grant_read
  read_served m sent mode run =
      let r = parse_request arguments in
      request_served arguments s e ready replies
      ∙ rw mode (
          rw run (
            granted_lem r e
              (record e {
                mdw_tokens = m;
                mdr_tokens = e.mdr_tokens ++ (r.interval, r.client) ∷ [];
              })
              s ready.unlocked))

  -- A request to write a range that nobody uses.
  pub write_served :
      (parse_request arguments).mode ≡ b'w'
      → find (parse_request arguments).interval e.mdw_tokens ≡ none
      → All (Misses (parse_request arguments).interval) e.mdr_tokens
      → exec_request_token replies arguments s
        ≡ responds (ends_string (parse_request arguments).interval) (
            with_entry
              (parse_request arguments)
              (record e {
                mdw_tokens =
                    insert
                      (parse_request arguments).interval
                      (parse_request arguments).client
                      e.mdw_tokens;
              })
              s)
  unfolding serve_request write_readers grant_write
  write_served mode free missed =
      let r = parse_request arguments in
      let x = r.interval in
      request_served arguments s e ready replies
      ∙ rw mode (
          rw (revoke_writers-none (write_message x) x replies e.mdw_tokens free) (
            rw (revoke_readers_missed x replies e.mdr_tokens missed) (
              granted_lem r e (record e { mdw_tokens = insert x r.client e.mdw_tokens }) s
                ready.unlocked)))
