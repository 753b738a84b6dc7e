-- ===== src/Metadata/Reachable/Single.antt =====
-- The locks in every state that the metadata manager reaches.
use cse511_project.Prelude.{◌≡◌, ◌∙◌, false, List, some, Text, if_false}
use cse511_project.Metadata.{FileEntry, Mdm, find_file}
use cse511_project.Metadata.Tokens.{
  parse_request, exec_request_token, lock_entry, serve_request, taken,
}
use cse511_project.Metadata.Tokens.Requests.{while_served}
use cse511_project.Metadata.Reachable.{Reach, Reach-AreSound, find_file-IsSound}

-- In every state that the metadata manager reaches from an empty table by commands of any kind that get a
-- response, whatever others answer meanwhile, where each token request names a range of blocks: every
-- token request has given the lock of the file's entry back. So with the lock of the table free, the lock
-- of the entry of a file that the table has is free, and a token request for this file does not fail for
-- it but is served, with the lock of the entry taken.
pub request_is_served :
    (s : Mdm) (e : FileEntry) (replies : List Text) (arguments : Text)
    → Reach s
    → s.gft_lock ≡ false
    → find_file (parse_request arguments).file_name s.general_file_table ≡ some e
    → (e.fe_lock ≡ false)
      × (exec_request_token replies arguments s
          ≡ serve_request
              (parse_request arguments)
              replies
              (taken e)
              (while_served (parse_request arguments) e s))
unfolding exec_request_token lock_entry
request_is_served s e replies arguments r free found =
    let sound =
      find_file-IsSound (parse_request arguments).file_name e s.general_file_table
        (Reach-AreSound r) found in
    (sound.0, if_false s.gft_lock _ _ free ∙ rw found (if_false e.fe_lock _ _ sound.0))
