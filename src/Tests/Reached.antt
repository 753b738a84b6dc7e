-- ===== src/Tests/Reached.antt =====
-- States that the metadata manager reaches, at concrete inputs.
use cse511_project.Prelude.{◌≡◌, refl, [], ◌∷◌, arith, text_eq, codes, false}
use cse511_project.Interval.{mk}
use cse511_project.Strings.{next_token, trim, atoi, to_string}
use cse511_project.Metadata.{FileEntry, Mdm, find_file}
use cse511_project.Metadata.Dispatch.{run_command}
use cse511_project.Metadata.Files.{exec_create}
use cse511_project.Metadata.Tokens.{
  parse_request, exec_request_token, serve_request, Readers, taken,
}
use cse511_project.Metadata.Tokens.Requests.{while_served}
use cse511_project.Metadata.Reachable.{serve, Reach, start, later}
use cse511_project.Metadata.Reachable.Single.{request_is_served}
use cse511_project.Tests.Files.{entry, one_file, all_ack}
use cse511_project.Tests.Requests.{ada, bob, to_write}

created : Reach one_file
unfolding run_command text_eq exec_create
created = later start (
    serve all_ack [] (codes "10.0.0.1") (codes "create") (codes "f 2") (codes "success")
      (λ h. ground (arith, h)) refl)

abbrev ada_writes : Mdm
ada_writes = record {
  general_file_table = (codes "f", record entry { mdw_tokens = (mk 4 6, ada) ∷ [] }) ∷ [];
  gft_lock = false;
}

written : Reach ada_writes
unfolding run_command text_eq exec_request_token to_string next_token trim atoi parse_request
written = later created (
    serve all_ack [] (codes "10.0.0.1") (codes "request_token") (codes "f 4 6 w 5001") (codes "4 6")
      (λ h. (omega arith, omega arith)) refl)

-- The entry that the first request leaves: its lock is free for the second.
abbrev written_entry : FileEntry
written_entry = record entry { mdw_tokens = (mk 4 6, ada) ∷ [] }

request_is_served_example :
    (written_entry.fe_lock ≡ false)
    × (exec_request_token [] to_write ada_writes
        ≡ serve_request
            (parse_request to_write)
            []
            (taken written_entry)
            (while_served (parse_request to_write) written_entry ada_writes))
unfolding find_file text_eq parse_request next_token
request_is_served_example = request_is_served ada_writes written_entry [] to_write written refl refl

-- Two readers whose ranges are touched, and one behind them whose range is not.
abbrev three_readers : Readers
three_readers = (mk 4 5, ada) ∷ (mk 5 8, bob) ∷ (mk 7 9, ada) ∷ []
