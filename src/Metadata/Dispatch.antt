-- ===== src/Metadata/Dispatch.antt =====
-- `HandleTCPClient` of MetadataManager.cc: one received message, and the handler that its first word
-- names. RCVBUFSIZE is 64.
pub mod Handled
use cse511_project.Prelude.{
  ℕ, Bool, true, false, List, [], ◌∷◌, ◌++◌, Text, codes, text_eq, length, take, leb, ◌==◌, ◌||◌,
  if◌then◌else◌,
}
use cse511_project.Strings.{next_token, to_lower}
use cse511_project.Metadata.{Mdm, Outcome, responds, faults}
use cse511_project.Metadata.Files.{exec_create, exec_open, exec_delete, exec_fstat}
use cse511_project.Metadata.Tokens.{exec_request_token}

abbrev pub rcv_buf_size : ℕ
rcv_buf_size = 64

-- The characters before the first 0: what a C string shows of a buffer.
unfoldable pub c_string : Text → Text
c_string [] = []
c_string (c ∷ s) = let rest = c_string s in if c == 0 then [] else c ∷ rest

-- Another command gets the empty response.
unfoldable pub run_command : (ℕ → Text → Text) → List Text → Text → Text → Text → Mdm → Outcome
unfolding exec_create exec_open exec_delete exec_fstat exec_request_token
run_command reply replies address command arguments s =
    if text_eq command (codes "create")
    then exec_create reply arguments s
    else if text_eq command (codes "open")
    then exec_open reply arguments s
    else if text_eq command (codes "delete")
    then exec_delete reply arguments s
    else if text_eq command (codes "fstat")
    then exec_fstat reply arguments s
    else if text_eq command (codes "request_token")
    then exec_request_token replies (arguments ++ b' ' ∷ address) s
    else responds [] s

-- `sent` is what the client has sent when `recv` returns. A full buffer leaves no room for the 0 that
-- is written behind the message; an empty one is the end of the transmission.
unfoldable pub handle_client : (ℕ → Text → Text) → List Text → Text → Text → Mdm → Outcome
unfolding run_command c_string next_token
handle_client reply replies address sent s =
    if length sent == 0
    then responds [] s
    else if leb rcv_buf_size (length sent)
    then faults
    else let (command, arguments) = next_token (c_string sent) in
      run_command reply replies address (to_lower command) arguments s
