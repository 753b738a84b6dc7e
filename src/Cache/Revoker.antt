-- ===== src/Cache/Revoker.antt =====
-- `ClientCache::HandleRevoker` of ClientCache.cc: how a client answers the metadata manager that takes
-- tokens away. The flush that follows stands in Client.Flush. RCVBUFSIZE is 32 here.
pub mod Answers
use mathlib.Core.Option
use cse511_project.Prelude.{
  ℕ, Bool, List, [], ◌∷◌, Option, none, some, Text, codes, text_eq, length, leb, ◌==◌,
  if◌then◌else◌,
}
use cse511_project.Strings.{next_token, trim, to_lower, atoi}
use cse511_project.FileDesc.{FileDescriptor, revoke_permission}
use cse511_project.Metadata.Dispatch.{c_string}

-- What is sent back, if anything, and the table of open files.
abbrev pub Answer : Type 0
Answer = Option Text × FileDescriptor

abbrev pub answer_with : Text × FileDescriptor → Answer
answer_with (response, d) = (some response, d)

-- The message once it is a string. `none` is a loop of `removePermission` that runs out of fuel.
unfoldable pub revoke_command : ℕ → Text → FileDescriptor → Option Answer
unfolding next_token trim atoi revoke_permission
revoke_command fuel message d =
    let (command, a) = next_token message in
    let (file_name, b) = next_token a in
    let (start, c) = next_token b in
    let answer =
      revoke_permission fuel d file_name (atoi (trim start)) (atoi (trim (next_token c).0)) in
    if text_eq (to_lower command) (codes "revoke")
    then Option.map answer_with answer
    else some (none, d)

-- `none` is also the write behind the buffer, which a message that fills it causes.
unfoldable pub handle_revoker : ℕ → Text → FileDescriptor → Option Answer
unfolding revoke_command c_string
handle_revoker fuel sent d =
    let answer = revoke_command fuel (c_string sent) d in
    if length sent == 0 then some (none, d) else if leb 32 (length sent) then none else answer
