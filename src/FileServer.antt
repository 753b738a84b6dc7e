-- ===== src/FileServer.antt =====
-- FileServer.cc: the handlers `execFunc_create`, `execFunc_read`, `execFunc_write`, `execFunc_delete` and
-- `execFunc_stat`, and `HandleTCPClient` and the port of `main`. The file system is a parameter. Of what
-- is printed nothing is kept. Block numbers are less than 2^21, so that byte offsets are `int`s.
pub mod Disk
pub mod Reads
pub mod Writes
pub mod Answers
use cse511_project.Prelude.{
  ℕ, zero, suc, ◌+◌, ◌-◌, ◌*◌, Bool, true, false, List, [], ◌∷◌, ◌++◌, Option, none, some, ℤ, pos,
  negsuc, Text, codes, text_eq, length, take, drop, leb, ◌==◌, if◌then◌else◌,
}
use mathlib.Core.Option
use cse511_project.Strings.{next_token, trim, to_lower, atoi, to_string, int_to_string}
use cse511_project.Metadata.Dispatch.{c_string, rcv_buf_size}
use cse511_project.Metadata.Files.{rounds_of}
use cse511_project.FileServer.Disk.{FileSystem}

-- The port of `main`'s `switch`.
unfoldable pub echo_server_port : ℤ → ℕ
echo_server_port (pos n) =
    if n == 0
    then 1111
    else if n == 1
    then 2222
    else if n == 2
    then 3333
    else if n == 3
    then 4444
    else if n == 4
    then 5555
    else 1111
echo_server_port (negsuc n) = 1111

-- Where `fseek` leaves the stream: at a place that is negative it fails, and the stream is at its start.
unfoldable pub place_of : ℤ → ℕ
place_of (pos n) = n * 1024
place_of (negsuc n) = 0

-- `fread` of one item of 1024 bytes gives the number of whole items; a 0 is written behind as many bytes
-- of the buffer.
unfoldable pub block_sent : Text → Text
unfolding c_string
block_sent bytes =
    let num_read = if leb 1024 (length bytes) then 1 else 0 in c_string (take num_read bytes)

-- The loop of `execFunc_read`, over what the file has from the place on.
unfoldable pub read_loop : ℕ → Text → Text
unfolding block_sent
read_loop zero bytes = []
read_loop (suc rounds) bytes = block_sent bytes ++ read_loop rounds (drop 1024 bytes)

-- The loop of `execFunc_write` over what is received after the first message; `none` is a full buffer,
-- behind which the 0 is written.
unfoldable pub receive_rest : List Text → Option Text
unfolding c_string
receive_rest [] = some []
receive_rest (sent ∷ more) =
    let rest = receive_rest more in
    if length sent == 0
    then some []
    else if leb rcv_buf_size (length sent)
    then none
    else Option.map (λ t. c_string sent ++ t) rest

module _ (disk : FileSystem) where
  -- What is sent, and the files after the call: with what `stat` and `creat` give.
  unfoldable pub create_answer :
      Option (ℕ × ℤ × ℤ) → Option disk.State → disk.State → Text × disk.State
  create_answer (some _) created s = (codes "nack", s)
  create_answer none (some s') s = (codes "ack", s')
  create_answer none none s = (codes "nack", s)

  unfoldable pub exec_create : Text → disk.State → Text × disk.State
  unfolding create_answer next_token trim
  exec_create arguments s =
      let file_name = trim (next_token arguments).0 in
      create_answer (disk.stat s file_name) (disk.creat s file_name) s

  unfoldable pub read_file : Option Text → Text → Text
  unfolding read_loop place_of next_token trim atoi
  read_file none arguments = []
  read_file (some bytes) arguments =
      let (block_offset, rest) = next_token arguments in
      read_loop (rounds_of (atoi (trim (next_token rest).0)))
        (drop (place_of (atoi (trim block_offset))) bytes)

  unfoldable pub exec_read : Text → disk.State → Text × disk.State
  unfolding read_file next_token trim
  exec_read arguments s =
      let (file_name, rest) = next_token arguments in
      (read_file (disk.contents s (trim file_name)) rest, s)

  -- After `fopen` with mode "w": the message is what follows the number of blocks, with what is received
  -- later.
  unfoldable pub write_file : Text → Text → List Text → disk.State → Option disk.State
  unfolding receive_rest place_of next_token trim atoi
  write_file file_name arguments later s =
      let (block_offset, rest) = next_token arguments in
      Option.map
        (λ more.
          disk.write_at s file_name (place_of (atoi (trim block_offset)))
            ((next_token rest).1 ++ more))
        (receive_rest later)

  -- With what `fopen` gives.
  unfoldable pub write_opened :
      Text → Text → List Text → Option disk.State → disk.State → Option (Text × disk.State)
  unfolding write_file
  write_opened file_name arguments later none s = some ([], s)
  write_opened file_name arguments later (some s') s =
      Option.map (λ t. ([], t)) (write_file file_name arguments later s')

  unfoldable pub exec_write : Text → List Text → disk.State → Option (Text × disk.State)
  unfolding write_opened next_token trim
  exec_write arguments later s =
      let (file_name, rest) = next_token arguments in
      write_opened (trim file_name) rest later (disk.truncate s (trim file_name)) s

  -- With what `stat` and `remove` give.
  unfoldable pub delete_answer :
      Option (ℕ × ℤ × ℤ) → Option disk.State → disk.State → Text × disk.State
  delete_answer none removed s = (codes "nack", s)
  delete_answer (some _) (some s') s = (codes "ack", s')
  delete_answer (some _) none s = (codes "nack", s)

  unfoldable pub exec_delete : Text → disk.State → Text × disk.State
  unfolding delete_answer next_token trim
  exec_delete arguments s =
      let file_name = trim (next_token arguments).0 in
      delete_answer (disk.stat s file_name) (disk.remove s file_name) s

  unfoldable pub stat_text : Option (ℕ × ℤ × ℤ) → Text
  unfolding int_to_string to_string
  stat_text none = codes "nack"
  stat_text (some (size, mtime, ctime)) =
      to_string size ++ b' ' ∷ (int_to_string mtime ++ b' ' ∷ int_to_string ctime)

  unfoldable pub exec_stat : Text → disk.State → Text × disk.State
  unfolding stat_text next_token trim
  exec_stat arguments s = (stat_text (disk.stat s (trim (next_token arguments).0)), s)

  -- The handler that the command names; another command gets no answer.
  unfoldable pub run_command : Text → Text → List Text → disk.State → Option (Text × disk.State)
  unfolding exec_create exec_read exec_write exec_delete exec_stat
  run_command command arguments later s =
      if text_eq command (codes "create")
      then some (exec_create arguments s)
      else if text_eq command (codes "read")
      then some (exec_read arguments s)
      else if text_eq command (codes "write")
      then exec_write arguments later s
      else if text_eq command (codes "delete")
      then some (exec_delete arguments s)
      else if text_eq command (codes "fstat")
      then some (exec_stat arguments s)
      else some ([], s)

  -- `sent` is what the first `recv` gives, and `later` what the next ones give. `none` is a write behind
  -- the buffer.
  unfoldable pub handle_tcp_client : Text → List Text → disk.State → Option (Text × disk.State)
  unfolding run_command c_string next_token trim
  handle_tcp_client sent later s =
      if length sent == 0
      then some ([], s)
      else if leb rcv_buf_size (length sent)
      then none
      else let (command, arguments) = next_token (c_string sent) in
        run_command (to_lower (trim command)) arguments later s
