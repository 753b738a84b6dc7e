-- ===== src/Tests/Requests.antt =====
-- Requests to the metadata manager at concrete inputs.
use cse511_project.Prelude.{
  ◌≡◌, refl, ℕ, List, [], ◌∷◌, ◌++◌, some, arith, Text, text_eq, codes, pos, false, inr,
  if◌then◌else◌,
}
use cse511_project.Interval.{mk, is_equal, subtract_interval}
use cse511_project.Interval.Laws.{has}
use cse511_project.TokenMap.{TokenMap, find}
use cse511_project.TokenMap.Order.{IsMap}
use cse511_project.TokenMap.Blocks.{token_at, hits}
use cse511_project.TokenMap.Cut.{Without}
use cse511_project.Strings.{next_token, trim, atoi}
use cse511_project.Metadata.{Holder, FileEntry, Mdm, find_file, responds, waits, faults}
use cse511_project.Metadata.Files.Create.{recipe_for}
use cse511_project.Metadata.Tokens.{Readers, ends_string, parse_request, exec_request_token}
use cse511_project.Metadata.Tokens.Requests.{
  Ready, with_entry, read_request_granted, write_request_granted, request_refused,
  write_request_faults,
}

abbrev pub ada : Holder
ada = (codes "10.0.0.1", pos 5001)

abbrev pub bob : Holder
bob = (codes "10.0.0.2", pos 5002)

abbrev pub entry_with : TokenMap Holder → Readers → FileEntry
entry_with writers readers = record {
  file_name = codes "f";
  file_recipe = recipe_for 2;
  mdw_tokens = writers;
  mdr_tokens = readers;
  fe_lock = false;
}

abbrev pub table_with : FileEntry → Mdm
table_with e = record { general_file_table = (codes "f", e) ∷ []; gft_lock = false }

abbrev pub bob_writes : FileEntry
bob_writes = entry_with ((mk 0 9, bob) ∷ []) []

abbrev bob_reads : FileEntry
bob_reads = entry_with [] ((mk 4 6, bob) ∷ [])

abbrev pub to_read : Text
to_read = codes "f 4 6 r 5001 10.0.0.1"

abbrev pub to_write : Text
to_write = codes "f 4 6 w 5001 10.0.0.1"

abbrev granted_once : List Text
granted_once = codes "4 6" ∷ []

abbrev refused_once : List Text
refused_once = codes "nack" ∷ []

pub to_read-Ready : Ready (parse_request to_read) (table_with bob_writes) bob_writes
unfolding parse_request next_token trim atoi find_file text_eq
to_read-Ready = record {
  free = refl;
  found = refl;
  unlocked = refl;
  ordered = (omega arith, (omega arith, omega arith), tt);
  range = (omega arith, omega arith);
}

pub to_write-Ready : Ready (parse_request to_write) (table_with bob_writes) bob_writes
unfolding parse_request next_token trim atoi find_file text_eq
to_write-Ready = record {
  free = refl;
  found = refl;
  unlocked = refl;
  ordered = (omega arith, (omega arith, omega arith), tt);
  range = (omega arith, omega arith);
}

to_write-Ready_reader : Ready (parse_request to_write) (table_with bob_reads) bob_reads
unfolding parse_request next_token trim atoi find_file text_eq
to_write-Ready_reader = record {
  free = refl;
  found = refl;
  unlocked = refl;
  ordered = tt;
  range = (omega arith, omega arith);
}

read_request_granted_example :
    (writers : TokenMap Holder) × (exec_request_token granted_once to_read (table_with bob_writes)
      ≡ responds (ends_string (parse_request to_read).interval) (
          with_entry
            (parse_request to_read)
            (record bob_writes {
              mdw_tokens = writers;
              mdr_tokens =
                  [] ++ ((parse_request to_read).interval, (parse_request to_read).client) ∷ [];
            })
            (table_with bob_writes)))
    × Without (parse_request to_read).interval bob_writes.mdw_tokens writers
unfolding parse_request next_token trim atoi text_eq hits
read_request_granted_example =
    read_request_granted to_read (table_with bob_writes) bob_writes to_read-Ready granted_once refl
      (refl, tt) (omega arith)

write_request_granted_example :
    (writers : TokenMap Holder) × (exec_request_token granted_once to_write (table_with bob_writes)
      ≡ responds (ends_string (parse_request to_write).interval) (
          with_entry
            (parse_request to_write)
            (record bob_writes { mdw_tokens = writers })
            (table_with bob_writes)))
    × IsMap writers
    × ((b : ℕ)
        → token_at b writers ≡ (
            if has (parse_request to_write).interval b
            then some (parse_request to_write).client
            else token_at b bob_writes.mdw_tokens))
unfolding parse_request next_token trim atoi text_eq hits
write_request_granted_example =
    write_request_granted to_write (table_with bob_writes) bob_writes to_write-Ready granted_once
      refl (refl, tt) (omega arith) tt

request_refused_example : exec_request_token refused_once to_write (table_with bob_writes) ≡ waits
unfolding parse_request next_token trim atoi text_eq find
request_refused_example =
    request_refused to_write (table_with bob_writes) bob_writes to_write-Ready refused_once
      (mk 0 9, bob) (inr refl) refl (refl, tt)

write_request_faults_example :
    exec_request_token granted_once to_write (table_with bob_reads) ≡ faults
unfolding parse_request next_token trim atoi text_eq find is_equal subtract_interval
write_request_faults_example =
    write_request_faults to_write (table_with bob_reads) bob_reads to_write-Ready_reader []
      (mk 4 6, bob) (codes "4 6") [] refl refl refl tt (refl, refl) refl
