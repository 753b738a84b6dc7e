-- ===== src/Tests/OpenFiles.antt =====
-- The open file table at concrete inputs.

use cse511_project.Client.Calls.{ClientState}
use cse511_project.Prelude.{
  ◌≡◌, refl, ℕ, [], ◌∷◌, none, some, Text, codes, arith, length-replicate, true, false, replicate,
}
use cse511_project.Interval.{mk}
use cse511_project.FileDesc.{FileDescriptor, OpenFileEntry, ofdt_open_file, blank_entry}
use cse511_project.FileDesc.Table.{IsTable, Opened, open_file-Opened}

abbrev notes : Text
notes = codes "notes"

abbrev open_notes : OpenFileEntry
open_notes = record blank_entry {
  is_open = true;
  name = notes;
  mode = codes "r";
  tokens = (mk 0 9, b'r') ∷ [];
}

-- A table whose first entry is open.
abbrev one_open : FileDescriptor
one_open = record { next_file_descriptor = 1; ofdt = open_notes ∷ replicate 255 blank_entry }

one_open-IsTable : IsTable one_open
one_open-IsTable = record {
  whole = omega (arith, length-replicate 255 blank_entry);
  next_in = omega arith;
}

open_file-Opened_example :
    (fdesc : ℕ) × (d' : FileDescriptor) × (ofdt_open_file one_open none notes (codes "w")
      ≡ some (fdesc, d'))
    × Opened one_open d' fdesc none notes (codes "w")
open_file-Opened_example =
    open_file-Opened one_open none notes (codes "w") one_open-IsTable 1 (omega arith) refl

abbrev client : ClientState
client = record { descriptors = one_open; file_desc_mutex = false }
