-- ===== src/Tests/Servers.antt =====
-- A file server with its files in memory, at concrete inputs.
use cse511_project.Prelude.{
  ◌≡◌, ◌<◌, refl, ℕ, zero, suc, List, Text, All, All-append, replicate, ◌++◌, [], ◌∷◌, some, arith,
  codes, text_eq,
}
use cse511_project.Strings.{to_string}
use cse511_project.Metadata.Dispatch.Handled.{NotZero}
use cse511_project.FileServer.{exec_read, exec_write, handle_tcp_client}
use cse511_project.FileServer.Disk.Memory.{
  Files, memory_disk, memory_disk-IsLawful, lookup, without,
}
use cse511_project.FileServer.Reads.{read_arguments}
use cse511_project.FileServer.Writes.{Arrives, joined, exec_read-exec_write, first_byte}
use cse511_project.FileServer.Answers.{create_then_delete}

abbrev letters : Files
letters = (codes "f", codes "abcdef") ∷ (codes "g", codes "xyz") ∷ []

abbrev cut_letters : Files
cut_letters = (codes "f", []) ∷ letters

-- What one `recv` gives of a block of letters.
abbrev row : Text
row = replicate 63 b'x'

row-Arrives : Arrives row
row-Arrives = (omega arith, omega arith, go 63)
  where
    go : (n : ℕ) → All NotZero (replicate n b'x')
    go zero = tt
    go (suc n) = (refl, go n)

abbrev rows : List Text
rows = replicate 17 row

rows-Arrives : All Arrives rows
rows-Arrives = go 17
  where
    go : (n : ℕ) → All Arrives (replicate n row)
    go zero = tt
    go (suc n) = (row-Arrives, go n)

joined-rows : All NotZero (joined rows)
joined-rows = go 17
  where
    go : (n : ℕ) → All NotZero (joined (replicate n row))
    go zero = tt
    go (suc n) = All-append NotZero row (joined (replicate n row)) row-Arrives.2 (go n)

-- A block of 1072 bytes, of which a read gives one.
exec_read-exec_write_example :
    (t : Files) × (exec_write memory_disk (codes "f 2 1 x") rows letters ≡ some ([], t))
    × (exec_read memory_disk (read_arguments memory_disk (codes "f") 2 1) t
        ≡ (first_byte (codes "x" ++ joined rows), t))
    × ((j : ℕ)
        → j < 2
        → exec_read memory_disk (read_arguments memory_disk (codes "f") j 1) t ≡ ([], t))
unfolding to_string
exec_read-exec_write_example =
    exec_read-exec_write memory_disk memory_disk-IsLawful letters cut_letters (codes "f")
      (codes "x") rows 2 (refl, tt) (omega arith) rows-Arrives (omega arith) refl
      (refl, joined-rows)

first_byte-rows : first_byte (codes "x" ++ joined rows) ≡ codes "x"
unfolding first_byte
first_byte-rows = refl

create_then_delete_example :
    (handle_tcp_client memory_disk (codes "create n") [] letters
      ≡ some (codes "ack", (codes "n", []) ∷ letters))
    × (handle_tcp_client memory_disk (codes "create n") [] ((codes "n", []) ∷ letters)
        ≡ some (codes "nack", (codes "n", []) ∷ letters))
    × (handle_tcp_client memory_disk (codes "delete n") [] ((codes "n", []) ∷ letters)
        ≡ some (codes "ack", letters))
    × (handle_tcp_client memory_disk (codes "delete n") [] letters ≡ some (codes "nack", letters))
    × (handle_tcp_client memory_disk (codes "fstat n") [] letters ≡ some (codes "nack", letters))
unfolding lookup without text_eq
create_then_delete_example =
    create_then_delete memory_disk (codes "n") (refl, tt) (refl, tt) (omega arith)
      memory_disk-IsLawful letters ((codes "n", []) ∷ letters) letters refl refl refl
