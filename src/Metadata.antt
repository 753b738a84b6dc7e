-- ===== src/Metadata.antt =====
-- MetadataManager.cc with mt_data_types.hh: the table of files, the file servers behind it, and the
-- tokens of readers and writers. Each request runs while its thread holds `gft_lock`, so a request is
-- a function from the table to the table. What other programs answer is an argument: the reply of
-- file server `i` to a command is `reply i command` ("nack" where the connection fails).
pub mod Files
pub mod Tokens
pub mod Dispatch
pub mod Reachable
use cse511_project.Prelude.{
  Bool, true, false, List, [], ◌∷◌, Option, none, some, ℕ, ℤ, Text, text_eq, if◌then◌else◌,
}
use cse511_project.Interval.{Interval}
use cse511_project.Recipe.{FileRecipe}
use cse511_project.TokenMap.{TokenMap}

-- IP address and port of the revoker of a client.
abbrev pub Holder : Type 0
Holder = Text × ℤ

-- `struct fileEntry`. `fe_lock` tells whether the lock is held.
pub record FileEntry : Type 0 where
  pub file_name : Text
  pub file_recipe : FileRecipe
  pub mdw_tokens : TokenMap Holder
  pub mdr_tokens : List (Interval × Holder)
  pub fe_lock : Bool

-- `general_file_table`, a `map<string, fileEntry>`, and whether `gft_lock` is held.
pub record Mdm : Type 0 where
  pub general_file_table : List (Text × FileEntry)
  pub gft_lock : Bool

unfoldable pub find_file : Text → List (Text × FileEntry) → Option FileEntry
find_file n [] = none
find_file n ((k, e) ∷ t) = if text_eq k n then some e else find_file n t

-- `insert`: nothing happens where the name is present.
unfoldable pub insert_file : Text → FileEntry → List (Text × FileEntry) → List (Text × FileEntry)
insert_file n e [] = (n, e) ∷ []
insert_file n e ((k, x) ∷ t) = if text_eq k n then (k, x) ∷ t else (k, x) ∷ insert_file n e t

unfoldable pub erase_file : Text → List (Text × FileEntry) → List (Text × FileEntry)
erase_file n [] = []
erase_file n ((k, x) ∷ t) = if text_eq k n then t else (k, x) ∷ erase_file n t

-- A change of the entry through the reference that `find` gives.
unfoldable pub update_file : Text → FileEntry → List (Text × FileEntry) → List (Text × FileEntry)
update_file n e [] = []
update_file n e ((k, x) ∷ t) = if text_eq k n then (k, e) ∷ t else (k, x) ∷ update_file n e t

-- How a request ends: with a response; waiting for a lock that is not given back; waiting for an
-- answer that does not come; with an exception that ends the program; or with an access outside a
-- vector.
pub data Outcome : Type 0 where
  responds : Text → Mdm → Outcome
  blocked waits raises faults : Outcome

-- `pthread_mutex_lock(&gft_lock)`.
abbrev pub with_lock : Mdm → (Mdm → Outcome) → Outcome
with_lock s body = if s.gft_lock then blocked else body (record s { gft_lock = true })

-- `pthread_mutex_unlock(&gft_lock); return response`.
abbrev pub unlock : Text → Mdm → Outcome
unlock response s = responds response (record s { gft_lock = false })
