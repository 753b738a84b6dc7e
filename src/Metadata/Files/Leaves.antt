-- ===== src/Metadata/Files/Leaves.antt =====
-- What the requests about files keep of the table: any property that survives the insertion of a new
-- entry and the erasure of a name.
use cse511_project.Prelude.{ℕ, Bool, true, List, Option, none, some, Text, if-either, ℤ}
use cse511_project.Strings.{next_token}
use cse511_project.Recipe.{FileRecipe}
use cse511_project.Metadata.{
  FileEntry, Mdm, find_file, insert_file, erase_file, Outcome, responds, blocked,
}
use cse511_project.Metadata.Files.{
  is_ack, Totals, new_entry, exec_create, exec_open, exec_delete, exec_fstat, finish_create,
  finish_open, finish_delete, finish_fstat, stat_response,
}

abbrev pub Table : Type 0
Table = List (Text × FileEntry)

-- The property holds of the table that a response leaves.
abbrev pub Leaves : (Table → Type 0) → Outcome → Type 0
Leaves P (responds response s) = P s.general_file_table
Leaves P _ = Unit

module _ (P : Table → Type 0)
    (ins : (n : Text) (r : FileRecipe) (t : Table) → P t → P (insert_file n (new_entry n r) t))
    (del : (n : Text) (t : Table) → P t → P (erase_file n t)) where
  finish_create-Leaves :
      (reply : ℕ → Text → Text) (name : Text) (width : ℤ) (s : Mdm)
      (end : Option (List Bool × Text))
      → P s.general_file_table
      → Leaves P (finish_create reply name width s end)
  unfolding finish_create
  finish_create-Leaves reply name width s none h = tt
  finish_create-Leaves reply name width s (some (mask, response)) h =
      if-either P (is_ack response) _ _ (ins name _ s.general_file_table h) h

  finish_open-Leaves :
      (reply : ℕ → Text → Text) (s : Mdm) (e : Option FileEntry)
      → P s.general_file_table
      → Leaves P (finish_open reply s e)
  unfolding finish_open
  finish_open-Leaves reply s none h = h
  finish_open-Leaves reply s (some e) h = h

  finish_delete-Leaves :
      (reply : ℕ → Text → Text) (name : Text) (s : Mdm) (e : Option FileEntry)
      → P s.general_file_table
      → Leaves P (finish_delete reply name s e)
  unfolding finish_delete
  finish_delete-Leaves reply name s none h = h
  finish_delete-Leaves reply name s (some e) h = del name s.general_file_table h

  stat_response-Leaves :
      (reply : ℕ → Text → Text) (s : Mdm) (t : Option Totals)
      → P s.general_file_table
      → Leaves P (stat_response reply s t)
  unfolding stat_response
  stat_response-Leaves reply s none h = h
  stat_response-Leaves reply s (some t) h = h

  finish_fstat-Leaves :
      (reply : ℕ → Text → Text) (name : Text) (s : Mdm) (e : Option FileEntry)
      → P s.general_file_table
      → Leaves P (finish_fstat reply name s e)
  unfolding finish_fstat
  finish_fstat-Leaves reply name s none h = h
  finish_fstat-Leaves reply name s (some e) h = stat_response-Leaves reply s _ h

  pub requests-Leaves :
      (reply : ℕ → Text → Text) (arguments : Text) (s : Mdm)
      → P s.general_file_table
      → Leaves P (exec_create reply arguments s)
        × Leaves P (exec_open reply arguments s)
        × Leaves P (exec_delete reply arguments s)
        × Leaves P (exec_fstat reply arguments s)
  unfolding exec_create exec_open exec_delete exec_fstat
  requests-Leaves reply arguments s h =
      let locked : Mdm = record s { gft_lock = true } in
      (
        if-either (Leaves P) s.gft_lock blocked _ tt (finish_create-Leaves reply _ _ locked _ h),
        if-either (Leaves P) s.gft_lock blocked _ tt (finish_open-Leaves reply locked _ h),
        if-either (Leaves P) s.gft_lock blocked _ tt (finish_delete-Leaves reply _ locked _ h),
        if-either (Leaves P) s.gft_lock blocked _ tt (
            finish_fstat-Leaves reply (next_token arguments).0 locked
              (find_file (next_token arguments).0 s.general_file_table) h),
      )
