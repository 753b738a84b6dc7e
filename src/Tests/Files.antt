-- ===== src/Tests/Files.antt =====
-- Requests about files to the metadata manager at concrete inputs.
use cse511_project.Prelude.{
  ◌≡◌, refl, ℕ, ◌==◌, ◌+◌, ◌-◌, ◌<◌, [], ◌∷◌, ◌++◌, arith, Text, text_eq, codes, false,
  if◌then◌else◌,
}
use cse511_project.Strings.{to_string}
use cse511_project.Recipe.{recipe_to_string}
use cse511_project.Metadata.{FileEntry, Mdm, find_file, responds, blocked}
use cse511_project.Metadata.Files.{exec_create, exec_open, exec_delete, exec_fstat}
use cse511_project.Metadata.Files.Create.{create_arguments, recipe_for, open-create}
use cse511_project.Metadata.Files.Locks.{missing_file_locks_out}
use cse511_project.Metadata.Files.Distinct.{AreDistinct, open-delete}
use cse511_project.Metadata.Files.Stat.{
  servers_of, Share, share_text, Tells, sum, maximum, exec_fstat_sums,
}

abbrev pub entry : FileEntry
entry = record {
  file_name = codes "f";
  file_recipe = recipe_for 2;
  mdw_tokens = [];
  mdr_tokens = [];
  fe_lock = false;
}

abbrev no_files : Mdm
no_files = record { general_file_table = []; gft_lock = false }

abbrev pub one_file : Mdm
one_file = record { general_file_table = (codes "f", entry) ∷ []; gft_lock = false }

abbrev pub all_ack : ℕ → Text → Text
all_ack server command = codes "ack"

open-create_example :
    (s' : Mdm) × (exec_create all_ack (create_arguments (codes "f") 2) no_files
      ≡ responds (codes "success") s')
    × (exec_open all_ack (codes "f" ++ b' ' ∷ codes "r") s'
        ≡ responds (recipe_to_string (recipe_for 2)) s')
unfolding find_file text_eq
open-create_example =
    open-create all_ack (codes "f") 2 no_files (codes "r") (refl, tt) (omega arith) (omega arith)
      refl refl refl

missing_file_locks_out_example :
    (s' : Mdm) × (exec_delete all_ack (codes "f") no_files ≡ responds (codes "nack") s')
    × (exec_fstat all_ack (codes "f") no_files ≡ responds (codes "nack") s')
    × ((later : Text) → exec_open all_ack later s' ≡ blocked)
    × ((later : Text) → exec_create all_ack later s' ≡ blocked)
unfolding find_file
missing_file_locks_out_example = missing_file_locks_out all_ack (codes "f") no_files refl refl

abbrev second_refuses : ℕ → Text → Text
second_refuses i command = if i == 1 then codes "nack" else codes "ack"

open-delete_example :
    (s' : Mdm) × (exec_delete second_refuses (codes "f") one_file ≡ responds (codes "failed") s')
    × (exec_open second_refuses (codes "f" ++ b' ' ∷ codes "r") s' ≡ responds [] s')
unfolding AreDistinct find_file text_eq servers_of
open-delete_example =
    open-delete second_refuses (codes "f") (codes "r") one_file entry (refl, tt) refl (refl, tt)
      refl

-- Two servers with different shares.
abbrev shares : ℕ → Share
shares i = record { size = 100 + i; mtime = 7 - i; ctime = 5 + i }

abbrev stats : ℕ → Text → Text
stats i command = share_text (shares i)

shares-Tells : (i : ℕ) → i < 2 → Tells stats (codes "f") shares i
shares-Tells i h = (refl, (omega (arith, h), omega arith, omega (arith, h)))

exec_fstat_sums_example :
    exec_fstat stats (codes "f") one_file ≡ responds (codes "201 7 6") one_file
unfolding find_file text_eq servers_of sum maximum to_string
exec_fstat_sums_example =
    exec_fstat_sums stats (codes "f") shares one_file entry (refl, tt) refl refl
      (shares-Tells 0 (omega arith), (shares-Tells 1 (omega arith), tt))
