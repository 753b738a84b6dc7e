-- ===== src/Metadata/Files/Locks.antt =====
-- What the requests about files of MetadataManager.cc do with `gft_lock`.
use cse511_project.Prelude.{ℕ, ◌≡◌, refl, ◌∙◌, true, false, none, Text, codes, if_true, if_false}
use cse511_project.Strings.{next_token}
use cse511_project.Metadata.{Mdm, find_file, responds, blocked}
use cse511_project.Metadata.Files.{
  exec_create, exec_open, exec_delete, exec_fstat, finish_delete, finish_fstat,
}

-- With `gft_lock` held, each of the four requests waits for the lock.
pub locked_out :
    (reply : ℕ → Text → Text) (arguments : Text) (s : Mdm)
    → s.gft_lock ≡ true
    → (exec_create reply arguments s ≡ blocked)
      × (exec_open reply arguments s ≡ blocked)
      × (exec_delete reply arguments s ≡ blocked)
      × (exec_fstat reply arguments s ≡ blocked)
unfolding exec_create exec_open exec_delete exec_fstat
locked_out reply arguments s held = (
  if_true s.gft_lock _ _ held,
  if_true s.gft_lock _ _ held,
  if_true s.gft_lock _ _ held,
  if_true s.gft_lock _ _ held,
)

-- With the lock free, `execFunc_delete` and `execFunc_fstat` of a file that the table does not have
-- answer "nack" and leave the lock held: whatever open or create follows them waits for the lock.
pub missing_file_locks_out :
    (reply : ℕ → Text → Text) (arguments : Text) (s : Mdm)
    → s.gft_lock ≡ false
    → find_file (next_token arguments).0 s.general_file_table ≡ none
    → (s' : Mdm) × (exec_delete reply arguments s ≡ responds (codes "nack") s')
      × (exec_fstat reply arguments s ≡ responds (codes "nack") s')
      × ((later : Text) → exec_open reply later s' ≡ blocked)
      × ((later : Text) → exec_create reply later s' ≡ blocked)
unfolding exec_delete exec_fstat finish_delete finish_fstat
missing_file_locks_out reply arguments s free missing =
    let s' : Mdm = record s { gft_lock = true } in
    (
      s',
      if_false s.gft_lock _ _ free ∙ rw missing refl,
      if_false s.gft_lock _ _ free ∙ rw missing refl,
      λ later. (locked_out reply later s' refl).1,
      λ later. (locked_out reply later s' refl).0,
    )
