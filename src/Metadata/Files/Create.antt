-- ===== src/Metadata/Files/Create.antt =====
-- Creating a file, and opening it afterwards.
use cse511_project.Prelude.{
  ℕ, zero, suc, ◌-◌, ◌≤◌, ◌<◌, ◌≡◌, refl, ◌∙◌, sym, Bool, true, false, List, [], ◌∷◌, ◌++◌, none,
  some, pos, Text, codes, text_eq, text_eq→≡, text_eq_refl, All, arith, if_false, if◌then◌else◌,
}
use cse511_project.Strings.{to_lower, to_string}
use cse511_project.Strings.Decimal.{
  NotSpace, trim_solid, to_string-NotSpace, next_token-append, next_token_last, atoi-to_string_int,
}
use cse511_project.Recipe.{FileRecipe, recipe_to_string}
use cse511_project.Metadata.{FileEntry, Mdm, find_file, insert_file, responds}
use cse511_project.Metadata.Files.{
  is_ack, is_nack, new_entry, create_loop, exec_create, finish_create, finish_open, exec_open,
}

-- The mask of the first `w` servers.
abbrev pub first_servers : ℕ → List Bool
first_servers zero = false ∷ false ∷ false ∷ false ∷ false ∷ []
first_servers (suc zero) = true ∷ false ∷ false ∷ false ∷ false ∷ []
first_servers (suc (suc zero)) = true ∷ true ∷ false ∷ false ∷ false ∷ []
first_servers (suc (suc (suc zero))) = true ∷ true ∷ true ∷ false ∷ false ∷ []
first_servers (suc (suc (suc (suc zero)))) = true ∷ true ∷ true ∷ true ∷ false ∷ []
first_servers _ = true ∷ true ∷ true ∷ true ∷ true ∷ []

abbrev pub recipe_for : ℕ → FileRecipe
recipe_for w = record { stripe_width = pos w; stripe_mask = first_servers w }

create_loop_first :
    (reply : ℕ → Text → Text) (w : ℕ) (name : Text)
    → 0 < w
    → w ≤ 5
    → create_loop reply w 0 name (first_servers 0) []
      ≡ some (first_servers w, reply (w - 1) (codes "create " ++ name))
unfolding create_loop
create_loop_first reply zero name h g = absurd (omega arith)
create_loop_first reply (suc zero) name h g = refl
create_loop_first reply (suc (suc zero)) name h g = refl
create_loop_first reply (suc (suc (suc zero))) name h g = refl
create_loop_first reply (suc (suc (suc (suc zero)))) name h g = refl
create_loop_first reply (suc (suc (suc (suc (suc zero))))) name h g = refl
create_loop_first reply (suc (suc (suc (suc (suc (suc w)))))) name h g = absurd (omega arith)

pub find_file-insert_file :
    (n : Text) (e : FileEntry) (t : List (Text × FileEntry))
    → find_file n t ≡ none
    → find_file n (insert_file n e t) ≡ some e
unfolding find_file insert_file
find_file-insert_file n e [] h = ground (arith, text_eq_refl n)
find_file-insert_file n e ((k, x) ∷ t) h = ground (arith, find_file-insert_file n e t)

-- The request of `pfs_create`, without its command word.
abbrev pub create_arguments : Text → ℕ → Text
create_arguments name w = name ++ b' ' ∷ to_string w

-- The table after a creation whose last answer is `response`.
abbrev pub table_after : Text → Text → ℕ → List (Text × FileEntry) → List (Text × FileEntry)
table_after response name w t =
    if is_ack response then insert_file name (new_entry name (recipe_for w)) t else t

module _ (reply : ℕ → Text → Text) (name : Text) (w : ℕ) (s : Mdm) (solid : All NotSpace name)
    (h : 0 < w) (g : w ≤ 5) (free : s.gft_lock ≡ false) where
  answer : Text
  answer = reply (w - 1) (codes "create " ++ name)

  after_create : Mdm
  after_create = record {
    general_file_table = table_after answer name w s.general_file_table;
    gft_lock = false;
  }

  create_run :
      exec_create reply (create_arguments name w) s
      ≡ responds (if is_nack answer then codes "failed" else codes "success") after_create
  unfolding exec_create finish_create answer after_create
  create_run =
      if_false s.gft_lock _ _ free
      ∙ rw (next_token-append name (to_string w) solid) (
          rw (next_token_last (to_string w) (to_string-NotSpace w)) (
            rw (trim_solid name solid) (
              rw (atoi-to_string_int w (omega arith))
                (rw (create_loop_first reply w name h g) refl))))

open_run :
    (reply : ℕ → Text → Text) (name mode : Text) (s : Mdm) (e : FileEntry)
    → All NotSpace name
    → s.gft_lock ≡ false
    → find_file name s.general_file_table ≡ some e
    → exec_open reply (name ++ b' ' ∷ mode) s
      ≡ responds (recipe_to_string e.file_recipe) (record s { gft_lock = false })
unfolding exec_open finish_open
open_run reply name mode s e solid free found =
    if_false s.gft_lock _ _ free
    ∙ rw (next_token-append name mode solid) (rw (trim_solid name solid) (rw found refl))

ack_not_nack : (response : Text) → is_ack response ≡ true → is_nack response ≡ false
unfolding text_eq
ack_not_nack response h = rw (text_eq→≡ (to_lower response) (codes "ack") h) refl

-- For a file name without white space that the table does not have, a width from 1 to 5, the lock
-- free, and "ack" from the last server that is asked, `execFunc_create` answers "success" and frees
-- the lock, and a later `execFunc_open` answers the recipe with this width and the first `w` servers.
pub open-create :
    (reply : ℕ → Text → Text) (name : Text) (w : ℕ) (s : Mdm) (mode : Text)
    → All NotSpace name
    → 0 < w
    → w ≤ 5
    → s.gft_lock ≡ false
    → find_file name s.general_file_table ≡ none
    → is_ack (reply (w - 1) (codes "create " ++ name)) ≡ true
    → (s' : Mdm) × (exec_create reply (create_arguments name w) s ≡ responds (codes "success") s')
      × (exec_open reply (name ++ b' ' ∷ mode) s' ≡ responds (recipe_to_string (recipe_for w)) s')
unfolding answer after_create
open-create reply name w s mode solid h g free new ack =
    let response = answer reply name w s solid h g free in
    let s' = after_create reply name w s solid h g free in
    let fine : is_nack response ≡ false = ack_not_nack response ack in
    let entry = new_entry name (recipe_for w) in
    let stored : find_file name s'.general_file_table ≡ some entry =
      rw ack (find_file-insert_file name entry s.general_file_table new) in
    (
      s',
      create_run reply name w s solid h g free ∙ rw fine refl,
      open_run reply name mode s' entry solid refl stored,
    )

-- For such a name and width, what `execFunc_create` answers and does depends on the answer of the last
-- server only: the answers of the servers before it are dropped, "nack" too.
pub create_last_answer :
    (reply reply' : ℕ → Text → Text) (name : Text) (w : ℕ) (s : Mdm)
    → All NotSpace name
    → 0 < w
    → w ≤ 5
    → s.gft_lock ≡ false
    → reply (w - 1) (codes "create " ++ name) ≡ reply' (w - 1) (codes "create " ++ name)
    → exec_create reply (create_arguments name w) s ≡ exec_create reply' (create_arguments name w) s
unfolding answer after_create
create_last_answer reply reply' name w s solid h g free same =
    create_run reply name w s solid h g free
    ∙ rw same (sym (create_run reply' name w s solid h g free))
