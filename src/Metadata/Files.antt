-- ===== src/Metadata/Files.antt =====
-- `execFunc_create`, `execFunc_open`, `execFunc_delete` and `execFunc_fstat` of MetadataManager.cc.
pub mod Create
pub mod Locks
pub mod Leaves
pub mod Distinct
pub mod Stat
use cse511_project.Prelude.{
  ℕ, zero, suc, ◌+◌, ◌%◌, ◌^◌, Bool, true, false, List, [], ◌∷◌, ◌++◌, Option, none, some, ℤ, pos,
  negsuc, ltb_ℤ, ltb_ℤ, get_elem?, set, ltb, leb, ◌==◌, Text, codes, text_eq, if◌then◌else◌,
}
use cse511_project.Strings.{next_token, trim, to_lower, atoi, to_string, int_to_string}
use cse511_project.Striping.{to_size}
use cse511_project.Recipe.{FileRecipe, num_file_servers, new_recipe, recipe_to_string}
use cse511_project.Metadata.{
  FileEntry, Mdm, find_file, insert_file, erase_file, Outcome, responds, blocked, raises, with_lock,
  unlock,
}

abbrev pub is_nack : Text → Bool
is_nack response = text_eq (to_lower response) (codes "nack")

abbrev pub is_ack : Text → Bool
is_ack response = text_eq (to_lower response) (codes "ack")

-- The rounds of a loop up to an `int`.
abbrev pub rounds_of : ℤ → ℕ
rounds_of (pos n) = n
rounds_of (negsuc n) = 0

abbrev pub new_entry : Text → FileRecipe → FileEntry
new_entry n r = record {
  file_name = n;
  file_recipe = r;
  mdw_tokens = [];
  mdr_tokens = [];
  fe_lock = false;
}

-- The sums of `execFunc_fstat`: bytes, a `size_t`, and times, `time_t`s that come from an `int`.
pub record Totals : Type 0 where
  pub total_size : ℕ
  pub last_mtime : ℤ
  pub last_ctime : ℤ

-- The three fields of a server's answer.
abbrev pub stat_fields : Text → ℤ × ℤ × ℤ
stat_fields response =
    let (size, rest) = next_token response in
    let (mtime, rest') = next_token rest in
    (atoi (trim size), atoi (trim mtime), atoi (trim (next_token rest').0))

abbrev pub add_stat : Totals → ℤ × ℤ × ℤ → Totals
add_stat t (size, mtime, ctime) = record {
  total_size = (t.total_size + to_size size) % 2 ^ 64;
  last_mtime = if ltb_ℤ t.last_mtime mtime then mtime else t.last_mtime;
  last_ctime = if ltb_ℤ t.last_ctime ctime then ctime else t.last_ctime;
}

abbrev pub no_stat : Totals
no_stat = record { total_size = 0; last_mtime = pos 0; last_ctime = pos 0 }

abbrev pub stat_string : Totals → Text
stat_string t =
    to_string t.total_size
    ++ b' ' ∷ (int_to_string t.last_mtime ++ b' ' ∷ int_to_string t.last_ctime)

module _ (reply : ℕ → Text → Text) where
  -- The loop of `execFunc_create`, `k` rounds from server `i`: the mask, and the last response.
  -- `bitset::set` raises an exception from bit 5 on.
  unfoldable pub create_loop : ℕ → ℕ → Text → List Bool → Text → Option (List Bool × Text)
  create_loop zero i filename mask response = some (mask, response)
  create_loop (suc k) i filename mask response = elim (ltb i num_file_servers) [
    | true ↦
        create_loop k (i + 1) filename (set mask i true) (reply i (codes "create " ++ filename))
    | false ↦ none
  ]

  -- What follows the loop.
  unfoldable pub finish_create : Text → ℤ → Mdm → Option (List Bool × Text) → Outcome
  unfolding insert_file
  finish_create filename width locked none = raises
  finish_create filename width locked (some (mask, response)) =
      let recipe : FileRecipe = record { stripe_width = width; stripe_mask = mask } in
      let table =
        if is_ack response
        then insert_file filename (new_entry filename recipe) locked.general_file_table
        else locked.general_file_table in
      unlock (if is_nack response then codes "failed" else codes "success")
        (record locked { general_file_table = table })

  unfoldable pub exec_create : Text → Mdm → Outcome
  unfolding finish_create create_loop next_token trim atoi
  exec_create arguments s = with_lock s λ locked.
      let (name, rest) = next_token arguments in
      let width = atoi (next_token rest).0 in
      finish_create (trim name) width locked
        (create_loop (rounds_of width) 0 (trim name) new_recipe.stripe_mask [])

  unfoldable pub finish_open : Mdm → Option FileEntry → Outcome
  unfolding recipe_to_string
  finish_open locked none = unlock [] locked
  finish_open locked (some e) = unlock (recipe_to_string e.file_recipe) locked

  unfoldable pub exec_open : Text → Mdm → Outcome
  unfolding finish_open next_token trim find_file
  exec_open arguments s = with_lock s λ locked.
      finish_open locked (find_file (trim (next_token arguments).0) locked.general_file_table)

  -- The loop of `execFunc_delete` over the bits of the mask, from server `i`: the last response.
  unfoldable pub delete_loop : ℕ → List Bool → Text → Text → Text
  delete_loop i [] filename response = response
  delete_loop i (b ∷ mask) filename response =
      delete_loop (i + 1) mask filename
        (if b then reply i (codes "delete " ++ filename) else response)

  -- A missing file returns with the lock held.
  unfoldable pub finish_delete : Text → Mdm → Option FileEntry → Outcome
  unfolding delete_loop erase_file
  finish_delete filename locked none = responds (codes "nack") locked
  finish_delete filename locked (some e) =
      unlock
        (if is_nack (delete_loop 0 e.file_recipe.stripe_mask filename [])
          then codes "failed"
          else codes "success")
        (record locked { general_file_table = erase_file filename locked.general_file_table })

  unfoldable pub exec_delete : Text → Mdm → Outcome
  unfolding finish_delete next_token find_file
  exec_delete arguments s = with_lock s λ locked.
      let filename = (next_token arguments).0 in
      finish_delete filename locked (find_file filename locked.general_file_table)

  -- The loop of `execFunc_fstat` over the bits of the mask, from server `i`; `none` is the return of
  -- "nack".
  unfoldable pub stat_loop : ℕ → List Bool → Text → Totals → Option Totals
  stat_loop i [] filename t = some t
  stat_loop i (b ∷ mask) filename t =
      let response = reply i (codes "fstat " ++ filename) in
      let asked = stat_loop (i + 1) mask filename (add_stat t (stat_fields response)) in
      let passed = stat_loop (i + 1) mask filename t in
      if b then (if is_nack response then none else asked) else passed

  unfoldable pub stat_response : Mdm → Option Totals → Outcome
  unfolding to_string int_to_string
  stat_response locked none = unlock (codes "nack") locked
  stat_response locked (some t) = unlock (stat_string t) locked

  -- Again a missing file returns with the lock held.
  unfoldable pub finish_fstat : Text → Mdm → Option FileEntry → Outcome
  unfolding stat_loop stat_response
  finish_fstat filename locked none = responds (codes "nack") locked
  finish_fstat filename locked (some e) =
      stat_response locked (stat_loop 0 e.file_recipe.stripe_mask filename no_stat)

  unfoldable pub exec_fstat : Text → Mdm → Outcome
  unfolding finish_fstat next_token find_file trim atoi
  exec_fstat arguments s = with_lock s λ locked.
      let filename = (next_token arguments).0 in
      finish_fstat filename locked (find_file filename locked.general_file_table)
