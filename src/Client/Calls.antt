-- ===== src/Client/Calls.antt =====
-- The calls of pfs.cc that talk to the metadata manager or to the table of open files, and the byte
-- ranges of `find_buf_offset`. What the metadata manager answers is an argument; `none` is the end of
-- the program where there is no answer.
pub mod Ends
pub mod Messages
use cse511_project.Prelude.{
  ℕ, ◌+◌, ◌-◌, ◌*◌, ◌%◌, Bool, true, false, List, [], ◌∷◌, ◌++◌, Option, none, some, ℤ, Text, codes,
  text_eq, ◌==◌, if◌then◌else◌,
}
use cse511_project.Strings.{next_token, trim, to_lower, atoi, int_to_string}
use cse511_project.Recipe.{FileRecipe, recipe_of_response}
use cse511_project.FileDesc.{FileDescriptor, ofdt_open_file, ofdt_close_file, ofdt_fetch_name}
use cse511_project.Striping.{to_size}

-- The table of open files, and whether `file_desc_mutex` is held.
pub record ClientState : Type 0 where
  pub descriptors : FileDescriptor
  pub file_desc_mutex : Bool

-- How a call ends: with a result; waiting for the mutex; with the end of the program; with an exception;
-- or with an access outside the table.
pub data Call (A : Type 0) : Type 0 where
  returns : A → ClientState → Call A
  hangs exits throws out_of_table : Call A

-- The message of `requestToken`; the mode is a character.
unfoldable pub token_message : Text → ℤ → ℤ → ℕ → ℤ → Text
unfolding int_to_string
token_message file_name start end mode revoker_port =
    codes "request_token "
    ++ (file_name
        ++ b' '
          ∷ (int_to_string start
              ++ b' ' ∷ (int_to_string end ++ b' ' ∷ (mode ∷ b' ' ∷ int_to_string revoker_port))))

-- `buf_start` and `buf_end` of the bytes of block `i`. Block numbers and offsets are not negative.
unfoldable pub find_buf_offset : ℕ → ℕ → ℕ → ℕ → ℕ → ℕ × ℕ
find_buf_offset i offset nbyte block_offset end_block_offset =
    let buf_end = if i == end_block_offset then (offset + nbyte - 1) % 1024 else 1024 - 1 in
    let buf_start = if i == block_offset then offset % 1024 else 0 in (buf_start, buf_end)

abbrev pub is_success : Text → ℕ
is_success response = if text_eq (to_lower response) (codes "success") then 1 else 0

module _ (send : Text → Option Text) where
  unfoldable pub pfs_create : Text → ℤ → ClientState → Call ℕ
  unfolding int_to_string
  pfs_create file_name stripe_width s =
      elim (send (codes "create " ++ file_name ++ codes " " ++ int_to_string stripe_width)) [
        | none ↦ exits
        | some response ↦ returns (is_success response) s
      ]

  -- The end of `pfs_open`, with the recipe.
  unfoldable pub open_descriptor : Text → ℕ → Option FileRecipe → ClientState → Call ℕ
  unfolding ofdt_open_file
  open_descriptor file_name mode none s = throws
  open_descriptor file_name mode (some recipe) s =
      if s.file_desc_mutex
      then hangs
      else elim (ofdt_open_file s.descriptors (some recipe) file_name (mode ∷ [])) [
        | none ↦ out_of_table
        | some (fdes, d) ↦ returns fdes (record s { descriptors = d })
      ]

  unfoldable pub pfs_open : Text → ℕ → ClientState → Call ℕ
  unfolding open_descriptor recipe_of_response
  pfs_open file_name mode s = elim (send (codes "open " ++ file_name ++ codes " " ++ (mode ∷ []))) [
    | none ↦ exits
    | some response ↦ open_descriptor file_name mode (recipe_of_response response) s
  ]

  unfoldable pub pfs_delete : Text → ClientState → Call ℕ
  pfs_delete file_name s = elim (send (codes "delete " ++ file_name)) [
    | none ↦ exits
    | some response ↦ returns (is_success response) s
  ]

  -- `none` in place of the structure is the result 0; its fields are size, mtime and ctime.
  unfoldable pub stat_result : Text → Option (ℕ × ℤ × ℤ)
  unfolding next_token trim atoi
  stat_result response =
      let (size, rest) = next_token response in
      let (mtime, rest') = next_token rest in
      if text_eq (to_lower response) (codes "nack")
      then none
      else some (to_size (atoi (trim size)), atoi (trim mtime), atoi (trim (next_token rest').0))

  unfoldable pub pfs_fstat : ℕ → ClientState → Call (Option (ℕ × ℤ × ℤ))
  unfolding ofdt_fetch_name stat_result
  pfs_fstat filedes s =
      if s.file_desc_mutex then hangs else elim (ofdt_fetch_name s.descriptors filedes) [
        | none ↦ out_of_table
        | some file_name ↦ elim (send (codes "fstat " ++ file_name)) [
          | none ↦ exits
          | some response ↦ returns (stat_result response) s
        ]
      ]

-- The mutex is not given back: the `return` stands before the `unlock`.
unfoldable pub pfs_close : ℕ → ClientState → Call ℕ
unfolding ofdt_close_file
pfs_close filedes s =
    if s.file_desc_mutex then hangs else elim (ofdt_close_file s.descriptors filedes) [
      | none ↦ out_of_table
      | some (result, d) ↦ returns result (record { descriptors = d; file_desc_mutex = true })
    ]
