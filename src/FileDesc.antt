-- ===== src/FileDesc.antt =====
-- FileDesc.cc and FileDesc.hh: the table of the open files of a client. A descriptor is an index of
-- `OFDT`; `none` stands for an access outside the array, or for a loop that ran out of fuel.
pub mod Permission
pub mod Table
pub mod Revoke
pub mod Held
use cse511_project.Prelude.{
  ℕ, zero, suc, ◌+◌, ◌%◌, ◌-◌, Bool, true, false, List, [], ◌∷◌, ◌++◌, Option, none, some, length,
  get_elem?, set, replicate, ℤ, pos, negsuc, to_unsigned, Text, codes, text_eq, if◌then◌else◌,
}
use cse511_project.Strings.{to_string, int_to_string}
use cse511_project.Recipe.{FileRecipe}
use cse511_project.Interval.{u32_mod}
use cse511_project.FileDesc.Permission.{Tokens, remove_permission}

abbrev pub max_num_files : ℕ
max_num_files = 256

-- `OpenFile_Entry`. The recipe is behind a pointer, which is null at first.
pub record OpenFileEntry : Type 0 where
  pub desc : ℤ
  pub file_recipe : Option FileRecipe
  pub is_open : Bool
  pub name : Text
  pub mode : Text
  pub tokens : Tokens

pub record FileDescriptor : Type 0 where
  pub next_file_descriptor : ℕ
  pub ofdt : List OpenFileEntry

-- The static variables at the start of the program.
abbrev pub blank_entry : OpenFileEntry
blank_entry = record {
  desc = pos 0;
  file_recipe = none;
  is_open = false;
  name = [];
  mode = [];
  tokens = [];
}

abbrev pub initial : FileDescriptor
initial = record { next_file_descriptor = 0; ofdt = replicate max_num_files blank_entry }

-- Only an entry of the array can be open.
abbrev pub opened : List OpenFileEntry → ℕ → Bool
opened t i = elim (get_elem? t i) [ none ↦ false | some e ↦ e.is_open ]

-- The loop of `ofdt_open_file`: the slot found, and `next_file_descriptor` after it.
unfoldable pub find_slot : ℕ → ℕ → List OpenFileEntry → Option ℕ × ℕ
find_slot zero next t = (none, next)
find_slot (suc k) next t =
    let rest = find_slot k ((next + 1) % max_num_files) t in
    if opened t next then rest else (some next, (next + 1) % max_num_files)

abbrev pub fill_entry : ℕ → Option FileRecipe → Text → Text → OpenFileEntry → OpenFileEntry
fill_entry fdesc recipe file_name file_mode e = record e {
  desc = pos fdesc;
  file_recipe = recipe;
  is_open = true;
  name = file_name;
  mode = file_mode;
}

-- With no free slot the fields of `OFDT[-1]` are written.
unfoldable pub ofdt_open_file :
    FileDescriptor → Option FileRecipe → Text → Text → Option (ℕ × FileDescriptor)
unfolding find_slot
ofdt_open_file d recipe file_name file_mode =
    let (slot, next) = find_slot max_num_files d.next_file_descriptor d.ofdt in
    elim slot [
      | none ↦ none
      | some fdesc ↦ elim (get_elem? d.ofdt fdesc) [
        | none ↦ none
        | some e ↦ some (
          fdesc,
          record {
            next_file_descriptor = next;
            ofdt = set d.ofdt fdesc (fill_entry fdesc recipe file_name file_mode e);
          },
        )
      ]
    ]

unfoldable pub ofdt_close_file : FileDescriptor → ℕ → Option (ℕ × FileDescriptor)
ofdt_close_file d fdesc = elim (get_elem? d.ofdt fdesc) [
  | none ↦ none
  | some e ↦
      if e.is_open
      then some
          (1, record d { ofdt = set d.ofdt fdesc (record e { is_open = false; desc = negsuc 0 }) })
      else some (0, d)
]

unfoldable pub ofdt_fetch_recipe : FileDescriptor → ℕ → Option (Option FileRecipe)
ofdt_fetch_recipe d fdesc = elim (get_elem? d.ofdt fdesc) [
  | none ↦ none
  | some e ↦ if e.is_open then some e.file_recipe else some none
]

unfoldable pub ofdt_fetch_name : FileDescriptor → ℕ → Option Text
ofdt_fetch_name d fdesc = elim (get_elem? d.ofdt fdesc) [
  | none ↦ none
  | some e ↦ if e.is_open then some e.name else some []
]

unfoldable pub ofdt_fetch_mode : FileDescriptor → ℕ → Option Text
ofdt_fetch_mode d fdesc = elim (get_elem? d.ofdt fdesc) [
  | none ↦ none
  | some e ↦ if e.is_open then some e.mode else some []
]

-- The loop of `revokePermission`: the last entry with the name, counted from `i`.
unfoldable pub last_named : ℕ → Text → List OpenFileEntry → Option ℕ
last_named i file_name [] = none
last_named i file_name (e ∷ t) = elim (last_named (suc i) file_name t) [
  | some j ↦ some j
  | none ↦ if text_eq e.name file_name then some i else none
]

-- The answer where the file is not open: all blocks.
abbrev pub not_open_response : Text
not_open_response = codes "0 " ++ to_string (u32_mod - 1)

unfoldable pub revoke_permission :
    ℕ → FileDescriptor → Text → ℤ → ℤ → Option (Text × FileDescriptor)
unfolding last_named
revoke_permission fuel d file_name start end = elim (last_named 0 file_name d.ofdt) [
  | none ↦ some (not_open_response, d)
  | some i ↦ elim (get_elem? d.ofdt i) [
    | none ↦ none
    | some e ↦
        if e.is_open
        then elim (remove_permission fuel e.tokens (to_unsigned start) (to_unsigned end)) [
          | none ↦ none
          | some tokens ↦ some (
            int_to_string start ++ b' ' ∷ int_to_string end,
            record d { ofdt = set d.ofdt i (record e { tokens = tokens }) },
          )
        ]
        else some (not_open_response, d)
  ]
]
