-- ===== src/Client/Blocks.antt =====
-- Blocks between the cache and the file servers: `readFromFileServer` and `writeToFileServer` of
-- ClientCache.cc, and what `pfs_read` and `pfs_write` of pfs.cc do with one block. The answer of a file
-- server at an address and port is an argument; `none` is a connection that fails.
pub mod Fetched
pub mod Copies
pub mod Stored
pub mod Exact
use mathlib.Core.Option
use cse511_project.Prelude.{
  ℕ, zero, suc, ◌+◌, ◌-◌, Bool, true, false, ◌&&◌, List, [], ◌∷◌, ◌++◌, Option, none, some, ℤ, pos,
  Text, codes, length, take, drop, replicate, set, get_elem?, ◌==◌, if◌then◌else◌,
}
use cse511_project.Strings.{to_string}
use cse511_project.Recipe.{FileRecipe, empty_mask}
use cse511_project.Striping.{corresponding_server}
use cse511_project.Cache.{
  Block, Cache, block_id, update_block, lookup_block, get_block, insert_single_block,
}
use cse511_project.Metadata.Dispatch.{c_string}

-- How a call fails: no free block (an exception), an access outside of memory that the program owns or
-- a division by 0, a position outside a string (an exception), a connection that fails, or a wait that
-- does not end.
pub data Failure : Type 0 where
  no_free_block bad_memory out_of_range connection_fails waits_on : Failure

pub data Io (A : Type 0) : Type 0 where
  gets : A → Io A
  fails : Failure → Io A

unfoldable pub and_then : {A B : Type 0} → Io A → (A → Io B) → Io B
and_then (gets a) f = f a
and_then (fails e) f = fails e

unfoldable pub of_option : {A : Type 0} → Failure → Option A → Io A
of_option e none = fails e
of_option e (some a) = gets a

abbrev pub block_size : ℕ
block_size = 1024

-- The string in an array of characters; without a 0 in the array the program reads on behind it.
unfoldable pub c_data : Text → Option Text
c_data [] = none
c_data (c ∷ s) = let rest = c_data s in if c == 0 then some [] else Option.map (◌∷◌ c) rest

-- `strcpy` into an array that is long enough.
unfoldable pub strcpy : Text → Text → Text
unfolding c_string
strcpy array s = c_string s ++ 0 ∷ drop (suc (length (c_string s))) array

-- The array `data` of a new block.
unfoldable pub zero_data : Text
zero_data = replicate block_size 0

-- `new blockT()`, whose fields are zero; a recipe starts with width 1.
abbrev pub new_block : Block
new_block = record {
  block_adr = 0;
  data_ = zero_data;
  status = 0;
  file_name = [];
  block_offset = 0;
  access_time = 0;
  file_recipe = record { stripe_width = pos 1; stripe_mask = empty_mask };
}

-- The answer goes as far into the array as the array's string is long.
unfoldable pub received_data : Text → Text → Text
unfolding strcpy c_string
received_data response array =
    if length response == 0 then array else strcpy array (take (length (c_string array)) response)

-- `response += bt->data`, with the cache as it is then.
unfoldable pub read_found : Option Block → Cache → Io (Text × Cache)
unfolding c_data
read_found none c = fails bad_memory
read_found (some b) c = elim (c_data b.data_) [ none ↦ fails bad_memory | some t ↦ gets (t, c) ]

unfoldable pub read_fetched : Cache → Block → Io (Text × Cache)
unfolding c_data insert_single_block
read_fetched c b = elim (c_data b.data_) [
  | none ↦ fails bad_memory
  | some t ↦ elim (insert_single_block b c) [ none ↦ fails no_free_block | some c' ↦ gets (t, c') ]
]

-- `bt->data[j] = buf[base + j]`, for `rounds` values of `j`; `none` is a place outside of `buf` or of
-- the block.
unfoldable pub copy_bytes : ℕ → ℕ → ℕ → Text → Text → Option Text
copy_bytes zero j base buf array = some array
copy_bytes (suc rounds) j base buf array = elim (get_elem? buf (base + j)) [
  | none ↦ none
  | some v ↦ copy_bytes rounds (suc j) base buf (set array j v)
]

abbrev pub dirty : Text → Block → Block
dirty bytes b = record b { data_ = bytes; status = b'D' }

unfoldable pub write_found : ℕ → ℕ → ℕ → Text → ℕ → Option Block → Cache → Io Cache
unfolding copy_bytes update_block
write_found start end base buf k none c = fails bad_memory
write_found start end base buf k (some b) c =
    elim (copy_bytes (end + 1 - start) start base buf b.data_) [
      | none ↦ fails bad_memory
      | some bytes ↦ gets (record c { used_space = update_block k (dirty bytes b) c.used_space })
    ]

unfoldable pub write_fetched : ℕ → ℕ → ℕ → Text → Cache → Block → Io Cache
unfolding copy_bytes insert_single_block of_option
write_fetched start end base buf c b = elim (copy_bytes (end + 1 - start) start base buf b.data_) [
  | none ↦ fails bad_memory
  | some bytes ↦ of_option no_free_block (insert_single_block (dirty bytes b) c)
]

module _ (hash : Text → ℕ) (serve : Text → ℕ → Text → Option Text) where
  unfoldable pub read_from_file_server : Text → ℕ → Text → ℕ → Option Block
  unfolding block_id to_string received_data
  read_from_file_server file_name block_offset address port =
      Option.map
        (λ response. record new_block {
          block_adr = block_id hash file_name block_offset;
          data_ = received_data response new_block.data_;
          status = b'C';
          file_name = file_name;
          block_offset = block_offset;
        })
        (serve address port
          (codes "read " ++ file_name ++ codes " " ++ to_string block_offset ++ codes " 1"))

  -- Block `i` from its server. `none` is the recipe of a descriptor that is not open, a null pointer;
  -- a server number of 5 or more leaves address and port unset.
  unfoldable pub fetch_block : Text → ℕ → Option FileRecipe → Io Block
  unfolding corresponding_server read_from_file_server of_option
  fetch_block file_name i none = fails bad_memory
  fetch_block file_name i (some recipe) = elim (corresponding_server i recipe.stripe_width) [
    | none ↦ fails bad_memory
    | some (none, within) ↦ fails bad_memory
    | some (some (address, port), within) ↦
        of_option connection_fails (read_from_file_server file_name within address port)
  ]

  -- One round of `pfs_read`'s loop: the text of block `i`; `marked` is its `already_have_token`.
  unfoldable pub read_block : Text → Option FileRecipe → Bool → ℕ → Cache → Io (Text × Cache)
  unfolding lookup_block get_block fetch_block read_found read_fetched and_then
  read_block file_name recipe marked i c =
      if marked && lookup_block hash file_name i c
      then read_found (get_block hash file_name i c).0 (get_block hash file_name i c).1
      else and_then (fetch_block file_name i recipe) (read_fetched c)

  -- One round of `pfs_write`'s loop: bytes `start` to `end` of block `i`; `base` is `i - block_offset`.
  unfoldable pub write_block :
      Text → Option FileRecipe → Bool → ℕ → ℕ → ℕ → ℕ → Text → Cache → Io Cache
  unfolding lookup_block get_block fetch_block write_found write_fetched and_then block_id
  write_block file_name recipe marked i start end base buf c =
      if marked && lookup_block hash file_name i c
      then write_found start end base buf (block_id hash file_name i)
          (get_block hash file_name i c).0 (get_block hash file_name i c).1
      else and_then (fetch_block file_name i recipe) (write_fetched start end base buf c)

-- `writeToFileServer`: the address, the port and the command, for the place of the block.
unfoldable pub send_back : Block → Option (Option (Text × ℕ) × ℕ) → Io (Text × ℕ × Text)
unfolding c_data to_string
send_back b none = fails bad_memory
send_back b (some (none, within)) = fails bad_memory
send_back b (some (some (address, port), within)) = elim (c_data b.data_) [
  | none ↦ fails bad_memory
  | some bytes ↦ gets (
    address,
    port,
    codes "write " ++ b.file_name ++ codes " " ++ to_string within ++ codes " 1 " ++ bytes,
  )
]

unfoldable pub write_to_file_server : Block → Io (Text × ℕ × Text)
unfolding corresponding_server send_back
write_to_file_server b =
    send_back b (corresponding_server b.block_offset b.file_recipe.stripe_width)
