-- ===== src/Cache.antt =====
-- `ClientCache` of ClientCache.cc, with `blockT` of data_types.hh: the blocks that a client keeps. The
-- free blocks have no content, so the list `freeSpace` is its length. `usedSpace`, an `unordered_map`,
-- is a list in the order of its iteration; where `insert` puts an entry is not said, and it stands in
-- front here. The hash of the library is an argument.
pub mod Capacity
pub mod Lookup
pub mod Harvest
pub mod Times
pub mod Reachable
pub mod Revoker
use cse511_project.Prelude.{
  ℕ, ◌+◌, ◌-◌, ◌*◌, ◌%◌, ◌^◌, Bool, true, false, List, [], ◌∷◌, Option, none, some, Text, length,
  ltb, ◌==◌, if◌then◌else◌,
}
use cse511_project.Recipe.{FileRecipe}

pub record Block : Type 0 where
  pub block_adr : ℕ
  pub data_ : Text
  pub status : ℕ
  pub file_name : Text
  pub block_offset : ℕ
  pub access_time : ℕ
  pub file_recipe : FileRecipe

abbrev pub Used : Type 0
Used = List (ℕ × Block)

-- `free_size` is `freeSpace.size()`.
pub record Cache : Type 0 where
  pub free_size : ℕ
  pub used_space : Used
  pub last_access : ℕ

abbrev pub buffer_cache_capacity : ℕ
buffer_cache_capacity = 2 * 1024

abbrev pub free_list_min : ℕ
free_list_min = 2035

abbrev pub free_list_max : ℕ
free_list_max = 2042

abbrev pub new_cache : Cache
new_cache = record { free_size = buffer_cache_capacity; used_space = []; last_access = 0 }

-- `find` of `usedSpace`.
unfoldable pub find_block : ℕ → Used → Option Block
find_block k [] = none
find_block k ((j, b) ∷ u) = let rest = find_block k u in if j == k then some b else rest

-- `insert`: nothing happens where the key is present.
unfoldable pub insert_block : ℕ → Block → Used → Used
unfolding find_block
insert_block k b u = elim (find_block k u) [ none ↦ (k, b) ∷ u | some _ ↦ u ]

-- `erase(k)`.
unfoldable pub erase_block : ℕ → Used → Used
erase_block k [] = []
erase_block k ((j, b) ∷ u) = let rest = erase_block k u in if j == k then rest else (j, b) ∷ rest

-- A change through the iterator at key `k`.
unfoldable pub update_block : ℕ → Block → Used → Used
update_block k b [] = []
update_block k b ((j, x) ∷ u) =
    let rest = update_block k b u in if j == k then (j, b) ∷ rest else (j, x) ∷ rest

-- `insertSingleBlockIntoCache`; `none` is the exception where no block is free.
unfoldable pub insert_single_block : Block → Cache → Option Cache
unfolding insert_block
insert_single_block b c =
    let b' = record b { access_time = c.last_access } in
    if c.free_size == 0
    then none
    else some record {
      free_size = c.free_size - 1;
      used_space = insert_block b.block_adr b' c.used_space;
      last_access = (c.last_access + 1) % 2 ^ 64;
    }

insert_blocks : List Block → Cache → Option Cache
unfolding insert_single_block
insert_blocks [] c = some c
insert_blocks (b ∷ blocks) c = elim (insert_single_block b c) [
  | none ↦ none
  | some c' ↦ insert_blocks blocks c'
]

-- `insertMultipleBlocksIntoCache`.
unfoldable pub insert_multiple_blocks : List Block → Cache → Option Cache
unfolding insert_blocks
insert_multiple_blocks blocks c =
    let inserted = insert_blocks blocks c in
    if ltb c.free_size (length blocks) then none else inserted

-- The key of a block: the hash of the file name shifted by 22 bits, and the low 22 bits of the offset.
unfoldable pub block_id : (Text → ℕ) → Text → ℕ → ℕ
block_id hash file_name block_offset = hash file_name * 2 ^ 22 % 2 ^ 64 + block_offset % 2 ^ 22

module _ (hash : Text → ℕ) where
  -- `lookupBlockInCache`.
  unfoldable pub lookup_block : Text → ℕ → Cache → Bool
  unfolding find_block block_id
  lookup_block file_name block_offset c =
      elim (find_block (block_id hash file_name block_offset) c.used_space) [
        | none ↦ false
        | some b ↦ true
      ]

  -- What `getBlockFromCache` does with what it finds at key `k`.
  unfoldable pub touch_block : ℕ → Option Block → Cache → Option Block × Cache
  unfolding update_block
  touch_block k none c = (none, c)
  touch_block k (some b) c =
      let b' = record b { access_time = c.last_access } in
      (
        some b',
        record c {
          used_space = update_block k b' c.used_space;
          last_access = (c.last_access + 1) % 2 ^ 64;
        },
      )

  -- `getBlockFromCache`.
  unfoldable pub get_block : Text → ℕ → Cache → Option Block × Cache
  unfolding touch_block find_block block_id
  get_block file_name block_offset c =
      let k = block_id hash file_name block_offset in touch_block k (find_block k c.used_space) c

-- `putBlockIntoCache`: the pair is made before the access time is set.
unfoldable pub put_block : Block → Cache → Cache
unfolding insert_block
put_block b c = record c {
  used_space = insert_block b.block_adr b c.used_space;
  last_access = (c.last_access + 1) % 2 ^ 64;
}
