-- ===== src/Striping.antt =====
-- `corresponding_server` of net_addresses.hh: the file server that holds a block of a file striped
-- over `strip_width` servers, and the block's place there. STRIP_SIZE is 4 blocks.
pub mod Placement
use cse511_project.Prelude.{
  ℕ, ◌+◌, ◌-◌, ◌*◌, ◌/◌, ◌%◌, ◌^◌, Option, none, some, ℤ, pos, negsuc, Text, codes, ◌==◌,
  if◌then◌else◌,
}

abbrev pub strip_size : ℕ
strip_size = 4

-- An `int` as a `size_t`.
abbrev pub to_size : ℤ → ℕ
to_size (pos n) = n % 2 ^ 64
to_size (negsuc n) = 2 ^ 64 - 1 - n % 2 ^ 64

unfoldable pub server_number : ℕ → ℕ → ℕ
server_number block_offset strip_width = (block_offset / strip_size) % strip_width

unfoldable pub offset_within : ℕ → ℕ → ℕ
offset_within block_offset strip_width =
    block_offset / strip_size / strip_width * strip_size + block_offset % strip_size

abbrev pub titan_addr : Text
titan_addr = codes "130.203.59.10"

abbrev pub mamberamo_addr : Text
mamberamo_addr = codes "130.203.40.73"

-- The `switch`: any other number leaves the variables unset.
unfoldable pub server_place : ℕ → Option (Text × ℕ)
server_place n =
    if n == 0
    then some (titan_addr, 1111)
    else if n == 1
    then some (mamberamo_addr, 2222)
    else if n == 2
    then some (mamberamo_addr, 3333)
    else if n == 3
    then some (mamberamo_addr, 4444)
    else if n == 4
    then some (mamberamo_addr, 5555)
    else none

-- The place of the server, if it was set, and the block's offset there; `none` is a division by 0.
unfoldable pub corresponding_server : ℕ → ℤ → Option (Option (Text × ℕ) × ℕ)
unfolding server_number offset_within server_place
corresponding_server block_offset strip_width =
    if to_size strip_width == 0
    then none
    else some (
      server_place (server_number block_offset (to_size strip_width)),
      offset_within block_offset (to_size strip_width),
    )
