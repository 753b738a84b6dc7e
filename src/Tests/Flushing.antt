-- ===== src/Tests/Flushing.antt =====
-- Blocks that are written, and flushed, at concrete inputs.
use cse511_project.Prelude.{
  ◌≡◌, refl, ℕ, ◌+◌, List, [], ◌∷◌, ◌++◌, none, some, arith, codes, length, false,
}
use cse511_project.Recipe.{empty_mask}
use cse511_project.Strings.{to_string}
use cse511_project.Striping.{offset_within, titan_addr}
use cse511_project.Cache.{Cache, Block, block_id, find_block}
use cse511_project.Client.Blocks.{gets, write_block, write_to_file_server, dirty, copy_bytes}
use cse511_project.Client.Blocks.Fetched.{empty_block}
use cse511_project.Client.Blocks.Stored.{write_block_lost}
use cse511_project.Client.Flush.{Sent, Steps, clean, flush}
use cse511_project.Client.Flush.Clean.{cleaned, dirty_count, SendsAll, flush_cleans}
use cse511_project.Client.Flush.Lost.{flush_loses_write}
use cse511_project.Tests.Calls.{one_hash, silent, recipe_of, silent-Answers}

-- Block 4 of a file over two servers has place 0 on the second one, as block 0 has on the first.
abbrev block_0 : Block
block_0 = dirty (codes "old" ++ 0 ∷ []) (empty_block one_hash (codes "f") (offset_within 4 2))

abbrev pub with_block : Cache
with_block = record {
  free_size = 2047;
  used_space = (block_id one_hash (codes "f") (offset_within 4 2), block_0) ∷ [];
  last_access = 1;
}

write_block_lost_example :
    (c : Cache) × (write_block one_hash silent
        (codes "f")
        (some (recipe_of 2))
        false
        4
        0
        1
        0
        (codes "hi" ++ [])
        with_block
      ≡ gets c)
    × (c.used_space ≡ with_block.used_space)
    × (c.free_size + 1 ≡ 2047)
unfolding find_block block_id offset_within
write_block_lost_example =
    write_block_lost one_hash silent (codes "f") 4 2 empty_mask false (codes "hi") [] with_block
      (omega arith) (omega arith) silent-Answers (omega arith) (omega arith) (omega arith) refl
      block_0 refl

abbrev pub old_order : Sent
old_order = (titan_addr, 1111, codes "write f 0 1 old")

pub old_order_sent : write_to_file_server block_0 ≡ gets old_order
unfolding write_to_file_server offset_within to_string
old_order_sent = refl

flush_cleans_example :
    (l : List Sent) × (flush with_block.used_space ≡ gets (cleaned with_block.used_space, l))
    × SendsAll with_block.used_space l
    × (length l ≡ dirty_count with_block.used_space)
    × (dirty_count (cleaned with_block.used_space) ≡ 0)
flush_cleans_example = flush_cleans with_block.used_space ((λ d. (old_order, old_order_sent)), tt)

flush_loses_write_example :
    (after : List (ℕ × Block)) × Steps
      (record { used = with_block.used_space; underway = none; sent = [] })
      (record { used = after; underway = none; sent = old_order ∷ [] })
    × (find_block (block_id one_hash (codes "f") (offset_within 4 2)) after
        ≡ some (clean (dirty (codes "new" ++ 0 ∷ []) block_0)))
    × (flush after ≡ gets (after, []))
unfolding find_block copy_bytes block_id offset_within
flush_loses_write_example =
    flush_loses_write (block_id one_hash (codes "f") (offset_within 4 2)) block_0
      with_block.used_space old_order 3 0 0 (codes "new" ++ 0 ∷ []) (codes "new" ++ 0 ∷ []) refl
      refl refl old_order_sent refl
