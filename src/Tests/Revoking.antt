-- ===== src/Tests/Revoking.antt =====
-- Writes over several blocks, and revocations, at concrete inputs.
use cse511_project.Prelude.{
  ◌≡◌, refl, ℕ, suc, true, false, Bool, List, [], ◌∷◌, ◌++◌, some, arith, Text, text_eq, codes,
  length, length-replicate, replicate, map,
}
use cse511_project.Interval.{mk}
use cse511_project.Interval.Laws.{has}
use cse511_project.TokenMap.{find}
use cse511_project.FileDesc.{FileDescriptor, OpenFileEntry, last_named}
use cse511_project.FileDesc.Held.{AreMap, may, held_tokens, token_count, Gone}
use cse511_project.FileDesc.Permission.{check_permission}
use cse511_project.Metadata.Tokens.{read_message}
use cse511_project.Cache.{Block, Cache, block_id, find_block}
use cse511_project.Client.Blocks.{gets, c_data}
use cse511_project.Client.Blocks.Fetched.{empty_block}
use cse511_project.Client.Calls.{ClientState}
use cse511_project.Client.Flush.{Sent}
use cse511_project.Client.Flush.Clean.{cleaned, dirty_count, SendsAll}
use cse511_project.Client.Io.{get_tokens, copy_in, pfs_write}
use cse511_project.Client.Io.Patched.{KeepsAll, WrittenAll, Others}
use cse511_project.Client.Io.Overwritten.{pfs_write_cached}
use cse511_project.Client.Revoker.{answers, writes, handle}
use cse511_project.Client.Revoker.Orders.{handle_orders}
use cse511_project.Client.Revoker.Races.{write_after_revocation}
use cse511_project.Tests.Calls.{one_hash, away, open_file}
use cse511_project.Tests.Flushing.{with_block, old_order, old_order_sent}
use cse511_project.Tests.Networks.{to_read-Nameable}

abbrev writing : OpenFileEntry
writing = record (open_file 1) { tokens = (mk 0 9, b'w') ∷ [] }

abbrev writer : ClientState
writer = record {
  descriptors = record { next_file_descriptor = 1; ofdt = writing ∷ [] };
  file_desc_mutex = false;
}

abbrev zeros : Text
zeros = replicate 1024 0

abbrev clean_block : ℕ → Block
clean_block i = record (empty_block one_hash (codes "f") i) { data_ = zeros }

-- Blocks 4 and 5 of the file.
abbrev two_blocks : Cache
two_blocks = record {
  free_size = 2046;
  used_space =
      (block_id one_hash (codes "f") 4, clean_block 4)
      ∷ (block_id one_hash (codes "f") 5, clean_block 5)
      ∷ [];
  last_access = 2;
}

two_blocks-KeepsAll : KeepsAll one_hash (codes "f") 4 (zeros ∷ zeros ∷ []) two_blocks
unfolding find_block block_id
two_blocks-KeepsAll = (
  (clean_block 4, refl, refl, length-replicate {A = ℕ} 1024 0),
  ((clean_block 5, refl, refl, length-replicate {A = ℕ} 1024 0), tt),
)

writing_allowed : (b : ℕ) → has (mk 4 5) b ≡ true → check_permission writing.tokens b b'r' ≡ true
unfolding check_permission find
writing_allowed b h = ground (arith, h)

abbrev greeting : Text
greeting = codes "hi" ++ 0 ∷ zeros

pfs_write_cached_example :
    (s : ClientState) × (c : Cache) × (pfs_write one_hash away
        (λ name mode k run. codes "nack")
        1
        1
        0
        greeting
        1026
        4096
        writer
        two_blocks
      ≡ gets (2, s, c))
    × WrittenAll one_hash (codes "f") 4 1026 greeting 0 (zeros ∷ zeros ∷ []) c
    × Others one_hash (codes "f") 4 2 two_blocks c
unfolding c_data
pfs_write_cached_example =
    pfs_write_cached one_hash away (λ name mode k run. codes "nack") 1 0 0 1026 4096 writer
      two_blocks writing greeting (codes "hi") (zeros ∷ zeros ∷ []) refl refl refl refl
      (omega arith) (omega (arith, length-replicate {A = ℕ} 1024 0)) refl (omega arith)
      writing_allowed refl two_blocks-KeepsAll

writing-AreMap : AreMap (held_tokens (codes "f") writer.descriptors)
unfolding held_tokens last_named text_eq
writing-AreMap = (omega arith, (omega arith, omega arith), tt)

handle_orders_example :
    (answer : Text) × (d : FileDescriptor) × (l : List Sent) × (handle 2
        (read_message (codes "f") (mk 4 6))
        writer.descriptors
        with_block.used_space
      ≡ some (d, gets (answers answer ∷ map writes l, cleaned with_block.used_space)))
    × Gone (codes "f") writer.descriptors d (mk 4 6) answer
    × SendsAll with_block.used_space l
    × (length l ≡ dirty_count with_block.used_space)
    × (dirty_count (cleaned with_block.used_space) ≡ 0)
handle_orders_example =
    handle_orders (codes "f") (mk 4 6) writer.descriptors with_block.used_space to_read-Nameable
      writing-AreMap ((λ d. (old_order, old_order_sent)), tt)

write_after_revocation_example :
    (marks : List Bool) × (s : ClientState) × (answer : Text) × (d : FileDescriptor) × (l : List
      Sent)
    × (c : Cache) × (get_tokens one_hash away
          (λ name mode k run. codes "nack")
          1
          1
          b'w'
          4
          5
          0
          (codes "f")
          writer
        ≡ gets (marks, s))
    × (handle
          (suc (token_count s.descriptors.ofdt))
          (read_message (codes "f") (mk 4 6))
          s.descriptors
          two_blocks.used_space
        ≡ some (d, gets (answers answer ∷ map writes l, cleaned two_blocks.used_space)))
    × ((b mode : ℕ) → has (mk 4 6) b ≡ true → may (codes "f") d b mode ≡ false)
    × (copy_in one_hash away
          (λ name mode k run. codes "nack")
          1
          1
          1026
          4096
          greeting
          (writing.file_recipe, codes "f")
          (record two_blocks { used_space = cleaned two_blocks.used_space })
          (marks, record s { descriptors = d })
        ≡ gets (2, record s { descriptors = d }, c))
    × WrittenAll one_hash (codes "f") 4 1026 greeting 0 (zeros ∷ zeros ∷ []) c
unfolding c_data
write_after_revocation_example =
    write_after_revocation one_hash away (λ name mode k run. codes "nack") 1 0 0 1026 4096 writer
      two_blocks writing greeting (codes "hi") (zeros ∷ zeros ∷ []) (mk 4 6) refl refl (omega arith)
      (omega (arith, length-replicate {A = ℕ} 1024 0)) refl (omega arith) writing_allowed refl
      two_blocks-KeepsAll to_read-Nameable writing-AreMap
      ((λ d. absurd (ground (arith, d))), ((λ d. absurd (ground (arith, d))), tt))
