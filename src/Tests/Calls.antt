-- ===== src/Tests/Calls.antt =====
-- Reads and writes of a client at concrete inputs.
use cse511_project.Prelude.{
  ltb, take, drop, ◌≡◌, refl, ℕ, ◌*◌, ◌%◌, List, [], ◌∷◌, ◌++◌, Option, none, some, arith, Text,
  codes, length, pos, false, true, ◌==◌, if◌then◌else◌,
}
use cse511_project.Interval.{mk}
use cse511_project.Recipe.{FileRecipe, empty_mask}
use cse511_project.FileDesc.{OpenFileEntry, blank_entry}
use cse511_project.FileDesc.Permission.{Tokens}
use cse511_project.Cache.{Cache, block_id, find_block, new_cache}
use cse511_project.Client.Calls.{ClientState}
use cse511_project.Client.Acquire.{acquired, acquire}
use cse511_project.Client.Acquire.Spec.{Got, grant, acquire-Got}
use cse511_project.Client.Blocks.{gets, fails, bad_memory, out_of_range, dirty, c_data}
use cse511_project.Client.Blocks.Fetched.{Answers, empty_block}
use cse511_project.Client.Io.{pfs_read, pfs_write}
use cse511_project.Client.Io.Roundtrip.{pfs_read-pfs_write}
use cse511_project.Client.Io.Outside.{pfs_write_outside}
use cse511_project.Client.Io.Fresh.{pfs_read_fresh}
use cse511_project.Client.Io.Cached.{Holds, joined, pfs_read_cached}
use cse511_project.Metadata.Dispatch.{c_string}
use cse511_project.Interval.Laws.{has}
use cse511_project.TokenMap.{find}
use cse511_project.FileDesc.Permission.{check_permission}

abbrev pub one_hash : Text → ℕ
one_hash name = 1

-- A file server that answers nothing, and one that does not take a connection.
abbrev pub silent : Text → ℕ → Text → Option Text
silent address port command = some []

abbrev pub away : Text → ℕ → Text → Option Text
away address port command = none

pub silent-Answers : Answers silent
silent-Answers address port command = ([], refl)

abbrev pub recipe_of : ℕ → FileRecipe
recipe_of w = record { stripe_width = pos w; stripe_mask = empty_mask }

abbrev pub open_file : ℕ → OpenFileEntry
open_file w = record blank_entry {
  file_recipe = some (recipe_of w);
  is_open = true;
  name = codes "f";
  mode = codes "w";
}

abbrev client : ℕ → ClientState
client w = record {
  descriptors = record { next_file_descriptor = 1; ofdt = open_file w ∷ [] };
  file_desc_mutex = false;
}

abbrev some_tokens : Tokens
some_tokens = (mk 0 1, b'r') ∷ (mk 4 9, b'w') ∷ []

-- Blocks 2 and 3 of the range had no token.
acquire-Got_example :
    (m : Tokens) × (marks : List _) × (acquire 1 b'w' 0 5 grant 7 some_tokens ≡ acquired m marks)
    × Got b'w' 0 5 some_tokens m
acquire-Got_example =
    acquire-Got 0 b'w' 0 5 (omega arith) (omega arith) 7 some_tokens
      (omega arith, (omega arith, omega arith), (omega arith, (omega arith, omega arith), tt))
      (omega arith)

pfs_read-pfs_write_example :
    (s : ClientState) × (c : Cache) × (c' : Cache) × (pfs_write one_hash silent
        (λ name mode. grant)
        1
        2
        0
        (codes "hi" ++ 0 ∷ [])
        2
        (1024 * 3)
        (client 1)
        new_cache
      ≡ gets (2, s, c))
    × (pfs_read one_hash away (λ name mode. grant) 1 2 0 2 (1024 * 3) s c
        ≡ gets (codes "hi", s, c'))
unfolding find_block
pfs_read-pfs_write_example =
    pfs_read-pfs_write one_hash silent away 0 0 0 3 (client 1) new_cache (open_file 1) empty_mask
      (codes "hi") [] refl refl refl refl tt silent-Answers (omega arith) (omega arith)
      (omega arith) (refl, (refl, tt)) (omega arith) refl

pfs_read_fresh_example :
    (s : ClientState) × (c : Cache) × (pfs_read one_hash silent
        (λ name mode. grant)
        1
        2
        0
        10
        5000
        (client 2)
        new_cache
      ≡ (if 5000 % 1024 == 0 then gets ([], s, c) else fails out_of_range))
unfolding find_block
pfs_read_fresh_example =
    pfs_read_fresh one_hash silent 0 0 0 10 5000 2 (client 2) new_cache (open_file 2) empty_mask
      refl refl refl refl (omega arith) (omega arith) tt silent-Answers (omega arith) (omega arith)
      (omega arith) (omega arith) refl

pfs_write_outside_example :
    pfs_write one_hash silent
      (λ name mode. grant)
      1
      2
      0
      (codes "hi" ++ 0 ∷ [])
      2
      5000
      (client 2)
      new_cache
    ≡ fails bad_memory
unfolding find_block
pfs_write_outside_example =
    pfs_write_outside one_hash silent 0 0 0 5000 2 (client 2) new_cache (open_file 2) empty_mask
      (codes "hi") refl refl refl refl (omega arith) (omega arith) tt silent-Answers (omega arith)
      (refl, (refl, tt)) (omega arith) (omega arith) (omega arith) refl

-- Blocks 0 and 1 of a file of one server, each with a short string.
abbrev words : List Text
words = codes "hello" ∷ codes "world" ∷ []

abbrev with_words : Cache
with_words = record {
  free_size = 2046;
  used_space =
      (
        block_id one_hash (codes "f") 0,
        dirty (codes "hello" ++ 0 ∷ []) (empty_block one_hash (codes "f") 0),
      )
      ∷ (
        block_id one_hash (codes "f") 1,
        dirty (codes "world" ++ 0 ∷ []) (empty_block one_hash (codes "f") 1),
      )
      ∷ [];
  last_access = 2;
}

with_words-Holds : Holds one_hash (codes "f") 0 words with_words
unfolding find_block c_data block_id
with_words-Holds = ((_, refl, refl), ((_, refl, refl), tt))

abbrev reading : OpenFileEntry
reading = record (open_file 1) { tokens = (mk 0 1, b'r') ∷ [] }

reading_allowed : (b : ℕ) → has (mk 0 1) b ≡ true → check_permission reading.tokens b b'r' ≡ true
unfolding check_permission find
reading_allowed b h = ground (arith, h)

pfs_read_cached_example :
    (s : ClientState) × (c : Cache) × (pfs_read one_hash away
        (λ name mode k run. codes "nack")
        1
        1
        0
        1030
        2
        (record {
          descriptors = record { next_file_descriptor = 1; ofdt = reading ∷ [] };
          file_desc_mutex = false;
        })
        with_words
      ≡ (if ltb (length (joined words)) (2 % 1024)
          then fails out_of_range
          else gets (c_string (take 1030 (drop (2 % 1024) (joined words))), s, c)))
pfs_read_cached_example =
    pfs_read_cached one_hash away (λ name mode k run. codes "nack") 1 0 0 1030 2
      (record {
        descriptors = record { next_file_descriptor = 1; ofdt = reading ∷ [] };
        file_desc_mutex = false;
      })
      with_words reading words refl refl refl (omega arith) reading_allowed refl with_words-Holds
