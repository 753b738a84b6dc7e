-- ===== src/Client/Flush.antt =====
-- `flush` of ClientCache.cc: without another thread at work, and as the steps between which another
-- thread can take the lock of the cache. The servers take what is sent.
pub mod Clean
pub mod Lost
use cse511_project.Prelude.{
  ℕ, Bool, true, false, ◌≡◌, List, [], ◌∷◌, Option, none, some, Text, ◌==◌, if◌then◌else◌,
}
use cse511_project.Cache.{Block, Used, find_block, update_block}
use cse511_project.Client.Blocks.{
  Io, gets, fails, and_then, write_to_file_server, copy_bytes, dirty,
}

-- A command, with the address and the port that it goes to.
abbrev pub Sent : Type 0
Sent = Text × ℕ × Text

abbrev pub is_dirty : Block → Bool
is_dirty b = b.status == b'D'

abbrev pub clean : Block → Block
clean b = record b { status = b'C' }

-- The loop over `usedSpace`.
unfoldable pub flush : Used → Io (Used × List Sent)
unfolding write_to_file_server and_then
flush [] = gets ([], [])
flush ((k, b) ∷ u) =
    let rest = flush u in
    if is_dirty b
    then and_then (write_to_file_server b)
        (λ sent. and_then rest (λ (u', more). gets ((k, clean b) ∷ u', sent ∷ more)))
    else and_then rest (λ (u', more). gets ((k, b) ∷ u', more))

-- The cache, the block that `flush` has copied before it gave the lock back, and what has been sent.
pub record Flusher : Type 0 where
  pub used : Used
  pub underway : Option (ℕ × Block)
  pub sent : List Sent

-- With the lock `flush` copies a dirty block; without it the copy is sent; with it again the block is
-- marked clean. Meanwhile a `pfs_write` with the lock changes bytes of a block. The steps copy any dirty
-- block, while the loop goes through `usedSpace` in its order: they include those of the loop, and where
-- one block is dirty they are those of the loop.
pub data Step : Flusher → Flusher → Type 0 where
  copies :
      {u : Used} {l : List Sent} (k : ℕ) (b : Block)
      → find_block k u ≡ some b
      → is_dirty b ≡ true
      → Step
          (record { used = u; underway = none; sent = l })
          (record { used = u; underway = some (k, b); sent = l })
  marks :
      {u : Used} {l : List Sent} (k : ℕ) (b b' : Block) (command : Sent)
      → write_to_file_server b ≡ gets command
      → find_block k u ≡ some b'
      → Step
          (record { used = u; underway = some (k, b); sent = l })
          (record { used = update_block k (clean b') u; underway = none; sent = command ∷ l })
  writes :
      {u : Used} {l : List Sent} {o : Option (ℕ × Block)} (k : ℕ) (b : Block)
      (rounds start base : ℕ) (buf bytes : Text)
      → find_block k u ≡ some b
      → copy_bytes rounds start base buf b.data_ ≡ some bytes
      → Step
          (record { used = u; underway = o; sent = l })
          (record { used = update_block k (dirty bytes b) u; underway = o; sent = l })

pub data Steps : Flusher → Flusher → Type 0 where
  stays : {f : Flusher} → Steps f f
  next : {f g h : Flusher} → Step f g → Steps g h → Steps f h
