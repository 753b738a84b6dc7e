-- ===== src/Cache/Harvest.antt =====
-- `harvestingFunc` of ClientCache.cc: one round of its loop, with the lock taken. The
-- `priority_queue` is a list with its top first: the block that was used last.
pub mod Lru
pub mod Oldest
pub mod Conserved
pub mod Reference
pub mod Order
use cse511_project.Prelude.{
  ℕ, ◌+◌, ◌-◌, Bool, true, false, List, [], ◌∷◌, length, ltb, leb, ◌==◌, if◌then◌else◌,
}
use cse511_project.Cache.{Block, Used, Cache, erase_block, free_list_min, free_list_max}

-- `push`: `mycomparison` compares the access times.
unfoldable pub push : Block → List Block → List Block
push b [] = b ∷ []
push b (x ∷ q) =
    let rest = push b q in if ltb b.access_time x.access_time then x ∷ rest else b ∷ x ∷ q

-- A clean block for the queue of at most `k` blocks; the harvester's `k` is 8 at least.
unfoldable pub offer : ℕ → Block → List Block → List Block
unfolding push
offer k b [] = b ∷ []
offer k b (x ∷ q) =
    if leb k (length (x ∷ q))
    then if ltb b.access_time x.access_time then push b q else x ∷ q
    else push b (x ∷ q)

-- The loop over `usedSpace`.
unfoldable pub harvest_scan : ℕ → List Block → Used → List Block
unfolding offer
harvest_scan k q [] = q
harvest_scan k q ((j, b) ∷ u) = harvest_scan k (if b.status == b'C' then offer k b q else q) u

-- The loop over the queue: each block leaves `usedSpace` and gives a free one.
unfoldable pub release : List Block → Used → Used
unfolding erase_block
release [] u = u
release (b ∷ q) u = release q (erase_block b.block_adr u)

unfoldable pub harvest : Cache → Cache
unfolding harvest_scan release
harvest c =
    let q = harvest_scan (free_list_max - c.free_size) [] c.used_space in
    if ltb c.free_size free_list_min
    then record c { free_size = c.free_size + length q; used_space = release q c.used_space }
    else c
