-- ===== src/Cache/Lookup.antt =====
-- What a look into the cache finds after an operation.
use cse511_project.Prelude.{
  ℕ, [], ◌∷◌, false, ◌+◌, ◌%◌, ◌^◌, ◌<◌, ◌≡◌, refl, ◌∙◌, sym, ap, none, some, arith, ◌==◌, if_true,
  Text,
}
use cse511_project.Cache.{
  Block, Used, Cache, find_block, update_block, insert_block, insert_single_block, put_block,
  get_block, touch_block, lookup_block, block_id,
}
use cse511_project.Cache.Capacity.{after_insert, insert_single_block_lem, insert_block-present}

pub find_block-insert_new :
    (k : ℕ) (b : Block) (u : Used)
    → find_block k u ≡ none
    → find_block k (insert_block k b u) ≡ some b
unfolding insert_block find_block
find_block-insert_new k b u h = rw (h, insert_block) (if_true (k == k) _ _ (ground arith))

pub find_block-update_block :
    (k : ℕ) (b x : Block) (u : Used)
    → find_block k u ≡ some x
    → find_block k (update_block k b u) ≡ some b
unfolding find_block update_block
find_block-update_block k b x [] h = ground arith
find_block-update_block k b x ((j, y) ∷ u) h = ground (arith, h, find_block-update_block k b x u)

pub find_block-update_other :
    (j k : ℕ) (b : Block) (u : Used)
    → (k == j) ≡ false
    → find_block j (update_block k b u) ≡ find_block j u
unfolding find_block update_block
find_block-update_other j k b [] h = refl
find_block-update_other j k b ((i, y) ∷ u) h = ground (arith, h, find_block-update_other j k b u)

-- A block that is stored under the key of its file and offset, which the cache does not have, with a
-- free block: `getBlockFromCache` then gives the block, with the time of this access.
pub get_block-insert_single_block :
    (hash : Text → ℕ) (b : Block) (c : Cache)
    → 0 < c.free_size
    → b.block_adr ≡ block_id hash b.file_name b.block_offset
    → find_block b.block_adr c.used_space ≡ none
    → (c' : Cache) × (insert_single_block b c ≡ some c')
      × ((get_block hash b.file_name b.block_offset c').0
          ≡ some (record b { access_time = (c.last_access + 1) % 2 ^ 64 }))
unfolding get_block touch_block
get_block-insert_single_block hash b c p key new =
    let b' = record b { access_time = c.last_access } in
    (
      after_insert b c,
      insert_single_block_lem b c p,
      rw (sym key) (rw (find_block-insert_new b.block_adr b' c.used_space new) refl),
    )

-- `putBlockIntoCache` of a block whose key the cache has changes no block: whatever file and offset is
-- asked for, the answer of `lookupBlockInCache` is that of before, and the key has its old block.
pub put_block_keeps :
    (hash : Text → ℕ) (b old : Block) (c : Cache)
    → find_block b.block_adr c.used_space ≡ some old
    → (find_block b.block_adr (put_block b c).used_space ≡ some old)
      × ((name : Text) (offset : ℕ)
          → lookup_block hash name offset (put_block b c) ≡ lookup_block hash name offset c)
unfolding put_block lookup_block
put_block_keeps hash b old c found =
    let same = insert_block-present b.block_adr b old c.used_space found in
    (
      ap (find_block b.block_adr) same ∙ found,
      λ name offset. ap (λ u. lookup_block hash name offset (record c { used_space = u })) same,
    )
