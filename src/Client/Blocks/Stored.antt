-- ===== src/Client/Blocks/Stored.antt =====
-- What a write leaves in the cache, and which read finds it.

use cse511_project.Prelude.{
  ℕ, zero, suc, ◌+◌, ◌-◌, ◌≤◌, ◌<◌, ◌≡◌, refl, ◌∙◌, sym, ap, subst, Bool, true, false, ◌&&◌, List,
  ◌∷◌, ◌++◌, Option, none, some, pos, Text, All, length, replicate, arith, if_false,
}
use cse511_project.Recipe.{FileRecipe}
use cse511_project.Striping.{offset_within}
use cse511_project.Cache.{Block, Cache, block_id, find_block, lookup_block, get_block, touch_block}
use cse511_project.Cache.Capacity.{after_insert, insert_single_block_lem, insert_block-present}
use cse511_project.Cache.Lookup.{find_block-insert_new}
use cse511_project.Metadata.Dispatch.Handled.{NotZero}
use cse511_project.Client.Blocks.{
  gets, fails, and_then, of_option, no_free_block, bad_memory, copy_bytes, c_data, dirty, zero_data,
  write_fetched, read_found, read_block, write_block,
}
use cse511_project.Client.Blocks.Copies.{
  copy_bytes_front, c_data-append, c_data-none, copy_bytes_outside,
}
use cse511_project.Client.Blocks.Fetched.{empty_block, fetch_block_empty, zero_data_first, Answers}

replicate_sum : (n m : ℕ) → replicate {A = ℕ} n 0 ++ replicate m 0 ≡ replicate (n + m) 0
replicate_sum zero m = ap (λ k. replicate k 0) (omega arith)
replicate_sum (suc n) m =
    let front : suc (n + m) ≡ suc n + m = omega arith in
    ap (◌∷◌ 0) (replicate_sum n m) ∙ ap (λ k. replicate {A = ℕ} k 0) front

-- The array of a block of zeros after the copy of `buf`.
unfoldable pub written : Text → Text
written buf = buf ++ 0 ∷ replicate (1023 - length buf) 0

copy_bytes-zero_data :
    (buf more : Text)
    → length buf < 1024
    → copy_bytes (length buf) 0 0 (buf ++ more) zero_data ≡ some (written buf)
unfolding written
copy_bytes-zero_data buf more h =
    let left = suc (1023 - length buf) in
    let all : length buf + left ≡ 1024 = omega (arith, h) in
    let split : zero_data ≡ replicate (length buf) 0 ++ replicate left 0 =
      zero_data_first
      ∙ ap (λ k. replicate {A = ℕ} k 0) (sym all)
      ∙ sym (replicate_sum (length buf) left) in
    ap (copy_bytes (length buf) 0 0 (buf ++ more)) split ∙ copy_bytes_front buf more left

pub lookup_block-absent :
    (hash : Text → ℕ) (name : Text) (i : ℕ) (c : Cache)
    → find_block (block_id hash name i) c.used_space ≡ none
    → lookup_block hash name i c ≡ false
unfolding lookup_block
lookup_block-absent hash name i c h = rw (h, lookup_block) refl

pub lookup_block-present :
    (hash : Text → ℕ) (name : Text) (i : ℕ) (b : Block) (c : Cache)
    → find_block (block_id hash name i) c.used_space ≡ some b
    → lookup_block hash name i c ≡ true
unfolding lookup_block
lookup_block-present hash name i b c h = rw (h, lookup_block) refl

pub get_block-present :
    (hash : Text → ℕ) (name : Text) (i : ℕ) (b : Block) (c : Cache)
    → find_block (block_id hash name i) c.used_space ≡ some b
    → get_block hash name i c ≡ touch_block hash (block_id hash name i) (some b) c
unfolding get_block
get_block-present hash name i b c h = rw (h, get_block) refl

-- A marked block that the cache has is read from it.
pub read_block-present :
    (hash : Text → ℕ) (serve : Text → ℕ → Text → Option Text) (name : Text)
    (recipe : Option FileRecipe) (i : ℕ) (b : Block) (text : Text) (c : Cache)
    → find_block (block_id hash name i) c.used_space ≡ some b
    → c_data b.data_ ≡ some text
    → (c' : Cache) × (read_block hash serve name recipe true i c ≡ gets (text, c'))
unfolding read_block read_found touch_block
read_block-present hash serve name recipe i b text c h e =
    let k = block_id hash name i in
    (
      (touch_block hash k (some b) c).1,
      rw (lookup_block-present hash name i b c h)
          (rw (get_block-present hash name i b c h) (rw (e, read_found) refl)),
    )

-- The block that the write makes.
abbrev pub written_block : (Text → ℕ) → Text → ℕ → Text → Block
written_block hash name offset buf = dirty (written buf) (empty_block hash name offset)

write_fetched_lem :
    (start end base : ℕ) (buf bytes : Text) (c : Cache) (b : Block)
    → copy_bytes (end + 1 - start) start base buf b.data_ ≡ some bytes
    → 0 < c.free_size
    → write_fetched start end base buf c b ≡ gets (after_insert (dirty bytes b) c)
unfolding write_fetched of_option
write_fetched_lem start end base buf bytes c b h free =
    rw (h, write_fetched)
      (ap (of_option no_free_block) (insert_single_block_lem (dirty bytes b) c free))

module _ (hash : Text → ℕ) (serve : Text → ℕ → Text → Option Text) (name : Text) (i w : ℕ)
    (mask : List Bool) (marked : Bool) (buf more : Text) (c : Cache) (h : 0 < w) (g : w ≤ 5)
    (answers : Answers serve) (p : 0 < length buf) (q : length buf < 1024) (free : 0 < c.free_size)
    (misses : (marked && lookup_block hash name i c) ≡ false) where
  pub write_block-absent :
      write_block hash serve name
        (some (record { stripe_width = pos w; stripe_mask = mask }))
        marked
        i
        0
        (length buf - 1)
        0
        (buf ++ more)
        c
      ≡ gets (after_insert (written_block hash name (offset_within i w) buf) c)
  unfolding write_block and_then
  write_block-absent =
      let rounds : length buf ≡ length buf - 1 + 1 - 0 = omega (arith, p) in
      if_false (marked && lookup_block hash name i c) _ _ misses
      ∙ ap (λ x. and_then x (write_fetched 0 (length buf - 1) 0 (buf ++ more) c))
          (fetch_block_empty hash serve name i w mask h g answers)
      ∙ write_fetched_lem 0 (length buf - 1) 0 (buf ++ more) (written buf) c
          (empty_block hash name (offset_within i w))
          (subst (λ n. copy_bytes n 0 0 (buf ++ more) zero_data ≡ some (written buf)) rounds
            (copy_bytes-zero_data buf more q))
          free

  -- A block is written from its front with less than 1024 bytes, none of them 0, for a stripe width from
  -- 1 to 5 and servers that answer, where the block is not marked or not found, a block is free and the
  -- key of its place on its server is not in the cache. The write goes well, and a later read of the
  -- marked block whose number is that place gives the bytes, whatever the servers answer then.
  pub read_block-write_block :
      All NotZero buf
      → find_block (block_id hash name (offset_within i w)) c.used_space ≡ none
      → (c' : Cache) × (write_block hash serve name
            (some (record { stripe_width = pos w; stripe_mask = mask }))
            marked
            i
            0
            (length buf - 1)
            0
            (buf ++ more)
            c
          ≡ gets c')
        × ((again : Text → ℕ → Text → Option Text) (recipe : Option FileRecipe)
            → (c'' : Cache) × (read_block hash again name recipe true (offset_within i w) c'
                ≡ gets (buf, c'')))
  unfolding block_id written
  read_block-write_block solid new =
      let b = written_block hash name (offset_within i w) buf in
      let b' = record b { access_time = c.last_access } in
      (
        after_insert b c,
        write_block-absent,
        λ again recipe.
            read_block-present hash again name recipe (offset_within i w) b' buf (after_insert b c)
              (find_block-insert_new b.block_adr b' c.used_space new)
              (c_data-append buf (replicate (1023 - length buf) 0) solid),
      )

  -- A block that is not marked or not found in the cache is written from its front with 1 to 1023 bytes,
  -- for a stripe width from 1 to 5 and servers that answer, where a block is free and the cache has an
  -- entry under the key of the block's place on its server. The write goes well, but the entries of the
  -- cache stay as they were, so that the bytes are lost, and there is one free block less.
  pub write_block_lost :
      (old : Block)
      → find_block (block_id hash name (offset_within i w)) c.used_space ≡ some old
      → (c' : Cache) × (write_block hash serve name
            (some (record { stripe_width = pos w; stripe_mask = mask }))
            marked
            i
            0
            (length buf - 1)
            0
            (buf ++ more)
            c
          ≡ gets c')
        × (c'.used_space ≡ c.used_space)
        × (c'.free_size + 1 ≡ c.free_size)
  unfolding block_id
  write_block_lost old found =
      let b = written_block hash name (offset_within i w) buf in
      (
        after_insert b c,
        write_block-absent,
        insert_block-present b.block_adr (record b { access_time = c.last_access }) old c.used_space
            found,
        omega (arith, free),
      )

-- A marked block in the cache whose 1024 bytes are all different from 0 cannot be read: the string in the
-- array does not end in it.
pub read_block_full :
    (hash : Text → ℕ) (serve : Text → ℕ → Text → Option Text) (name : Text)
    (recipe : Option FileRecipe) (i : ℕ) (b : Block) (c : Cache)
    → find_block (block_id hash name i) c.used_space ≡ some b
    → All NotZero b.data_
    → read_block hash serve name recipe true i c ≡ fails bad_memory
unfolding read_block read_found touch_block
read_block_full hash serve name recipe i b c h full =
    rw (lookup_block-present hash name i b c h)
      (rw (get_block-present hash name i b c h) (rw (c_data-none b.data_ full, read_found) refl))

-- A write whose bytes reach behind the buffer reads outside of it.
pub write_block_outside :
    (hash : Text → ℕ) (serve : Text → ℕ → Text → Option Text) (name : Text) (i w : ℕ)
    (mask : List Bool) (marked : Bool) (start end base : ℕ) (buf : Text) (c : Cache)
    → 0 < w
    → w ≤ 5
    → Answers serve
    → (marked && lookup_block hash name i c) ≡ false
    → start ≤ end
    → length buf ≤ base + end
    → write_block hash serve name
        (some (record { stripe_width = pos w; stripe_mask = mask }))
        marked
        i
        start
        end
        base
        buf
        c
      ≡ fails bad_memory
unfolding write_block write_fetched and_then
write_block_outside hash serve name i w mask marked start end base buf c h g answers misses le far =
    let b = empty_block hash name (offset_within i w) in
    let outside =
      copy_bytes_outside (end + 1 - start) start base buf b.data_ (omega (arith, le))
        (omega (arith, le, far)) in
    if_false (marked && lookup_block hash name i c) _ _ misses
    ∙ ap (λ x. and_then x (write_fetched start end base buf c))
        (fetch_block_empty hash serve name i w mask h g answers)
    ∙ rw (outside, write_fetched) refl
