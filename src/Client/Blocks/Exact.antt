-- ===== src/Client/Blocks/Exact.antt =====
-- Which bytes of a block a write changes.
use cse511_project.Prelude.{
  ℕ, zero, suc, ◌+◌, ◌-◌, ◌%◌, ◌^◌, ◌≤◌, ◌≡◌, ◌≢◌, refl, ◌∙◌, subst, true, false, ◌&&◌, Option,
  some, Text, length, length-set, set, get_elem?, get_elem?_in, get_elem?-set_self,
  get_elem?-set_ne, leb, ltb, ◌==◌, arith, if◌then◌else◌, Bool-cases, inl, inr,
}
use cse511_project.Recipe.{FileRecipe}
use cse511_project.Cache.{Block, Cache, block_id, find_block, update_block, touch_block}
use cse511_project.Cache.Lookup.{find_block-update_block, find_block-update_other}
use cse511_project.Client.Blocks.{gets, copy_bytes, dirty, write_found, write_block}
use cse511_project.Client.Blocks.Copies.{copy_bytes_step}
use cse511_project.Client.Blocks.Stored.{lookup_block-present, get_block-present}

-- The bytes from `start` to `end` come from the buffer, from `base` on; the others stay.
abbrev pub Patch : ℕ → ℕ → ℕ → Text → Text → Text → Type 0
Patch start end base buf old bytes =
    (length bytes ≡ length old)
    × ((j : ℕ)
        → get_elem? bytes j
          ≡ (if leb start j && ltb j end then get_elem? buf (base + j) else get_elem? old j))

pub copy_bytes-Patch :
    (rounds start base : ℕ) (buf old : Text)
    → start + rounds ≤ length old
    → base + start + rounds ≤ length buf
    → (bytes : Text) × (copy_bytes rounds start base buf old ≡ some bytes)
      × Patch start (start + rounds) base buf old bytes
unfolding copy_bytes
copy_bytes-Patch zero start base buf old inside from = (old, refl, (refl, λ j. ground arith))
copy_bytes-Patch (suc rounds) start base buf old inside from =
    let (v, at) = get_elem?_in buf (base + start) (omega (arith, from)) in
    let next = set old start v in
    let size : length next ≡ length old = length-set old start v in
    let (bytes, run, patch) =
      copy_bytes-Patch rounds (suc start) base buf next (omega (arith, inside, size))
        (omega (arith, from)) in
    (
      bytes,
      copy_bytes_step rounds start base buf old v at ∙ run,
      (
        patch.0 ∙ size,
        λ j. elim (Bool-cases (start == j)) [
          | inl e ↦
              let same : start ≡ j = ground (arith, e) in
              subst
                (λ i. get_elem? bytes i ≡ (
                  if leb start i && ltb i (start + suc rounds)
                  then get_elem? buf (base + i)
                  else get_elem? old i))
                same
                (ground (
                  arith,
                  patch.1 start,
                  get_elem?-set_self old start v (omega (arith, inside)),
                  at,
                ))
          | inr e ↦
              let other : start ≢ j = λ q. absurd (ground (arith, e, q)) in
              let kept : get_elem? next j ≡ get_elem? old j = get_elem?-set_ne old v other in
              ground (arith, e, patch.1 j, kept)
        ],
      ),
    )

module _ (hash : Text → ℕ) (name : Text) where
  -- The cache after a write to block `i`, which is `b`.
  abbrev pub overwritten : ℕ → Block → Text → Cache → Cache
  overwritten i b bytes c =
      let k = block_id hash name i in
      let b' = record b { access_time = c.last_access } in
      record c {
        used_space = update_block k (dirty bytes b') (update_block k b' c.used_space);
        last_access = (c.last_access + 1) % 2 ^ 64;
      }

  pub write_block-present :
      (serve : Text → ℕ → Text → Option Text) (recipe : Option FileRecipe) (i start end base : ℕ)
      (buf bytes : Text) (b : Block) (c : Cache)
      → find_block (block_id hash name i) c.used_space ≡ some b
      → copy_bytes (end + 1 - start) start base buf b.data_ ≡ some bytes
      → write_block hash serve name recipe true i start end base buf c
        ≡ gets (overwritten i b bytes c)
  unfolding write_block write_found touch_block
  write_block-present serve recipe i start end base buf bytes b c found copied =
      rw (lookup_block-present hash name i b c found)
        (rw (get_block-present hash name i b c found) (rw (copied, write_found) refl))

  pub overwritten-found :
      (i : ℕ) (b : Block) (bytes : Text) (c : Cache)
      → find_block (block_id hash name i) c.used_space ≡ some b
      → find_block (block_id hash name i) (overwritten i b bytes c).used_space
        ≡ some (dirty bytes (record b { access_time = c.last_access }))
  overwritten-found i b bytes c found =
      let k = block_id hash name i in
      let b' = record b { access_time = c.last_access } in
      find_block-update_block k (dirty bytes b') b' (update_block k b' c.used_space)
        (find_block-update_block k b' b c.used_space found)

  pub overwritten-other :
      (k i : ℕ) (b : Block) (bytes : Text) (c : Cache)
      → (block_id hash name i == k) ≡ false
      → find_block k (overwritten i b bytes c).used_space ≡ find_block k c.used_space
  overwritten-other k i b bytes c other =
      let key = block_id hash name i in
      let b' = record b { access_time = c.last_access } in
      find_block-update_other k key (dirty bytes b') (update_block key b' c.used_space) other
      ∙ find_block-update_other k key b' c.used_space other
