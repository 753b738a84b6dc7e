-- ===== src/Tests/Caching.antt =====
-- The cache at concrete inputs.
use cse511_project.Prelude.{zero, suc, ◌≡◌, refl, ℕ, ◌+◌, ◌≤◌, [], ◌∷◌, arith, codes, length}
use cse511_project.Recipe.{new_recipe}
use cse511_project.Cache.{Block, Used, Cache, new_cache, find_block}
use cse511_project.Cache.Capacity.{AreKeyed, IsCache, after_insert, insert_single_block_lem}
use cse511_project.Cache.Harvest.{harvest}
use cse511_project.Cache.Harvest.Conserved.{harvest_conserves}
use cse511_project.Cache.Harvest.Oldest.{harvested}
use cse511_project.Cache.Harvest.Lru.{IsDescending}
use cse511_project.Cache.Harvest.Reference.{last_blocks, sorted_clean, harvested-sorted_clean}
use cse511_project.Cache.Reachable.{Change, Reached, Reached-harvest}
use mathlib.Core.List.{Permᴰ}

abbrev block : ℕ → ℕ → Block
block offset time = record {
  block_adr = offset;
  data_ = codes "data";
  status = b'C';
  file_name = codes "f";
  block_offset = offset;
  access_time = time;
  file_recipe = new_recipe;
}

abbrev small : Cache
small = record {
  free_size = 2034;
  used_space =
      (9, block 9 90)
      ∷ (1, block 1 10)
      ∷ (2, block 2 20)
      ∷ (3, block 3 30)
      ∷ (4, block 4 40)
      ∷ (5, block 5 50)
      ∷ (6, block 6 60)
      ∷ (7, block 7 70)
      ∷ (8, block 8 80)
      ∷ [];
  last_access = 91;
}

small-AreKeyed : AreKeyed small.used_space
unfolding find_block
small-AreKeyed = (
  refl,
  refl,
  (
    refl,
    refl,
    (
      refl,
      refl,
      (refl, refl, (refl, refl, (refl, refl, (refl, refl, (refl, refl, (refl, refl, tt)))))),
    ),
  ),
)

small-IsCache : IsCache small
small-IsCache = record { keyed = small-AreKeyed; bounded = omega arith }

-- Of nine clean blocks eight are taken, and the one used last is left.
harvested-sorted_clean_example :
    (harvested small ≡ last_blocks 8 (sorted_clean [] small.used_space))
    × IsDescending (sorted_clean [] small.used_space)
harvested-sorted_clean_example = harvested-sorted_clean small (omega arith)

harvest_conserves_example :
    ((harvest small).free_size + length (harvest small).used_space ≡ 2034 + 9)
    × IsCache (harvest small)
harvest_conserves_example = harvest_conserves small small-IsCache

-- The cache after blocks 0 to `n - 1` were inserted.
abbrev filled : ℕ → Cache
filled zero = new_cache
filled (suc n) = after_insert (block n 0) (filled n)

filled_facts : (n : ℕ) → n ≤ 2000 → ((filled n).free_size + n ≡ 2048) × ((filled n).last_access ≡ n)
filled_facts zero h = (refl, refl)
filled_facts (suc n) h =
    let (free, last) = filled_facts n (omega (arith, h)) in
    (omega (arith, free, h), omega (arith, last, h))

filled-Reached : (n : ℕ) → n ≤ 2000 → Reached (filled n)
filled-Reached zero h = Reached.starts
filled-Reached (suc n) h =
    let (free, last) = filled_facts n (omega (arith, h)) in
    Reached.then_changes (filled-Reached n (omega (arith, h))) (
      Change.inserts (block n 0) (omega (arith, last, h))
        (insert_single_block_lem (block n 0) (filled n) (omega (arith, free, h))))

-- Another order of the fourteen blocks.
abbrev swapped : Used → Used
swapped [] = []
swapped (a ∷ []) = a ∷ []
swapped (a ∷ b ∷ u) = b ∷ a ∷ u

swapped-Permᴰ : (u : Used) → Permᴰ u (swapped u)
swapped-Permᴰ [] = Permᴰ.nil
swapped-Permᴰ (a ∷ []) = Permᴰ.cons refl Permᴰ.nil
swapped-Permᴰ (a ∷ b ∷ u) = Permᴰ.swap refl refl

Reached-harvest_example :
    (harvested (filled 14)
      ≡ harvested (record (filled 14) { used_space = swapped (filled 14).used_space }))
    × ((harvest (filled 14)).free_size
        ≡ (harvest (record (filled 14) { used_space = swapped (filled 14).used_space })).free_size)
    × ((k : ℕ)
        → find_block k (harvest (filled 14)).used_space
          ≡ find_block k
              (harvest
                (record (filled 14) { used_space = swapped (filled 14).used_space })).used_space)
Reached-harvest_example =
    Reached-harvest (filled 14) (swapped (filled 14).used_space) (filled-Reached 14 (omega arith))
      (swapped-Permᴰ (filled 14).used_space) (omega arith)
