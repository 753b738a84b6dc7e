-- ===== src/Cache/Capacity.antt =====
-- The keys of `usedSpace`, and the number of blocks.
use cse511_project.Prelude.{
  ℕ, suc, ◌+◌, ◌-◌, ◌%◌, ◌^◌, ◌≤◌, ◌<◌, ◌≡◌, refl, sym, ap, subst, inl, inr, [], ◌∷◌, Option, none,
  some, arith, length, ◌==◌, if◌then◌else◌, if_true, if_false, Bool-cases, Option-cases, Text,
}
use cse511_project.Cache.{
  Block, Used, Cache, find_block, insert_block, erase_block, update_block, insert_single_block,
  get_block, touch_block, buffer_cache_capacity, block_id,
}

-- Each entry stands under the address of its block, and each address stands once.
abbrev pub AreKeyed : Used → Type 0
AreKeyed [] = Unit
AreKeyed ((j, b) ∷ u) = (b.block_adr ≡ j) × (find_block j u ≡ none) × AreKeyed u

pub record IsCache (c : Cache) : Type 0 where
  pub keyed : AreKeyed c.used_space
  pub bounded : c.free_size + length c.used_space ≤ buffer_cache_capacity

pub find_block-erase_block :
    (k j : ℕ) (u : Used)
    → find_block k (erase_block j u) ≡ (if j == k then none else find_block k u)
unfolding find_block erase_block
find_block-erase_block k j [] = ground arith
find_block-erase_block k j ((i, b) ∷ u) = ground (arith, find_block-erase_block k j u)

pub erase_block-AreKeyed : (k : ℕ) (u : Used) → AreKeyed u → AreKeyed (erase_block k u)
unfolding erase_block find_block
erase_block-AreKeyed k [] h = tt
erase_block-AreKeyed k ((j, b) ∷ u) h = elim (Bool-cases (j == k)) [
  | inl t ↦ subst AreKeyed (sym (if_true _ _ _ t)) (erase_block-AreKeyed k u h.2)
  | inr t ↦
      subst AreKeyed (sym (if_false _ _ _ t))
        (h.0, ground (arith, find_block-erase_block j k u, h.1), erase_block-AreKeyed k u h.2)
]

insert_block-AreKeyed :
    (k : ℕ) (b : Block) (u : Used) → b.block_adr ≡ k → AreKeyed u → AreKeyed (insert_block k b u)
unfolding insert_block
insert_block-AreKeyed k b u e h = elim (Option-cases (find_block k u)) [
  | inl n ↦ rw (n, insert_block) (e, n, h)
  | inr (x, n) ↦ rw (n, insert_block) h
]

length-insert_block : (k : ℕ) (b : Block) (u : Used) → length (insert_block k b u) ≤ suc (length u)
unfolding insert_block
length-insert_block k b u = elim (Option-cases (find_block k u)) [
  | inl n ↦ rw (n, insert_block) (omega arith)
  | inr (x, n) ↦ rw (n, insert_block) (omega arith)
]

update_block-find_none :
    (j k : ℕ) (b : Block) (u : Used)
    → find_block j u ≡ none
    → find_block j (update_block k b u) ≡ none
unfolding find_block update_block
update_block-find_none j k b [] h = refl
update_block-find_none j k b ((i, x) ∷ u) h = ground (arith, update_block-find_none j k b u)

pub update_block-AreKeyed :
    (k : ℕ) (b : Block) (u : Used) → b.block_adr ≡ k → AreKeyed u → AreKeyed (update_block k b u)
unfolding update_block
update_block-AreKeyed k b [] e h = tt
update_block-AreKeyed k b ((j, x) ∷ u) e h = elim (Bool-cases (j == k)) [
  | inl t ↦
      subst AreKeyed (sym (if_true _ _ _ t)) (
        ground (arith, e, t),
        update_block-find_none j k b u h.1,
        update_block-AreKeyed k b u e h.2,
      )
  | inr t ↦
      subst AreKeyed (sym (if_false _ _ _ t))
        (h.0, update_block-find_none j k b u h.1, update_block-AreKeyed k b u e h.2)
]

pub length-update_block : (k : ℕ) (b : Block) (u : Used) → length (update_block k b u) ≡ length u
unfolding update_block
length-update_block k b [] = refl
length-update_block k b ((j, x) ∷ u) = ground (arith, length-update_block k b u)

pub find_block_adr :
    (k : ℕ) (b : Block) (u : Used) → AreKeyed u → find_block k u ≡ some b → b.block_adr ≡ k
unfolding find_block
find_block_adr k b [] h e = ground arith
find_block_adr k b ((j, x) ∷ u) h e = ground (arith, find_block_adr k b u h.2)

pub touch_block-IsCache :
    (hash : Text → ℕ) (k : ℕ) (o : Option Block) (c : Cache)
    → find_block k c.used_space ≡ o
    → IsCache c
    → IsCache (touch_block hash k o c).1
unfolding touch_block
touch_block-IsCache hash k none c e h = h
touch_block-IsCache hash k (some b) c e h =
    let b' = record b { access_time = c.last_access } in
    record {
      keyed =
          update_block-AreKeyed k b' c.used_space (find_block_adr k b c.used_space h.keyed e)
            h.keyed;
      bounded = omega (arith, length-update_block k b' c.used_space, h.bounded);
    }

-- The cache after `insertSingleBlockIntoCache`.
abbrev pub after_insert : Block → Cache → Cache
after_insert b c = record {
  free_size = c.free_size - 1;
  used_space = insert_block b.block_adr (record b { access_time = c.last_access }) c.used_space;
  last_access = (c.last_access + 1) % 2 ^ 64;
}

pub insert_single_block_lem :
    (b : Block) (c : Cache) → 0 < c.free_size → insert_single_block b c ≡ some (after_insert b c)
unfolding insert_single_block
insert_single_block_lem b c h = if_false (c.free_size == 0) _ _ (ground (arith, h))

pub after_insert-IsCache :
    (b : Block) (c : Cache) → 0 < c.free_size → IsCache c → IsCache (after_insert b c)
after_insert-IsCache b c p h =
    let b' = record b { access_time = c.last_access } in
    record {
      keyed = insert_block-AreKeyed b.block_adr b' c.used_space refl h.keyed;
      bounded = omega (arith, p, length-insert_block b.block_adr b' c.used_space, h.bounded);
    }

-- `insertSingleBlockIntoCache`, where a block is free, and `getBlockFromCache` keep the cache in order:
-- each entry stands once, under the address of its block, and free and used blocks are at most as many
-- as the cache was made with.
pub operations-IsCache :
    (hash : Text → ℕ) (c : Cache) (b : Block) (name : Text) (offset : ℕ)
    → IsCache c
    → 0 < c.free_size
    → ((c' : Cache) × (insert_single_block b c ≡ some c') × IsCache c')
      × IsCache (get_block hash name offset c).1
unfolding get_block
operations-IsCache hash c b name offset h p =
    let k = block_id hash name offset in
    (
      (after_insert b c, insert_single_block_lem b c p, after_insert-IsCache b c p h),
      touch_block-IsCache hash k (find_block k c.used_space) c refl h,
    )

pub insert_block-present :
    (k : ℕ) (b old : Block) (u : Used) → find_block k u ≡ some old → insert_block k b u ≡ u
unfolding insert_block
insert_block-present k b old u found = rw (found, insert_block) refl

-- A block whose address the cache has already takes a free block and is not stored: the entry stays as
-- it was, and one block is lost to both lists.
pub insert_single_block_leaks :
    (b old : Block) (c : Cache)
    → 0 < c.free_size
    → find_block b.block_adr c.used_space ≡ some old
    → (c' : Cache) × (insert_single_block b c ≡ some c')
      × (c'.used_space ≡ c.used_space)
      × (suc (c'.free_size + length c'.used_space) ≡ c.free_size + length c.used_space)
insert_single_block_leaks b old c p found =
    let b' = record b { access_time = c.last_access } in
    let same = insert_block-present b.block_adr b' old c.used_space found in
    (after_insert b c, insert_single_block_lem b c p, same, omega (arith, p, ap length same))
