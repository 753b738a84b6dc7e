-- ===== src/Cache/Harvest/Reference.antt =====
-- A round of `harvestingFunc` against a description of it: sort the clean blocks, keep the oldest.
use cse511_project.Prelude.{
  ℕ, ◌-◌, ◌≤◌, ◌<◌, ◌≡◌, refl, ◌∙◌, sym, ap, inl, inr, List, [], ◌∷◌, arith, length, ltb, leb, ◌==◌,
  if◌then◌else◌, if_true, if_false, if-either, Bool-cases, le_or_lt,
}
use cse511_project.Cache.{Block, Used, Cache, free_list_max, free_list_min}
use cse511_project.Cache.Harvest.{push, offer, harvest_scan}
use cse511_project.Cache.Harvest.Lru.{
  AtMost, AtMost-mono, IsDescending, length-push, push-IsDescending,
}
use cse511_project.Cache.Harvest.Oldest.{harvested}

-- The clean blocks in the order of their access times, the newest first.
unfoldable pub sorted_clean : List Block → Used → List Block
unfolding push
sorted_clean q [] = q
sorted_clean q ((j, b) ∷ u) = sorted_clean (if b.status == b'C' then push b q else q) u

-- The last `k` blocks.
unfoldable pub last_blocks : ℕ → List Block → List Block
last_blocks k [] = []
last_blocks k (x ∷ q) = let rest = last_blocks k q in if leb k (length q) then rest else x ∷ q

last_blocks-short : (k : ℕ) (q : List Block) → length q ≤ k → last_blocks k q ≡ q
unfolding last_blocks
last_blocks-short k [] h = refl
last_blocks-short k (x ∷ q) h = ground (arith, h)

length-last_blocks : (k : ℕ) (q : List Block) → length (last_blocks k q) ≤ k
unfolding last_blocks
length-last_blocks k [] = omega arith
length-last_blocks k (x ∷ q) = ground (arith, length-last_blocks k q)

last_blocks_long :
    (k : ℕ) (x : Block) (q : List Block) → k ≤ length q → last_blocks k (x ∷ q) ≡ last_blocks k q
unfolding last_blocks
last_blocks_long k x q h = if_true (leb k (length q)) _ _ (ground (arith, h))

-- `offer` pushes the block and drops the top where there are too many.
offer-last_blocks :
    (k : ℕ) (b : Block) (q : List Block)
    → 0 < k
    → length q ≤ k
    → offer k b q ≡ last_blocks k (push b q)
unfolding offer push last_blocks
offer-last_blocks k b [] p h = ground (arith, p)
offer-last_blocks k b (x ∷ q) p h =
    let rest = last_blocks-short k (push b q) (omega (arith, length-push b q, h)) in
    ground (arith, h, length-push b q, rest, last_blocks-short k q (omega (arith, h)))

-- A block not older than the others comes in front.
push-AtMost_front : (b : Block) (q : List Block) → AtMost b.access_time q → push b q ≡ b ∷ q
unfolding push
push-AtMost_front b [] a = refl
push-AtMost_front b (x ∷ q) a = ground (arith, a.0)

-- To drop blocks before a push changes nothing.
last_blocks-push :
    (k : ℕ) (b : Block) (q : List Block)
    → IsDescending q
    → last_blocks k (push b (last_blocks k q)) ≡ last_blocks k (push b q)
unfolding last_blocks push
last_blocks-push k b [] d = refl
last_blocks-push k b (x ∷ q) d = elim (le_or_lt k (length q)) [
  | inr h ↦ ap (λ r. last_blocks k (push b r)) (last_blocks-short k (x ∷ q) h)
  | inl h ↦
      ap (λ r. last_blocks k (push b r)) (last_blocks_long k x q h)
      ∙ last_blocks-push k b q d.1
      ∙ elim (Bool-cases (ltb b.access_time x.access_time)) [
        | inl t ↦ sym (
            ap (last_blocks k) (if_true (ltb b.access_time x.access_time) _ _ t)
            ∙ last_blocks_long k x (push b q) (omega (arith, length-push b q, h)))
        | inr t ↦
            let below = AtMost-mono x.access_time b.access_time q (ground (arith, t)) d.0 in
            ap (last_blocks k) (push-AtMost_front b q below)
            ∙ last_blocks_long k b q h
            ∙ sym (
                ap (last_blocks k) (if_false (ltb b.access_time x.access_time) _ _ t)
                ∙ last_blocks_long k b (x ∷ q) (omega (arith, h))
                ∙ last_blocks_long k x q h)
      ]
]

-- The scan keeps the last blocks of the sorted ones.
scan-last_blocks :
    (k : ℕ) (q : List Block) (u : Used)
    → 0 < k
    → IsDescending q
    → harvest_scan k (last_blocks k q) u ≡ last_blocks k (sorted_clean q u)
unfolding harvest_scan sorted_clean
scan-last_blocks k q [] p d = refl
scan-last_blocks k q ((j, b) ∷ u) p d = elim (Bool-cases (b.status == b'C')) [
  | inl t ↦
      let one : offer k b (last_blocks k q) ≡ last_blocks k (push b q) =
        offer-last_blocks k b (last_blocks k q) p (length-last_blocks k q)
        ∙ last_blocks-push k b q d in
      ap (λ r. harvest_scan k r u) (if_true (b.status == b'C') _ _ t ∙ one)
      ∙ scan-last_blocks k (push b q) u p (push-IsDescending b q d)
      ∙ sym (ap (λ r. last_blocks k (sorted_clean r u)) (if_true (b.status == b'C') _ _ t))
  | inr t ↦
      ap (λ r. harvest_scan k r u) (if_false (b.status == b'C') _ _ t)
      ∙ scan-last_blocks k q u p d
      ∙ sym (ap (λ r. last_blocks k (sorted_clean r u)) (if_false (b.status == b'C') _ _ t))
]

sorted_clean-IsDescending :
    (q : List Block) (u : Used) → IsDescending q → IsDescending (sorted_clean q u)
unfolding sorted_clean
sorted_clean-IsDescending q [] d = d
sorted_clean-IsDescending q ((j, b) ∷ u) d =
    sorted_clean-IsDescending (if b.status == b'C' then push b q else q) u
      (if-either IsDescending (b.status == b'C') _ _ (push-IsDescending b q d) d)

-- With fewer free blocks than FREE_LIST_MIN_T, the blocks that a round of the harvester takes are those
-- that sorting all clean blocks of the cache, the newest first, has last: as many as fill the free list
-- up to FREE_LIST_MAX_T, or all clean blocks where these are fewer.
pub harvested-sorted_clean :
    (c : Cache)
    → c.free_size < free_list_min
    → (harvested c ≡ last_blocks (free_list_max - c.free_size) (sorted_clean [] c.used_space))
      × IsDescending (sorted_clean [] c.used_space)
unfolding last_blocks
harvested-sorted_clean c low = (
  scan-last_blocks (free_list_max - c.free_size) [] c.used_space (omega (arith, low)) tt,
  sorted_clean-IsDescending [] c.used_space tt,
)
