-- ===== src/Cache/Harvest/Oldest.antt =====
-- Which blocks a round of `harvestingFunc` takes.
use mathlib.Core.Option.{some-injective, none-ne-some}
use cse511_project.Prelude.{
  ℕ, ◌-◌, ◌≤◌, ◌<◌, ◌≡◌, ◌≢◌, refl, ◌∙◌, sym, ap, subst, inl, inr, true, List, [], ◌∷◌, none, some,
  arith, length, ltb, ◌==◌, if◌then◌else◌, if_true, if_false, if-either, Bool-cases,
}
use cse511_project.Cache.{Block, Used, Cache, find_block, erase_block, free_list_min, free_list_max}
use cse511_project.Cache.Capacity.{AreKeyed, find_block_adr, find_block-erase_block}
use cse511_project.Cache.Harvest.{offer, harvest_scan, release, harvest}
use cse511_project.Cache.Harvest.Lru.{
  AtMost, IsDescending, in_queue, Covered, Held, Others, offer-IsDescending, offer-Covered_new,
  Held-offer, scan-Covered,
}

absent-Others :
    (k : ℕ) (b : Block) (u : Used)
    → AreKeyed u
    → find_block k u ≡ none
    → b.block_adr ≡ k
    → Others b u
unfolding find_block
absent-Others k b [] h n e = tt
absent-Others k b ((j, x) ∷ u) h n e = (
  λ same. absurd (ground (arith, h.0, n, e, same)),
  absent-Others k b u h.2 (ground (arith, n)) e,
)

-- The scan covers a clean block of `usedSpace`, from the block on.
scan-Covered_first :
    (k j : ℕ) (b : Block) (q : List Block) (u : Used)
    → 0 < k
    → IsDescending q
    → Held b q
    → AreKeyed ((j, b) ∷ u)
    → b.status ≡ b'C'
    → Covered k b (harvest_scan k q ((j, b) ∷ u))
unfolding harvest_scan
scan-Covered_first k j b q u p d held h clean =
    subst (λ r. Covered k b (harvest_scan k r u))
      (sym (if_true (b.status == b'C') _ _ (ground (arith, clean))))
      (scan-Covered k b (offer k b q) u p (offer-IsDescending k b q d)
        (Held-offer k b b q (λ e. refl) held) (absent-Others j b u h.2 h.1 h.0)
        (offer-Covered_new k b q d))

-- From an entry before it on.
scan-Covered_clean :
    (k : ℕ) (a : ℕ) (b : Block) (q : List Block) (u : Used)
    → 0 < k
    → IsDescending q
    → Held b q
    → AreKeyed u
    → b.block_adr ≡ a
    → b.status ≡ b'C'
    → find_block a u ≡ some b
    → Covered k b (harvest_scan k q u)
unfolding harvest_scan find_block
scan-Covered_clean k a b q [] p d held h adr clean found = absurd (ground (arith, found))
scan-Covered_clean k a b q ((j, x) ∷ u) p d held h adr clean found = elim (Bool-cases (j == a)) [
  | inl t ↦
      let same : x ≡ b = some-injective x b (sym (if_true (j == a) _ _ t) ∙ found) in
      subst (λ y. Covered k b (harvest_scan k q ((j, y) ∷ u))) (sym same)
        (scan-Covered_first k j b q u p d held (subst (λ y. AreKeyed ((j, y) ∷ u)) same h) clean)
  | inr t ↦
      let rest = sym (if_false (j == a) _ _ t) ∙ found in
      let other : x.block_adr ≢ b.block_adr = λ e. absurd (ground (arith, h.0, t, adr, e)) in
      if-either (λ r. Covered k b (harvest_scan k r u)) (x.status == b'C') _ _
        (scan-Covered_clean k a b (offer k x q) u p (offer-IsDescending k x q d)
          (Held-offer k b x q (λ e. absurd (other e)) held) h.2 adr clean rest)
        (scan-Covered_clean k a b q u p d held h.2 adr clean rest)
]

find_block-release :
    (k : ℕ) (q : List Block) (u : Used)
    → find_block k (release q u) ≡ (if in_queue k q then none else find_block k u)
unfolding release
find_block-release k [] u = refl
find_block-release k (b ∷ q) u = ground (
  arith,
  find_block-release k q (erase_block b.block_adr u),
  find_block-erase_block k b.block_adr u,
)

-- The blocks that a round takes.
abbrev pub harvested : Cache → List Block
harvested c = harvest_scan (free_list_max - c.free_size) [] c.used_space

pub harvest_left :
    (c : Cache) (a : ℕ)
    → c.free_size < free_list_min
    → find_block a (harvest c).used_space
      ≡ (if in_queue a (harvested c) then none else find_block a c.used_space)
unfolding harvest
harvest_left c a low =
    ap (λ r. find_block a (Cache.used_space r))
      (if_true (ltb c.free_size free_list_min) _ _ (ground (arith, low)))
    ∙ find_block-release a (harvested c) c.used_space

-- A round of the harvester, with fewer free blocks than FREE_LIST_MIN_T and each used block under its
-- own address once: where a clean block is left, the queue was filled, and every block that was taken
-- was used at the same time or earlier.
pub harvest-AtMost :
    (c : Cache) (a : ℕ) (b : Block)
    → AreKeyed c.used_space
    → c.free_size < free_list_min
    → find_block a (harvest c).used_space ≡ some b
    → b.status ≡ b'C'
    → (free_list_max - c.free_size ≤ length (harvested c)) × AtMost b.access_time (harvested c)
harvest-AtMost c a b h low left clean = elim (Bool-cases (in_queue a (harvested c))) [
  | inl t ↦ absurd (
      none-ne-some b
        (sym (if_true (in_queue a (harvested c)) _ _ t) ∙ sym (harvest_left c a low) ∙ left))
  | inr t ↦
      let found =
        sym (if_false (in_queue a (harvested c)) _ _ t) ∙ sym (harvest_left c a low) ∙ left in
      let adr = find_block_adr a b c.used_space h found in
      elim (scan-Covered_clean (free_list_max - c.free_size) a b [] c.used_space
        (omega (arith, low)) tt tt h adr clean found) [
          | inl q ↦ absurd (ground (arith, subst (λ k. in_queue k (harvested c) ≡ true) adr q, t))
          | inr r ↦ r
        ]
]
