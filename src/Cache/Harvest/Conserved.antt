-- ===== src/Cache/Harvest/Conserved.antt =====
-- A round of `harvestingFunc` loses no block.
use cse511_project.Prelude.{
  ℕ, suc, ◌+◌, ◌-◌, ◌≡◌, refl, ◌∙◌, sym, ap, subst, inl, inr, false, List, [], ◌∷◌, none, some,
  arith, length, All, leb, ltb, ◌==◌, if◌then◌else◌, if_true, if_false, if-either, Bool-cases,
}
use cse511_project.Cache.{Block, Used, Cache, find_block, erase_block, free_list_min, free_list_max}
use cse511_project.Cache.Capacity.{AreKeyed, IsCache, find_block-erase_block, erase_block-AreKeyed}
use cse511_project.Cache.Harvest.{push, offer, harvest_scan, release, harvest}
use cse511_project.Cache.Harvest.Lru.{in_queue, in_queue-push}

-- No two blocks of the queue have the same address.
abbrev pub IsDistinct : List Block → Type 0
IsDistinct [] = Unit
IsDistinct (x ∷ q) = (in_queue x.block_adr q ≡ false) × IsDistinct q

module _ (P : Block → Type 0) where
  All-push : (b : Block) (q : List Block) → P b → All P q → All P (push b q)
  unfolding push
  All-push b [] h a = (h, tt)
  All-push b (x ∷ q) h a =
      if-either (All P) (ltb b.access_time x.access_time) _ _ (a.0, All-push b q h a.1) (h, a)

  All-offer : (k : ℕ) (b : Block) (q : List Block) → P b → All P q → All P (offer k b q)
  unfolding offer
  All-offer k b [] h a = (h, tt)
  All-offer k b (x ∷ q) h a =
      if-either (All P) (leb k (length (x ∷ q))) _ _
        (if-either (All P) (ltb b.access_time x.access_time) _ _ (All-push b q h a.1) a)
        (All-push b (x ∷ q) h a)

  All-weaken : (Q : Block → Type 0) (q : List Block) → ((x : Block) → P x → Q x) → All P q → All Q q
  All-weaken Q [] f a = tt
  All-weaken Q (x ∷ q) f a = (f x a.0, All-weaken Q q f a.1)

push-IsDistinct :
    (b : Block) (q : List Block)
    → in_queue b.block_adr q ≡ false
    → IsDistinct q
    → IsDistinct (push b q)
unfolding push
push-IsDistinct b [] h d = (refl, tt)
push-IsDistinct b (x ∷ q) h d =
    if-either IsDistinct (ltb b.access_time x.access_time) _ _
      (
        ground (arith, in_queue-push x.block_adr b q, h, d.0),
        push-IsDistinct b q (ground (arith, h)) d.1,
      )
      (h, d)

offer-IsDistinct :
    (k : ℕ) (b : Block) (q : List Block)
    → in_queue b.block_adr q ≡ false
    → IsDistinct q
    → IsDistinct (offer k b q)
unfolding offer
offer-IsDistinct k b [] h d = (refl, tt)
offer-IsDistinct k b (x ∷ q) h d =
    if-either IsDistinct (leb k (length (x ∷ q))) _ _
      (if-either IsDistinct (ltb b.access_time x.access_time) _ _
        (push-IsDistinct b q (ground (arith, h)) d.1) d)
      (push-IsDistinct b (x ∷ q) h d)

-- The block's address is not in the list, or it is.
Absent : Used → Block → Type 0
Absent u x = find_block x.block_adr u ≡ none

Stored : Used → Block → Type 0
Stored u x = (y : Block) × (find_block x.block_adr u ≡ some y)

Absent-in_queue :
    (j : ℕ) (b : Block) (u : Used) (q : List Block)
    → All (Absent ((j, b) ∷ u)) q
    → in_queue j q ≡ false
unfolding Absent find_block
Absent-in_queue j b u [] a = refl
Absent-in_queue j b u (x ∷ q) a = ground (arith, a.0, Absent-in_queue j b u q a.1)

Absent-tail : (j : ℕ) (b x : Block) (u : Used) → Absent ((j, b) ∷ u) x → Absent u x
unfolding Absent find_block
Absent-tail j b x u h = ground (arith, h)

module _ (k : ℕ) (whole : Used) where
  -- The queue after the scan of the rest `u` of the list.
  scan-Stored :
      (q : List Block) (u : Used)
      → AreKeyed u
      → ((a : ℕ) (b : Block) → find_block a u ≡ some b → find_block a whole ≡ some b)
      → IsDistinct q
      → All (Absent u) q
      → All (Stored whole) q
      → IsDistinct (harvest_scan k q u) × All (Stored whole) (harvest_scan k q u)
  unfolding harvest_scan find_block Absent Stored
  scan-Stored q [] keyed part d a s = (d, s)
  scan-Stored q ((j, b) ∷ u) keyed part d a s =
      let inside : find_block j whole ≡ some b = part j b (ground arith) in
      let rest = All-weaken (Absent ((j, b) ∷ u)) (Absent u) q (λ x h. Absent-tail j b x u h) a in
      let fresh : in_queue b.block_adr q ≡ false =
        subst (λ i. in_queue i q ≡ false) (sym keyed.0) (Absent-in_queue j b u q a) in
      let next =
        if-either (λ r. IsDistinct r × (All (Absent u) r × All (Stored whole) r)) (b.status == b'C')
          (offer k b q) q
          (
            offer-IsDistinct k b q fresh d,
            (
              All-offer (Absent u) k b q (subst (λ i. find_block i u ≡ none) (sym keyed.0) keyed.1)
                  rest,
              All-offer (Stored whole) k b q
                  (b, subst (λ i. find_block i whole ≡ some b) (sym keyed.0) inside) s,
            ),
          )
          (d, (rest, s)) in
      scan-Stored (if b.status == b'C' then offer k b q else q) u keyed.2
        (λ i x h. part i x (ground (arith, keyed.1, h))) next.0 next.1.0 next.1.1

erase_block-absent : (k : ℕ) (u : Used) → find_block k u ≡ none → erase_block k u ≡ u
unfolding erase_block find_block
erase_block-absent k [] h = refl
erase_block-absent k ((j, x) ∷ u) h = elim (Bool-cases (j == k)) [
  | inl e ↦ absurd (ground (arith, e, h))
  | inr e ↦
      if_false (j == k) _ _ e
      ∙ ap (◌∷◌ (j, x)) (erase_block-absent k u (sym (if_false (j == k) _ _ e) ∙ h))
]

length-erase_block :
    (k : ℕ) (u : Used) (b : Block)
    → AreKeyed u
    → find_block k u ≡ some b
    → suc (length (erase_block k u)) ≡ length u
unfolding erase_block find_block
length-erase_block k [] b keyed h = ground arith
length-erase_block k ((j, x) ∷ u) b keyed h = elim (Bool-cases (j == k)) [
  | inl e ↦
      let same : j ≡ k = ground (arith, e) in
      let gone = erase_block-absent k u (subst (λ i. find_block i u ≡ none) same keyed.1) in
      ap (λ (t : Used). suc (length t)) (if_true (j == k) _ _ e ∙ gone)
  | inr e ↦
      ap (λ (t : Used). suc (length t)) (if_false (j == k) _ _ e)
      ∙ ap (λ (n : ℕ). suc n) (length-erase_block k u b keyed.2 (sym (if_false (j == k) _ _ e) ∙ h))
]

-- What is stored under other addresses stays stored.
Stored-erase_block :
    (k : ℕ) (u : Used) (q : List Block)
    → in_queue k q ≡ false
    → All (Stored u) q
    → All (Stored (erase_block k u)) q
unfolding Stored
Stored-erase_block k u [] h s = tt
Stored-erase_block k u (x ∷ q) h s =
    let (y, found) = s.0 in
    (
      (y, ground (arith, h, found, find_block-erase_block x.block_adr k u)),
      Stored-erase_block k u q (ground (arith, h)) s.1,
    )

release-AreKeyed : (q : List Block) (u : Used) → AreKeyed u → AreKeyed (release q u)
unfolding release
release-AreKeyed [] u h = h
release-AreKeyed (b ∷ q) u h =
    release-AreKeyed q (erase_block b.block_adr u) (erase_block-AreKeyed b.block_adr u h)

length-release :
    (q : List Block) (u : Used)
    → AreKeyed u
    → IsDistinct q
    → All (Stored u) q
    → length (release q u) + length q ≡ length u
unfolding release Stored
length-release [] u keyed d s = omega arith
length-release (b ∷ q) u keyed d s =
    let k = b.block_adr in
    let rest =
      length-release q (erase_block k u) (erase_block-AreKeyed k u keyed) d.1
        (Stored-erase_block k u q d.0 s.1) in
    omega (arith, rest, length-erase_block k u s.0.0 keyed s.0.1)

-- In a cache whose entries stand under the addresses of their blocks, each address once, a round of
-- `harvestingFunc` keeps the number of blocks, free and used together, and the entries stay keyed.
pub harvest_conserves :
    (c : Cache)
    → IsCache c
    → ((harvest c).free_size + length (harvest c).used_space ≡ c.free_size + length c.used_space)
      × IsCache (harvest c)
unfolding harvest Absent
harvest_conserves c h =
    let k = free_list_max - c.free_size in
    let (distinct, stored) =
      scan-Stored k c.used_space [] c.used_space h.keyed (λ a b e. e) tt tt tt in
    let q = harvest_scan k [] c.used_space in
    let kept = length-release q c.used_space h.keyed distinct stored in
    let after = record c {
      free_size = c.free_size + length q;
      used_space = release q c.used_space;
    } in
    if-either
      (λ (r : Cache).
        (r.free_size + length r.used_space ≡ c.free_size + length c.used_space) × IsCache r)
      (ltb c.free_size free_list_min) after c
      (
        omega (arith, kept),
        record {
          keyed = release-AreKeyed q c.used_space h.keyed;
          bounded = omega (arith, kept, h.bounded);
        },
      )
      (refl, h)
