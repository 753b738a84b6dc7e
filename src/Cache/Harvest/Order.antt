-- ===== src/Cache/Harvest/Order.antt =====
-- The harvester does not depend on the order in which `usedSpace` is run through.
use mathlib.Core.List.{Permᴰ}
use cse511_project.Prelude.{
  ℕ, ◌+◌, ◌-◌, ◌<◌, ◌≡◌, ◌≢◌, refl, ◌∙◌, sym, ap, subst, List, [], ◌∷◌, All, arith, length, none,
  ltb, ◌==◌, if◌then◌else◌, if_true,
}
use cse511_project.Cache.{Block, Used, Cache, find_block, free_list_max, free_list_min}
use cse511_project.Cache.Capacity.{AreKeyed}
use cse511_project.Cache.Harvest.{push, harvest}
use cse511_project.Cache.Harvest.Oldest.{harvested, harvest_left}
use cse511_project.Cache.Harvest.Lru.{in_queue}
use cse511_project.Cache.Harvest.Reference.{sorted_clean, last_blocks, harvested-sorted_clean}

-- No other block was used at the time.
abbrev pub IsApart : ℕ × Block → ℕ × Block → Type 0
IsApart (j, b) (i, c) = b.access_time ≢ c.access_time

-- No two blocks were used at the same time.
abbrev pub AreApart : Used → Type 0
AreApart [] = Unit
AreApart (e ∷ u) = All (IsApart e) u × AreApart u

push-push :
    (b c : Block) (q : List Block)
    → b.access_time ≢ c.access_time
    → push b (push c q) ≡ push c (push b q)
unfolding push
push-push b c [] h = ground (arith, h)
push-push b c (x ∷ q) h = ground (arith, h, push-push b c q h)

All-Permᴰ : {A : Type 0} (P : A → Type 0) {l l' : List A} → Permᴰ l l' → All P l → All P l'
All-Permᴰ P Permᴰ.nil h = tt
All-Permᴰ P (Permᴰ.cons e p) h = (subst P e h.0, All-Permᴰ P p h.1)
All-Permᴰ P (Permᴰ.swap e e') h = (subst P e' h.1.0, (subst P e h.0, h.1.1))
All-Permᴰ P (Permᴰ.trans p p') h = All-Permᴰ P p' (All-Permᴰ P p h)

AreApart-Permᴰ : {u u' : Used} → Permᴰ u u' → AreApart u → AreApart u'
AreApart-Permᴰ Permᴰ.nil h = tt
AreApart-Permᴰ (Permᴰ.cons {a = a} {b = b} {l₂ = l₂} e p) h =
    (subst (λ x. All (IsApart x) l₂) e (All-Permᴰ (IsApart a) p h.0), AreApart-Permᴰ p h.1)
AreApart-Permᴰ (Permᴰ.swap {a = a} {b = b} {b' = b'} {l = l} e e') h =
    subst (λ y. AreApart (y ∷ b' ∷ l)) e'
      (subst (λ x. AreApart (b ∷ x ∷ l)) e ((λ same. h.0.0 (sym same), h.1.0), (h.0.1, h.1.1)))
AreApart-Permᴰ (Permᴰ.trans p p') h = AreApart-Permᴰ p' (AreApart-Permᴰ p h)

-- One entry of the loop.
abbrev pub take_in : ℕ × Block → List Block → List Block
take_in (j, b) q = if b.status == b'C' then push b q else q

take_in-take_in :
    (a b : ℕ × Block) (q : List Block)
    → IsApart a b
    → take_in b (take_in a q) ≡ take_in a (take_in b q)
take_in-take_in (j, b) (i, c) q h = ground (arith, push-push b c q h)

-- The order of the entries does not count.
sorted_clean-Permᴰ :
    {u u' : Used} (q : List Block) → Permᴰ u u' → AreApart u → sorted_clean q u ≡ sorted_clean q u'
unfolding sorted_clean
sorted_clean-Permᴰ q Permᴰ.nil h = refl
sorted_clean-Permᴰ q (Permᴰ.cons {a = a} {b = b} {l₁ = l₁} {l₂ = l₂} e p) h =
    sorted_clean-Permᴰ (take_in a q) p h.1 ∙ ap (λ x. sorted_clean (take_in x q) l₂) e
sorted_clean-Permᴰ q (Permᴰ.swap {a = a} {b = b} {a' = a'} {b' = b'} {l = l} e e') h =
    ap (λ r. sorted_clean r l) (take_in-take_in a b q h.0.0)
    ∙ ap (λ x. sorted_clean (take_in x (take_in b q)) l) e
    ∙ ap (λ x. sorted_clean (take_in b' (take_in x q)) l) e'
sorted_clean-Permᴰ q (Permᴰ.trans p p') h =
    sorted_clean-Permᴰ q p h ∙ sorted_clean-Permᴰ q p' (AreApart-Permᴰ p h)

-- Entries under their own addresses, and each found from the other list too.
abbrev pub SameFinds : Used → Used → Type 0
SameFinds u u' = AreKeyed u' × ((k : ℕ) → find_block k u ≡ find_block k u')

SameFinds-cons :
    (a : ℕ × Block) (u u' : Used) → AreKeyed (a ∷ u) → SameFinds u u' → SameFinds (a ∷ u) (a ∷ u')
unfolding find_block
SameFinds-cons (j, b) u u' h same =
    ((h.0, sym (same.1 j) ∙ h.1, same.0), λ k. ground (arith, same.1 k))

SameFinds-swap :
    (a b : ℕ × Block) (u : Used) → AreKeyed (a ∷ b ∷ u) → SameFinds (a ∷ b ∷ u) (b ∷ a ∷ u)
unfolding find_block
SameFinds-swap (j, b) (i, c) u h =
    let other : j ≢ i = λ e. absurd (ground (arith, h.1, e)) in
    (
      (h.2.0, ground (arith, other, h.2.1), (h.0, ground (arith, other, h.1), h.2.2)),
      λ k. ground (arith, other),
    )

find_block-Permᴰ : {u u' : Used} → Permᴰ u u' → AreKeyed u → SameFinds u u'
find_block-Permᴰ Permᴰ.nil h = (tt, λ k. refl)
find_block-Permᴰ (Permᴰ.cons {a = a} {l₁ = l₁} {l₂ = l₂} e p) h =
    subst (λ x. SameFinds (a ∷ l₁) (x ∷ l₂)) e (SameFinds-cons a l₁ l₂ h (find_block-Permᴰ p h.2))
find_block-Permᴰ (Permᴰ.swap {a = a} {b = b} {b' = b'} {l = l} e e') h =
    subst (λ y. SameFinds (a ∷ b ∷ l) (y ∷ b' ∷ l)) e'
      (subst (λ x. SameFinds (a ∷ b ∷ l) (b ∷ x ∷ l)) e (SameFinds-swap a b l h))
find_block-Permᴰ (Permᴰ.trans p p') h =
    let s = find_block-Permᴰ p h in let t = find_block-Permᴰ p' s.0 in (t.0, λ k. s.1 k ∙ t.1 k)

harvest-free_size :
    (c : Cache)
    → c.free_size < free_list_min
    → (harvest c).free_size ≡ c.free_size + length (harvested c)
unfolding harvest
harvest-free_size c low =
    ap (λ r. Cache.free_size r) (if_true (ltb c.free_size free_list_min) _ _ (ground (arith, low)))

-- Two caches with the same entries in another order, each under its own address once and no two used at
-- the same time, with as many free blocks, fewer than FREE_LIST_MIN_T: a round of the harvester takes
-- the same blocks in the same order from both, leaves as many free blocks and finds the same blocks
-- under each address.
pub harvest-Permᴰ :
    (c : Cache) (u : Used)
    → Permᴰ c.used_space u
    → AreKeyed c.used_space
    → AreApart c.used_space
    → c.free_size < free_list_min
    → (harvested c ≡ harvested (record c { used_space = u }))
      × ((harvest c).free_size ≡ (harvest (record c { used_space = u })).free_size)
      × ((k : ℕ)
          → find_block k (harvest c).used_space
            ≡ find_block k (harvest (record c { used_space = u })).used_space)
harvest-Permᴰ c u p keyed apart low =
    let c' = record c { used_space = u } in
    let same : harvested c ≡ harvested c' =
      (harvested-sorted_clean c low).0
      ∙ ap (last_blocks (free_list_max - c.free_size)) (sorted_clean-Permᴰ [] p apart)
      ∙ sym (harvested-sorted_clean c' low).0 in
    let (keyed', finds) = find_block-Permᴰ p keyed in
    (
      same,
      harvest-free_size c low
          ∙ ap (λ q. c.free_size + length q) same
          ∙ sym (harvest-free_size c' low),
      λ k.
          harvest_left c k low
          ∙ ap (λ q. if in_queue k q then none else find_block k c.used_space) same
          ∙ ap (λ o. if in_queue k (harvested c') then none else o) (finds k)
          ∙ sym (harvest_left c' k low),
    )
