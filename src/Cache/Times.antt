-- ===== src/Cache/Times.antt =====
-- The access times of the blocks of a cache, from the start of the program on.
use cse511_project.Prelude.{
  ℕ, ◌<◌, ◌≡◌, refl, ◌∙◌, sym, ap, subst, List, [], ◌∷◌, none, some, All, arith, ◌==◌, if_true,
  if_false, if-either, Bool-cases, inl, inr,
}
use mathlib.Core.Option.{some-injective}
use cse511_project.Cache.{Block, Used, find_block, update_block, erase_block}
use cse511_project.Cache.Capacity.{AreKeyed}
use cse511_project.Cache.Harvest.{release}
use cse511_project.Cache.Harvest.Order.{IsApart, AreApart}

-- The block was used before time `n`.
abbrev pub Before : ℕ → ℕ × Block → Type 0
Before n (j, b) = b.access_time < n

-- No two blocks were used at the same time, and all before now.
abbrev pub AreTimed : ℕ → Used → Type 0
AreTimed n u = AreApart u × All (Before n) u

module _ (P : ℕ × Block → Type 0) where
  pub All-update_block :
      (k : ℕ) (b : Block) (u : Used) → ((j : ℕ) → P (j, b)) → All P u → All P (update_block k b u)
  unfolding update_block
  All-update_block k b [] p h = tt
  All-update_block k b ((j, x) ∷ u) p h =
      if-either (All P) (j == k) _ _ (p j, All-update_block k b u p h.1)
        (h.0, All-update_block k b u p h.1)

  All-erase_block : (k : ℕ) (u : Used) → All P u → All P (erase_block k u)
  unfolding erase_block
  All-erase_block k [] h = tt
  All-erase_block k ((j, x) ∷ u) h =
      if-either (All P) (j == k) _ _ (All-erase_block k u h.1) (h.0, All-erase_block k u h.1)

  pub All-find_block : (k : ℕ) (b : Block) (u : Used) → find_block k u ≡ some b → All P u → P (k, b)
  unfolding find_block
  All-find_block k b [] e h = absurd (ground (arith, e))
  All-find_block k b ((j, x) ∷ u) e h = elim (Bool-cases (j == k)) [
    | inl t ↦
        let same : x ≡ b = some-injective x b (sym (if_true (j == k) _ _ t) ∙ e) in
        let key : j ≡ k = ground (arith, t) in
        subst (λ i. P (i, b)) key (subst (λ y. P (j, y)) same h.0)
    | inr t ↦ All-find_block k b u (sym (if_false (j == k) _ _ t) ∙ e) h.1
  ]

pub All-later : (n n' : ℕ) (u : Used) → n < n' → All (Before n) u → All (Before n') u
All-later n n' [] l h = tt
All-later n n' ((j, x) ∷ u) l h = (omega (arith, l, h.0), All-later n n' u l h.1)

erase_block-AreApart : (k : ℕ) (u : Used) → AreApart u → AreApart (erase_block k u)
unfolding erase_block
erase_block-AreApart k [] h = tt
erase_block-AreApart k ((j, x) ∷ u) h =
    if-either AreApart (j == k) _ _ (erase_block-AreApart k u h.1)
      (All-erase_block (IsApart (j, x)) k u h.0, erase_block-AreApart k u h.1)

-- A block that was used later than all is apart from them.
pub Before-IsApart :
    (j : ℕ) (b : Block) (u : Used) → All (Before b.access_time) u → All (IsApart (j, b)) u
Before-IsApart j b [] h = tt
Before-IsApart j b ((i, x) ∷ u) h = (λ e. absurd (omega (arith, e, h.0)), Before-IsApart j b u h.1)

update_block-absent :
    (k : ℕ) (b : Block) (u : Used) → find_block k u ≡ none → update_block k b u ≡ u
unfolding update_block find_block
update_block-absent k b [] h = refl
update_block-absent k b ((j, x) ∷ u) h = elim (Bool-cases (j == k)) [
  | inl t ↦ absurd (ground (arith, t, h))
  | inr t ↦
      if_false (j == k) _ _ t
      ∙ ap (◌∷◌ (j, x)) (update_block-absent k b u (sym (if_false (j == k) _ _ t) ∙ h))
]

-- A block that was used later than all comes under the key.
pub update_block-AreApart :
    (k : ℕ) (b : Block) (u : Used)
    → AreKeyed u
    → All (Before b.access_time) u
    → AreApart u
    → AreApart (update_block k b u)
unfolding update_block
update_block-AreApart k b [] keyed old h = tt
update_block-AreApart k b ((j, x) ∷ u) keyed old h = elim (Bool-cases (j == k)) [
  | inl t ↦
      let key : j ≡ k = ground (arith, t) in
      let same = update_block-absent k b u (subst (λ i. find_block i u ≡ none) key keyed.1) in
      subst AreApart (sym (if_true (j == k) _ _ t ∙ ap (◌∷◌ (j, b)) same))
        (Before-IsApart j b u old.1, h.1)
  | inr t ↦ subst AreApart (sym (if_false (j == k) _ _ t)) (
    All-update_block (IsApart (j, x)) k b u (λ i e. absurd (omega (arith, e, old.0))) h.0,
    update_block-AreApart k b u keyed.2 old.1 h.1,
  )
]

All-same :
    (j : ℕ) (x b : Block) (u : Used)
    → b.access_time ≡ x.access_time
    → All (IsApart (j, x)) u
    → All (IsApart (j, b)) u
All-same j x b [] e h = tt
All-same j x b ((i, y) ∷ u) e h = (λ q. h.0 (sym e ∙ q), All-same j x b u e h.1)

-- A block with the time of the one under the key comes there.
pub update_block-AreApart_same :
    (k : ℕ) (x b : Block) (u : Used)
    → AreKeyed u
    → find_block k u ≡ some x
    → b.access_time ≡ x.access_time
    → AreApart u
    → AreApart (update_block k b u)
unfolding update_block find_block
update_block-AreApart_same k x b [] keyed found e h = tt
update_block-AreApart_same k x b ((j, y) ∷ u) keyed found e h = elim (Bool-cases (j == k)) [
  | inl t ↦
      let key : j ≡ k = ground (arith, t) in
      let one : y ≡ x = some-injective y x (sym (if_true (j == k) _ _ t) ∙ found) in
      let time : b.access_time ≡ y.access_time = e ∙ sym (ap (λ z. Block.access_time z) one) in
      let same = update_block-absent k b u (subst (λ i. find_block i u ≡ none) key keyed.1) in
      subst AreApart (sym (if_true (j == k) _ _ t ∙ ap (◌∷◌ (j, b)) same))
        (All-same j y b u time h.0, h.1)
  | inr t ↦
      let rest = sym (if_false (j == k) _ _ t) ∙ found in
      let other = All-find_block (IsApart (j, y)) k x u rest h.0 in
      subst AreApart (sym (if_false (j == k) _ _ t)) (
        All-update_block (IsApart (j, y)) k b u (λ i q. other (q ∙ e)) h.0,
        update_block-AreApart_same k x b u keyed.2 rest e h.1,
      )
]

pub release-AreTimed : (n : ℕ) (q : List Block) (u : Used) → AreTimed n u → AreTimed n (release q u)
unfolding release
release-AreTimed n [] u h = h
release-AreTimed n (b ∷ q) u h =
    release-AreTimed n q (erase_block b.block_adr u)
      (erase_block-AreApart b.block_adr u h.0, All-erase_block (Before n) b.block_adr u h.1)
