-- ===== src/TokenMap/Order.antt =====
-- The order of a token map: entries are ranges, disjoint and sorted.
use cse511_project.Prelude.{ℕ, suc, ◌≤◌, ◌<◌, ◌≡◌, refl, ◌⊎◌, inl, [], ◌∷◌, none, some, arith}
use cse511_project.Interval.{Interval}
use cse511_project.Interval.Laws.{IsRange}
use cse511_project.TokenMap.{TokenMap, find, insert, erase}

-- Every entry starts at `n` or later, and after the end of the entry before it.
abbrev pub Above {ℓ} : {V : Type ℓ} → ℕ → TokenMap V → Type 0
Above n [] = Unit {0}
Above n (e ∷ m) = (n ≤ e.0.m_start) × IsRange e.0 × Above (suc e.0.m_end) m

abbrev pub IsMap {ℓ} : {V : Type ℓ} → TokenMap V → Type 0
IsMap m = Above 0 m

-- The two ranges share no block.
abbrev pub Apart : Interval → Interval → Type 0
Apart a b = (a.m_end < b.m_start) ⊎ (b.m_end < a.m_start)

-- No entry shares a block with the range.
abbrev pub Clear {ℓ} : {V : Type ℓ} → Interval → TokenMap V → Type 0
Clear k [] = Unit {0}
Clear k (e ∷ m) = Apart k e.0 × Clear k m

module _ {ℓ} {V : Type ℓ} where
  pub Above-mono : (n n' : ℕ) (m : TokenMap V) → n' ≤ n → Above n m → Above n' m
  Above-mono n n' [] h a = tt
  Above-mono n n' (e ∷ m) h a = (omega arith, a.1, a.2)

  pub Above-Clear : (k : Interval) (n : ℕ) (m : TokenMap V) → k.m_end < n → Above n m → Clear k m
  Above-Clear k n [] h a = tt
  Above-Clear k n (e ∷ m) h a =
      (inl (omega arith), Above-Clear k (suc e.0.m_end) m (omega arith) a.2)

  pub find-none-Clear :
      (k : Interval) (n : ℕ) (m : TokenMap V) → Above n m → find k m ≡ none → Clear k m
  unfolding find
  find-none-Clear k n [] a h = tt
  find-none-Clear k n (e ∷ m) a h =
      ground (arith, find-none-Clear k (suc e.0.m_end) m a.2, Above-Clear k (suc e.0.m_end) m)

  pub Clear-find-none : (k : Interval) (m : TokenMap V) → Clear k m → find k m ≡ none
  unfolding find
  Clear-find-none k [] c = refl
  Clear-find-none k (e ∷ m) c = ground (arith, Clear-find-none k m c.1)

  -- What `find` returns overlaps the key and is a range.
  pub find-some_overlap :
      (k : Interval) (n : ℕ) (m : TokenMap V) (e : Interval × V)
      → Above n m
      → find k m ≡ some e
      → (k.m_start ≤ e.0.m_end) × (e.0.m_start ≤ k.m_end) × IsRange e.0 × (n ≤ e.0.m_start)
  unfolding find
  find-some_overlap k n [] e a h = ground arith
  find-some_overlap k n (x ∷ m) e a h = ground (arith, find-some_overlap k (suc x.0.m_end) m e a.2)

  pub insert-Above :
      (k : Interval) (v : V) (n : ℕ) (m : TokenMap V)
      → Above n m
      → IsRange k
      → n ≤ k.m_start
      → Above n (insert k v m)
  unfolding insert
  insert-Above k v n [] a r h = ground arith
  insert-Above k v n (e ∷ m) a r h = ground (arith, insert-Above k v (suc e.0.m_end) m a.2 r)

  pub erase-Above : (k : Interval) (n : ℕ) (m : TokenMap V) → Above n m → Above n (erase k m)
  unfolding erase
  erase-Above k n [] a = tt
  erase-Above k n (e ∷ m) a =
      ground (arith, erase-Above k (suc e.0.m_end) m a.2, Above-mono (suc e.0.m_end) n m)

  pub Clear-sub :
      (k k' : Interval) (m : TokenMap V)
      → k.m_start ≤ k'.m_start
      → k'.m_end ≤ k.m_end
      → Clear k m
      → Clear k' m
  Clear-sub k k' [] h g c = tt
  Clear-sub k k' (e ∷ m) h g c = ground (arith, Clear-sub k k' m h g c.1)

  pub Clear-insert :
      (k k' : Interval) (v : V) (m : TokenMap V) → Apart k k' → Clear k m → Clear k (insert k' v m)
  unfolding insert
  Clear-insert k k' v [] d c = (d, tt)
  Clear-insert k k' v (e ∷ m) d c = ground (arith, Clear-insert k k' v m d c.1)

  pub Clear-erase : (k k' : Interval) (m : TokenMap V) → Clear k m → Clear k (erase k' m)
  unfolding erase
  Clear-erase k k' [] c = tt
  Clear-erase k k' (e ∷ m) c = ground (arith, Clear-erase k k' m c.1)

  -- The blocks of an entry are free once it is erased.
  pub Clear-erase_self :
      (k : Interval) (n : ℕ) (m : TokenMap V) (e : Interval × V)
      → Above n m
      → find k m ≡ some e
      → Clear e.0 (erase e.0 m)
  unfolding find erase
  Clear-erase_self k n [] e a h = tt
  Clear-erase_self k n (x ∷ m) e a h = ground (
    arith,
    Clear-erase_self k (suc x.0.m_end) m e a.2,
    find-some_overlap k (suc x.0.m_end) m e a.2,
    Above-Clear e.0 (suc x.0.m_end) m,
  )

  pub Clear-found :
      (k k' : Interval) (m : TokenMap V) (e : Interval × V)
      → Clear k m
      → find k' m ≡ some e
      → Apart k e.0
  unfolding find
  Clear-found k k' [] e c h = absurd (ground arith)
  Clear-found k k' (x ∷ m) e c h = ground (arith, Clear-found k k' m e c.1)

  -- A range inside the union of two clear ranges that touch is clear.
  pub Clear-union :
      (k k' u : Interval) (n : ℕ) (m : TokenMap V)
      → Above n m
      → (k.m_start ≤ u.m_start) ⊎ (k'.m_start ≤ u.m_start)
      → (u.m_end ≤ k.m_end) ⊎ (u.m_end ≤ k'.m_end)
      → k.m_start ≤ suc k'.m_end
      → k'.m_start ≤ suc k.m_end
      → Clear k m
      → Clear k' m
      → Clear u m
  Clear-union k k' u n [] a p q g h c d = tt
  Clear-union k k' u n (e ∷ m) a p q g h c d =
      (ground (arith, c.0, d.0), Clear-union k k' u (suc e.0.m_end) m a.2 p q g h c.1 d.1)
