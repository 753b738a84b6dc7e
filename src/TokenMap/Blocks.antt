-- ===== src/TokenMap/Blocks.antt =====
-- A token map seen as a function on blocks.
use cse511_project.Prelude.{
  ℕ, suc, ◌≤◌, ◌<◌, ◌≡◌, refl, ◌⊎◌, true, [], ◌∷◌, Option, none, some, leb, ◌&&◌, arith, length,
  if◌then◌else◌,
}
use cse511_project.Interval.{Interval}
use cse511_project.Interval.Laws.{has}
use cse511_project.TokenMap.{TokenMap, find, insert, erase}
use cse511_project.TokenMap.Order.{Above, Clear, find-some_overlap}

module _ {V : Type 0} where
  -- The token of a block.
  unfoldable pub token_at : ℕ → TokenMap V → Option V
  token_at b [] = none
  token_at b (e ∷ m) = if has e.0 b then some e.1 else token_at b m

  pub Clear-token_at :
      (k : Interval) (b : ℕ) (m : TokenMap V) → Clear k m → has k b ≡ true → token_at b m ≡ none
  unfolding token_at
  Clear-token_at k b [] c h = refl
  Clear-token_at k b (e ∷ m) c h = ground (arith, Clear-token_at k b m c.1 h)

  pub Above-token_at : (n b : ℕ) (m : TokenMap V) → Above n m → b < n → token_at b m ≡ none
  unfolding token_at
  Above-token_at n b [] a h = refl
  Above-token_at n b (e ∷ m) a h = ground (arith, Above-token_at (suc e.0.m_end) b m a.2)

  pub token_at-insert :
      (k : Interval) (v : V) (m : TokenMap V) (b : ℕ)
      → Clear k m
      → token_at b (insert k v m) ≡ (if has k b then some v else token_at b m)
  unfolding token_at insert
  token_at-insert k v [] b c = refl
  token_at-insert k v (e ∷ m) b c = ground (arith, token_at-insert k v m b c.1)

  pub token_at-erase :
      (k : Interval) (n : ℕ) (m : TokenMap V) (e : Interval × V) (b : ℕ)
      → Above n m
      → find k m ≡ some e
      → token_at b (erase e.0 m) ≡ (if has e.0 b then none else token_at b m)
  unfolding token_at find erase
  token_at-erase k n [] e b a h = ground arith
  token_at-erase k n (x ∷ m) e b a h = ground (
    arith,
    token_at-erase k (suc x.0.m_end) m e b a.2,
    find-some_overlap k (suc x.0.m_end) m e a.2,
    Above-token_at (suc x.0.m_end) b m a.2,
  )

  -- Every block of a found entry has its token.
  pub token_at-find :
      (k : Interval) (n : ℕ) (m : TokenMap V) (e : Interval × V) (b : ℕ)
      → Above n m
      → find k m ≡ some e
      → has e.0 b ≡ true
      → token_at b m ≡ some e.1
  unfolding token_at find
  token_at-find k n [] e b a h g = ground arith
  token_at-find k n (x ∷ m) e b a h g = ground (
    arith,
    token_at-find k (suc x.0.m_end) m e b a.2,
    find-some_overlap k (suc x.0.m_end) m e a.2,
  )

  -- The number of entries that share a block with a range.
  unfoldable pub hits : Interval → TokenMap V → ℕ
  hits k [] = 0
  hits k (e ∷ m) =
      let rest = hits k m in
      if leb k.m_start e.0.m_end && leb e.0.m_start k.m_end then suc rest else rest

  pub hits-erase :
      (k : Interval) (n : ℕ) (m : TokenMap V) (e : Interval × V)
      → Above n m
      → find k m ≡ some e
      → hits k m ≡ suc (hits k (erase e.0 m))
  unfolding hits find erase
  hits-erase k n [] e a h = ground arith
  hits-erase k n (x ∷ m) e a h =
      ground
        (arith, hits-erase k (suc x.0.m_end) m e a.2, find-some_overlap k (suc x.0.m_end) m e a.2)

  pub hits-insert :
      (k k' : Interval) (v : V) (m : TokenMap V)
      → (k.m_end < k'.m_start) ⊎ (k'.m_end < k.m_start)
      → hits k (insert k' v m) ≡ hits k m
  unfolding hits insert
  hits-insert k k' v [] d = ground arith
  hits-insert k k' v (e ∷ m) d = ground (arith, hits-insert k k' v m d)

  pub hits-le-length : (k : Interval) (m : TokenMap V) → hits k m ≤ length m
  unfolding hits
  hits-le-length k [] = omega arith
  hits-le-length k (e ∷ m) = ground (arith, hits-le-length k m)

  pub Clear-hits : (k : Interval) (m : TokenMap V) → Clear k m → hits k m ≡ 0
  unfolding hits
  Clear-hits k [] c = refl
  Clear-hits k (e ∷ m) c = ground (arith, Clear-hits k m c.1)

  -- Where an entry has been erased, a range that grew by the entry overlaps no more than before.
  pub hits-grow :
      (k k' u : Interval) (n : ℕ) (m : TokenMap V)
      → Above n m
      → Clear k' m
      → (k.m_start ≤ u.m_start) ⊎ (k'.m_start ≤ u.m_start)
      → (u.m_end ≤ k.m_end) ⊎ (u.m_end ≤ k'.m_end)
      → k.m_start ≤ suc k'.m_end
      → k'.m_start ≤ suc k.m_end
      → hits u m ≤ hits k m
  unfolding hits
  hits-grow k k' u n [] a c p q h g = omega arith
  hits-grow k k' u n (e ∷ m) a c p q h g =
      ground (arith, hits-grow k k' u (suc e.0.m_end) m a.2 c.1 p q h g)
