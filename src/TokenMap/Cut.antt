-- ===== src/TokenMap/Cut.antt =====
-- Cutting an interval out of an entry of a token map that overlaps it.
use cse511_project.Prelude.{
  ℕ, suc, ◌≤◌, ◌<◌, ◌≡◌, inl, inr, none, some, ◌&&◌, ◌||◌, arith, if◌then◌else◌,
}
use cse511_project.Interval.{Interval, mk, inc32, dec32}
use cse511_project.Interval.Laws.{IsRange, has}
use cse511_project.TokenMap.{TokenMap, find, insert, erase}
use cse511_project.TokenMap.Order.{
  IsMap, Apart, Clear, find-some_overlap, insert-Above, erase-Above, Clear-sub, Clear-insert,
  Clear-erase_self,
}
use cse511_project.TokenMap.Blocks.{
  token_at, token_at-insert, token_at-erase, token_at-find, hits, hits-erase, hits-insert,
}

-- One entry `it` that overlaps `bl`.
module _ {V : Type 0} (bl : Interval) (m : TokenMap V) (it : Interval × V) (r : IsRange bl)
    (a : IsMap m) (found : find bl m ≡ some it) where
  -- A part of the entry that lies outside `bl` is put back.
  keep_part :
      (k : Interval) (b : ℕ)
      → IsRange k
      → it.0.m_start ≤ k.m_start
      → k.m_end ≤ it.0.m_end
      → Apart bl k
      → IsMap (insert k it.1 (erase it.0 m))
        × (hits bl m ≡ suc (hits bl (insert k it.1 (erase it.0 m))))
        × (token_at b (insert k it.1 (erase it.0 m))
            ≡ (if has k b then some it.1 else if has it.0 b then none else token_at b m))
  keep_part k b rk lo hi ap =
      let free : Clear k (erase it.0 m) =
        Clear-sub it.0 k (erase it.0 m) lo hi (Clear-erase_self bl 0 m it a found) in
      (
        insert-Above k it.1 0 (erase it.0 m) (erase-Above it.0 0 m a) rk (omega arith),
        omega (arith, hits-insert bl k it.1 (erase it.0 m) ap, hits-erase bl 0 m it a found),
        ground (
          arith,
          token_at-insert k it.1 (erase it.0 m) b free,
          token_at-erase bl 0 m it b a found,
        ),
      )

  keep_both :
      (k k' : Interval) (b : ℕ)
      → IsRange k
      → IsRange k'
      → it.0.m_start ≤ k.m_start
      → k.m_end < bl.m_start
      → bl.m_end < k'.m_start
      → k'.m_end ≤ it.0.m_end
      → IsMap (insert k' it.1 (insert k it.1 (erase it.0 m)))
        × (hits bl m ≡ suc (hits bl (insert k' it.1 (insert k it.1 (erase it.0 m)))))
        × (token_at b (insert k' it.1 (insert k it.1 (erase it.0 m))) ≡ (
            if has k' b || has k b then some it.1 else if has it.0 b then none else token_at b m))
  keep_both k k' b rk rk' lo below above hi =
      let rest = insert k it.1 (erase it.0 m) in
      let free : Clear k' rest =
        Clear-insert k' k it.1 (erase it.0 m) (inr (omega arith)) (
          Clear-sub it.0 k' (erase it.0 m) (omega arith) hi (Clear-erase_self bl 0 m it a found)) in
      let one = keep_part k b rk lo (omega arith) (inr below) in
      (
        insert-Above k' it.1 0 rest one.0 rk' (omega arith),
        omega (arith, hits-insert bl k' it.1 rest (inl above), one.1),
        ground (arith, token_at-insert k' it.1 rest b free, one.2),
      )

  -- What a round has to leave behind.
  abbrev pub Cut : ℕ → TokenMap V → Type 0
  Cut b m' =
      IsMap m'
      × (hits bl m ≡ suc (hits bl m'))
      × (token_at b m' ≡ (if has bl b && has it.0 b then none else token_at b m))

  pub entry : (bl.m_start ≤ it.0.m_end) × (it.0.m_start ≤ bl.m_end) × IsRange it.0
  entry = let e = find-some_overlap bl 0 m it a found in (e.0, e.1, e.2)

  pub Cut-all : (b : ℕ) → bl.m_start ≤ it.0.m_start → it.0.m_end ≤ bl.m_end → Cut b (erase it.0 m)
  Cut-all b h g = (
    erase-Above it.0 0 m a,
    hits-erase bl 0 m it a found,
    ground (arith, token_at-erase bl 0 m it b a found),
  )

  pub Cut-left :
      (b : ℕ)
      → it.0.m_start < bl.m_start
      → it.0.m_end ≤ bl.m_end
      → Cut b (insert (mk it.0.m_start (dec32 bl.m_start)) it.1 (erase it.0 m))
  Cut-left b h g =
      let k = mk it.0.m_start (dec32 bl.m_start) in
      let e = entry in
      let one =
        keep_part k b (omega arith, omega arith) (omega arith) (omega arith) (inr (omega arith)) in
      (one.0, one.1, ground (arith, one.2, token_at-find bl 0 m it b a found))

  pub Cut-right :
      (b : ℕ)
      → bl.m_start ≤ it.0.m_start
      → bl.m_end < it.0.m_end
      → Cut b (insert (mk (inc32 bl.m_end) it.0.m_end) it.1 (erase it.0 m))
  Cut-right b h g =
      let k = mk (inc32 bl.m_end) it.0.m_end in
      let e = entry in
      let one =
        keep_part k b (omega arith, omega arith) (omega arith) (omega arith) (inl (omega arith)) in
      (one.0, one.1, ground (arith, one.2, token_at-find bl 0 m it b a found))

  pub Cut-both :
      (b : ℕ)
      → it.0.m_start < bl.m_start
      → bl.m_end < it.0.m_end
      → Cut b (
          insert
            (mk (inc32 bl.m_end) it.0.m_end)
            it.1
            (insert (mk it.0.m_start (dec32 bl.m_start)) it.1 (erase it.0 m)))
  Cut-both b h g =
      let k = mk it.0.m_start (dec32 bl.m_start) in
      let k' = mk (inc32 bl.m_end) it.0.m_end in
      let e = entry in
      let two =
        keep_both k k' b (omega arith, omega arith) (omega arith, omega arith) (omega arith)
          (omega arith) (omega arith) (omega arith) in
      (two.0, two.1, ground (arith, two.2, token_at-find bl 0 m it b a found))

-- What the tokens are once the blocks of `bl` have been taken out of `m`.
abbrev pub Without : {V : Type 0} → Interval → TokenMap V → TokenMap V → Type 0
Without bl m m' = IsMap m' × ((b : ℕ) → token_at b m' ≡ (if has bl b then none else token_at b m))
