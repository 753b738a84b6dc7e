-- ===== src/Interval/Laws.antt =====
-- What the interval operations of mt_data_types.hh mean for the blocks of an interval.
use cse511_project.Prelude.{
  ℕ, ◌≤◌, ◌<◌, ◌≡◌, Bool, false, not, ◌&&◌, ◌||◌, List, [], ◌∷◌, leb, arith,
}
use cse511_project.Interval.{Interval, u32_mod, subtract_interval}

-- A block lies in an interval.
abbrev pub has : Interval → ℕ → Bool
has i b = leb i.m_start b && leb b i.m_end

abbrev pub any_has : List Interval → ℕ → Bool
any_has [] b = false
any_has (i ∷ l) b = has i b || any_has l b

-- Not empty, and its ends are `unsigned int`s.
abbrev pub IsRange : Interval → Type 0
IsRange i = (i.m_start ≤ i.m_end) × (i.m_end < u32_mod)

-- The parts that `subtract_interval` returns cover the blocks of `i` that are not in `x`, and no
-- others.
pub any_has-subtract_interval :
    (i x : Interval) (b : ℕ)
    → IsRange i
    → IsRange x
    → any_has (subtract_interval i x) b ≡ (has i b && not (has x b))
unfolding subtract_interval
any_has-subtract_interval i x b hi hx = ground arith
