-- ===== src/Interval.antt =====
-- `struct Interval` of mt_data_types.hh and data_types.hh: a range of block numbers, both ends
-- included, each an `unsigned int`. `less` is `mycomparison`, the order of the token maps.
pub mod Laws
use cse511_project.Prelude.{
  ℕ, ◌+◌, ◌-◌, ◌%◌, ◌^◌, Bool, true, false, not, ◌&&◌, ◌||◌, List, [], ◌∷◌, ◌++◌, ltb, leb, ◌==◌,
  if◌then◌else◌,
}

abbrev pub u32_mod : ℕ
u32_mod = 2 ^ 32

-- `x + 1` and `x - 1` on an `unsigned int`.
abbrev pub inc32 : ℕ → ℕ
inc32 x = (x + 1) % u32_mod

abbrev pub dec32 : ℕ → ℕ
dec32 x = (x + u32_mod - 1) % u32_mod

pub record Interval : Type 0 where
  pub m_start : ℕ
  pub m_end : ℕ

abbrev pub mk : ℕ → ℕ → Interval
mk s e = record { m_start = s; m_end = e }

-- `Interval::operator<`, the lexicographic order.
unfoldable pub lt : Interval → Interval → Bool
lt a b =
    if ltb a.m_start b.m_start
    then true
    else if (a.m_start == b.m_start) && ltb a.m_end b.m_end
    then true
    else false

-- `mycomparison::operator()`: the first ends before the second starts.
abbrev pub less : Interval → Interval → Bool
less a b = if ltb a.m_end b.m_start then true else false

-- `is_equal` and `operator==`: the intervals overlap.
unfoldable pub is_equal : Interval → Interval → Bool
is_equal a b = if not (ltb a.m_end b.m_start) && not (ltb b.m_end a.m_start) then true else false

-- The parts of `subtract_interval`'s second case.
left_part : Interval → Interval → List Interval
left_part i x = if i.m_start == x.m_start then [] else mk i.m_start (dec32 x.m_start) ∷ []

right_part : Interval → Interval → List Interval
right_part i x = if i.m_end == x.m_end then [] else mk (inc32 x.m_end) i.m_end ∷ []

-- `subtract_interval`: what is left of `i` without `x`.
unfoldable pub subtract_interval : Interval → Interval → List Interval
unfolding left_part right_part
subtract_interval i x =
    if not (not (ltb i.m_end x.m_start) && not (ltb x.m_end i.m_start))
    then i ∷ []
    else if leb x.m_start i.m_start && leb i.m_end x.m_end
    then []
    else if leb i.m_start x.m_start && leb x.m_end i.m_end
    then left_part i x ++ right_part i x
    else if ltb x.m_start i.m_start && leb i.m_start x.m_end && ltb x.m_end i.m_end
    then mk (inc32 x.m_end) i.m_end ∷ []
    else if ltb i.m_start x.m_start && leb x.m_start i.m_end && ltb i.m_end x.m_end
    then mk i.m_start (dec32 x.m_start) ∷ []
    else []
