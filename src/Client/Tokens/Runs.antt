-- ===== src/Client/Tokens/Runs.antt =====
-- What `required_token` asks for.
use cse511_project.Prelude.{
  ℕ, zero, suc, ◌+◌, ◌-◌, ◌≤◌, ◌<◌, ◌≡◌, Bool, false, not, ◌&&◌, ◌||◌, List, [], ◌∷◌, Option, none,
  some, leb, ltb, arith,
}
use cse511_project.Interval.{Interval, mk}
use cse511_project.Interval.Laws.{has, any_has}
use cse511_project.FileDesc.Permission.{Tokens, check_permission}
use cse511_project.Client.Tokens.{required_loop, required_token}

-- A block of the run that is being read.
abbrev pending : Option ℕ → ℕ → ℕ → Bool
pending none i b = false
pending (some s) i b = leb s b && ltb b i

abbrev Before : Option ℕ → ℕ → Type 0
Before none i = Unit {0}
Before (some s) i = s < i

module _ (m : Tokens) (block_end b : ℕ) where
  missing : ℕ → Bool
  missing i = leb i b && leb b block_end && not (check_permission m b b'r')

  required_loop-any_has :
      (rounds i : ℕ) (start : Option ℕ)
      → i + rounds ≡ block_end + 1
      → Before start i
      → any_has (required_loop rounds i start block_end m) b ≡ (pending start i b || missing i)
  unfolding required_loop missing
  required_loop-any_has zero i none h g = ground arith
  required_loop-any_has zero i (some s) h g = ground arith
  required_loop-any_has (suc rounds) i none h g = ground (
    arith,
    required_loop-any_has rounds (i + 1) none,
    required_loop-any_has rounds (i + 1) (some i),
  )
  required_loop-any_has (suc rounds) i (some s) h g = ground (
    arith,
    required_loop-any_has rounds (i + 1) none,
    required_loop-any_has rounds (i + 1) (some s),
  )

-- The intervals lie between `n` and `last`, none is empty, and a block that is in none of them
-- stands between two.
abbrev pub AreRuns : ℕ → ℕ → List Interval → Type 0
AreRuns n last [] = Unit {0}
AreRuns n last (i ∷ l) =
    (n ≤ i.m_start) × (i.m_start ≤ i.m_end) × (i.m_end ≤ last) × AreRuns (i.m_end + 2) last l

AreRuns-mono : (n n' last : ℕ) (l : List Interval) → n' ≤ n → AreRuns n last l → AreRuns n' last l
AreRuns-mono n n' last [] h r = tt
AreRuns-mono n n' last (i ∷ l) h r = (omega arith, r.1, r.2, r.3)

abbrev from : Option ℕ → ℕ → ℕ
from none i = i
from (some s) i = s

required_loop-AreRuns :
    (rounds i : ℕ) (start : Option ℕ) (block_end : ℕ) (m : Tokens)
    → i + rounds ≡ block_end + 1
    → Before start i
    → AreRuns (from start i) block_end (required_loop rounds i start block_end m)
unfolding required_loop
required_loop-AreRuns zero i none block_end m h g = tt
required_loop-AreRuns zero i (some s) block_end m h g = omega arith
required_loop-AreRuns (suc rounds) i none block_end m h g =
    let rest = required_loop-AreRuns rounds (i + 1) none block_end m in
    ground (
      arith,
      rest,
      required_loop-AreRuns rounds (i + 1) (some i) block_end m,
      AreRuns-mono (i + 1) i block_end (required_loop rounds (i + 1) none block_end m),
    )
required_loop-AreRuns (suc rounds) i (some s) block_end m h g =
    let rest = required_loop-AreRuns rounds (i + 1) none block_end m (omega arith) tt in
    let index : i - 1 + 2 ≡ i + 1 = omega arith in
    let runs : AreRuns (i - 1 + 2) block_end (required_loop rounds (i + 1) none block_end m) =
      rw index rest in
    ground (arith, runs, required_loop-AreRuns rounds (i + 1) (some s) block_end m)

-- For a range of blocks that is not empty, the intervals of `required_token` hold the blocks of the
-- range without a read permission and no others; they are in order, not empty, and any two of them
-- have a block between them.
pub required_token_exact :
    (m : Tokens) (block_start block_end : ℕ)
    → block_start ≤ block_end
    → ((b : ℕ)
        → any_has (required_token m block_start block_end) b
          ≡ (has (mk block_start block_end) b && not (check_permission m b b'r')))
      × AreRuns block_start block_end (required_token m block_start block_end)
unfolding required_token missing
required_token_exact m block_start block_end h =
    let rounds = block_end + 1 - block_start in
    ((λ b. exact b), required_loop-AreRuns rounds block_start none block_end m (omega arith) tt)
  where
    exact :
        (b : ℕ)
        → any_has (required_loop (block_end + 1 - block_start) block_start none block_end m) b
          ≡ (has (mk block_start block_end) b && not (check_permission m b b'r'))
    exact b =
        ground (
          arith,
          required_loop-any_has m block_end b (block_end + 1 - block_start) block_start none,
        )
