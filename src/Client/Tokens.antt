-- ===== src/Client/Tokens.antt =====
-- `required_token` of pfs.cc: the runs of blocks for which a read token has to be requested. Block
-- numbers are `int`s that are not negative.
pub mod Runs
use cse511_project.Prelude.{
  ℕ, zero, suc, ◌+◌, ◌-◌, Bool, true, false, List, [], ◌∷◌, Option, none, some,
}
use cse511_project.Interval.{Interval, mk}
use cse511_project.FileDesc.Permission.{Tokens, check_permission}

-- The loop, with `rounds` blocks to go from `i`; `start` is `none` where the source has -1. What is
-- pushed to the list comes first in the result.
unfoldable pub required_loop : ℕ → ℕ → Option ℕ → ℕ → Tokens → List Interval
required_loop zero i start block_end m = elim start [ none ↦ [] | some s ↦ mk s block_end ∷ [] ]
required_loop (suc rounds) i start block_end m = elim (check_permission m i b'r') [
  | true ↦ elim start [
    | none ↦ required_loop rounds (i + 1) none block_end m
    | some s ↦ mk s (i - 1) ∷ required_loop rounds (i + 1) none block_end m
  ]
  | false ↦ elim start [
    | none ↦ required_loop rounds (i + 1) (some i) block_end m
    | some s ↦ required_loop rounds (i + 1) (some s) block_end m
  ]
]

unfoldable pub required_token : Tokens → ℕ → ℕ → List Interval
unfolding required_loop
required_token m block_start block_end =
    required_loop (block_end + 1 - block_start) block_start none block_end m
