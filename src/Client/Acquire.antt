-- ===== src/Client/Acquire.antt =====
-- The loop with which `pfs_read` and `pfs_write` of pfs.cc get the tokens for a range of blocks. The
-- answer of the metadata manager to request number `k`, for a run of blocks, is `reply k run`.
pub mod Granted
pub mod Spec
use cse511_project.Prelude.{
  ℕ, zero, suc, ◌+◌, ◌-◌, Bool, true, false, ◌||◌, List, [], ◌∷◌, Option, none, some, to_unsigned,
  Text, codes, text_eq, set, replicate, if◌then◌else◌,
}
use cse511_project.Interval.{Interval}
use cse511_project.Strings.{next_token, trim, to_lower, atoi}
use cse511_project.FileDesc.Permission.{Tokens, add_permission}
use cse511_project.Client.Tokens.{required_token}

-- `already_have_token`, from block `bs` on: the blocks of the runs lose their mark.
unfoldable pub mark_run : ℕ → ℕ → ℕ → List Bool → List Bool
mark_run zero i bs marks = marks
mark_run (suc rounds) i bs marks = mark_run rounds (suc i) bs (set marks (i - bs) false)

unfoldable pub mark_runs : ℕ → List Interval → List Bool → List Bool
unfolding mark_run
mark_runs bs [] marks = marks
mark_runs bs (run ∷ runs) marks =
    mark_runs bs runs (mark_run (run.m_end + 1 - run.m_start) run.m_start bs marks)

-- What an answer does to the tokens; `none` is a loop of `addPermission` that does not end. The ends
-- are read as `int`s and stored as `unsigned int`s.
unfoldable pub add_token : ℕ → ℕ → Text → Tokens → Option Tokens
unfolding add_permission next_token trim atoi
add_token fuel mode token m =
    let (start, rest) = next_token token in
    let added =
      add_permission fuel m (to_unsigned (atoi (trim start)))
        (to_unsigned (atoi (trim (next_token rest).0))) mode in
    if text_eq (to_lower token) (codes "locking_failed")
      || text_eq (to_lower token) (codes "failed")
    then some m
    else added

-- How the loop ends: with the tokens and the marks; out of rounds; or in `addPermission`.
pub data Acquired : Type 0 where
  acquired : Tokens → List Bool → Acquired
  asks_on adds_on : Acquired

module _ (fuel mode bs be : ℕ) (reply : ℕ → Interval → Text) where
  unfoldable pub acquire_loop : ℕ → ℕ → Tokens → List Bool → Acquired
  unfolding required_token mark_runs add_token
  acquire_loop zero k m marks = asks_on
  acquire_loop (suc rounds) k m marks = elim (required_token m bs be) [
    | [] ↦ acquired m marks
    | run ∷ runs ↦ elim (add_token fuel mode (reply k run) m) [
      | none ↦ adds_on
      | some m' ↦ acquire_loop rounds (suc k) m' (mark_runs bs (run ∷ runs) marks)
    ]
  ]

  -- With every block marked at first.
  unfoldable pub acquire : ℕ → Tokens → Acquired
  unfolding acquire_loop
  acquire rounds m = acquire_loop rounds 0 m (replicate (be + 1 - bs) true)
