-- ===== src/FileDesc/Permission/Check.antt =====
-- `checkPermission` answers for the token of the block.
use cse511_project.Prelude.{
  ℕ, ◌≡◌, inl, inr, Bool, false, ◌&&◌, ◌||◌, not, Option, none, some, ◌==◌, arith, Option-cases,
}
use cse511_project.Interval.{mk}
use cse511_project.TokenMap.{find}
use cse511_project.TokenMap.Order.{IsMap, find-none-Clear, find-some_overlap}
use cse511_project.TokenMap.Blocks.{token_at, token_at-find, Clear-token_at}
use cse511_project.FileDesc.Permission.{Tokens, check_permission}

-- What a token is good for: a token of any mode for reading, any but a read token for writing,
-- none for another purpose.
abbrev pub allows : Option ℕ → ℕ → Bool
allows none mode = false
allows (some t) mode = mode == b'r' || mode == b'w' && not (t == b'r')

found_token :
    (m : Tokens) (b : ℕ)
    → IsMap m
    → token_at b m ≡ elim (find (mk b b) m) [ none ↦ none | some it ↦ some it.1 ]
found_token m b a = elim (Option-cases (find (mk b b) m)) [
  | inl e ↦ rw e (Clear-token_at (mk b b) b m (find-none-Clear (mk b b) 0 m a e) (ground arith))
  | inr (it, e) ↦
      rw e (
        token_at-find (mk b b) 0 m it b a e (ground (arith, find-some_overlap (mk b b) 0 m it a e)))
]

-- On a token map in order, `checkPermission` tells whether the token of the block allows the mode.
pub check_permission_exact :
    (m : Tokens) (block mode : ℕ)
    → IsMap m
    → check_permission m block mode ≡ allows (token_at block m) mode
unfolding check_permission
check_permission_exact m block mode a = ground (arith, found_token m block a)
