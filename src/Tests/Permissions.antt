-- ===== src/Tests/Permissions.antt =====
-- Token maps and the open file table at concrete inputs.
use cse511_project.Prelude.{◌≡◌, refl, ℕ, [], ◌∷◌, none, some, ◌&&◌, not, inl, inr, arith}
use cse511_project.Interval.{mk}
use cse511_project.Interval.Laws.{has, any_has}
use cse511_project.TokenMap.{find}
use cse511_project.TokenMap.Order.{IsMap}
use cse511_project.TokenMap.Cut.{Without}
use cse511_project.FileDesc.Permission.{Tokens, remove_permission, add_permission, check_permission}
use cse511_project.FileDesc.Permission.Remove.{remove_permission-Without}
use cse511_project.FileDesc.Permission.Fits.{Fits}
use cse511_project.FileDesc.Permission.AddWrite.{Overwritten, add_permission-Overwritten}
use cse511_project.FileDesc.Permission.Endless.{add_permission_endless}
use cse511_project.FileDesc.Permission.Lost.{add_permission_lost}
use cse511_project.Client.Tokens.{required_token}
use cse511_project.Client.Tokens.Runs.{AreRuns, required_token_exact}

abbrev two_ranges : Tokens
two_ranges = (mk 0 9, b'r') ∷ (mk 12 20, b'w') ∷ []

two_ranges-IsMap : IsMap two_ranges
two_ranges-IsMap =
    (omega arith, (omega arith, omega arith), (omega arith, (omega arith, omega arith), tt))

two_ranges-Fits : Fits (mk 4 14) two_ranges
two_ranges-Fits = (inl refl, (inr (refl, inl (omega arith)), tt))

remove_permission-Without_example :
    (m' : Tokens) × (remove_permission 3 two_ranges 4 14 ≡ some m')
    × Without (mk 4 14) two_ranges m'
remove_permission-Without_example =
    remove_permission-Without 3 two_ranges 4 14 two_ranges-IsMap (omega arith) (omega arith)
      (omega arith)

add_permission-Overwritten_example :
    (m' : Tokens) × (add_permission 3 two_ranges 4 14 b'w' ≡ some m')
    × Overwritten b'w' (mk 4 14) two_ranges m'
add_permission-Overwritten_example =
    add_permission-Overwritten 3 two_ranges 4 14 two_ranges-IsMap two_ranges-Fits (omega arith)
      (omega arith) (omega arith)

add_permission_endless_example : add_permission 8 two_ranges 3 5 b'r' ≡ none
unfolding find
add_permission_endless_example =
    add_permission_endless 8 b'r' (mk 0 9, b'r') two_ranges 3 5 refl (omega arith) (omega arith)
      (inl (refl, refl))

add_permission_lost_example :
    add_permission 2 ((mk 5 9, b'w') ∷ (mk 10 12, b'r') ∷ []) 2 9 b'r' ≡ some ((mk 5 9, b'w') ∷ [])
add_permission_lost_example =
    add_permission_lost 0 2 5 9 12 (omega arith) (omega arith) (omega arith) (omega arith)

required_token_exact_example :
    ((b : ℕ)
      → any_has (required_token two_ranges 5 25) b
        ≡ (has (mk 5 25) b && not (check_permission two_ranges b b'r')))
    × AreRuns 5 25 (required_token two_ranges 5 25)
required_token_exact_example = required_token_exact two_ranges 5 25 (omega arith)
