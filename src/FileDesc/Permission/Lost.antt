-- ===== src/FileDesc/Permission/Lost.antt =====
-- A read permission that ends in a write entry, next to a read entry.
use cse511_project.Prelude.{ℕ, suc, ◌≤◌, ◌<◌, ◌≡◌, [], ◌∷◌, some, arith}
use cse511_project.Interval.{mk, u32_mod}
use cse511_project.TokenMap.{find, insert, erase_key}
use cse511_project.FileDesc.Permission.{
  add_after, add_step, add_loop, join_right, join_left, add_finish, add_permission,
}

-- Where the map holds a write entry from `p` to `end` and a read entry from `end + 1` to `q`,
-- `addPermission` of `start` to `end` with mode 'r' and `start < p` leaves the write entry alone:
-- the blocks before `p` get no token, and the read entry is lost.
pub add_permission_lost :
    (fuel start p end q : ℕ)
    → start < p
    → p ≤ end
    → end < q
    → q < u32_mod
    → add_permission
        (suc (suc fuel))
        ((mk p end, b'w') ∷ (mk (suc end) q, b'r') ∷ [])
        start
        end
        b'r'
      ≡ some ((mk p end, b'w') ∷ [])
unfolding add_permission add_loop add_step add_after add_finish join_right join_left find insert
    erase_key
add_permission_lost fuel start p end q h g k l = ground arith
