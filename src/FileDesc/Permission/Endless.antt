-- ===== src/FileDesc/Permission/Endless.antt =====
-- Where the loop of `addPermission` does not end.
use cse511_project.Prelude.{
  ℕ, zero, suc, ◌≤◌, ◌<◌, ◌≡◌, refl, ◌⊎◌, true, false, Bool, none, some, arith,
}
use cse511_project.Interval.{Interval, mk}
use cse511_project.TokenMap.{find}
use cse511_project.FileDesc.Permission.{
  Tokens, AddState, again, add_before, add_step, add_loop, add_permission,
}

-- The round changes `dont_add` only, for an entry that reaches from before the interval to its end
-- and need not give way.
add_step_stuck :
    (mode : ℕ) (it : Interval × ℕ) (s : AddState)
    → it.0.m_start < s.bl_int.m_start
    → s.bl_int.m_end ≤ it.0.m_end
    → ((mode ≡ b'r') × (it.1 ≡ b'r')) ⊎ (((mode ≡ b'r') ⊎ (mode ≡ b'w')) × (it.1 ≡ b'w'))
    → add_step mode it s ≡ again (record s { dont_add = true })
unfolding add_step add_before
add_step_stuck mode it s h g k = ground arith

add_loop_stuck :
    (fuel mode : ℕ) (it : Interval × ℕ) (bl : Interval) (m : Tokens) (d : Bool)
    → find bl m ≡ some it
    → it.0.m_start < bl.m_start
    → bl.m_end ≤ it.0.m_end
    → ((mode ≡ b'r') × (it.1 ≡ b'r')) ⊎ (((mode ≡ b'r') ⊎ (mode ≡ b'w')) × (it.1 ≡ b'w'))
    → add_loop fuel mode (record { bl_int = bl; tok_map = m; dont_add = d }) ≡ none
unfolding add_loop
add_loop_stuck zero mode it bl m d e h g k = refl
add_loop_stuck (suc f) mode it bl m d e h g k =
    let s : AddState = record { bl_int = bl; tok_map = m; dont_add = d } in
    rw (e, add_loop)
      (rw (add_step_stuck mode it s h g k) (add_loop_stuck f mode it bl m true e h g k))

-- `addPermission` ends for no fuel where the new interval meets an entry that starts before it and
-- reaches its end or beyond, if the two modes are 'r' and 'r', 'r' and 'w', or 'w' and 'w'.
pub add_permission_endless :
    (fuel mode : ℕ) (it : Interval × ℕ) (m : Tokens) (start end : ℕ)
    → find (mk start end) m ≡ some it
    → it.0.m_start < start
    → end ≤ it.0.m_end
    → ((mode ≡ b'r') × (it.1 ≡ b'r')) ⊎ (((mode ≡ b'r') ⊎ (mode ≡ b'w')) × (it.1 ≡ b'w'))
    → add_permission fuel m start end mode ≡ none
unfolding add_permission
add_permission_endless fuel mode it m start end e h g k =
    rw (add_loop_stuck fuel mode it (mk start end) m false e h g k) refl
