-- ===== src/FileDesc/Permission/Remove.antt =====
-- `removePermission` takes the tokens of an interval of blocks away, and nothing else.
use cse511_project.Prelude.{
  ℕ, zero, suc, ◌≤◌, ◌<◌, ◌≡◌, refl, inl, inr, some, arith, Option-cases, length,
}
use cse511_project.Interval.{Interval, mk, u32_mod}
use cse511_project.Interval.Laws.{IsRange}
use cse511_project.TokenMap.{find}
use cse511_project.TokenMap.Order.{IsMap, find-none-Clear}
use cse511_project.TokenMap.Blocks.{Clear-token_at, hits, hits-le-length}
use cse511_project.TokenMap.Cut.{Cut, Without, entry, Cut-all, Cut-left, Cut-right, Cut-both}
use cse511_project.FileDesc.Permission.{Tokens, remove_step, remove_loop, remove_permission}

-- The step keeps the map in order, leaves one overlap less, and takes the token from the blocks of
-- `bl` in the entry.
remove_step_lem :
    (bl : Interval) (m : Tokens) (it : Interval × ℕ) (r : IsRange bl) (a : IsMap m)
    (found : find bl m ≡ some it) (b : ℕ)
    → Cut bl m it r a found b (remove_step bl it m)
unfolding remove_step
remove_step_lem bl m it r a found b = ground (
  arith,
  entry bl m it r a found,
  Cut-all bl m it r a found b,
  Cut-left bl m it r a found b,
  Cut-right bl m it r a found b,
  Cut-both bl m it r a found b,
)

remove_loop_total :
    (f : ℕ) (bl : Interval) (m : Tokens)
    → IsRange bl
    → IsMap m
    → hits bl m < f
    → (m' : Tokens) × (remove_loop f bl m ≡ some m') × Without bl m m'
unfolding remove_loop
remove_loop_total zero bl m r a h = absurd (omega arith)
remove_loop_total (suc f) bl m r a h = elim (Option-cases (find bl m)) [
  | inl e ↦ (
    m,
    rw (e, remove_loop) refl,
    (a, λ b. ground (arith, Clear-token_at bl b m (find-none-Clear bl 0 m a e))),
  )
  | inr (it, e) ↦
      let cut = λ (b : ℕ). remove_step_lem bl m it r a e b in
      let (m', run, out) =
        remove_loop_total f bl (remove_step bl it m) r (cut 0).0 (omega (arith, (cut 0).1)) in
      (m', rw (e, remove_loop) run, (out.0, λ b. ground (arith, out.1 b, (cut b).2)))
]

-- For a range of blocks and a map in order, with more fuel than entries, `removePermission` ends,
-- the map stays in order, every block of the range loses its token, and every other block keeps
-- what it had.
pub remove_permission-Without :
    (fuel : ℕ) (m : Tokens) (start end : ℕ)
    → IsMap m
    → start ≤ end
    → end < u32_mod
    → length m < fuel
    → (m' : Tokens) × (remove_permission fuel m start end ≡ some m') × Without (mk start end) m m'
unfolding remove_permission
remove_permission-Without fuel m start end a le bound enough =
    remove_loop_total fuel (mk start end) m (le, bound) a
      (omega (arith, hits-le-length (mk start end) m))
