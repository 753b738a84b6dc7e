-- ===== src/FileDesc/Permission/AddWrite.antt =====
-- `addPermission` with mode 'w': the new interval is taken over from what it overlaps.
use cse511_project.Prelude.{
  ℕ, zero, suc, ◌≤◌, ◌<◌, ◌≡◌, refl, inl, inr, false, Option, some, arith, if◌then◌else◌,
  Option-cases, length,
}
use cse511_project.Interval.{Interval, mk, u32_mod}
use cse511_project.Interval.Laws.{has}
use cse511_project.TokenMap.{find}
use cse511_project.TokenMap.Order.{IsMap, find-none-Clear}
use cse511_project.TokenMap.Blocks.{token_at, hits, hits-le-length}
use cse511_project.FileDesc.Permission.{
  Tokens, AddState, Round, again, leave, add_step, add_loop, add_finish, add_permission,
}
use cse511_project.FileDesc.Permission.Fits.{Fits}
use cse511_project.FileDesc.Permission.Rounds.{Inv, Goal, Good, Clear-Goal, add_step-Good}

module _ (m₀ : Tokens) (start end b : ℕ) (le : start ≤ end) where
  -- A run of the loop that reaches the goal.
  abbrev Ends : ℕ → AddState → Type 0
  Ends f s =
      (t : AddState) × (add_loop f b'w' s ≡ some t)
      × Goal m₀ start end b le (add_finish b'w' start end t)

  -- A good round, and the rest of the run after it.
  round_Ends :
      (f : ℕ) (s : AddState) (it : Interval × ℕ) (r : Round)
      → find s.bl_int s.tok_map ≡ some it
      → add_step b'w' it s ≡ r
      → hits s.bl_int s.tok_map < suc f
      → ((u : AddState) → Inv m₀ start end b le u → hits u.bl_int u.tok_map < f → Ends f u)
      → Good m₀ start end b le s r
      → Ends (suc f) s
  unfolding add_loop
  round_Ends f s it (again u) e step h rest g =
      let (t, run, goal) = rest u g.0 (omega (arith, g.1)) in
      (t, rw (e, add_loop) (rw step run), goal)
  round_Ends f s it (leave u) e step h rest g = (u, rw (e, add_loop) (rw step refl), g)

  add_loop_Ends :
      (f : ℕ) (s : AddState) → Inv m₀ start end b le s → hits s.bl_int s.tok_map < f → Ends f s
  unfolding add_loop
  add_loop_Ends zero s v h = absurd (omega arith)
  add_loop_Ends (suc f) s v h = elim (Option-cases (find s.bl_int s.tok_map)) [
    | inl e ↦ (
      s,
      rw (e, add_loop) refl,
      Clear-Goal m₀ start end b le s v (find-none-Clear s.bl_int 0 s.tok_map v.wf e),
    )
    | inr (it, e) ↦
        round_Ends f s it (add_step b'w' it s) e refl h (add_loop_Ends f)
          (add_step-Good m₀ start end b le s it v e)
  ]

-- The run does not depend on the block.
same_block :
    (m : Tokens) (start end b : ℕ) (le : start ≤ end) (r : Option AddState) (t u : AddState)
    → r ≡ some t
    → r ≡ some u
    → token_at b (add_finish b'w' start end t)
      ≡ (if has (mk start end) b then some b'w' else token_at b m)
    → token_at b (add_finish b'w' start end u)
      ≡ (if has (mk start end) b then some b'w' else token_at b m)
same_block m start end b le r t u p q h = let e : t ≡ u = cc in rw (← e) h

abbrev first_state : Tokens → ℕ → ℕ → AddState
first_state m start end = record { bl_int = mk start end; tok_map = m; dont_add = false }

first_Inv :
    (m : Tokens) (start end b : ℕ) (le : start ≤ end)
    → end < u32_mod
    → IsMap m
    → Fits (mk start end) m
    → Inv m start end b le (first_state m start end)
first_Inv m start end b le bound a f = record {
  adds = refl;
  wf = a;
  fits = f;
  range = (le, bound);
  starts = omega arith;
  ends = omega arith;
  outside = λ _. refl;
  grown = λ h g. ground arith;
}

-- A map `m'` in which the blocks of `start` to `end` have the mode, and the others what they have in
-- `m`.
abbrev pub Overwritten : ℕ → Interval → Tokens → Tokens → Type 0
Overwritten mode bl m m' =
    IsMap m' × ((b : ℕ) → token_at b m' ≡ (if has bl b then some mode else token_at b m))

-- For a range of blocks, and a map in order whose entries have mode 'r' or 'w' and in which no
-- write entry reaches from before the range to its end, with more fuel than entries,
-- `addPermission` with mode 'w' ends, the map stays in order, every block of the range has mode
-- 'w', and every other block keeps what it had.
pub add_permission-Overwritten :
    (fuel : ℕ) (m : Tokens) (start end : ℕ)
    → IsMap m
    → Fits (mk start end) m
    → start ≤ end
    → end < u32_mod
    → length m < fuel
    → (m' : Tokens) × (add_permission fuel m start end b'w' ≡ some m')
      × Overwritten b'w' (mk start end) m m'
unfolding add_permission
add_permission-Overwritten fuel m start end a f le bound enough =
    let s = first_state m start end in
    let run = λ (b : ℕ).
      add_loop_Ends m start end b le fuel s (first_Inv m start end b le bound a f)
        (omega (arith, hits-le-length (mk start end) m)) in
    let t = (run 0).0 in
    (
      add_finish b'w' start end t,
      rw ((run 0).1) refl,
      ((run 0).2.0, λ b. same_block m start end b le _ (run b).0 t (run b).1 (run 0).1 (run b).2.1),
    )
