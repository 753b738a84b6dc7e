-- ===== src/FileDesc/Permission.antt =====
-- `addPermission`, `checkPermission` and `removePermission` of FileDesc.cc, over the token map of
-- one open file. A mode is a character. The `int` arguments are given as the `unsigned int`s that
-- the source converts them to. A `while` loop takes fuel; `none` means that it ran out.
pub mod Check
pub mod Remove
pub mod Join
pub mod Fits
pub mod Rounds
pub mod AddWrite
pub mod Endless
pub mod Lost
use mathlib.Core.Option
use cse511_project.Prelude.{
  ◌-◌, ℕ, suc, zero, Bool, true, false, ◌&&◌, ◌||◌, Option, none, some, ltb, ◌==◌, if◌then◌else◌,
}
use cse511_project.Interval.{Interval, mk, inc32, dec32, u32_mod}
use cse511_project.TokenMap.{TokenMap, find, insert, erase, erase_key}

abbrev pub Tokens : Type 0
Tokens = TokenMap ℕ

-- Cuts the interval `bl` out of the entry `it`, which overlaps it.
unfoldable pub remove_step : Interval → Interval × ℕ → Tokens → Tokens
remove_step bl it m =
    if ltb bl.m_start it.0.m_start
    then if ltb it.0.m_end bl.m_end
      then erase it.0 m
      else if it.0.m_end == bl.m_end
      then erase it.0 m
      else insert (mk (inc32 bl.m_end) it.0.m_end) it.1 (erase it.0 m)
    else if it.0.m_start == bl.m_start
    then if ltb it.0.m_end bl.m_end
      then erase it.0 m
      else if it.0.m_end == bl.m_end
      then erase it.0 m
      else insert (mk (inc32 bl.m_end) it.0.m_end) it.1 (erase it.0 m)
    else if ltb it.0.m_end bl.m_end
    then insert (mk it.0.m_start (dec32 bl.m_start)) it.1 (erase it.0 m)
    else if it.0.m_end == bl.m_end
    then insert (mk it.0.m_start (dec32 bl.m_start)) it.1 (erase it.0 m)
    else insert (mk (inc32 bl.m_end) it.0.m_end) it.1
        (insert (mk it.0.m_start (dec32 bl.m_start)) it.1 (erase it.0 m))

unfoldable pub remove_loop : ℕ → Interval → Tokens → Option Tokens
remove_loop zero bl m = none
remove_loop (suc f) bl m = elim (find bl m) [
  | none ↦ some m
  | some it ↦ remove_loop f bl (remove_step bl it m)
]

unfoldable pub remove_permission : ℕ → Tokens → ℕ → ℕ → Option Tokens
remove_permission fuel m start end = remove_loop fuel (mk start end) m

-- The variables of the loop of `addPermission`.
pub record AddState : Type 0 where
  pub bl_int : Interval
  pub tok_map : Tokens
  pub dont_add : Bool

-- How a round of the loop ends.
pub data Round : Type 0 where
  again : AddState → Round
  leave : AddState → Round

-- The entry starts after the new interval.
unfoldable pub add_after : ℕ → Interval × ℕ → AddState → Round
add_after mode it s =
    if ltb it.0.m_end s.bl_int.m_end
    then if mode == b'w' || it.1 == b'r'
      then again (record s { tok_map = erase it.0 s.tok_map })
      else if mode == b'r' && it.1 == b'w'
      then again (record s {
        tok_map = insert (mk s.bl_int.m_start (dec32 it.0.m_start)) mode s.tok_map;
        bl_int = mk (inc32 it.0.m_end) s.bl_int.m_end;
      })
      else again s
    else if it.0.m_end == s.bl_int.m_end
    then if mode == b'w' || it.1 == b'r'
      then again (record s { tok_map = erase it.0 s.tok_map })
      else if mode == b'r' && it.1 == b'w'
      then again (record s { bl_int = mk s.bl_int.m_start (dec32 it.0.m_start) })
      else again s
    else if mode == b'w' && it.1 == b'w'
    then again
        (record s { bl_int = mk s.bl_int.m_start it.0.m_end; tok_map = erase it.0 s.tok_map })
    else if mode == b'w' && it.1 == b'r'
    then again (record s {
      tok_map = insert (mk (inc32 s.bl_int.m_end) it.0.m_end) b'r' (erase it.0 s.tok_map);
    })
    else if mode == b'r' && it.1 == b'w'
    then again (record s { bl_int = mk s.bl_int.m_start (dec32 it.0.m_start) })
    else if mode == b'r' && it.1 == b'r'
    then again
        (record s { bl_int = mk s.bl_int.m_start it.0.m_end; tok_map = erase it.0 s.tok_map })
    else again s

-- The entry starts with the new interval.
unfoldable pub add_same : ℕ → Interval × ℕ → AddState → Round
add_same mode it s =
    if ltb it.0.m_end s.bl_int.m_end
    then if mode == b'w' && it.1 == b'w'
      then again (record s { tok_map = erase it.0 s.tok_map })
      else if mode == b'w' && it.1 == b'r'
      then again (record s { tok_map = erase it.0 s.tok_map })
      else if mode == b'r' && it.1 == b'w'
      then again (record s { bl_int = mk (inc32 it.0.m_end) s.bl_int.m_end })
      else if mode == b'r' && it.1 == b'r'
      then again (record s { tok_map = erase it.0 s.tok_map })
      else again s
    else if it.0.m_end == s.bl_int.m_end
    then if mode == b'w' || it.1 == b'r'
      then leave (record s { tok_map = erase it.0 s.tok_map })
      else if mode == b'r' && it.1 == b'w'
      then leave (record s { dont_add = true })
      else again s
    else if mode == b'w' && it.1 == b'w'
    then leave (record s { dont_add = true })
    else if mode == b'w' && it.1 == b'r'
    then again (record s {
      tok_map = insert (mk (inc32 s.bl_int.m_end) it.0.m_end) b'r' (erase it.0 s.tok_map);
    })
    else if mode == b'r' && it.1 == b'w'
    then leave (record s { dont_add = true })
    else if mode == b'r' && it.1 == b'r'
    then leave (record s { dont_add = true })
    else again s

-- The entry starts before the new interval.
unfoldable pub add_before : ℕ → Interval × ℕ → AddState → Round
add_before mode it s =
    if ltb it.0.m_end s.bl_int.m_end
    then if mode == b'w' && it.1 == b'w'
      then again
          (record s { bl_int = mk it.0.m_start s.bl_int.m_end; tok_map = erase it.0 s.tok_map })
      else if mode == b'w' && it.1 == b'r'
      then again (record s {
        tok_map = insert (mk it.0.m_start (dec32 s.bl_int.m_start)) b'r' (erase it.0 s.tok_map);
      })
      else if mode == b'r' && it.1 == b'w'
      then again (record s { bl_int = mk (inc32 it.0.m_end) s.bl_int.m_end })
      else if mode == b'r' && it.1 == b'r'
      then again
          (record s { bl_int = mk it.0.m_start s.bl_int.m_end; tok_map = erase it.0 s.tok_map })
      else again s
    else if it.0.m_end == s.bl_int.m_end
    then if mode == b'w' && it.1 == b'w'
      then again (record s { dont_add = true })
      else if mode == b'w' && it.1 == b'r'
      then again (record s {
        tok_map = insert (mk it.0.m_start (dec32 s.bl_int.m_start)) b'r' (erase it.0 s.tok_map);
      })
      else if mode == b'r' && it.1 == b'w'
      then again (record s { dont_add = true })
      else if mode == b'r' && it.1 == b'r'
      then again (record s { dont_add = true })
      else again s
    else if mode == b'w' && it.1 == b'w'
    then again (record s { dont_add = true })
    else if mode == b'w' && it.1 == b'r'
    then again (record s {
      tok_map =
          insert (mk (inc32 s.bl_int.m_end) it.0.m_end) b'r'
            (insert (mk it.0.m_start (dec32 s.bl_int.m_start)) b'r' (erase it.0 s.tok_map));
    })
    else if mode == b'r' && it.1 == b'w'
    then again (record s { dont_add = true })
    else if mode == b'r' && it.1 == b'r'
    then again (record s { dont_add = true })
    else again s

unfoldable pub add_step : ℕ → Interval × ℕ → AddState → Round
add_step mode it s =
    if ltb s.bl_int.m_start it.0.m_start
    then add_after mode it s
    else if it.0.m_start == s.bl_int.m_start
    then add_same mode it s
    else add_before mode it s

unfoldable pub add_loop : ℕ → ℕ → AddState → Option AddState
add_loop zero mode s = none
add_loop (suc f) mode s = elim (find s.bl_int s.tok_map) [
  | none ↦ some s
  | some it ↦ elim (add_step mode it s) [ again t ↦ add_loop f mode t | leave t ↦ some t ]
]

-- A neighbouring entry of the same mode, found at block `at`, is erased and joined to `bl`: `right`
-- and `left` of the source. `end + 1` wraps around as an `unsigned int` would.
unfoldable pub join_right : ℕ → ℕ → Interval × Tokens → Interval × Tokens
join_right mode end (bl, m) =
    if end == u32_mod - 1 then (bl, m) else elim (find (mk (inc32 end) (inc32 end)) m) [
      | none ↦ (bl, m)
      | some it ↦
          if it.1 == mode
          then (mk bl.m_start it.0.m_end, erase_key (mk (inc32 end) (inc32 end)) m)
          else (bl, m)
    ]

unfoldable pub join_left : ℕ → ℕ → Interval × Tokens → Interval × Tokens
join_left mode start (bl, m) =
    if start == 0 then (bl, m) else elim (find (mk (dec32 start) (dec32 start)) m) [
      | none ↦ (bl, m)
      | some it ↦
          if it.1 == mode
          then (mk it.0.m_start bl.m_end, erase_key (mk (dec32 start) (dec32 start)) m)
          else (bl, m)
    ]

-- What follows the loop. Where an entry still overlaps, only a message is printed.
unfoldable pub add_finish : ℕ → ℕ → ℕ → AddState → Tokens
add_finish mode start end s = if s.dont_add then s.tok_map else elim (find s.bl_int s.tok_map) [
  | none ↦
      let (bl, m) = join_left mode start (join_right mode end (s.bl_int, s.tok_map)) in
      insert bl mode m
  | some _ ↦ s.tok_map
]

unfoldable pub add_permission : ℕ → Tokens → ℕ → ℕ → ℕ → Option Tokens
add_permission fuel m start end mode =
    Option.map (add_finish mode start end)
      (add_loop fuel mode (record { bl_int = mk start end; tok_map = m; dont_add = false }))

-- `checkPermission`.
unfoldable pub check_permission : Tokens → ℕ → ℕ → Bool
check_permission m block mode = elim (find (mk block block) m) [
  | none ↦ false
  | some it ↦
      if mode == b'r'
      then true
      else if mode == b'w'
      then if it.1 == b'r' then false else true
      else false
]
