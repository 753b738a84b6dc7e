-- ===== src/FileDesc/Permission/Rounds.antt =====
-- One round of the loop of `addPermission` with mode 'w'.
use cse511_project.Prelude.{
  ℕ, ◌≤◌, ◌<◌, ◌≡◌, refl, ◌⊎◌, inl, inr, true, false, some, ltb, ◌==◌, arith, if◌then◌else◌,
  Bool-cases,
}
use cse511_project.Interval.{Interval, mk, inc32, dec32}
use cse511_project.Interval.Laws.{IsRange, has}
use cse511_project.TokenMap.{find, insert, erase}
use cse511_project.TokenMap.Order.{IsMap, Clear, erase-Above, Clear-erase_self, Clear-union}
use cse511_project.TokenMap.Blocks.{
  token_at, hits, token_at-erase, token_at-find, hits-erase, hits-grow,
}
use cse511_project.FileDesc.Permission.{
  Tokens, AddState, Round, again, leave, add_after, add_same, add_before, add_step, add_finish,
}
use cse511_project.TokenMap.Cut.{Cut, entry, Cut-all, Cut-left, Cut-right, Cut-both}
use cse511_project.FileDesc.Permission.Join.{add_finish-Clear}
use cse511_project.FileDesc.Permission.Fits.{Fits, Fits-erase, Fits-insert, Fits-found, Fits-grow}

-- The call is for `start` to `end`, on the map `m₀`; `b` is any block.
module _ (m₀ : Tokens) (start end b : ℕ) (le : start ≤ end) where
  pub record Inv (s : AddState) : Type 0 where
    pub adds : s.dont_add ≡ false
    pub wf : IsMap s.tok_map
    pub fits : Fits s.bl_int s.tok_map
    pub range : IsRange s.bl_int
    pub starts : s.bl_int.m_start ≤ start
    pub ends : end ≤ s.bl_int.m_end
    pub outside : has s.bl_int b ≡ false → token_at b s.tok_map ≡ token_at b m₀
    pub grown : has s.bl_int b ≡ true → has (mk start end) b ≡ false → token_at b m₀ ≡ some b'w'

  abbrev pub Goal : Tokens → Type 0
  Goal m = IsMap m × (token_at b m ≡ (if has (mk start end) b then some b'w' else token_at b m₀))

  -- What a round may lead to.
  abbrev pub Good : AddState → Round → Type 0
  Good s (again t) = Inv t × (hits t.bl_int t.tok_map < hits s.bl_int s.tok_map)
  Good s (leave t) = Goal (add_finish b'w' start end t)

  -- Once nothing overlaps, the rest of the function reaches the goal.
  pub Clear-Goal :
      (s : AddState) → Inv s → Clear s.bl_int s.tok_map → Goal (add_finish b'w' start end s)
  Clear-Goal s v c =
      let out = add_finish-Clear b'w' start end b s v.adds v.wf v.range c v.starts le v.ends in
      (out.0, ground (arith, out.1, v.outside, v.grown))

  module _ (s : AddState) (it : Interval × ℕ) (v : Inv s)
      (found : find s.bl_int s.tok_map ≡ some it) where
    -- The interval stays, and the map loses the blocks that it shares with the entry.
    Cut-round :
        (m' : Tokens)
        → Cut s.bl_int s.tok_map it v.range v.wf found b m'
        → Fits s.bl_int m'
        → Good s (again (record s { tok_map = m' }))
    Cut-round m' cut f = (
      record {
        adds = v.adds;
        wf = cut.0;
        fits = f;
        range = v.range;
        starts = v.starts;
        ends = v.ends;
        outside = λ h. ground (arith, cut.2, v.outside h);
        grown = v.grown;
      },
      omega (arith, cut.1),
    )

    -- The interval grows by a write entry that it overlaps.
    grow_round :
        (bl' : Interval)
        → it.1 ≡ b'w'
        → (bl' ≡ mk s.bl_int.m_start it.0.m_end)
            × (s.bl_int.m_start ≤ it.0.m_start)
            × (s.bl_int.m_end < it.0.m_end)
          ⊎ (bl' ≡ mk it.0.m_start s.bl_int.m_end)
            × (it.0.m_start < s.bl_int.m_start)
            × (it.0.m_end < s.bl_int.m_end)
        → Good s (again (record s { bl_int = bl'; tok_map = erase it.0 s.tok_map }))
    grow_round bl' write shape =
        let bl = s.bl_int in
        let m = s.tok_map in
        let e = entry bl m it v.range v.wf found in
        let wf' = erase-Above it.0 0 m v.wf in
        let gone = Clear-erase_self bl 0 m it v.wf found in
        (
          record {
            adds = v.adds;
            wf = wf';
            fits =
                Fits-grow bl bl' (erase it.0 m) (ground arith) (ground arith)
                  (Fits-erase bl it.0 m v.fits);
            range = ground arith;
            starts = ground (arith, v.starts);
            ends = ground (arith, v.ends);
            outside = λ h. ground (arith, v.outside, token_at-erase bl 0 m it b v.wf found);
            grown = λ h g. ground (arith, v.grown, v.outside, token_at-find bl 0 m it b v.wf found);
          },
          omega (
            arith,
            hits-erase bl 0 m it v.wf found,
            hits-grow bl it.0 bl' 0 (erase it.0 m) wf' gone (ground arith) (ground arith)
                (omega arith) (omega arith),
          ),
        )

    -- The entry is the interval: it is erased, and the loop is left.
    same_round :
        it.0.m_start ≡ s.bl_int.m_start
        → it.0.m_end ≡ s.bl_int.m_end
        → Good s (leave (record s { tok_map = erase it.0 s.tok_map }))
    same_round h g =
        let bl = s.bl_int in
        let m = s.tok_map in
        let next =
          Cut-round (erase it.0 m)
            (Cut-all bl m it v.range v.wf found b (omega arith) (omega arith))
            (Fits-erase bl it.0 m v.fits) in
        Clear-Goal _ next.0 (
          Clear-union it.0 it.0 bl 0 (erase it.0 m) (erase-Above it.0 0 m v.wf) (inl (omega arith))
            (inl (omega arith)) (omega (arith, entry bl m it v.range v.wf found))
            (omega (arith, entry bl m it v.range v.wf found))
            (Clear-erase_self bl 0 m it v.wf found) (Clear-erase_self bl 0 m it v.wf found))

    -- A write entry holds the whole interval: nothing is added.
    held_round :
        it.1 ≡ b'w'
        → it.0.m_start ≡ s.bl_int.m_start
        → s.bl_int.m_end < it.0.m_end
        → Good s (leave (record s { dont_add = true }))
    unfolding add_finish
    held_round write h g = (
      v.wf,
      ground (
        arith,
        v.outside,
        v.grown,
        v.starts,
        v.ends,
        token_at-find s.bl_int 0 s.tok_map it b v.wf found,
      ),
    )

    -- The entry has one of the two modes.
    write_or_read : (it.1 ≡ b'r') ⊎ (it.1 ≡ b'w')
    write_or_read = ground (arith, Fits-found s.bl_int s.bl_int s.tok_map it v.fits found)

    cut_all_round :
        s.bl_int.m_start ≤ it.0.m_start
        → it.0.m_end ≤ s.bl_int.m_end
        → Good s (again (record s { tok_map = erase it.0 s.tok_map }))
    cut_all_round h g =
        Cut-round _ (Cut-all s.bl_int s.tok_map it v.range v.wf found b h g)
          (Fits-erase s.bl_int it.0 s.tok_map v.fits)

    -- What is left of a read entry is put back behind the interval, before it, or on both sides.
    right_round :
        it.1 ≡ b'r'
        → s.bl_int.m_start ≤ it.0.m_start
        → s.bl_int.m_end < it.0.m_end
        → Good s (
            again (record s {
              tok_map = insert (mk (inc32 s.bl_int.m_end) it.0.m_end) b'r' (erase it.0 s.tok_map);
            }))
    right_round read h g =
        let cut = Cut-right s.bl_int s.tok_map it v.range v.wf found b h g in
        Cut-round _ (rw read at cut)
          (Fits-insert s.bl_int _ _ (Fits-erase s.bl_int it.0 s.tok_map v.fits))

    left_round :
        it.1 ≡ b'r'
        → it.0.m_start < s.bl_int.m_start
        → it.0.m_end ≤ s.bl_int.m_end
        → Good s (
            again (record s {
              tok_map =
                  insert (mk it.0.m_start (dec32 s.bl_int.m_start)) b'r' (erase it.0 s.tok_map);
            }))
    left_round read h g =
        let cut = Cut-left s.bl_int s.tok_map it v.range v.wf found b h g in
        Cut-round _ (rw read at cut)
          (Fits-insert s.bl_int _ _ (Fits-erase s.bl_int it.0 s.tok_map v.fits))

    both_round :
        it.1 ≡ b'r'
        → it.0.m_start < s.bl_int.m_start
        → s.bl_int.m_end < it.0.m_end
        → Good s (
            again (record s {
              tok_map =
                  insert
                    (mk (inc32 s.bl_int.m_end) it.0.m_end)
                    b'r'
                    (insert (mk it.0.m_start (dec32 s.bl_int.m_start)) b'r' (erase it.0 s.tok_map));
            }))
    both_round read h g =
        let cut = Cut-both s.bl_int s.tok_map it v.range v.wf found b h g in
        Cut-round _ (rw read at cut) (
          Fits-insert s.bl_int _ _
            (Fits-insert s.bl_int _ _ (Fits-erase s.bl_int it.0 s.tok_map v.fits)))

    add_after-Good : s.bl_int.m_start < it.0.m_start → Good s (add_after b'w' it s)
    unfolding add_after
    add_after-Good h = elim (Bool-cases (ltb it.0.m_end s.bl_int.m_end)) [
      | inl t ↦ rw t (cut_all_round (omega arith) (ground arith))
      | inr f ↦ rw f (elim (Bool-cases (it.0.m_end == s.bl_int.m_end)) [
        | inl t ↦ rw t (cut_all_round (omega arith) (ground arith))
        | inr g ↦ rw g (elim write_or_read [
          | inl r ↦ rw r (right_round r (omega arith) (ground arith))
          | inr w ↦ rw w (grow_round _ w (inl (refl, omega arith, ground arith)))
        ])
      ])
    ]

    add_same-Good : it.0.m_start ≡ s.bl_int.m_start → Good s (add_same b'w' it s)
    unfolding add_same
    add_same-Good h = elim (Bool-cases (ltb it.0.m_end s.bl_int.m_end)) [
      | inl t ↦ rw t (elim write_or_read [
        | inl r ↦ rw r (cut_all_round (omega arith) (ground arith))
        | inr w ↦ rw w (cut_all_round (omega arith) (ground arith))
      ])
      | inr f ↦ rw f (elim (Bool-cases (it.0.m_end == s.bl_int.m_end)) [
        | inl t ↦ rw t (same_round h (ground arith))
        | inr g ↦ rw g (elim write_or_read [
          | inl r ↦ rw r (right_round r (omega arith) (ground arith))
          | inr w ↦ rw w (held_round w h (ground arith))
        ])
      ])
    ]

    add_before-Good : it.0.m_start < s.bl_int.m_start → Good s (add_before b'w' it s)
    unfolding add_before
    add_before-Good h = elim (Bool-cases (ltb it.0.m_end s.bl_int.m_end)) [
      | inl t ↦ rw t (elim write_or_read [
        | inl r ↦ rw r (left_round r h (ground arith))
        | inr w ↦ rw w (grow_round _ w (inr (refl, h, ground arith)))
      ])
      | inr f ↦ rw f (elim write_or_read [
        | inr w ↦ absurd (ground (arith, Fits-found s.bl_int s.bl_int s.tok_map it v.fits found))
        | inl r ↦ rw r (elim (Bool-cases (it.0.m_end == s.bl_int.m_end)) [
          | inl t ↦ rw t (left_round r h (ground arith))
          | inr g ↦ rw g (both_round r h (ground arith))
        ])
      ])
    ]

    pub add_step-Good : Good s (add_step b'w' it s)
    unfolding add_step
    add_step-Good = elim (Bool-cases (ltb s.bl_int.m_start it.0.m_start)) [
      | inl t ↦ rw t (add_after-Good (ground arith))
      | inr f ↦ rw f (elim (Bool-cases (it.0.m_start == s.bl_int.m_start)) [
        | inl t ↦ rw t (add_same-Good (ground arith))
        | inr g ↦ rw g (add_before-Good (ground arith))
      ])
    ]
