-- ===== src/FileDesc/Permission/Join.antt =====
-- The end of `addPermission`: the new interval is joined to its neighbours of the same mode and
-- inserted.
use cse511_project.Prelude.{
  ℕ, suc, ◌-◌, ◌≤◌, ◌<◌, ◌≡◌, refl, ◌⊎◌, inl, inr, false, Option, ◌∙◌, some, [], ◌∷◌, ltb, ◌==◌,
  arith, if◌then◌else◌, Option-cases, Bool-cases,
}
use cse511_project.Interval.{Interval, mk, u32_mod, inc32, dec32}
use cse511_project.Interval.Laws.{IsRange, has}
use cse511_project.TokenMap.{find, erase, erase_key}
use cse511_project.TokenMap.Order.{
  Above, IsMap, Clear, find-some_overlap, insert-Above, erase-Above, Clear-erase, Clear-erase_self,
  Clear-find-none, Clear-found, Clear-union,
}
use cse511_project.TokenMap.Blocks.{token_at, token_at-insert, token_at-erase, token_at-find}
use cse511_project.FileDesc.Permission.{Tokens, AddState, join_right, join_left, add_finish}

-- A key of one block is equivalent to one entry at most.
erase_key-erase :
    (x n : ℕ) (m : Tokens) (it : Interval × ℕ)
    → Above n m
    → find (mk x x) m ≡ some it
    → erase_key (mk x x) m ≡ erase it.0 m
unfolding erase_key erase find
erase_key-erase x n [] it a e = ground arith
erase_key-erase x n (f ∷ m) it a e = ground (
  arith,
  erase_key-erase x (suc f.0.m_end) m it a.2,
  find-some_overlap (mk x x) (suc f.0.m_end) m it a.2,
  erase_key_above x (suc f.0.m_end) m a.2,
)
  where
    erase_key_above : (x n : ℕ) (m : Tokens) → Above n m → x < n → erase_key (mk x x) m ≡ m
    erase_key_above x n [] a h = refl
    erase_key_above x n (f ∷ m) a h = ground arith

-- What the pair of `bl` and the map stands for, once `bl` is inserted.
abbrev with_new : ℕ → Interval → Tokens → ℕ → Option ℕ
with_new mode bl m b = if has bl b then some mode else token_at b m

-- The pair may take the place of `(bl, m)`.
record Joined (mode b : ℕ) (bl : Interval) (m : Tokens) (p : Interval × Tokens) : Type 0 where
  wf : IsMap p.1
  range : IsRange p.0
  free : Clear p.0 p.1
  starts : p.0.m_start ≤ bl.m_start
  ends : bl.m_end ≤ p.0.m_end
  same : with_new mode p.0 p.1 b ≡ with_new mode bl m b

module _ (mode b : ℕ) (bl : Interval) (m : Tokens) (a : IsMap m) (r : IsRange bl)
    (free : Clear bl m) where
  keep_pair : Joined mode b bl m (bl, m)
  keep_pair = record {
    wf = a;
    range = r;
    free = free;
    starts = omega arith;
    ends = omega arith;
    same = refl;
  }

  -- A neighbour `it` that holds block `x` next to `bl`, erased and joined.
  join_entry :
      (x : ℕ) (it : Interval × ℕ) (bl' : Interval)
      → find (mk x x) m ≡ some it
      → it.1 ≡ mode
      → bl' ≡ (if ltb bl.m_end x then mk bl.m_start it.0.m_end else mk it.0.m_start bl.m_end)
      → (x ≡ suc bl.m_end) ⊎ (suc x ≡ bl.m_start)
      → Joined mode b bl m (bl', erase_key (mk x x) m)
  join_entry x it bl' e same_mode shape near =
      let part = find-some_overlap (mk x x) 0 m it a e in
      let apart = Clear-found bl (mk x x) m it free e in
      let gone = Clear-erase_self (mk x x) 0 m it a e in
      rw (erase_key-erase x 0 m it a e) (record {
        wf = erase-Above it.0 0 m a;
        range = ground arith;
        free =
            Clear-union bl it.0 bl' 0 (erase it.0 m) (erase-Above it.0 0 m a) (ground arith)
              (ground arith) (ground arith) (ground arith) (Clear-erase bl it.0 m free) gone;
        starts = ground arith;
        ends = ground arith;
        same =
            ground
              (arith, token_at-erase (mk x x) 0 m it b a e, token_at-find (mk x x) 0 m it b a e);
      })

  -- The entry that `find` returns for the block after `end` or before `start`.
  Joined-or_kept :
      (x : ℕ) (it : Interval × ℕ) (bl' : Interval)
      → find (mk x x) m ≡ some it
      → bl' ≡ (if ltb bl.m_end x then mk bl.m_start it.0.m_end else mk it.0.m_start bl.m_end)
      → (x ≡ suc bl.m_end) ⊎ (suc x ≡ bl.m_start)
      → Joined mode b bl m (if it.1 == mode then (bl', erase_key (mk x x) m) else (bl, m))
  Joined-or_kept x it bl' e shape near = elim (Bool-cases (it.1 == mode)) [
    | inl same ↦ rw same (join_entry x it bl' e (ground arith) shape near)
    | inr other ↦ rw other keep_pair
  ]

  join_right-Joined :
      (end : ℕ)
      → bl.m_start ≤ end
      → end ≤ bl.m_end
      → end < u32_mod
      → Joined mode b bl m (join_right mode end (bl, m))
  unfolding join_right
  join_right-Joined end h g bound = elim (Bool-cases (end == u32_mod - 1)) [
    | inl last ↦ rw last keep_pair
    | inr inner ↦ rw inner (elim (Option-cases (find (mk (inc32 end) (inc32 end)) m)) [
      | inl e ↦ rw (e, join_right) keep_pair
      | inr (it, e) ↦
          let next : inc32 end ≡ suc bl.m_end = ground (
            arith,
            find-some_overlap (mk (inc32 end) (inc32 end)) 0 m it a e,
            Clear-found bl (mk (inc32 end) (inc32 end)) m it free e,
          ) in
          rw (e, join_right)
            (Joined-or_kept (inc32 end) it (mk bl.m_start it.0.m_end) e (ground arith) (inl next))
    ])
  ]

  join_left-Joined :
      (start : ℕ)
      → bl.m_start ≤ start
      → start ≤ bl.m_end
      → start < u32_mod
      → Joined mode b bl m (join_left mode start (bl, m))
  unfolding join_left
  join_left-Joined start h g bound = elim (Bool-cases (start == 0)) [
    | inl first ↦ rw first keep_pair
    | inr inner ↦ rw inner (elim (Option-cases (find (mk (dec32 start) (dec32 start)) m)) [
      | inl e ↦ rw (e, join_left) keep_pair
      | inr (it, e) ↦
          let next : suc (dec32 start) ≡ bl.m_start = ground (
            arith,
            find-some_overlap (mk (dec32 start) (dec32 start)) 0 m it a e,
            Clear-found bl (mk (dec32 start) (dec32 start)) m it free e,
          ) in
          rw (e, join_left)
            (Joined-or_kept (dec32 start) it (mk it.0.m_start bl.m_end) e (ground arith) (inr next))
    ])
  ]

-- A clear interval that holds `start` to `end` is added with the mode, and no other block changes.
pub add_finish-Clear :
    (mode start end b : ℕ) (s : AddState)
    → s.dont_add ≡ false
    → IsMap s.tok_map
    → IsRange s.bl_int
    → Clear s.bl_int s.tok_map
    → s.bl_int.m_start ≤ start
    → start ≤ end
    → end ≤ s.bl_int.m_end
    → IsMap (add_finish mode start end s)
      × (token_at b (add_finish mode start end s)
          ≡ (if has s.bl_int b then some mode else token_at b s.tok_map))
unfolding add_finish
add_finish-Clear mode start end b s add a r free lo le hi =
    let jr =
      join_right-Joined mode b s.bl_int s.tok_map a r free end (omega arith) hi (omega arith) in
    let p = join_right mode end (s.bl_int, s.tok_map) in
    let jl =
      join_left-Joined mode b p.0 p.1 jr.wf jr.range jr.free start (omega (arith, jr.starts))
        (omega (arith, jr.ends)) (omega arith) in
    let q = join_left mode start p in
    rw (add, Clear-find-none s.bl_int s.tok_map free, add_finish)
      (
        insert-Above q.0 mode 0 q.1 jl.wf jl.range (omega arith),
        token_at-insert q.0 mode q.1 b jl.free ∙ jl.same ∙ jr.same,
      )
