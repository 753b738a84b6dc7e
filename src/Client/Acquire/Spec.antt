-- ===== src/Client/Acquire/Spec.antt =====
-- What the loop for tokens leaves where every request is granted.
use cse511_project.Prelude.{
  ℕ, zero, suc, ◌+◌, ◌-◌, ◌≤◌, ◌<◌, ◌≡◌, refl, ◌∙◌, sym, ap, subst, Bool, true, false, ◌||◌, ◌&&◌,
  not, List, [], ◌∷◌, some, Text, if◌then◌else◌, inl, inr, ◌⊎◌, arith, replicate,
}
use cse511_project.Interval.{Interval, mk, u32_mod}
use cse511_project.Interval.Laws.{IsRange, has, any_has}
use cse511_project.TokenMap.Order.{IsMap}
use cse511_project.TokenMap.Blocks.{token_at}
use cse511_project.FileDesc.Permission.{Tokens, check_permission}
use cse511_project.FileDesc.Permission.Check.{check_permission_exact}
use cse511_project.Client.Tokens.{required_token}
use cse511_project.Client.Tokens.Runs.{AreRuns, required_token_exact}
use cse511_project.Metadata.Tokens.{ends_string}
use cse511_project.Client.Acquire.{acquired, acquire_loop, acquire, mark_runs}
use cse511_project.Client.Acquire.Granted.{
  no_token, Added, add_permission-Added, add_token-ends_string, missing, missing-le, missing-less,
}

-- Each block of the range that had no token has one of the mode, and every other block has what it had.
abbrev pub Got : ℕ → ℕ → ℕ → Tokens → Tokens → Type 0
Got mode bs be m m' =
    IsMap m'
    × ((b : ℕ)
        → token_at b m' ≡ (
            if has (mk bs be) b && not (check_permission m b b'r')
            then some mode
            else token_at b m))

-- The metadata manager's answer that grants the range asked for.
abbrev pub grant : ℕ → Interval → Text
grant k run = ends_string run

pub List-cases :
    (l : List Interval) → (l ≡ []) ⊎ ((x : Interval) × (more : List Interval) × (l ≡ x ∷ more))
List-cases [] = inl refl
List-cases (x ∷ more) = inr (x, more, refl)

module _ (fuel mode bs be : ℕ) (le : bs ≤ be) (bound : be < u32_mod) where
  nothing-Got : (m : Tokens) → IsMap m → required_token m bs be ≡ [] → Got mode bs be m m
  nothing-Got m a none_left =
      let exact = (required_token_exact m bs be le).0 in
      (a, λ b. ground (arith, sym (exact b) ∙ ap (λ l. any_has l b) none_left))

  -- One request for the first run.
  round :
      (m : Tokens) (x : Interval) (more : List Interval)
      → IsMap m
      → required_token m bs be ≡ x ∷ more
      → IsRange x
        × (bs ≤ x.m_start)
        × (x.m_end ≤ be)
        × ((b : ℕ) → has x b ≡ true → check_permission m b b'r' ≡ false)
  round m x more a first =
      let (exact, runs) = required_token_exact m bs be le in
      let runs' : AreRuns bs be (x ∷ more) = subst (AreRuns bs be) first runs in
      (
        (runs'.1, omega (arith, runs'.2)),
        runs'.0,
        runs'.2,
        λ b h. ground (arith, h, sym (ap (λ l. any_has l b) first) ∙ exact b),
      )

  grown :
      (m m' : Tokens) (x : Interval)
      → IsMap m
      → Added mode x m m'
      → (b : ℕ) → check_permission m' b b'r' ≡ (has x b || check_permission m b b'r')
  grown m m' x a added b = ground (
    arith,
    added.1 b,
    check_permission_exact m b b'r' a,
    check_permission_exact m' b b'r' added.0,
  )

  after_round-Got :
      (m m' m'' : Tokens) (x : Interval)
      → IsMap m
      → Added mode x m m'
      → ((b : ℕ) → has x b ≡ true → check_permission m b b'r' ≡ false)
      → bs ≤ x.m_start
      → x.m_end ≤ be
      → Got mode bs be m' m''
      → Got mode bs be m m''
  after_round-Got m m' m'' x a added free lo hi got =
      (got.0, λ b. ground (arith, got.1 b, grown m m' x a added b, added.1 b, free b))

  acquire_loop-Got :
      (rounds k : ℕ) (m : Tokens) (marks : List Bool)
      → IsMap m
      → missing (be + 1 - bs) bs m < rounds
      → (m' : Tokens) × (marks' : List Bool) × (acquire_loop
            (suc fuel)
            mode
            bs
            be
            grant
            rounds
            k
            m
            marks
          ≡ acquired m' marks')
        × Got mode bs be m m'
  unfolding acquire_loop
  acquire_loop-Got zero k m marks a h = absurd (omega arith)
  acquire_loop-Got (suc rounds) k m marks a h = elim (List-cases (required_token m bs be)) [
    | inl e ↦ (m, marks, rw (e, acquire_loop) refl, nothing-Got m a e)
    | inr (x, more, e) ↦
        let (range, lo, hi, free) = round m x more a e in
        let clear = no_token x m a free range.0 in
        let (m', add, added) = add_permission-Added fuel mode x m a range clear in
        let less =
          missing-less x m m' (grown m m' x a added) (be + 1 - bs) bs x.m_start lo
            (omega (arith, range.0, hi)) (ground (arith, range.0))
            (free x.m_start (ground (arith, range.0))) in
        let (m'', marks', run, got) =
          acquire_loop-Got rounds (suc k) m' (mark_runs bs (x ∷ more) marks) added.0
            (omega (arith, less, h)) in
        (
          m'',
          marks',
          rw (e, acquire_loop)
              (rw (add_token-ends_string (suc fuel) mode x m range ∙ add, acquire_loop) run),
          after_round-Got m m' m'' x a added free lo hi got,
        )
  ]

  -- For a range of blocks, a token map in order and a metadata manager that grants each range it is
  -- asked for, the loop ends within one round more than there are blocks; each block of the range that
  -- had no token has one of the mode asked for, and every other block has what it had. A block with a
  -- read token keeps that, also where the mode is 'w'.
  pub acquire-Got :
      (rounds : ℕ) (m : Tokens)
      → IsMap m
      → be + 1 - bs < rounds
      → (m' : Tokens) × (marks : List Bool) × (acquire (suc fuel) mode bs be grant rounds m
          ≡ acquired m' marks)
        × Got mode bs be m m'
  unfolding acquire
  acquire-Got rounds m a h =
      acquire_loop-Got rounds 0 m (replicate (be + 1 - bs) true) a
        (omega (arith, h, missing-le (be + 1 - bs) bs m))
