-- ===== src/Client/Acquire/Granted.antt =====
-- The loop for tokens against a metadata manager that grants what it is asked for.
use cse511_project.Prelude.{
  ℕ, zero, suc, ◌+◌, ◌≤◌, ◌<◌, ◌≡◌, refl, ◌∙◌, sym, subst, true, false, ◌||◌, ◌&&◌, [], ◌∷◌, ◌++◌,
  none, some, Text, codes, text_eq, if◌then◌else◌, Option-cases, Bool-cases, inl, inr, arith, leb,
  ◌==◌, All,
}
use cse511_project.Interval.{Interval}
use cse511_project.Interval.Laws.{IsRange, has}
use cse511_project.Strings.{to_lower, to_string}
use cse511_project.Strings.Decimal.{
  IsDigit, to_string-IsDigit, to_string-NotSpace, next_token-append, next_token_last,
  atoi-to_string,
}
use cse511_project.TokenMap.{find}
use cse511_project.TokenMap.Order.{IsMap, find-none-Clear, find-some_overlap}
use cse511_project.TokenMap.Blocks.{token_at, token_at-find}
use cse511_project.FileDesc.Permission.{
  Tokens, AddState, add_permission, add_loop, add_finish, check_permission,
}
use cse511_project.FileDesc.Permission.Check.{check_permission_exact}
use cse511_project.FileDesc.Permission.Join.{add_finish-Clear}
use cse511_project.Metadata.Tokens.{ends_string}
use cse511_project.Client.Acquire.{add_token}

-- Blocks without a read permission have no entry.
pub no_token :
    (x : Interval) (m : Tokens)
    → IsMap m
    → ((b : ℕ) → has x b ≡ true → check_permission m b b'r' ≡ false)
    → x.m_start ≤ x.m_end
    → find x m ≡ none
no_token x m a free le = elim (Option-cases (find x m)) [
  | inl e ↦ e
  | inr (it, e) ↦
      let over = find-some_overlap x 0 m it a e in
      let at_start = token_at-find x 0 m it x.m_start a e in
      let at_it = token_at-find x 0 m it it.0.m_start a e in
      absurd (
        ground (
          arith,
          over,
          le,
          at_start,
          at_it,
          free x.m_start,
          free it.0.m_start,
          check_permission_exact m x.m_start b'r' a,
          check_permission_exact m it.0.m_start b'r' a,
        ))
]

-- What a grant of the range does.
abbrev pub Added : ℕ → Interval → Tokens → Tokens → Type 0
Added mode x m m' =
    IsMap m' × ((b : ℕ) → token_at b m' ≡ (if has x b then some mode else token_at b m))

pub add_permission-Added :
    (fuel mode : ℕ) (x : Interval) (m : Tokens)
    → IsMap m
    → IsRange x
    → find x m ≡ none
    → (m' : Tokens) × (add_permission (suc fuel) m x.m_start x.m_end mode ≡ some m')
      × Added mode x m m'
unfolding add_permission add_loop
add_permission-Added fuel mode x m a r e =
    let s : AddState = record { bl_int = x; tok_map = m; dont_add = false } in
    let done = λ (b : ℕ).
      add_finish-Clear mode x.m_start x.m_end b s refl a r (find-none-Clear x 0 m a e) (omega arith)
        r.0 (omega arith) in
    (add_finish mode x.m_start x.m_end s, rw (e, add_loop) refl, ((done 0).0, λ b. (done b).1))

-- The answer that grants a range is read as the range.
digits_first :
    (s t word : Text) (c : ℕ)
    → All IsDigit s
    → (leb b'0' c && leb c b'9') ≡ false
    → (c == b' ') ≡ false
    → text_eq (to_lower (s ++ b' ' ∷ t)) (c ∷ word) ≡ false
unfolding text_eq
digits_first [] t word c d h g = ground arith
digits_first (a ∷ s) t word c d h g = ground (arith, d.0)

pub add_token-ends_string :
    (fuel mode : ℕ) (x : Interval) (m : Tokens)
    → IsRange x
    → add_token fuel mode (ends_string x) m ≡ add_permission fuel m x.m_start x.m_end mode
unfolding add_token
add_token-ends_string fuel mode x m r =
    let start = to_string x.m_start in
    let end = to_string x.m_end in
    let digits = to_string-IsDigit x.m_start in
    rw (digits_first start end (codes "ocking_failed") b'l' digits refl refl) (
      rw (digits_first start end (codes "ailed") b'f' digits refl refl) (
        rw (next_token-append start end (to_string-NotSpace x.m_start)) (
          rw (next_token_last end (to_string-NotSpace x.m_end)) (
            rw (atoi-to_string x.m_start (omega (arith, r.0, r.1)))
              (rw (atoi-to_string x.m_end r.1) refl)))))

-- The blocks from `b` on, `n` of them, without a read permission.
pub missing : ℕ → ℕ → Tokens → ℕ
missing zero b m = 0
missing (suc n) b m =
    let rest = missing n (suc b) m in if check_permission m b b'r' then rest else suc rest

pub missing-le : (n b : ℕ) (m : Tokens) → missing n b m ≤ n
unfolding missing
missing-le zero b m = omega arith
missing-le (suc n) b m = ground (arith, missing-le n (suc b) m)

-- The tokens grow by those of `x`.
module _ (x : Interval) (m m' : Tokens)
    (grown : (b : ℕ) → check_permission m' b b'r' ≡ (has x b || check_permission m b b'r')) where
  missing-grown : (n b : ℕ) → missing n b m' ≤ missing n b m
  unfolding missing
  missing-grown zero b = omega arith
  missing-grown (suc n) b = ground (arith, missing-grown n (suc b), grown b)

  pub missing-less :
      (n b c : ℕ)
      → b ≤ c
      → c < b + n
      → has x c ≡ true
      → check_permission m c b'r' ≡ false
      → missing n b m' < missing n b m
  unfolding missing
  missing-less zero b c h g i f = absurd (omega arith)
  missing-less (suc n) b c h g i f = elim (Bool-cases (b == c)) [
    | inl e ↦
        let same : b ≡ c = ground (arith, e) in
        let lacks : check_permission m b b'r' ≡ false =
          subst (λ d. check_permission m d b'r' ≡ false) (sym same) f in
        let gets : check_permission m' b b'r' ≡ true = grown b ∙ ground (arith, same, i) in
        ground (arith, missing-grown n (suc b), lacks, gets)
    | inr e ↦
        let less : suc b ≤ c = ground (arith, e, h) in
        ground (arith, missing-less n (suc b) c less (omega (arith, g)) i f, grown b)
  ]
