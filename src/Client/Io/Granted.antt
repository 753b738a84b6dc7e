-- ===== src/Client/Io/Granted.antt =====
-- The tokens that a call gets for its blocks, as its steps see them.
use cse511_project.Prelude.{
  ℕ, zero, suc, ◌+◌, ◌-◌, ◌≤◌, ◌≡◌, refl, ◌∙◌, sym, ap, subst, Bool, true, false, List, [], ◌∷◌,
  some, Text, inl, inr, ◌⊎◌, arith, length, set, length-set, get_elem?, replicate, length-replicate,
  Option-cases, if_false,
}
use cse511_project.Interval.{Interval, mk}
use cse511_project.Interval.Laws.{has, any_has}
use cse511_project.TokenMap.Order.{IsMap}
use cse511_project.FileDesc.{OpenFileEntry, ofdt_fetch_recipe, ofdt_fetch_name}
use cse511_project.FileDesc.Permission.{Tokens, check_permission}
use cse511_project.FileDesc.Permission.Check.{check_permission_exact}
use cse511_project.Client.Calls.{ClientState}
use cse511_project.Client.Tokens.{required_token}
use cse511_project.Client.Tokens.Runs.{AreRuns, required_token_exact}
use cse511_project.Client.Acquire.{
  Acquired, acquired, asks_on, adds_on, acquire_loop, acquire, mark_run, mark_runs, add_token,
}
use cse511_project.Client.Acquire.Spec.{Got, List-cases}
use cse511_project.Client.Blocks.{gets}
use cse511_project.Client.Io.{fetch_open}

length-mark_run :
    (rounds i bs : ℕ) (marks : List Bool) → length (mark_run rounds i bs marks) ≡ length marks
unfolding mark_run
length-mark_run zero i bs marks = refl
length-mark_run (suc rounds) i bs marks =
    length-mark_run rounds (suc i) bs (set marks (i - bs) false) ∙ length-set marks (i - bs) false

length-mark_runs :
    (bs : ℕ) (runs : List Interval) (marks : List Bool)
    → length (mark_runs bs runs marks) ≡ length marks
unfolding mark_runs
length-mark_runs bs [] marks = refl
length-mark_runs bs (run ∷ runs) marks =
    length-mark_runs bs runs _ ∙ length-mark_run (run.m_end + 1 - run.m_start) run.m_start bs marks

-- What ends the loop with tokens has as many marks as at first.
IsLong : ℕ → Acquired → Type 0
IsLong n (acquired m marks) = length marks ≡ n
IsLong n asks_on = Unit
IsLong n adds_on = Unit

acquire_loop-IsLong :
    (fuel mode bs be : ℕ) (reply : ℕ → Interval → Text) (rounds k : ℕ) (m : Tokens)
    (marks : List Bool)
    → IsLong (length marks) (acquire_loop fuel mode bs be reply rounds k m marks)
unfolding acquire_loop IsLong
acquire_loop-IsLong fuel mode bs be reply zero k m marks = tt
acquire_loop-IsLong fuel mode bs be reply (suc rounds) k m marks =
    elim (List-cases (required_token m bs be)) [
      | inl e ↦ rw (e, acquire_loop) refl
      | inr (run, runs, e) ↦ elim (Option-cases (add_token fuel mode (reply k run) m)) [
        | inl none_left ↦ rw (e, acquire_loop) (rw (none_left, acquire_loop) tt)
        | inr (m', added) ↦
            rw (e, acquire_loop)
              (rw (added, acquire_loop)
                (subst
                  (λ n. IsLong n (
                    acquire_loop fuel mode bs be reply rounds (suc k) m'
                      (mark_runs bs (run ∷ runs) marks)))
                  (length-mark_runs bs (run ∷ runs) marks)
                  (acquire_loop-IsLong fuel mode bs be reply rounds (suc k) m'
                    (mark_runs bs (run ∷ runs) marks))))
      ]
    ]

pub acquire-length :
    (fuel mode bs be rounds : ℕ) (reply : ℕ → Interval → Text) (m m' : Tokens) (marks : List Bool)
    → acquire fuel mode bs be reply rounds m ≡ acquired m' marks
    → length marks ≡ be + 1 - bs
unfolding acquire IsLong
acquire-length fuel mode bs be rounds reply m m' marks h =
    let long =
      acquire_loop-IsLong fuel mode bs be reply rounds 0 m (replicate (be + 1 - bs) true) in
    subst (IsLong (length (replicate {A = Bool} (be + 1 - bs) true))) h long
    ∙ length-replicate (be + 1 - bs) true

-- With a read permission for every block nothing is requested.
pub required_token-nil :
    (m : Tokens) (bs be : ℕ)
    → bs ≤ be
    → ((b : ℕ) → has (mk bs be) b ≡ true → check_permission m b b'r' ≡ true)
    → required_token m bs be ≡ []
required_token-nil m bs be le all = elim (List-cases (required_token m bs be)) [
  | inl e ↦ e
  | inr (x, more, e) ↦
      let (exact, runs) = required_token_exact m bs be le in
      let (lo, mid, hi, rest) = subst (AreRuns bs be) e runs in
      absurd (
        ground (
          arith,
          lo,
          mid,
          hi,
          sym (ap (λ l. any_has l x.m_start) e) ∙ exact x.m_start,
          all x.m_start,
        ))
]

pub acquire_none :
    (fuel mode bs be rounds : ℕ) (reply : ℕ → Interval → Text) (m : Tokens)
    → required_token m bs be ≡ []
    → acquire fuel mode bs be reply (suc rounds) m ≡ acquired m (replicate (be + 1 - bs) true)
unfolding acquire acquire_loop
acquire_none fuel mode bs be rounds reply m e = rw (e, acquire_loop) refl

-- After a grant every block of the range can be read.
pub Got-check_permission :
    (mode bs be : ℕ) (m m' : Tokens) (b : ℕ)
    → IsMap m
    → (mode ≡ b'r') ⊎ (mode ≡ b'w')
    → Got mode bs be m m'
    → has (mk bs be) b ≡ true
    → check_permission m' b b'r' ≡ true
Got-check_permission mode bs be m m' b a modes got h =
    ground
      (arith, h, got.1 b, check_permission_exact m b b'r' a, check_permission_exact m' b b'r' got.0)

pub fetch_open_lem :
    (s : ClientState) (filedes : ℕ) (e : OpenFileEntry)
    → s.file_desc_mutex ≡ false
    → get_elem? s.descriptors.ofdt filedes ≡ some e
    → e.is_open ≡ true
    → fetch_open s filedes ≡ gets (e.file_recipe, e.name)
unfolding fetch_open ofdt_fetch_recipe ofdt_fetch_name
fetch_open_lem s filedes e free at opened =
    if_false s.file_desc_mutex _ _ free
    ∙ rw (at, ofdt_fetch_recipe) (rw opened (rw (at, ofdt_fetch_name) (rw opened refl)))
