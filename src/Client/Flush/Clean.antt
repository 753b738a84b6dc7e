-- ===== src/Client/Flush/Clean.antt =====
-- What a flush leaves where no other thread is at work.
use cse511_project.Prelude.{
  ℕ, suc, ◌≡◌, refl, ap, ◌⊎◌, inl, inr, true, List, [], ◌∷◌, length, arith, if◌then◌else◌,
  Bool-cases,
}
use cse511_project.Cache.{Used}
use cse511_project.Client.Blocks.{gets, and_then, write_to_file_server}
use cse511_project.Client.Flush.{Sent, is_dirty, clean, flush}

-- Every dirty block can be sent.
abbrev pub AreSendable : Used → Type 0
AreSendable [] = Unit
AreSendable ((k, b) ∷ u) =
    (is_dirty b ≡ true → (command : Sent) × (write_to_file_server b ≡ gets command)) × AreSendable u

abbrev pub cleaned : Used → Used
cleaned [] = []
cleaned ((k, b) ∷ u) = (k, if is_dirty b then clean b else b) ∷ cleaned u

abbrev pub dirty_count : Used → ℕ
dirty_count [] = 0
dirty_count ((k, b) ∷ u) = if is_dirty b then suc (dirty_count u) else dirty_count u

abbrev pub Includes : Sent → List Sent → Type 0
Includes command [] = ⊥
Includes command (c ∷ l) = (c ≡ command) ⊎ Includes command l

-- Each dirty block of the list has its command among those sent.
abbrev pub SendsAll : Used → List Sent → Type 0
SendsAll [] l = Unit
SendsAll ((k, b) ∷ u) l =
    (is_dirty b ≡ true
      → (command : Sent) × (write_to_file_server b ≡ gets command) × Includes command l)
    × SendsAll u l

SendsAll-more : (u : Used) (c : Sent) (l : List Sent) → SendsAll u l → SendsAll u (c ∷ l)
SendsAll-more [] c l h = tt
SendsAll-more ((k, b) ∷ u) c l h = (
  λ d. let (command, order, there) = h.0 d in (command, order, inr there),
  SendsAll-more u c l h.1,
)

cleaned-dirty_count : (u : Used) → dirty_count (cleaned u) ≡ 0
cleaned-dirty_count [] = refl
cleaned-dirty_count ((k, b) ∷ u) = elim (Bool-cases (is_dirty b)) [
  | inl d ↦ rw d (cleaned-dirty_count u)
  | inr d ↦ rw d (rw d (cleaned-dirty_count u))
]

flush_all :
    (u : Used)
    → AreSendable u
    → (l : List Sent) × (flush u ≡ gets (cleaned u, l)) × SendsAll u l × (length l ≡ dirty_count u)
unfolding flush and_then
flush_all [] h = ([], refl, tt, refl)
flush_all ((k, b) ∷ u) h =
    let (l, run, all, count) = flush_all u h.1 in
    elim (Bool-cases (is_dirty b)) [
      | inl d ↦
          let (command, order) = h.0 d in
          (
            command ∷ l,
            rw d (rw order (rw run refl)),
            (λ same. (command, order, inl refl), SendsAll-more u command l all),
            rw d (ap (λ (n : ℕ). suc n) count),
          )
      | inr d ↦ (l, rw d (rw run refl), (λ same. absurd (ground (arith, d, same)), all), rw d count)
    ]

-- Where every dirty block can be sent, a flush without another thread ends; it sends the command of each
-- dirty block, one for each, and leaves every block as it was but clean, so that none is dirty.
pub flush_cleans :
    (u : Used)
    → AreSendable u
    → (l : List Sent) × (flush u ≡ gets (cleaned u, l))
      × SendsAll u l
      × (length l ≡ dirty_count u)
      × (dirty_count (cleaned u) ≡ 0)
flush_cleans u h =
    let (l, run, all, count) = flush_all u h in (l, run, all, count, cleaned-dirty_count u)
