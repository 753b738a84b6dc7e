-- ===== src/Metadata/Tokens/Readers/Rounds.antt =====
-- The rounds that the loop over the readers in `execFunc_request_token` needs.
use cse511_project.Prelude.{
  ℕ, zero, suc, ◌+◌, ◌-◌, ◌≤◌, ◌<◌, ◌≡◌, ◌≢◌, refl, ap, Bool, true, false, List, [], ◌∷◌, ◌++◌,
  some, arith, inl, inr, if◌then◌else◌, if-either, Option-cases, Bool-cases, length, map, Text,
  get_elem?, length-append, ◌==◌,
}
use cse511_project.Interval.{Interval, is_equal, subtract_interval, u32_mod}
use cse511_project.Metadata.{Holder}
use cse511_project.Metadata.Tokens.{
  Readers, refused, ReadersEnd, finished, outside, unanswered, unfinished, sent_first,
  revoke_reader, revoke_readers, write_message, erase_at, rounds,
}

-- Both ends are `unsigned int`s.
abbrev pub IsWord : Interval → Type 0
IsWord i = (i.m_start < u32_mod) × (i.m_end < u32_mod)

abbrev pub AreWords : Readers → Type 0
AreWords [] = Unit
AreWords (e ∷ l) = IsWord e.0 × AreWords l

-- The readers from index `i` on whose ranges `x` overlaps.
unfoldable pub ahead : Interval → ℕ → Readers → ℕ
ahead x i [] = 0
ahead x zero (e ∷ l) = let rest = ahead x zero l in if is_equal x e.0 then suc rest else rest
ahead x (suc i) (e ∷ l) = ahead x i l

module _ (x : Interval) where
  pub ahead_hit :
      (l : Readers) (i : ℕ) (e : Interval × Holder)
      → get_elem? l i ≡ some e
      → is_equal x e.0 ≡ true
      → ahead x i l ≡ suc (ahead x (suc i) l)
  unfolding ahead
  ahead_hit [] i e f h = ground arith
  ahead_hit (y ∷ l) zero e f h = ground (arith, f, h)
  ahead_hit (y ∷ l) (suc i) e f h = ahead_hit l i e f h

  pub ahead_next : (l : Readers) (i : ℕ) → ahead x (suc i) l ≤ ahead x i l
  unfolding ahead
  ahead_next [] i = omega arith
  ahead_next (y ∷ l) zero = ground arith
  ahead_next (y ∷ l) (suc i) = ahead_next l i

  ahead_all : (l : Readers) (i : ℕ) → ahead x i l ≤ ahead x 0 l
  ahead_all l zero = omega arith
  ahead_all l (suc i) = omega (arith, ahead_next l i, ahead_all l i)

  pub ahead-append : (l l' : Readers) (i : ℕ) → ahead x i (l ++ l') ≤ ahead x i l + ahead x 0 l'
  unfolding ahead
  ahead-append [] l' i = omega (arith, ahead_all l' i)
  ahead-append (y ∷ l) l' zero = ground (arith, ahead-append l l' 0)
  ahead-append (y ∷ l) l' (suc i) = ahead-append l l' i

  pub ahead-erase_at : (l : Readers) (i : ℕ) → ahead x (suc i) (erase_at i l) ≤ ahead x (suc i) l
  unfolding ahead
  ahead-erase_at [] i = omega arith
  ahead-erase_at (y ∷ l) zero = ahead_next l 0
  ahead-erase_at (y ∷ l) (suc i) = ahead-erase_at l i

  pub ahead-le-length : (l : Readers) → ahead x 0 l ≤ length l
  unfolding ahead
  ahead-le-length [] = omega arith
  ahead-le-length (y ∷ l) = ground (arith, ahead-le-length l)

pub length-erase_at :
    (l : Readers) (i : ℕ) (e : Interval × Holder)
    → get_elem? l i ≡ some e
    → length l ≡ suc (length (erase_at i l))
length-erase_at [] i e f = ground arith
length-erase_at (y ∷ l) zero e f = refl
length-erase_at (y ∷ l) (suc i) e f = ap suc (length-erase_at l i e f)

pub get_elem?-lt :
    (l : Readers) (i : ℕ) (e : Interval × Holder) → get_elem? l i ≡ some e → i < length l
get_elem?-lt [] i e f = absurd (ground (arith, f))
get_elem?-lt (y ∷ l) zero e f = omega arith
get_elem?-lt (y ∷ l) (suc i) e f = omega (arith, get_elem?-lt l i e f)

pub erase_at-AreWords : (l : Readers) (i : ℕ) → AreWords l → AreWords (erase_at i l)
erase_at-AreWords [] i h = tt
erase_at-AreWords (y ∷ l) zero h = h.1
erase_at-AreWords (y ∷ l) (suc i) h = (h.0, erase_at-AreWords l i h.1)

pub append-AreWords : (l l' : Readers) → AreWords l → AreWords l' → AreWords (l ++ l')
append-AreWords [] l' h h' = h'
append-AreWords (y ∷ l) l' h h' = (h.0, append-AreWords l l' h.1 h')

pub get_elem?-IsWord :
    (l : Readers) (i : ℕ) (e : Interval × Holder) → get_elem? l i ≡ some e → AreWords l → IsWord e.0
get_elem?-IsWord [] i e f h = absurd (ground (arith, f))
get_elem?-IsWord (y ∷ l) zero e f h = ground (arith, f, h.0)
get_elem?-IsWord (y ∷ l) (suc i) e f h = get_elem?-IsWord l i e f h.1

-- What a reader keeps: at most two ranges, which `x` does not overlap.
unfoldable pub Kept : Interval → Readers → Type 0
unfolding ahead
Kept x parts = (length parts ≤ 2) × (ahead x 0 parts ≡ 0) × AreWords parts

pub parts-Kept :
    (x i : Interval) (h : Holder)
    → IsWord x
    → IsWord i
    → is_equal x i ≡ true
    → Kept x (map (λ part. (part, h)) (subtract_interval i x))
unfolding Kept ahead subtract_interval is_equal
parts-Kept x i h wx wi o = ground arith

-- The rounds that are left at index `i`.
unfoldable pub left : Interval → ℕ → Readers → ℕ
unfolding ahead
left x i l = (length l - i) + ahead x i l

pub revoke_reader-left :
    (x : Interval) (l : Readers) (i : ℕ) (e : Interval × Holder) (response : Text)
    → IsWord x
    → AreWords l
    → get_elem? l i ≡ some e
    → is_equal x e.0 ≡ true
    → (left x (suc i) (revoke_reader x i e response l) < left x i l)
      × AreWords (revoke_reader x i e response l)
unfolding left revoke_reader Kept
revoke_reader-left x l i e response wx wl found o =
    let parts : Readers = map (λ part. (part, e.1)) (subtract_interval e.0 x) in
    let kept = parts-Kept x e.0 e.1 wx (get_elem?-IsWord l i e found wl) o in
    let one = ahead_hit x l i e found o in
    let shorter = length-erase_at l i e found in
    let inside : i < length l = get_elem?-lt l i e found in
    if-either
      (λ r. ((length r - suc i) + ahead x (suc i) r < (length l - i) + ahead x i l) × AreWords r)
      (refused response) _ _ (omega (arith, one, inside), wl)
      (
        omega (
          arith,
          one,
          inside,
          shorter,
          kept.0,
          kept.1,
          ahead-append x (erase_at i l) parts (suc i),
          ahead-erase_at x l i,
          length-append (erase_at i l) parts,
        ),
        append-AreWords (erase_at i l) parts (erase_at-AreWords l i wl) kept.2,
      )

sent_first_lem :
    (message : Text × Holder) (r : ReadersEnd) → r ≢ unfinished → sent_first message r ≢ unfinished
unfolding sent_first
sent_first_lem message (finished l sent) h e = ground arith
sent_first_lem message unanswered h e = ground arith
sent_first_lem message outside h e = ground arith
sent_first_lem message unfinished h e = h refl

at_or_behind_end : (b : Bool) (l : Readers) → (if b then finished l [] else outside) ≢ unfinished
at_or_behind_end true l e = ground arith
at_or_behind_end false l e = ground arith

-- A reader is asked.
asked :
    (f : ℕ) (x : Interval) (i : ℕ) (replies : List Text) (l : Readers) (e : Interval × Holder)
    → ((response : Text) (rest : List Text)
        → revoke_readers f x (suc i) rest (revoke_reader x i e response l) ≢ unfinished)
    → elim replies as (λ r. ReadersEnd) [
      | [] ↦ unanswered
      | response ∷ rest ↦
          sent_first
            (write_message x, e.1)
            (revoke_readers f x (suc i) rest (revoke_reader x i e response l))
    ]
      ≢ unfinished
asked f x i [] l e h = λ q. ground arith
asked f x i (response ∷ rest) l e h = sent_first_lem _ _ (h response rest)

revoke_readers_enough :
    (f : ℕ) (x : Interval) (i : ℕ) (replies : List Text) (l : Readers)
    → IsWord x
    → AreWords l
    → left x i l < f
    → revoke_readers f x i replies l ≢ unfinished
unfolding revoke_readers left
revoke_readers_enough zero x i replies l wx wl h = absurd (omega arith)
revoke_readers_enough (suc f) x i replies l wx wl h = elim (Option-cases (get_elem? l i)) [
  | inl n ↦ rw (n, revoke_readers) (at_or_behind_end (i == length l) l)
  | inr (e, n) ↦
      let inside = get_elem?-lt l i e n in
      elim (Bool-cases (is_equal x e.0)) [
        | inr o ↦
            rw (n, revoke_readers)
              (rw (o, revoke_readers)
                (revoke_readers_enough f x (suc i) replies l wx wl
                  (omega (arith, h, inside, ahead_next x l i))))
        | inl o ↦
            rw (n, revoke_readers)
              (rw (o, revoke_readers)
                (asked f x i replies l e (λ response rest.
                  let (less, words) = revoke_reader-left x l i e response wx wl n o in
                  revoke_readers_enough f x (suc i) rest (revoke_reader x i e response l) wx words
                    (omega (arith, less, h)))))
      ]
]

-- For a range and readers whose ends are `unsigned int`s, the rounds that the loop over the readers is
-- given are enough for it to stop: behind the last reader, waiting for a reply, or outside the vector.
pub revoke_readers_end :
    (x : Interval) (replies : List Text) (l : Readers)
    → IsWord x
    → AreWords l
    → revoke_readers (rounds l) x 0 replies l ≢ unfinished
unfolding left
revoke_readers_end x replies l wx wl =
    revoke_readers_enough (rounds l) x 0 replies l wx wl (omega (arith, ahead-le-length x l))
