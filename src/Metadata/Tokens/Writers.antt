-- ===== src/Metadata/Tokens/Writers.antt =====
-- The loop of `execFunc_request_token` that takes the tokens of writers.
use mathlib.Core.Option
use cse511_project.Prelude.{
  Option, Bool-cases, if◌then◌else◌, ℕ, ◌+◌, ◌≤◌, ◌<◌, ◌≡◌, refl, sym, true, false, List, [], ◌∷◌,
  none, some, arith, inl, inr, if_false, if_true, ap, ◌∙◌, Option-cases, subst, le_or_lt, length,
  Text, All,
}
use cse511_project.Interval.{Interval, mk, inc32, dec32, subtract_interval}
use cse511_project.Interval.Laws.{IsRange, has}
use cse511_project.TokenMap.{TokenMap, find, erase}
use cse511_project.TokenMap.Order.{IsMap, Clear, find-none-Clear}
use cse511_project.TokenMap.Blocks.{token_at, Clear-token_at, hits, Clear-hits}
use cse511_project.TokenMap.Cut.{Cut, Without, entry, Cut-all, Cut-left, Cut-right, Cut-both}
use cse511_project.Metadata.{Holder}
use cse511_project.Metadata.Tokens.{refused, insert_parts, revoke_writer, revoke_writers, Sent}

abbrev pub Grants : Text → Type 0
Grants response = refused response ≡ false

abbrev pub Refuses : Text → Type 0
Refuses response = refused response ≡ true

-- The parts of an interval `i` that `x` overlaps, in the four cases.
module _ (i x : Interval) (hi : IsRange i) (hx : IsRange x) where
  parts_none : x.m_start ≤ i.m_start → i.m_end ≤ x.m_end → subtract_interval i x ≡ []
  unfolding subtract_interval
  parts_none h g = ground arith

  parts_left :
      i.m_start < x.m_start
      → i.m_end ≤ x.m_end
      → x.m_start ≤ i.m_end
      → subtract_interval i x ≡ mk i.m_start (dec32 x.m_start) ∷ []
  unfolding subtract_interval
  parts_left h g o = ground arith

  parts_right :
      x.m_start ≤ i.m_start
      → x.m_end < i.m_end
      → i.m_start ≤ x.m_end
      → subtract_interval i x ≡ mk (inc32 x.m_end) i.m_end ∷ []
  unfolding subtract_interval
  parts_right h g o = ground arith

  parts_both :
      i.m_start < x.m_start
      → x.m_end < i.m_end
      → subtract_interval i x ≡ mk i.m_start (dec32 x.m_start) ∷ mk (inc32 x.m_end) i.m_end ∷ []
  unfolding subtract_interval
  parts_both h g = ground arith

module _ (x : Interval) (m : TokenMap Holder) (it : Interval × Holder) (r : IsRange x) (a : IsMap m)
    (found : find x m ≡ some it) where
  Grant : ℕ → List Interval → Type 0
  unfolding insert_parts
  Grant b parts = Cut x m it r a found b (insert_parts parts it.1 (erase it.0 m))

  -- An answer that grants cuts the interval out of the entry.
  parts-Cut : (b : ℕ) → Grant b (subtract_interval it.0 x)
  unfolding Grant insert_parts
  parts-Cut b =
      let e = entry x m it r a found in
      let with_parts =
        λ (parts : List Interval) (q : subtract_interval it.0 x ≡ parts). subst (Grant b) (sym q) in
      elim (le_or_lt x.m_start it.0.m_start) [
        | inl h ↦ elim (le_or_lt it.0.m_end x.m_end) [
          | inl g ↦ with_parts _ (parts_none it.0 x e.2 r h g) (Cut-all x m it r a found b h g)
          | inr g ↦
              with_parts _ (parts_right it.0 x e.2 r h g e.1) (Cut-right x m it r a found b h g)
        ]
        | inr h ↦ elim (le_or_lt it.0.m_end x.m_end) [
          | inl g ↦ with_parts _ (parts_left it.0 x e.2 r h g e.0) (Cut-left x m it r a found b h g)
          | inr g ↦ with_parts _ (parts_both it.0 x e.2 r h g) (Cut-both x m it r a found b h g)
        ]
      ]

pub revoke_writer-Cut :
    (x : Interval) (m : TokenMap Holder) (it : Interval × Holder) (r : IsRange x) (a : IsMap m)
    (found : find x m ≡ some it) (response : Text) (b : ℕ)
    → Grants response
    → Cut x m it r a found b (revoke_writer x it response m)
unfolding revoke_writer Grant
revoke_writer-Cut x m it r a found response b g =
    subst (Cut x m it r a found b) (sym (if_false (refused response) _ _ g))
      (parts-Cut x m it r a found b)

-- What the loop over the writers returns where every answer grants.
abbrev pub Revoked :
    Text → Interval → TokenMap Holder → ℕ → TokenMap Holder × List Text × Sent → Type 0
Revoked message x m replies (m', left, sent) =
    Without x m m' × (length sent ≡ hits x m) × (length left + hits x m ≡ replies) × Clear x m'

-- Nothing to do.
nothing-Revoked :
    (message : Text) (x : Interval) (replies : List Text) (m : TokenMap Holder)
    → IsMap m
    → find x m ≡ none
    → Revoked message x m (length replies) (m, replies, [])
nothing-Revoked message x replies m a e =
    let none_hit = find-none-Clear x 0 m a e in
    let zero_hit = Clear-hits x m none_hit in
    (
      (a, λ b. ground (arith, Clear-token_at x b m none_hit)),
      omega (arith, zero_hit),
      omega (arith, zero_hit),
      none_hit,
    )

pub revoke_writers-Revoked :
    (message : Text) (x : Interval) (replies : List Text) (m : TokenMap Holder)
    → IsRange x
    → IsMap m
    → All Grants replies
    → hits x m ≤ length replies
    → (out : TokenMap Holder × List Text × Sent) × (revoke_writers message x replies m ≡ some out)
      × Revoked message x m (length replies) out
unfolding revoke_writers revoke_writer Grant
revoke_writers-Revoked message x [] m r a g h = elim (Option-cases (find x m)) [
  | inl e ↦ ((m, [], []), rw (e, revoke_writers) refl, nothing-Revoked message x [] m a e)
  | inr (it, e) ↦ absurd (omega (arith, h, (parts-Cut x m it r a e 0).1))
]
revoke_writers-Revoked message x (response ∷ replies) m r a g h = elim (Option-cases (find x m)) [
  | inl e ↦ (
    (m, response ∷ replies, []),
    rw (e, revoke_writers) refl,
    nothing-Revoked message x (response ∷ replies) m a e,
  )
  | inr (it, e) ↦
      let cut = λ (b : ℕ). revoke_writer-Cut x m it r a e response b g.0 in
      let next = revoke_writer x it response m in
      let ((m', left, sent), run, done) =
        revoke_writers-Revoked message x replies next r (cut 0).0 g.1
          (omega (arith, h, (cut 0).1)) in
      (
        (m', left, (message, it.1) ∷ sent),
        rw (e, revoke_writers) (rw run refl),
        (
          (done.0.0, λ b. ground (arith, done.0.1 b, (cut b).2)),
          omega (arith, done.1, (cut 0).1),
          omega (arith, done.2, (cut 0).1),
          done.3,
        ),
      )
]

-- Where a writer overlaps the range and every answer is "nack", the loop asks this writer again and
-- again and never ends: however many answers come, one more is waited for.
pub revoke_writers_refused :
    (message : Text) (x : Interval) (replies : List Text) (m : TokenMap Holder)
    (it : Interval × Holder)
    → find x m ≡ some it
    → All Refuses replies
    → revoke_writers message x replies m ≡ none
unfolding revoke_writers revoke_writer
revoke_writers_refused message x [] m it e g = rw (e, revoke_writers) refl
revoke_writers_refused message x (response ∷ replies) m it e g =
    let same : revoke_writer x it response m ≡ m = if_true (refused response) _ _ g.0 in
    rw (e, revoke_writers) (rw same (rw (revoke_writers_refused message x replies m it e g.1) refl))

abbrev pub WithoutEnd :
    Interval → TokenMap Holder → Option (TokenMap Holder × List Text × Sent) → Type 0
WithoutEnd x m none = Unit
WithoutEnd x m (some (m', left, sent)) = Without x m m' × Clear x m'

map-WithoutEnd :
    (x : Interval) (m next : TokenMap Holder) (message : Text × Holder)
    (out : Option (TokenMap Holder × List Text × Sent))
    → ((b : ℕ)
        → (if has x b then none else token_at b next) ≡ (if has x b then none else token_at b m))
    → WithoutEnd x next out
    → WithoutEnd x m (Option.map (λ (m', left, sent). (m', left, message ∷ sent)) out)
map-WithoutEnd x m next message none same h = tt
map-WithoutEnd x m next message (some (m', left, sent)) same h =
    ((h.0.0, λ b. h.0.1 b ∙ same b), h.1)

-- Whatever is answered: where the loop over the writers ends, the range has no writer, the map is in
-- order and the other blocks keep theirs.
pub revoke_writers-WithoutEnd :
    (message : Text) (x : Interval) (replies : List Text) (m : TokenMap Holder)
    → IsRange x
    → IsMap m
    → WithoutEnd x m (revoke_writers message x replies m)
unfolding revoke_writers revoke_writer Grant
revoke_writers-WithoutEnd message x [] m r a = elim (Option-cases (find x m)) [
  | inl e ↦
      rw (e, revoke_writers) (let done = nothing-Revoked message x [] m a e in (done.0, done.3))
  | inr (it, e) ↦ rw (e, revoke_writers) tt
]
revoke_writers-WithoutEnd message x (response ∷ replies) m r a = elim (Option-cases (find x m)) [
  | inl e ↦
      rw (e, revoke_writers)
        (let done = nothing-Revoked message x (response ∷ replies) m a e in (done.0, done.3))
  | inr (it, e) ↦
      rw (e, revoke_writers)
        (elim (Bool-cases (refused response)) [
          | inl q ↦
              let same : revoke_writer x it response m ≡ m = if_true (refused response) _ _ q in
              map-WithoutEnd x m _ _ _ (λ b. ap (λ n. if has x b then none else token_at b n) same)
                (revoke_writers-WithoutEnd message x replies (revoke_writer x it response m) r
                  (subst IsMap (sym same) a))
          | inr q ↦
              let cut = λ (b : ℕ). revoke_writer-Cut x m it r a e response b q in
              map-WithoutEnd x m _ _ _ (λ b. ground (arith, (cut b).2))
                (revoke_writers-WithoutEnd message x replies (revoke_writer x it response m) r
                  (cut 0).0)
        ])
]
