-- ===== src/FileDesc/Held.antt =====
-- The tokens that `revokePermission` of FileDesc.cc finds for a file: those of the last entry with the
-- file's name, where it is open.
use cse511_project.Prelude.{
  get_elem?_lt, ℕ, zero, suc, ◌+◌, ◌≤◌, ◌<◌, ◌≡◌, refl, ◌∙◌, ap, sym, subst, ◌⊎◌, ◌^◌, pos, true,
  false, ◌&&◌, not, Bool, List, [], ◌∷◌, ◌++◌, Option, none, some, length, get_elem?, set,
  get_elem?-set_self, to_unsigned, Text, arith, if_true, if_false, if◌then◌else◌, Option-cases,
  Bool-cases, inl, inr,
}
use cse511_project.Strings.{int_to_string}
use cse511_project.Interval.{Interval}
use cse511_project.Interval.Laws.{IsRange, has}
use cse511_project.TokenMap.Order.{IsMap}
use cse511_project.TokenMap.Cut.{Without}
use cse511_project.FileDesc.Permission.{Tokens, check_permission, remove_permission}
use cse511_project.FileDesc.Permission.Check.{check_permission_exact}
use cse511_project.FileDesc.Permission.Remove.{remove_permission-Without}
use cse511_project.FileDesc.{
  FileDescriptor, OpenFileEntry, last_named, revoke_permission, not_open_response,
}

-- The tokens of an entry that is open.
abbrev pub open_tokens : Option OpenFileEntry → Option Tokens
open_tokens none = none
open_tokens (some e) = if e.is_open then some e.tokens else none

abbrev pub tokens_in : List OpenFileEntry → Option ℕ → Option Tokens
tokens_in t none = none
tokens_in t (some j) = open_tokens (get_elem? t j)

unfoldable pub held_tokens : Text → FileDescriptor → Option Tokens
unfolding last_named
held_tokens name d = tokens_in d.ofdt (last_named 0 name d.ofdt)

-- More than the tokens of any entry.
abbrev pub token_count : List OpenFileEntry → ℕ
token_count [] = 0
token_count (e ∷ t) = length e.tokens + token_count t

abbrev pub checks : Option Tokens → ℕ → ℕ → Bool
checks none b mode = false
checks (some m) b mode = check_permission m b mode

-- Whether the client may use block `b` of the file for `mode`.
unfoldable pub may : Text → FileDescriptor → ℕ → ℕ → Bool
unfolding held_tokens
may name d b mode = checks (held_tokens name d) b mode

abbrev pub AreMap : Option Tokens → Type 0
AreMap none = Unit
AreMap (some m) = IsMap m

pub last_named-set :
    (i j : ℕ) (n : Text) (t : List OpenFileEntry) (e : OpenFileEntry) (m : Tokens)
    → get_elem? t j ≡ some e
    → last_named i n (set t j (record e { tokens = m })) ≡ last_named i n t
unfolding last_named
last_named-set i j n [] e m h = refl
last_named-set i zero n (x ∷ t) e m h = ground (arith, h)
last_named-set i (suc j) n (x ∷ t) e m h = rw (last_named-set (suc i) j n t e m h, last_named) refl

last_named-place :
    (i k : ℕ) (n : Text) (t : List OpenFileEntry)
    → last_named i n t ≡ some k
    → (j : ℕ) × (e : OpenFileEntry) × (k ≡ i + j) × (get_elem? t j ≡ some e)
unfolding last_named
last_named-place i k n [] h = absurd (ground (arith, h))
last_named-place i k n (x ∷ t) h = elim (Option-cases (last_named (suc i) n t)) [
  | inl e ↦ (0, x, ground (arith, e, h), refl)
  | inr (k', e) ↦
      let (j, y, same, at) = last_named-place (suc i) k' n t e in
      (suc j, y, ground (arith, e, h, same), at)
]

last_named_entry :
    (j : ℕ) (n : Text) (t : List OpenFileEntry)
    → last_named 0 n t ≡ some j
    → (e : OpenFileEntry) × (get_elem? t j ≡ some e)
last_named_entry j n t h =
    let (i, e, same, at) = last_named-place 0 j n t h in
    let index : i ≡ j = omega (arith, same) in (e, subst (λ k. get_elem? t k ≡ some e) index at)

length-token_count :
    (j : ℕ) (t : List OpenFileEntry) (e : OpenFileEntry)
    → get_elem? t j ≡ some e
    → length e.tokens ≤ token_count t
length-token_count j [] e h = absurd (ground (arith, h))
length-token_count zero (x ∷ t) e h = ground (arith, h)
length-token_count (suc j) (x ∷ t) e h = omega (arith, length-token_count j t e h)

-- What a revocation of the range leaves, and its answer.
pub record Gone (name : Text) (d d' : FileDescriptor) (x : Interval) (answer : Text) : Type 0 where
  pub ordered : AreMap (held_tokens name d')
  pub rights : (b mode : ℕ) → may name d' b mode ≡ (may name d b mode && not (has x b))
  pub answered :
      (answer ≡ not_open_response)
      ⊎ (answer ≡ (int_to_string (pos x.m_start) ++ b' ' ∷ int_to_string (pos x.m_end)))

Without-rights :
    (x : Interval) (m m' : Tokens)
    → IsMap m
    → Without x m m'
    → (b mode : ℕ) → check_permission m' b mode ≡ (check_permission m b mode && not (has x b))
Without-rights x m m' a w b mode =
    ground (arith, check_permission_exact m b mode a, check_permission_exact m' b mode w.0, w.1 b)

module _ (name : Text) (d : FileDescriptor) (x : Interval) (range : IsRange x)
    (bound : x.m_end < 2 ^ 31) where
  -- What is run.
  abbrev pub Revokes : Type 0
  Revokes =
      (answer : Text) × (d' : FileDescriptor) × (revoke_permission (suc (token_count d.ofdt)) d name
          (pos x.m_start) (pos x.m_end)
        ≡ some (answer, d'))
      × Gone name d d' x answer

  none-Gone :
      (answer : Text)
      → held_tokens name d ≡ none
      → answer ≡ not_open_response
      → Gone name d d x answer
  unfolding may
  none-Gone answer e same = record {
    ordered = rw e tt;
    rights = λ b mode. rw e refl;
    answered = inl same;
  }

  held_by :
      (j : ℕ) (e : OpenFileEntry)
      → last_named 0 name d.ofdt ≡ some j
      → get_elem? d.ofdt j ≡ some e
      → held_tokens name d ≡ (if e.is_open then some e.tokens else none)
  unfolding held_tokens
  held_by j e found at = ap (tokens_in d.ofdt) found ∙ ap open_tokens at

  revoke_entry :
      (j : ℕ) (e : OpenFileEntry)
      → last_named 0 name d.ofdt ≡ some j
      → get_elem? d.ofdt j ≡ some e
      → e.is_open ≡ true
      → IsMap e.tokens
      → Revokes
  unfolding revoke_permission held_tokens may
  revoke_entry j e found at held a =
      let enough = length-token_count j d.ofdt e at in
      let (m, plain, gone) =
        remove_permission-Without (suc (token_count d.ofdt)) e.tokens x.m_start x.m_end a range.0
          range.1 (omega (arith, enough)) in
      let start : to_unsigned (pos x.m_start) ≡ x.m_start = omega (arith, range, bound) in
      let end : to_unsigned (pos x.m_end) ≡ x.m_end = omega (arith, bound) in
      let remove = remove_permission (suc (token_count d.ofdt)) e.tokens in
      let run : remove (to_unsigned (pos x.m_start)) (to_unsigned (pos x.m_end)) ≡ some m =
        ap (λ s. remove s (to_unsigned (pos x.m_end))) start ∙ ap (remove x.m_start) end ∙ plain in
      let new = record e { tokens = m } in
      let d' = record d { ofdt = set d.ofdt j new } in
      let self : get_elem? d'.ofdt j ≡ some new =
        get_elem?-set_self d.ofdt j new (get_elem?_lt d.ofdt j at) in
      let before : held_tokens name d ≡ some e.tokens =
        held_by j e found at ∙ if_true e.is_open _ _ held in
      let after : held_tokens name d' ≡ some m =
        ap (tokens_in d'.ofdt) (last_named-set 0 j name d.ofdt e m at ∙ found)
        ∙ ap open_tokens self
        ∙ if_true e.is_open _ _ held in
      (
        int_to_string (pos x.m_start) ++ b' ' ∷ int_to_string (pos x.m_end),
        d',
        rw (found, revoke_permission)
            (rw (at, revoke_permission) (if_true e.is_open _ _ held ∙ rw run refl)),
        record {
          ordered = rw after gone.0;
          rights = λ b mode.
              ap (λ o. checks o b mode) after
              ∙ Without-rights x e.tokens m a gone b mode
              ∙ sym (ap (λ o. checks o b mode && not (has x b)) before);
          answered = inr refl;
        },
      )

  revoke_named :
      (j : ℕ) (e : OpenFileEntry)
      → last_named 0 name d.ofdt ≡ some j
      → get_elem? d.ofdt j ≡ some e
      → AreMap (held_tokens name d)
      → Revokes
  unfolding revoke_permission held_tokens
  revoke_named j e found at a = elim (Bool-cases e.is_open) [
    | inl held ↦
        revoke_entry j e found at held
          (subst AreMap (held_by j e found at ∙ if_true e.is_open _ _ held) a)
    | inr closed ↦ (
      not_open_response,
      d,
      rw (found, revoke_permission) (rw (at, revoke_permission) (if_false e.is_open _ _ closed)),
      none-Gone not_open_response (held_by j e found at ∙ if_false e.is_open _ _ closed) refl,
    )
  ]

  -- Where the tokens of the file, if it is open, are in order, a revocation of a range of blocks below
  -- 2^31 ends; it takes every permission for the range from the client and leaves it all others.
  pub revoke_permission-Gone : AreMap (held_tokens name d) → Revokes
  unfolding revoke_permission held_tokens
  revoke_permission-Gone a = elim (Option-cases (last_named 0 name d.ofdt)) [
    | inl e ↦ (
      not_open_response,
      d,
      rw (e, revoke_permission) refl,
      none-Gone _ (ap (tokens_in d.ofdt) e) refl,
    )
    | inr (j, e) ↦ let (entry, at) = last_named_entry j name d.ofdt e in revoke_named j entry e at a
  ]
