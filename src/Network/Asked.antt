-- ===== src/Network/Asked.antt =====
-- How the clients answer the messages of the metadata manager.
use mathlib.Core.Option
use mathlib.Core.Option.{some-injective}
use cse511_project.Prelude.{
  get_elem?_lt, ℕ, zero, suc, ◌^◌, ◌<◌, ◌≡◌, refl, ◌∙◌, ap, sym, subst, true, false, ◌&&◌, not,
  List, [], ◌∷◌, ◌++◌, none, some, Text, codes, text_eq, All, All-append, get_elem?,
  get_elem?-set_self, get_elem?-set_ne, set, arith, if_false, length, leb, ◌==◌, Option-cases,
  Bool-cases, inl, inr, Bool, Option,
}
use cse511_project.Strings.{int_to_string, to_string}
use cse511_project.Strings.Decimal.{NotSpace, IsDigit, to_string-IsDigit}
use cse511_project.Interval.{Interval}
use cse511_project.Interval.Laws.{IsRange, has}
use cse511_project.FileDesc.{FileDescriptor}
use cse511_project.FileDesc.Held.{
  AreMap, held_tokens, may, token_count, Gone, revoke_permission-Gone,
}
use cse511_project.Metadata.{Holder}
use cse511_project.Metadata.Dispatch.Handled.{NotZero, c_string_lem}
use cse511_project.Metadata.Tokens.{ends_string, read_message}
use cse511_project.Metadata.Tokens.Writers.{Grants}
use cse511_project.Cache.Revoker.{answer_with, revoke_command, handle_revoker}
use cse511_project.Cache.Revoker.Answers.{revoke_command-read_message}
use cse511_project.Network.{Clients, keep_answer, rights_of, rights, ask}

-- A message that fits the buffer is read whole.
pub handle_revoker-plain :
    (fuel : ℕ) (sent : Text) (d : FileDescriptor)
    → All NotZero sent
    → 0 < length sent
    → length sent < 32
    → handle_revoker fuel sent d ≡ revoke_command fuel sent d
unfolding handle_revoker
handle_revoker-plain fuel sent d plain some_sent short =
    if_false (length sent == 0) _ _ (ground (arith, some_sent))
    ∙ if_false (leb 32 (length sent)) _ _ (ground (arith, short))
    ∙ ap (λ t. revoke_command fuel t d) (c_string_lem sent plain)

digits_plain : (s : Text) → All IsDigit s → All NotZero s
digits_plain [] h = tt
digits_plain (c ∷ s) h = (ground (arith, h.0), digits_plain s h.1)

pub ends_string-NotZero : (x : Interval) → All NotZero (ends_string x)
ends_string-NotZero x =
    All-append NotZero (to_string x.m_start) (b' ' ∷ to_string x.m_end)
      (digits_plain (to_string x.m_start) (to_string-IsDigit x.m_start))
      (refl, digits_plain (to_string x.m_end) (to_string-IsDigit x.m_end))

read_message-NotZero :
    (name : Text) (x : Interval) → All NotZero name → All NotZero (read_message name x)
unfolding read_message
read_message-NotZero name x plain =
    All-append NotZero (codes "revoke ") _
      (refl, (refl, (refl, (refl, (refl, (refl, (refl, tt)))))))
      (All-append NotZero name _ plain
        (refl, All-append NotZero (ends_string x) _ (ends_string-NotZero x) (refl, (refl, tt))))

digits-Grants : (s t : Text) → All IsDigit s → Grants (s ++ b' ' ∷ t)
unfolding text_eq
digits-Grants [] t d = refl
digits-Grants (c ∷ s) t d = ground (arith, d.0)

Gone-Grants :
    (name : Text) (d d' : FileDescriptor) (x : Interval) (answer : Text)
    → Gone name d d' x answer
    → Grants answer
unfolding text_eq int_to_string to_string
Gone-Grants name d d' x answer g = elim g.answered [
  | inl e ↦ rw e refl
  | inr e ↦
      rw e (digits-Grants (to_string x.m_start) (to_string x.m_end) (to_string-IsDigit x.m_start))
]

-- The client at an address and port.
abbrev pub listens : Option ℕ → ℕ → Bool
listens none i = false
listens (some j) i = j == i

-- In every client the tokens of the file are in order.
abbrev pub AreOrdered : Text → Clients → Type 0
AreOrdered name clients = All (λ d. AreMap (held_tokens name d)) clients

pub All-get_elem? :
    {A : Type 0} (P : A → Type 0) (l : List A) (i : ℕ) (a : A)
    → All P l
    → get_elem? l i ≡ some a
    → P a
All-get_elem? P [] i a h e = absurd (ground (arith, e))
All-get_elem? P (x ∷ l) zero a h e = subst P (some-injective x a e) h.0
All-get_elem? P (x ∷ l) (suc i) a h e = All-get_elem? P l i a h.1 e

pub All-set :
    {A : Type 0} (P : A → Type 0) (l : List A) (i : ℕ) (a : A) → All P l → P a → All P (set l i a)
All-set P [] i a h p = tt
All-set P (x ∷ l) zero a h p = (p, h.1)
All-set P (x ∷ l) (suc i) a h p = (h.0, All-set P l i a h.1 p)

-- The clients after a message to `holder` that took the range: it loses its permissions for the
-- range, and nothing else changes.
pub record Lost (listener : Option ℕ) (name : Text) (x : Interval) (clients clients' : Clients)
    : Type 0 where
  pub ordered : AreOrdered name clients'
  pub rest :
      (i b mode : ℕ)
      → rights name clients' i b mode
        ≡ (rights name clients i b mode && not (listens listener i && has x b))

nothing-Lost :
    (listener : Option ℕ) (name : Text) (x : Interval) (clients : Clients)
    → AreOrdered name clients
    → ((i b mode : ℕ) → listens listener i ≡ true → rights name clients i b mode ≡ false)
    → Lost listener name x clients clients
nothing-Lost listener name x clients h idle = record {
  ordered = h;
  rest = λ i b mode. ground (arith, idle i b mode);
}

one-Lost :
    (i : ℕ) (name : Text) (x : Interval) (clients : Clients) (d d' : FileDescriptor) (answer : Text)
    → AreOrdered name clients
    → get_elem? clients i ≡ some d
    → Gone name d d' x answer
    → Lost (some i) name x clients (set clients i d')
one-Lost i name x clients d d' answer h found g = record {
  ordered = All-set (λ c. AreMap (held_tokens name c)) clients i d' h g.ordered;
  rest = λ j b mode. elim (Bool-cases (i == j)) [
    | inl same ↦
        let index : i ≡ j = ground (arith, same) in
        let was : rights name clients i b mode ≡ may name d b mode =
          ap (λ o. rights_of name o b mode) found in
        let now : rights name (set clients i d') i b mode ≡ may name d' b mode =
          ap (λ o. rights_of name o b mode)
            (get_elem?-set_self clients i d' (get_elem?_lt clients i found)) in
        subst
          (λ k.
            rights name (set clients i d') k b mode
            ≡ (rights name clients k b mode && not (i == k && has x b)))
          index (ground (arith, was, now, g.rights b mode))
    | inr other ↦
        let now : rights name (set clients i d') j b mode ≡ rights name clients j b mode =
          ap (λ o. rights_of name o b mode)
            (get_elem?-set_ne clients d' (λ same. absurd (ground (arith, other, same)))) in
        ground (arith, now, other)
  ];
}

-- A file and a range of blocks that the message of a read can name to a client.
pub record Nameable (name : Text) (x : Interval) : Type 0 where
  pub range : IsRange x
  pub bound : x.m_end < 2 ^ 31
  pub solid : All NotSpace name
  pub plain : All NotZero name
  pub short : length (read_message name x) < 32

module _ (name : Text) (x : Interval) (n : Nameable name x) where
  pub handle_read :
      (d : FileDescriptor)
      → AreMap (held_tokens name d)
      → (answer : Text) × (d' : FileDescriptor) × (handle_revoker
            (suc (token_count d.ofdt))
            (read_message name x)
            d
          ≡ some (some answer, d'))
        × Gone name d d' x answer
  unfolding read_message
  handle_read d a =
      let fuel = suc (token_count d.ofdt) in
      let (answer, d', run, gone) = revoke_permission-Gone name d x n.range n.bound a in
      (
        answer,
        d',
        handle_revoker-plain fuel (read_message name x) d (read_message-NotZero name x n.plain)
              (ground arith) n.short
            ∙ revoke_command-read_message fuel name x d n.solid (omega (arith, n.range.0, n.bound))
                n.bound
            ∙ ap (Option.map answer_with) run,
        gone,
      )

  -- What a client answers, and what the clients are then.
  abbrev pub Replies : (Holder → Option ℕ) → Holder → Clients → Type 0
  Replies at holder clients =
      (response : Text) × (clients' : Clients) × (ask at (read_message name x) holder clients
        ≡ some (response, clients'))
      × Grants response
      × Lost (at holder) name x clients clients'

  pub ask-Replies :
      (at : Holder → Option ℕ) (holder : Holder) (clients : Clients)
      → AreOrdered name clients
      → Replies at holder clients
  unfolding ask text_eq
  ask-Replies at holder clients h = elim (Option-cases (at holder)) [
    | inl e ↦ (
      codes "exception",
      clients,
      rw (e, ask) refl,
      refl,
      nothing-Lost (at holder) name x clients h (λ i b mode l. absurd (ground (arith, e, l))),
    )
    | inr (i, e) ↦ elim (Option-cases (get_elem? clients i)) [
      | inl f ↦ (
        codes "exception",
        clients,
        rw (e, ask) (rw (f, ask) refl),
        refl,
        nothing-Lost (at holder) name x clients h (λ j b mode l. ground (arith, e, f, l)),
      )
      | inr (d, f) ↦
          let (answer, d', run, gone) =
            handle_read d (All-get_elem? (λ c. AreMap (held_tokens name c)) clients i d h f) in
          (
            answer,
            set clients i d',
            rw (e, ask) (rw (f, ask) (ap (keep_answer i clients) run)),
            Gone-Grants name d d' x answer gone,
            subst (λ o. Lost o name x clients (set clients i d')) (sym e)
                (one-Lost i name x clients d d' answer h f gone),
          )
    ]
  ]
