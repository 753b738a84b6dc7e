-- ===== src/Network/Grants.antt =====
-- A client that adds the token for a range that it is granted.
use mathlib.Core.Option.{some-injective}
use cse511_project.Prelude.{
  ℕ, suc, ◌≡◌, ◌∙◌, sym, ap, subst, true, Option, none, some, Text, get_elem?, get_elem?_lt,
  get_elem?-set_self, get_elem?-set_ne, set, ◌==◌, ◌≢◌, ◌||◌, arith, if_true, Bool-cases, inl, inr,
}
use cse511_project.Interval.{Interval}
use cse511_project.Interval.Laws.{IsRange, has}
use cse511_project.TokenMap.{TokenMap, find, insert}
use cse511_project.TokenMap.Order.{IsMap, find-none-Clear}
use cse511_project.TokenMap.Blocks.{token_at-insert, Clear-token_at}
use cse511_project.FileDesc.{FileDescriptor, OpenFileEntry, last_named}
use cse511_project.FileDesc.Held.{
  AreMap, checks, held_tokens, tokens_in, open_tokens, may, last_named-set,
}
use cse511_project.FileDesc.Permission.{Tokens, check_permission}
use cse511_project.FileDesc.Permission.Check.{check_permission_exact}
use cse511_project.Metadata.{Holder}
use cse511_project.Metadata.Tokens.{ends_string}
use cse511_project.Client.Acquire.{add_token}
use cse511_project.Client.Acquire.Granted.{Added, add_permission-Added, add_token-ends_string}
use cse511_project.Network.{Clients, rights_of, rights}
use cse511_project.Network.Reads.{Known}

-- The open entry of the file in the table of a client.
pub record OpenAt (name : Text) (d : FileDescriptor) (j : ℕ) (e : OpenFileEntry) : Type 0 where
  pub named : last_named 0 name d.ofdt ≡ some j
  pub entry : get_elem? d.ofdt j ≡ some e
  pub held : e.is_open ≡ true

-- The table with other tokens for the entry.
abbrev pub with_tokens : FileDescriptor → ℕ → OpenFileEntry → Tokens → FileDescriptor
with_tokens d j e m = record d { ofdt = set d.ofdt j (record e { tokens = m }) }

held_tokens-OpenAt :
    (name : Text) (d : FileDescriptor) (j : ℕ) (e : OpenFileEntry)
    → OpenAt name d j e
    → held_tokens name d ≡ some e.tokens
unfolding held_tokens
held_tokens-OpenAt name d j e o =
    ap (tokens_in d.ofdt) o.named ∙ ap open_tokens o.entry ∙ if_true e.is_open _ _ o.held

held_tokens-with_tokens :
    (name : Text) (d : FileDescriptor) (j : ℕ) (e : OpenFileEntry) (m : Tokens)
    → OpenAt name d j e
    → held_tokens name (with_tokens d j e m) ≡ some m
held_tokens-with_tokens name d j e m o =
    held_tokens-OpenAt name (with_tokens d j e m) j (record e { tokens = m })
      (record {
        named = last_named-set 0 j name d.ofdt e m o.entry ∙ o.named;
        entry =
            get_elem?-set_self d.ofdt j (record e { tokens = m }) (get_elem?_lt d.ofdt j o.entry);
        held = o.held;
      })

-- What the addition of a granted range does to the tokens of the client.
with_tokens-Added :
    (name : Text) (mode : ℕ) (x : Interval) (d : FileDescriptor) (j fuel : ℕ) (e : OpenFileEntry)
    (tokens : Tokens)
    → IsRange x
    → OpenAt name d j e
    → IsMap e.tokens
    → find x e.tokens ≡ none
    → add_token (suc fuel) mode (ends_string x) e.tokens ≡ some tokens
    → AreMap (held_tokens name (with_tokens d j e tokens)) × Added mode x e.tokens tokens
with_tokens-Added name mode x d j fuel e tokens range o map none_there add =
    let after = held_tokens-with_tokens name d j e tokens o in
    let (m, run, added) = add_permission-Added fuel mode x e.tokens map range none_there in
    let same : m ≡ tokens =
      some-injective m tokens
        (sym (add_token-ends_string (suc fuel) mode x e.tokens range ∙ run) ∙ add) in
    let grown : Added mode x e.tokens tokens = subst (Added mode x e.tokens) same added in
    (subst AreMap (sym after) grown.0, grown)

-- The client may write the range too, and has a map in order.
abbrev pub Granted : Text → Interval → FileDescriptor → FileDescriptor → Type 0
Granted name x d d' =
    AreMap (held_tokens name d') × ((b : ℕ) → may name d' b b'w' ≡ (has x b || may name d b b'w'))

pub with_tokens-Granted :
    (name : Text) (x : Interval) (d : FileDescriptor) (j fuel : ℕ) (e : OpenFileEntry)
    (tokens : Tokens)
    → IsRange x
    → OpenAt name d j e
    → AreMap (held_tokens name d)
    → find x e.tokens ≡ none
    → add_token (suc fuel) b'w' (ends_string x) e.tokens ≡ some tokens
    → Granted name x d (with_tokens d j e tokens)
unfolding may
with_tokens-Granted name x d j fuel e tokens range o ordered none_there add =
    let before = held_tokens-OpenAt name d j e o in
    let after = held_tokens-with_tokens name d j e tokens o in
    let map : IsMap e.tokens = subst AreMap before ordered in
    let (still, grown) =
      with_tokens-Added name b'w' x d j fuel e tokens range o map none_there add in
    (
      still,
      λ b.
          ap (λ o. checks o b b'w') after
          ∙ ground (
            arith,
            check_permission_exact e.tokens b b'w' map,
            check_permission_exact tokens b b'w' grown.0,
            grown.1 b,
          )
          ∙ sym (ap (λ o. has x b || checks o b b'w') before),
    )

-- The client may write no more than before, and has a map in order.
abbrev pub Shrunk : Text → FileDescriptor → FileDescriptor → Type 0
Shrunk name d d' =
    AreMap (held_tokens name d') × ((b : ℕ) → may name d' b b'w' ≡ true → may name d b b'w' ≡ true)

-- A token to read gives no right to write.
pub with_tokens-Shrunk :
    (name : Text) (x : Interval) (d : FileDescriptor) (j fuel : ℕ) (e : OpenFileEntry)
    (tokens : Tokens)
    → IsRange x
    → OpenAt name d j e
    → AreMap (held_tokens name d)
    → find x e.tokens ≡ none
    → add_token (suc fuel) b'r' (ends_string x) e.tokens ≡ some tokens
    → Shrunk name d (with_tokens d j e tokens)
unfolding may
with_tokens-Shrunk name x d j fuel e tokens range o ordered none_there add =
    let before = held_tokens-OpenAt name d j e o in
    let after = held_tokens-with_tokens name d j e tokens o in
    let map : IsMap e.tokens = subst AreMap before ordered in
    let (still, grown) =
      with_tokens-Added name b'r' x d j fuel e tokens range o map none_there add in
    (
      still,
      λ b may_write.
          let now : check_permission tokens b b'w' ≡ true =
            sym (ap (λ o. checks o b b'w') after) ∙ may_write in
          let old : check_permission e.tokens b b'w' ≡ true = ground (
            arith,
            now,
            check_permission_exact e.tokens b b'w' map,
            check_permission_exact tokens b b'w' grown.0,
            grown.1 b,
          ) in
          ap (λ o. checks o b b'w') before ∙ old,
    )

-- No client may write more of the file than before.
abbrev pub WritesLess : Text → Clients → Clients → Type 0
WritesLess name clients clients' =
    (k b : ℕ) → rights name clients' k b b'w' ≡ true → rights name clients k b b'w' ≡ true

pub set-WritesLess :
    (name : Text) (clients : Clients) (i : ℕ) (d d' : FileDescriptor)
    → get_elem? clients i ≡ some d
    → ((b : ℕ) → may name d' b b'w' ≡ true → may name d b b'w' ≡ true)
    → WritesLess name clients (set clients i d')
set-WritesLess name clients i d d' found shrunk k b may_write = elim (Bool-cases (i == k)) [
  | inl e ↦
      let same : i ≡ k = ground (arith, e) in
      let self : get_elem? (set clients i d') i ≡ some d' =
        get_elem?-set_self clients i d' (get_elem?_lt clients i found) in
      let now : may name d' b b'w' ≡ true =
        sym (ap (λ o. rights_of name o b b'w') self)
        ∙ subst (λ n. rights name (set clients i d') n b b'w' ≡ true) (sym same) may_write in
      subst (λ n. rights name clients n b b'w' ≡ true) same
        (ap (λ o. rights_of name o b b'w') found ∙ shrunk b now)
  | inr e ↦
      let other : i ≢ k = λ s. absurd (ground (arith, e, s)) in
      let kept : get_elem? (set clients i d') k ≡ get_elem? clients k =
        get_elem?-set_ne clients d' other in
      sym (ap (λ o. rights_of name o b b'w') kept) ∙ may_write
]

module _ (at : Holder → Option ℕ) (name : Text) where
  pub grants-Known :
      (m : TokenMap Holder) (clients : Clients) (x : Interval) (h : Holder) (i : ℕ)
      (d d' : FileDescriptor)
      → IsMap m
      → IsRange x
      → find x m ≡ none
      → at h ≡ some i
      → get_elem? clients i ≡ some d
      → ((b : ℕ) → may name d' b b'w' ≡ (has x b || may name d b b'w'))
      → Known at name m clients
      → Known at name (insert x h m) (set clients i d')
  grants-Known m clients x h i d d' map range free here found grown known k b may_write =
      let clear = find-none-Clear x 0 m map free in
      let put = token_at-insert x h m b clear in
      let self : get_elem? (set clients i d') i ≡ some d' =
        get_elem?-set_self clients i d' (get_elem?_lt clients i found) in
      elim (Bool-cases (i == k)) [
        | inl e ↦
            let same : i ≡ k = ground (arith, e) in
            let mine : may name d' b b'w' ≡ true =
              sym (ap (λ o. rights_of name o b b'w') self)
              ∙ subst (λ n. rights name (set clients i d') n b b'w' ≡ true) (sym same) may_write in
            elim (Bool-cases (has x b)) [
              | inl q ↦ (h, ground (arith, put, q), here ∙ ap some same)
              | inr q ↦
                  let old : may name d b b'w' ≡ true = ground (arith, grown b, mine, q) in
                  let (h', token, there) =
                    known i b (ap (λ o. rights_of name o b b'w') found ∙ old) in
                  (h', ground (arith, put, q, token), there ∙ ap some same)
            ]
        | inr e ↦
            let other : i ≢ k = λ s. absurd (ground (arith, e, s)) in
            let kept : get_elem? (set clients i d') k ≡ get_elem? clients k =
              get_elem?-set_ne clients d' other in
            let (h', token, there) =
              known k b (sym (ap (λ o. rights_of name o b b'w') kept) ∙ may_write) in
            elim (Bool-cases (has x b)) [
              | inl q ↦ absurd (ground (arith, token, Clear-token_at x b m clear q))
              | inr q ↦ (h', ground (arith, put, q, token), there)
            ]
      ]
