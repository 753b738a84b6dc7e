-- ===== src/Network/Writes.antt =====
-- A request to write whose writers are the clients of the network.
use mathlib.Core.Option
use mathlib.Core.Option.{some-injective}
use cse511_project.Prelude.{
  ℕ, zero, suc, ◌<◌, ◌≡◌, refl, ◌∙◌, sym, ap, true, List, [], ◌∷◌, Option, none, some, Text, All,
  All-append, codes, text_eq, arith, Option-cases, inl, inr, length, get_elem?, set,
}
use cse511_project.Strings.{to_string}
use cse511_project.Interval.{Interval}
use cse511_project.Interval.Laws.{IsRange, has}
use cse511_project.TokenMap.{TokenMap, find}
use cse511_project.TokenMap.Order.{IsMap, find-none-Clear}
use cse511_project.TokenMap.Blocks.{token_at, hits, Clear-hits}
use cse511_project.FileDesc.{FileDescriptor, not_open_response}
use cse511_project.FileDesc.Revoke.{Unnamed}
use cse511_project.FileDesc.Held.{token_count}
use cse511_project.FileDesc.Permission.{Tokens, check_permission}
use cse511_project.FileDesc.Permission.Check.{check_permission_exact}
use cse511_project.Metadata.{Holder, FileEntry, Mdm, responds}
use cse511_project.Metadata.Dispatch.Handled.{NotZero}
use cse511_project.Metadata.Tokens.{
  revoke_writer, write_message, ends_string, parse_request, exec_request_token,
}
use cse511_project.Metadata.Tokens.Writers.{Grants, revoke_writer-Cut}
use cse511_project.Metadata.Tokens.Readers.{Misses}
use cse511_project.Metadata.Tokens.Requests.{Ready, with_entry, write_request_granted}
use cse511_project.Cache.Revoker.Answers.{revoke_command-write_message}
use cse511_project.Client.Acquire.{add_token}
use cse511_project.Client.Acquire.Granted.{add_permission-Added, add_token-ends_string}
use cse511_project.Network.{Clients, keep_answer, reply_first, ask, converse}
use cse511_project.Network.Asked.{ends_string-NotZero, All-get_elem?, handle_revoker-plain}

write_message-NotZero : (x : Interval) → All NotZero (write_message x)
unfolding write_message
write_message-NotZero x =
    All-append NotZero (codes "revoke ") _
      (refl, (refl, (refl, (refl, (refl, (refl, (refl, tt)))))))
      (All-append NotZero (ends_string x) _ (ends_string-NotZero x) (refl, (refl, tt)))

-- No client has an open or closed entry that is named by the number of the first block.
abbrev pub AreUnnamed : Interval → Clients → Type 0
AreUnnamed x clients = All (λ d. Unnamed (to_string x.m_start) (FileDescriptor.ofdt d)) clients

set-same :
    (clients : Clients) (i : ℕ) (d : FileDescriptor)
    → get_elem? clients i ≡ some d
    → set clients i d ≡ clients
set-same [] i d h = refl
set-same (c ∷ clients) zero d h = ap (λ y. y ∷ clients) (sym (some-injective c d h))
set-same (c ∷ clients) (suc i) d h = ap (◌∷◌ c) (set-same clients i d h)

-- The answer of a client to the message.
abbrev pub Keeps : (Holder → Option ℕ) → Interval → Holder → Clients → Type 0
Keeps at x holder clients =
    (response : Text) × (ask at (write_message x) holder clients ≡ some (response, clients))
    × Grants response

module _ (at : Holder → Option ℕ) (x : Interval) (short : length (write_message x) < 32)
    (clients : Clients) (unnamed : AreUnnamed x clients) where
  ask-Keeps : (holder : Holder) → Keeps at x holder clients
  unfolding ask text_eq keep_answer write_message
  ask-Keeps holder = elim (Option-cases (at holder)) [
    | inl e ↦ (codes "exception", rw (e, ask) refl, refl)
    | inr (i, e) ↦ elim (Option-cases (get_elem? clients i)) [
      | inl f ↦ (codes "exception", rw (e, ask) (rw (f, ask) refl), refl)
      | inr (d, f) ↦
          let fuel = suc (token_count d.ofdt) in
          let run =
            handle_revoker-plain fuel (write_message x) d (write_message-NotZero x) (ground arith)
              short
            ∙ revoke_command-write_message fuel x d (
                All-get_elem? (λ c. Unnamed (to_string x.m_start) (FileDescriptor.ofdt c)) clients i
                  d unnamed f) in
          (
            not_open_response,
            rw (e, ask)
                (rw (f, ask)
                  (ap (keep_answer i clients) run
                    ∙ ap (λ c. some (not_open_response, c)) (set-same clients i d f))),
            refl,
          )
    ]
  ]

  -- The loop ends with the clients as they were.
  converse_keeps :
      (k : ℕ) (m : TokenMap Holder)
      → IsRange x
      → IsMap m
      → hits x m < k
      → (replies : List Text) × (m' : TokenMap Holder) × (converse at k
            (write_message x)
            x
            m
            clients
          ≡ some (replies, m', clients))
        × All Grants replies
        × (length replies ≡ hits x m)
  unfolding converse
  converse_keeps zero m range map h = absurd (omega (arith, h))
  converse_keeps (suc k) m range map h = elim (Option-cases (find x m)) [
    | inl e ↦ ([], m, rw (e, converse) refl, tt, sym (Clear-hits x m (find-none-Clear x 0 m map e)))
    | inr (it, e) ↦
        let (response, asked, g) = ask-Keeps it.1 in
        let cut = revoke_writer-Cut x m it range map e response 0 g in
        let (replies, m', run, good, count) =
          converse_keeps k (revoke_writer x it response m) range cut.0 (omega (arith, h, cut.1)) in
        (
          response ∷ replies,
          m',
          rw (e, converse) (rw (asked, converse) (ap (Option.map (reply_first response)) run)),
          (g, good),
          omega (arith, count, cut.1),
        )
  ]

-- A request to write arrives, no reader overlaps the range, the message fits a client's buffer, and no
-- client has an entry that is named by the number of the range's first block. The writers' revokers
-- answer, and the clients stay as they were, with every permission to write. Still the request gets its
-- response, the asking client is the only writer that is known of each block of the range, and with the
-- response it adds a token with which it may write the whole range, where it had none there before.
pub write_request_shares :
    (at : Holder → Option ℕ) (clients : Clients) (arguments : Text) (s : Mdm) (e : FileEntry)
    (fuel : ℕ) (tokens : Tokens)
    → Ready (parse_request arguments) s e
    → (parse_request arguments).mode ≡ b'w'
    → length (write_message (parse_request arguments).interval) < 32
    → AreUnnamed (parse_request arguments).interval clients
    → All (Misses (parse_request arguments).interval) e.mdr_tokens
    → IsMap tokens
    → find (parse_request arguments).interval tokens ≡ none
    → (replies : List Text) × (left writers : TokenMap Holder) × (tokens' : Tokens) × (converse at
          (suc (hits (parse_request arguments).interval e.mdw_tokens))
          (write_message (parse_request arguments).interval)
          (parse_request arguments).interval
          e.mdw_tokens
          clients
        ≡ some (replies, left, clients))
      × (exec_request_token replies arguments s
          ≡ responds
              (ends_string (parse_request arguments).interval)
              (with_entry (parse_request arguments) (record e { mdw_tokens = writers }) s))
      × (add_token (suc fuel) b'w' (ends_string (parse_request arguments).interval) tokens
          ≡ some tokens')
      × ((b : ℕ)
          → has (parse_request arguments).interval b ≡ true
          → (token_at b writers ≡ some (parse_request arguments).client)
            × (check_permission tokens' b b'w' ≡ true))
write_request_shares at clients arguments s e fuel tokens ready mode short unnamed missed map
      none_there =
    let r = parse_request arguments in
    let x = r.interval in
    let (replies, left, run, good, count) =
      converse_keeps at x short clients unnamed (suc (hits x e.mdw_tokens)) e.mdw_tokens ready.range
        ready.ordered (omega arith) in
    let (writers, response, order, owner) =
      write_request_granted arguments s e ready replies mode good (omega (arith, count)) missed in
    let (tokens', add, added) =
      add_permission-Added fuel b'w' x tokens map ready.range none_there in
    (
      replies,
      left,
      writers,
      tokens',
      run,
      response,
      add_token-ends_string (suc fuel) b'w' x tokens ready.range ∙ add,
      λ b h. (
        ground (arith, owner b, h),
        ground (arith, check_permission_exact tokens' b b'w' added.0, added.1 b, h),
      ),
    )
