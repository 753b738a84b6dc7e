-- ===== src/Network.antt =====
-- The metadata manager and the clients together: the loop of `execFunc_request_token` of
-- MetadataManager.cc that takes the tokens of writers, with `sendToServer` answered by the clients' own
-- `HandleRevoker` of ClientCache.cc. Which client listens at an address and port is an argument.
pub mod Asked
pub mod Reads
pub mod Writes
pub mod Served
pub mod Grants
pub mod States
pub mod Exclusive
use mathlib.Core.Option
use cse511_project.Prelude.{
  ℕ, zero, suc, Bool, true, false, List, [], ◌∷◌, Option, none, some, Text, codes, get_elem?, set,
}
use cse511_project.Interval.{Interval}
use cse511_project.TokenMap.{TokenMap, find}
use cse511_project.FileDesc.{FileDescriptor}
use cse511_project.FileDesc.Held.{token_count, may}
use cse511_project.Metadata.{Holder}
use cse511_project.Metadata.Tokens.{revoke_writer}
use cse511_project.Cache.Revoker.{Answer, handle_revoker}

-- The tables of open files of the clients.
abbrev pub Clients : Type 0
Clients = List FileDescriptor

-- The answer of client `i`. Without one the metadata manager waits, since the client keeps the
-- connection.
unfoldable pub keep_answer : ℕ → Clients → Option Answer → Option (Text × Clients)
keep_answer i clients none = none
keep_answer i clients (some (none, d)) = none
keep_answer i clients (some (some response, d)) = some (response, set clients i d)

-- What a loop gives after one more reply.
abbrev pub Conversation : Type 0
Conversation = List Text × TokenMap Holder × Clients

abbrev pub reply_first : Text → Conversation → Conversation
reply_first response (replies, m, clients) = (response ∷ replies, m, clients)

-- Whether client `i` may use block `b` of the file for `mode`.
abbrev pub rights_of : Text → Option FileDescriptor → ℕ → ℕ → Bool
rights_of name none b mode = false
rights_of name (some d) b mode = may name d b mode

abbrev pub rights : Text → Clients → ℕ → ℕ → ℕ → Bool
rights name clients i b mode = rights_of name (get_elem? clients i) b mode

module _ (at : Holder → Option ℕ) where
  -- A connection is refused where no client listens.
  unfoldable pub ask : Text → Holder → Clients → Option (Text × Clients)
  unfolding handle_revoker keep_answer
  ask message holder clients = elim (at holder) [
    | none ↦ some (codes "exception", clients)
    | some i ↦ elim (get_elem? clients i) [
      | none ↦ some (codes "exception", clients)
      | some d ↦ keep_answer i clients (handle_revoker (suc (token_count d.ofdt)) message d)
    ]
  ]

  -- The replies, the writers and the clients at the end of the loop; `none` is to wait, or out of
  -- rounds.
  unfoldable pub converse : ℕ → Text → Interval → TokenMap Holder → Clients → Option Conversation
  unfolding find ask revoke_writer
  converse zero message x m clients = none
  converse (suc k) message x m clients = elim (find x m) [
    | none ↦ some ([], m, clients)
    | some it ↦ elim (ask message it.1 clients) [
      | none ↦ none
      | some (response, clients') ↦
          Option.map (reply_first response)
            (converse k message x (revoke_writer x it response m) clients')
    ]
  ]
