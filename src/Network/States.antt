-- ===== src/Network/States.antt =====
-- The states that the metadata manager and the clients reach together.
use cse511_project.Prelude.{
  ℕ, ◌≡◌, All, suc, false, List, [], Option, none, some, Text, get_elem?, set,
}
use cse511_project.Interval.{Interval}
use cse511_project.Interval.Laws.{IsRange}
use cse511_project.TokenMap.{TokenMap, find}
use cse511_project.TokenMap.Blocks.{hits}
use cse511_project.FileDesc.{FileDescriptor, OpenFileEntry}
use cse511_project.FileDesc.Permission.{Tokens}
use cse511_project.Metadata.{Holder}
use cse511_project.Metadata.Tokens.{ends_string, read_message}
use cse511_project.Client.Acquire.{add_token}
use cse511_project.Network.{Clients, rights, converse}
use cse511_project.Network.Asked.{AreOrdered, Nameable}
use cse511_project.Metadata.{FileEntry, Mdm, find_file, responds}
use cse511_project.Metadata.Tokens.{parse_request, exec_request_token}
use cse511_project.Metadata.Tokens.Readers.{Misses}
use cse511_project.Metadata.Tokens.Requests.{Ready}
use cse511_project.Network.Grants.{OpenAt, with_tokens, WritesLess}

-- The metadata manager and the clients.
pub record System : Type 0 where
  pub manager : Mdm
  pub clients : Clients

module _ (at : Holder → Option ℕ) (name : Text) where
  -- A request to read the file takes the range from its writers, whose revokers answer; or client `i` is
  -- granted a range to write that nobody uses and for which it has no token, and adds the token of the
  -- response; or a client adds a token to read of which it has no block; or something else happens, to
  -- other files or to the clients, that leaves the file's entry as it is, keeps the clients' tokens of
  -- the file in order and lets no client write more of the file. A `pfs_open` into an entry with old
  -- tokens, which can let a client write more, is not among the steps.
  pub data Step : System → System → Type 0 where
    takes :
        {s s' : Mdm} {clients clients' : Clients} (arguments response : Text) (replies : List Text)
        (e : FileEntry) (m : TokenMap Holder)
        → Ready (parse_request arguments) s e
        → (parse_request arguments).mode ≡ b'r'
        → (parse_request arguments).file_name ≡ name
        → Nameable name (parse_request arguments).interval
        → converse at
            (suc (hits (parse_request arguments).interval e.mdw_tokens))
            (read_message name (parse_request arguments).interval)
            (parse_request arguments).interval
            e.mdw_tokens
            clients
          ≡ some (replies, m, clients')
        → exec_request_token replies arguments s ≡ responds response s'
        → Step
            (record { manager = s; clients = clients })
            (record { manager = s'; clients = clients' })
    grants :
        {s s' : Mdm} {clients : Clients} (arguments response : Text) (replies : List Text)
        (e : FileEntry) (i j fuel : ℕ) (d : FileDescriptor) (o : OpenFileEntry) (tokens : Tokens)
        → Ready (parse_request arguments) s e
        → (parse_request arguments).mode ≡ b'w'
        → (parse_request arguments).file_name ≡ name
        → find (parse_request arguments).interval e.mdw_tokens ≡ none
        → All (Misses (parse_request arguments).interval) e.mdr_tokens
        → exec_request_token replies arguments s ≡ responds response s'
        → at (parse_request arguments).client ≡ some i
        → get_elem? clients i ≡ some d
        → OpenAt name d j o
        → find (parse_request arguments).interval o.tokens ≡ none
        → add_token (suc fuel) b'w' response o.tokens ≡ some tokens
        → Step
            (record { manager = s; clients = clients })
            (record { manager = s'; clients = set clients i (with_tokens d j o tokens) })
    adds :
        {s : Mdm} {clients : Clients} (x : Interval) (i j fuel : ℕ) (d : FileDescriptor)
        (o : OpenFileEntry) (tokens : Tokens)
        → IsRange x
        → get_elem? clients i ≡ some d
        → OpenAt name d j o
        → find x o.tokens ≡ none
        → add_token (suc fuel) b'r' (ends_string x) o.tokens ≡ some tokens
        → Step
            (record { manager = s; clients = clients })
            (record { manager = s; clients = set clients i (with_tokens d j o tokens) })
    elsewhere :
        {s s' : Mdm} {clients clients' : Clients}
        → find_file name s'.general_file_table ≡ find_file name s.general_file_table
        → AreOrdered name clients'
        → WritesLess name clients clients'
        → Step
            (record { manager = s; clients = clients })
            (record { manager = s'; clients = clients' })

  -- From a system in which the file has no writer.
  pub data Reached : System → Type 0 where
    starts :
        (s : Mdm) (e : FileEntry) (clients : Clients)
        → find_file name s.general_file_table ≡ some e
        → e.mdw_tokens ≡ []
        → AreOrdered name clients
        → ((i b : ℕ) → rights name clients i b b'w' ≡ false)
        → Reached (record { manager = s; clients = clients })
    then_steps : {s s' : System} → Reached s → Step s s' → Reached s'
