-- ===== src/Network/Exclusive.antt =====
-- One writer for each block, among the clients themselves.
use mathlib.Core.Option.{some-injective}
use cse511_project.Prelude.{
  ℕ, ◌≡◌, ◌∙◌, sym, ap, subst, All, suc, true, List, [], Option, none, some, Text, get_elem?, set,
  arith,
}
use cse511_project.Interval.{Interval}
use cse511_project.Interval.Laws.{IsRange}
use cse511_project.TokenMap.{TokenMap, find}
use cse511_project.TokenMap.Order.{IsMap, insert-Above}
use cse511_project.TokenMap.Blocks.{token_at, hits}
use cse511_project.FileDesc.{FileDescriptor, OpenFileEntry}
use cse511_project.FileDesc.Held.{AreMap, held_tokens}
use cse511_project.FileDesc.Permission.{Tokens}
use cse511_project.Metadata.{Holder}
use cse511_project.Metadata.Tokens.{ends_string, read_message}
use cse511_project.Client.Acquire.{add_token}
use cse511_project.Network.{Clients, rights, converse}
use cse511_project.Network.Asked.{AreOrdered, All-set, All-get_elem?, Nameable}
use cse511_project.Network.Reads.{Known, ended-Done}
use cse511_project.Metadata.{FileEntry, Mdm, find_file, update_file, responds}
use cse511_project.Metadata.Tokens.{parse_request, exec_request_token, revoke_writers}
use cse511_project.Metadata.Tokens.Readers.{Misses}
use cse511_project.Metadata.Tokens.Requests.{Ready, with_entry}
use cse511_project.Network.Served.{
  find_file-update_file, left_by, response_of, read_served, write_served,
}
use cse511_project.Network.Grants.{
  OpenAt, with_tokens, with_tokens-Granted, with_tokens-Shrunk, WritesLess, set-WritesLess,
  grants-Known,
}
use cse511_project.Network.States.{System, Step, Reached}

module _ (at : Holder → Option ℕ) (name : Text) where
  -- The writers of the file are in order, and each client that may write a block is known as its writer.
  abbrev pub IsCoherent : System → Type 0
  IsCoherent s =
      (e : FileEntry) × (find_file name s.manager.general_file_table ≡ some e)
      × IsMap e.mdw_tokens
      × AreOrdered name s.clients
      × Known at name e.mdw_tokens s.clients

  -- After a response the entry is the new one.
  after_response :
      (arguments response : Text) (replies : List Text) (s s' : Mdm) (e e' : FileEntry)
      → Ready (parse_request arguments) s e
      → (parse_request arguments).file_name ≡ name
      → exec_request_token replies arguments s ≡ responds response s'
      → exec_request_token replies arguments s
        ≡ responds
            (ends_string (parse_request arguments).interval)
            (with_entry (parse_request arguments) e' s)
      → find_file name s'.general_file_table ≡ some e'
  after_response arguments response replies s s' e e' ready named run served =
      let n = (parse_request arguments).file_name in
      let same = ap (left_by s) (sym run ∙ served) in
      ap (λ (t : Mdm). find_file name t.general_file_table) same
      ∙ subst (λ k. find_file k (update_file n e' s.general_file_table) ≡ some e') named
          (find_file-update_file n e e' s.general_file_table ready.found)

  same_entry :
      (arguments : Text) (s : Mdm) (e e' : FileEntry)
      → Ready (parse_request arguments) s e
      → (parse_request arguments).file_name ≡ name
      → find_file name s.general_file_table ≡ some e'
      → e' ≡ e
  same_entry arguments s e e' ready named found =
      some-injective e' e
        (sym found ∙ subst (λ k. find_file k s.general_file_table ≡ some e) named ready.found)

  takes-IsCoherent :
      (arguments response : Text) (replies : List Text) (s s' : Mdm) (e : FileEntry)
      (m : TokenMap Holder) (clients clients' : Clients)
      → Ready (parse_request arguments) s e
      → (parse_request arguments).mode ≡ b'r'
      → (parse_request arguments).file_name ≡ name
      → Nameable name (parse_request arguments).interval
      → converse at
          (suc (hits (parse_request arguments).interval e.mdw_tokens))
          (read_message name (parse_request arguments).interval)
          (parse_request arguments).interval
          e.mdw_tokens
          clients
        ≡ some (replies, m, clients')
      → exec_request_token replies arguments s ≡ responds response s'
      → IsCoherent (record { manager = s; clients = clients })
      → IsCoherent (record { manager = s'; clients = clients' })
  takes-IsCoherent arguments response replies s s' e m clients clients' ready mode named n run out
        h =
      let x = (parse_request arguments).interval in
      let (old, found, map, ordered, known) = h in
      let same = same_entry arguments s e old ready named found in
      let kept = subst (λ (f : FileEntry). Known at name f.mdw_tokens clients) same known in
      let done =
        ended-Done at name x n e.mdw_tokens m clients clients' replies
          (record { map = ready.ordered; ordered = ordered; known = kept }) run in
      let answered =
        subst
          (λ k. revoke_writers (read_message k x) x replies e.mdw_tokens ≡ some (m, [], done.sent))
          (sym named) done.run in
      let served = read_served arguments s e ready replies m done.sent mode answered in
      (
        _,
        after_response arguments response replies s s' e _ ready named out served,
        done.fit.map,
        done.fit.ordered,
        done.fit.known,
      )

  grants-IsCoherent :
      (arguments response : Text) (replies : List Text) (s s' : Mdm) (e : FileEntry)
      (clients : Clients) (i j fuel : ℕ) (d : FileDescriptor) (o : OpenFileEntry) (tokens : Tokens)
      → Ready (parse_request arguments) s e
      → (parse_request arguments).mode ≡ b'w'
      → (parse_request arguments).file_name ≡ name
      → find (parse_request arguments).interval e.mdw_tokens ≡ none
      → All (Misses (parse_request arguments).interval) e.mdr_tokens
      → exec_request_token replies arguments s ≡ responds response s'
      → at (parse_request arguments).client ≡ some i
      → get_elem? clients i ≡ some d
      → OpenAt name d j o
      → find (parse_request arguments).interval o.tokens ≡ none
      → add_token (suc fuel) b'w' response o.tokens ≡ some tokens
      → IsCoherent (record { manager = s; clients = clients })
      → IsCoherent (record { manager = s'; clients = set clients i (with_tokens d j o tokens) })
  grants-IsCoherent arguments response replies s s' e clients i j fuel d o tokens ready mode named
        free missed out here at_i opened none_there add h =
      let r = parse_request arguments in
      let (old, found, map, ordered, known) = h in
      let same = same_entry arguments s e old ready named found in
      let kept = subst (λ (f : FileEntry). Known at name f.mdw_tokens clients) same known in
      let served = write_served arguments s e ready replies mode free missed in
      let answer : response ≡ ends_string r.interval = ap response_of (sym out ∙ served) in
      let added = subst (λ t. add_token (suc fuel) b'w' t o.tokens ≡ some tokens) answer add in
      let mine = All-get_elem? (λ c. AreMap (held_tokens name c)) clients i d ordered at_i in
      let (still, grown) =
        with_tokens-Granted name r.interval d j fuel o tokens ready.range opened mine none_there
          added in
      let d' = with_tokens d j o tokens in
      (
        _,
        after_response arguments response replies s s' e _ ready named out served,
        insert-Above r.interval r.client 0 e.mdw_tokens ready.ordered ready.range (omega arith),
        All-set (λ c. AreMap (held_tokens name c)) clients i d' ordered still,
        grants-Known at name e.mdw_tokens clients r.interval r.client i d d' ready.ordered
            ready.range free here at_i grown kept,
      )

  -- Where no client may write more, each is known still.
  WritesLess-Known :
      (m : TokenMap Holder) (clients clients' : Clients)
      → WritesLess name clients clients'
      → Known at name m clients
      → Known at name m clients'
  WritesLess-Known m clients clients' less known i b may_write = known i b (less i b may_write)

  adds-IsCoherent :
      (s : Mdm) (clients : Clients) (x : Interval) (i j fuel : ℕ) (d : FileDescriptor)
      (o : OpenFileEntry) (tokens : Tokens)
      → IsRange x
      → get_elem? clients i ≡ some d
      → OpenAt name d j o
      → find x o.tokens ≡ none
      → add_token (suc fuel) b'r' (ends_string x) o.tokens ≡ some tokens
      → IsCoherent (record { manager = s; clients = clients })
      → IsCoherent (record { manager = s; clients = set clients i (with_tokens d j o tokens) })
  adds-IsCoherent s clients x i j fuel d o tokens range at_i opened none_there add h =
      let (e, found, map, ordered, known) = h in
      let mine = All-get_elem? (λ c. AreMap (held_tokens name c)) clients i d ordered at_i in
      let d' = with_tokens d j o tokens in
      let (still, shrunk) =
        with_tokens-Shrunk name x d j fuel o tokens range opened mine none_there add in
      (
        e,
        found,
        map,
        All-set (λ c. AreMap (held_tokens name c)) clients i d' ordered still,
        WritesLess-Known e.mdw_tokens clients (set clients i d')
            (set-WritesLess name clients i d d' at_i shrunk) known,
      )

  Step-IsCoherent : {s s' : System} → Step at name s s' → IsCoherent s → IsCoherent s'
  Step-IsCoherent
        (Step.takes {s = s} {s' = s'} {clients = c} {clients' = c'} arguments response replies e m
          ready mode named n run out)
        h =
      takes-IsCoherent arguments response replies s s' e m c c' ready mode named n run out h
  Step-IsCoherent
        (Step.grants {s = s} {s' = s'} {clients = c} arguments response replies e i j fuel d o
          tokens ready mode named free missed out here at_i opened none_there add)
        h =
      grants-IsCoherent arguments response replies s s' e c i j fuel d o tokens ready mode named
        free missed out here at_i opened none_there add h
  Step-IsCoherent
        (Step.adds {s = s} {clients = c} x i j fuel d o tokens range at_i opened none_there add) h =
      adds-IsCoherent s c x i j fuel d o tokens range at_i opened none_there add h
  Step-IsCoherent (Step.elsewhere {clients = c} {clients' = c'} same ordered less) h =
      (h.0, same ∙ h.1, h.2, ordered, WritesLess-Known h.0.mdw_tokens c c' less h.4)

  Reached-IsCoherent : {s : System} → Reached at name s → IsCoherent s
  Reached-IsCoherent (Reached.starts s e clients found none_yet ordered free) = (
    e,
    found,
    subst IsMap (sym none_yet) tt,
    ordered,
    λ i b may_write. absurd (ground (arith, free i b, may_write)),
  )
  Reached-IsCoherent (Reached.then_steps r s) = Step-IsCoherent s (Reached-IsCoherent r)

-- In every system that is reached, from one in which the file has no writer, no client may write it and
-- the clients' tokens of it are in order, by reads whose message fits a client's buffer and whose writers
-- answer, by clients that add a token to read of which they have no block, by grants of ranges that
-- nobody uses at the time and of which the client has no token, and by whatever else leaves the file's
-- entry as it is, keeps the clients' tokens of the file in order and lets no client write more of the
-- file: no two clients may write the same block of the file, and the metadata manager's table has the one
-- that may as the block's writer. A client's permissions are those of its last entry with the file's
-- name.
pub one_client_writes :
    (at : Holder → Option ℕ) (name : Text) (s : System) (i k b : ℕ)
    → Reached at name s
    → rights name s.clients i b b'w' ≡ true
    → rights name s.clients k b b'w' ≡ true
    → (i ≡ k)
      × (e : FileEntry) × (h : Holder) × (find_file name s.manager.general_file_table ≡ some e)
      × (token_at b e.mdw_tokens ≡ some h)
      × (at h ≡ some i)
one_client_writes at name s i k b r first second =
    let (e, found, map, ordered, known) = Reached-IsCoherent at name r in
    let (h, token, here) = known i b first in
    let (h', token', here') = known k b second in
    let same : h ≡ h' = some-injective h h' (sym token ∙ token') in
    (some-injective i k (sym here ∙ ap at same ∙ here'), e, h, found, token, here)
