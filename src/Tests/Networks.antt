-- ===== src/Tests/Networks.antt =====
-- The metadata manager and two clients at concrete inputs.
use cse511_project.Prelude.{
  ap, false, ◌≡◌, refl, ℕ, zero, suc, true, ◌&&◌, not, List, [], ◌∷◌, Option, none, some, pos,
  negsuc, arith, Text, text_eq, codes, ◌==◌, if◌then◌else◌,
}
use cse511_project.Strings.{int_to_string, next_token, trim, atoi, to_string}
use cse511_project.Interval.{subtract_interval, mk}
use cse511_project.Interval.Laws.{has}
use cse511_project.TokenMap.{insert, erase, TokenMap, find}
use cse511_project.TokenMap.Blocks.{token_at, hits}
use cse511_project.TokenMap.Cut.{Without}
use cse511_project.FileDesc.{FileDescriptor, blank_entry, last_named}
use cse511_project.FileDesc.Held.{may, held_tokens}
use cse511_project.FileDesc.Permission.{
  Tokens, check_permission, add_loop, add_finish, join_left, join_right, remove_permission,
  remove_loop, remove_step,
}
use cse511_project.Metadata.{Holder, FileEntry, Mdm, find_file, responds}
use cse511_project.Metadata.Tokens.{
  revoke_writer, insert_parts, ends_string, parse_request, exec_request_token, read_message,
  write_message,
}
use cse511_project.Metadata.Tokens.Requests.{Ready, with_entry}
use cse511_project.Client.Acquire.{add_token}
use cse511_project.Network.{ask, keep_answer, Clients, rights, converse}
use cse511_project.Network.Asked.{AreOrdered, Nameable}
use cse511_project.Network.Reads.{Known, read_request_takes}
use cse511_project.Network.Writes.{write_request_shares}
use cse511_project.Cache.Revoker.{handle_revoker}
use cse511_project.Network.Exclusive.{one_client_writes}
use cse511_project.Network.States.{System, Step, Reached}
use cse511_project.Tests.Requests.{
  ada, bob, bob_writes, entry_with, table_with, to_read, to_write, to_read-Ready, to_write-Ready,
}

-- Bob's revoker is at the first place, ada's at the second.
abbrev listener : Holder → Option ℕ
listener (address, pos port) =
    if port == 5002 then some 0 else if port == 5001 then some 1 else none
listener (address, negsuc n) = none

abbrev pub open_with : Tokens → FileDescriptor
open_with tokens = record {
  next_file_descriptor = 1;
  ofdt =
      record blank_entry { is_open = true; name = codes "f"; mode = codes "w"; tokens = tokens }
      ∷ [];
}

abbrev two_clients : Clients
two_clients = open_with ((mk 0 9, b'w') ∷ []) ∷ open_with [] ∷ []

two_clients-AreOrdered : AreOrdered (codes "f") two_clients
unfolding held_tokens last_named text_eq
two_clients-AreOrdered = ((omega arith, (omega arith, omega arith), tt), (tt, tt))

bob-Known : Known listener (codes "f") bob_writes.mdw_tokens two_clients
unfolding may held_tokens last_named text_eq check_permission find token_at
bob-Known zero b h = (bob, ground (arith, h), refl)
bob-Known (suc zero) b h = absurd (ground (arith, h))
bob-Known (suc (suc i)) b h = absurd (ground (arith, h))

pub to_read-Nameable : Nameable (codes "f") (mk 4 6)
unfolding read_message to_string
to_read-Nameable = record {
  range = (omega arith, omega arith);
  bound = omega arith;
  solid = (refl, tt);
  plain = (refl, tt);
  short = omega arith;
}

read_request_takes_example :
    (replies : List Text) × (writers : TokenMap Holder) × (clients : Clients) × (converse listener 2
        (read_message (codes "f") (mk 4 6))
        (mk 4 6)
        bob_writes.mdw_tokens
        two_clients
      ≡ some (replies, writers, clients))
    × (exec_request_token replies to_read (table_with bob_writes)
        ≡ responds (ends_string (mk 4 6)) (
            with_entry
              (parse_request to_read)
              (record bob_writes { mdw_tokens = writers; mdr_tokens = (mk 4 6, ada) ∷ [] })
              (table_with bob_writes)))
    × Without (mk 4 6) bob_writes.mdw_tokens writers
    × ((i b : ℕ)
        → rights (codes "f") clients i b b'w'
          ≡ (rights (codes "f") two_clients i b b'w' && not (has (mk 4 6) b)))
    × Known listener (codes "f") writers clients
unfolding parse_request next_token trim atoi hits
read_request_takes_example =
    read_request_takes listener two_clients to_read (table_with bob_writes) bob_writes to_read-Ready
      refl to_read-Nameable two_clients-AreOrdered bob-Known

write_request_shares_example :
    (replies : List Text) × (left writers : TokenMap Holder) × (tokens : Tokens) × (converse
        listener 2
        (write_message (mk 4 6))
        (mk 4 6)
        bob_writes.mdw_tokens
        two_clients
      ≡ some (replies, left, two_clients))
    × (exec_request_token replies to_write (table_with bob_writes)
        ≡ responds (ends_string (mk 4 6)) (
            with_entry
              (parse_request to_write)
              (record bob_writes { mdw_tokens = writers })
              (table_with bob_writes)))
    × (add_token 1 b'w' (ends_string (mk 4 6)) [] ≡ some tokens)
    × ((b : ℕ)
        → has (mk 4 6) b ≡ true
        → (token_at b writers ≡ some ada) × (check_permission tokens b b'w' ≡ true))
unfolding parse_request next_token trim atoi hits write_message to_string text_eq find
write_request_shares_example =
    write_request_shares listener two_clients to_write (table_with bob_writes) bob_writes 0 []
      to_write-Ready refl (omega arith) ((refl, tt), ((refl, tt), tt)) tt tt refl

-- Bob is granted blocks 0 to 9, then ada reads blocks 4 to 6.
abbrev idle_clients : Clients
idle_clients = open_with [] ∷ open_with [] ∷ []

abbrev bob_asks : Text
bob_asks = codes "f 0 9 w 5002 10.0.0.2"

abbrev idle_table : Mdm
idle_table = table_with (entry_with [] [])

abbrev bob_writing : System
bob_writing = record { manager = table_with bob_writes; clients = two_clients }

abbrev ada_reading : System
ada_reading = record {
  manager = table_with (entry_with ((mk 0 3, bob) ∷ (mk 7 9, bob) ∷ []) ((mk 4 6, ada) ∷ []));
  clients = open_with ((mk 0 3, b'w') ∷ (mk 7 9, b'w') ∷ []) ∷ open_with [] ∷ [];
}

nobody_writes : (i b : ℕ) → rights (codes "f") idle_clients i b b'w' ≡ false
unfolding may held_tokens last_named text_eq check_permission find
nobody_writes zero b = refl
nobody_writes (suc zero) b = refl
nobody_writes (suc (suc i)) b = refl

bob_asks-Ready : Ready (parse_request bob_asks) idle_table (entry_with [] [])
unfolding parse_request next_token trim atoi find_file text_eq
bob_asks-Ready = record {
  free = refl;
  found = refl;
  unlocked = refl;
  ordered = tt;
  range = (omega arith, omega arith);
}

bob_adds : add_token 1 b'w' (codes "0 9") [] ≡ some ((mk 0 9, b'w') ∷ [])
unfolding find add_token insert add_loop add_finish join_left join_right text_eq
bob_adds = refl

bob_served : exec_request_token [] bob_asks idle_table ≡ responds (codes "0 9") bob_writing.manager
unfolding exec_request_token text_eq
bob_served = refl

bob_writing-Reached : Reached listener (codes "f") bob_writing
unfolding held_tokens last_named text_eq find find_file parse_request next_token trim atoi
bob_writing-Reached =
    Reached.then_steps
      (Reached.starts idle_table (entry_with [] []) idle_clients refl refl (tt, (tt, tt))
        nobody_writes)
      (Step.grants bob_asks (codes "0 9") [] (entry_with [] []) 0 0 0 (open_with [])
        (record blank_entry { is_open = true; name = codes "f"; mode = codes "w" })
        ((mk 0 9, b'w') ∷ []) bob_asks-Ready refl refl refl tt bob_served refl refl
        (record { named = refl; entry = refl; held = refl }) refl bob_adds)

bob_answers :
    handle_revoker 2 (read_message (codes "f") (mk 4 6)) (open_with ((mk 0 9, b'w') ∷ []))
    ≡ some (some (codes "4 6"), open_with ((mk 0 3, b'w') ∷ (mk 7 9, b'w') ∷ []))
unfolding handle_revoker read_message text_eq remove_permission remove_loop find remove_step insert
    erase int_to_string
bob_answers = refl

bob_asked :
    ask listener (read_message (codes "f") (mk 4 6)) bob two_clients
    ≡ some (codes "4 6", ada_reading.clients)
unfolding ask keep_answer
bob_asked = ap (keep_answer 0 two_clients) bob_answers

conversation :
    converse listener 2
      (read_message (codes "f") (mk 4 6))
      (mk 4 6)
      bob_writes.mdw_tokens
      two_clients
    ≡ some (codes "4 6" ∷ [], (mk 0 3, bob) ∷ (mk 7 9, bob) ∷ [], ada_reading.clients)
unfolding converse find revoke_writer insert insert_parts subtract_interval erase text_eq
conversation = rw (bob_asked, converse) refl

ada_served :
    exec_request_token (codes "4 6" ∷ []) to_read bob_writing.manager
    ≡ responds (codes "4 6") ada_reading.manager
unfolding exec_request_token text_eq
ada_served = refl

ada_reading-Reached : Reached listener (codes "f") ada_reading
unfolding hits parse_request next_token trim atoi
ada_reading-Reached = Reached.then_steps bob_writing-Reached (
    Step.takes to_read (codes "4 6") (codes "4 6" ∷ []) bob_writes
      ((mk 0 3, bob) ∷ (mk 7 9, bob) ∷ []) to_read-Ready refl refl to_read-Nameable conversation
      ada_served)

ada_adds : add_token 1 b'r' (ends_string (mk 4 6)) [] ≡ some ((mk 4 6, b'r') ∷ [])
unfolding find add_token insert add_loop add_finish join_left join_right text_eq to_string
ada_adds = refl

-- Then ada adds her token.
abbrev ada_holds : System
ada_holds = record {
  manager = ada_reading.manager;
  clients = open_with ((mk 0 3, b'w') ∷ (mk 7 9, b'w') ∷ []) ∷ open_with ((mk 4 6, b'r') ∷ []) ∷ [];
}

ada_holds-Reached : Reached listener (codes "f") ada_holds
unfolding last_named text_eq find
ada_holds-Reached = Reached.then_steps ada_reading-Reached (
    Step.adds (mk 4 6) 1 0 0 (open_with [])
      (record blank_entry { is_open = true; name = codes "f"; mode = codes "w" })
      ((mk 4 6, b'r') ∷ []) (omega arith, omega arith) refl
      (record { named = refl; entry = refl; held = refl }) refl ada_adds)

one_client_writes_example :
    (◌≡◌ {A = ℕ} 0 0)
    × (e : FileEntry) × (h : Holder) × (find_file (codes "f") ada_holds.manager.general_file_table
        ≡ some e)
    × (token_at 8 e.mdw_tokens ≡ some h)
    × (listener h ≡ some 0)
unfolding may held_tokens last_named text_eq check_permission find
one_client_writes_example =
    one_client_writes listener (codes "f") ada_holds 0 0 8 ada_holds-Reached refl refl
