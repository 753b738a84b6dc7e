-- ===== src/Metadata/Tokens/Requests.antt =====
-- Whole requests for tokens.
use cse511_project.Prelude.{
  ◌⊎◌, inl, inr, ℕ, ◌≤◌, ◌≡◌, refl, ◌∙◌, ap, sym, Bool-cases, text_eq, true, false, List, [], ◌∷◌,
  ◌++◌, none, some, arith, if◌then◌else◌, if_false, length, Text, All,
}
use cse511_project.Interval.{Interval}
use cse511_project.Interval.Laws.{IsRange, has}
use cse511_project.TokenMap.{TokenMap, find, insert}
use cse511_project.TokenMap.Order.{IsMap, insert-Above, Clear}
use cse511_project.TokenMap.Blocks.{token_at, token_at-insert, hits}
use cse511_project.TokenMap.Cut.{Without}
use cse511_project.Metadata.{
  Holder, FileEntry, Mdm, find_file, update_file, responds, waits, faults,
}
use cse511_project.Metadata.Tokens.{
  TokenRequest, parse_request, ends_string, exec_request_token, lock_entry, serve_request, granted,
  finish_request, taken, released, with_file, grant_read, grant_write, write_readers, read_message,
  write_message, revoke_writers, Readers,
}
use cse511_project.Metadata.Tokens.Writers.{
  Grants, Refuses, revoke_writers-Revoked, revoke_writers_refused,
}
use cse511_project.Metadata.Tokens.Readers.{
  Misses, Covers, revoke_readers_missed, revoke_readers_outside,
}

-- The server is free, the table has the file, its tokens are in order, and the range of the request is
-- one.
pub record Ready (r : TokenRequest) (s : Mdm) (e : FileEntry) : Type 0 where
  pub free : s.gft_lock ≡ false
  pub found : find_file r.file_name s.general_file_table ≡ some e
  pub unlocked : e.fe_lock ≡ false
  pub ordered : IsMap e.mdw_tokens
  pub range : IsRange r.interval

-- The table with a changed entry, the lock free.
abbrev pub with_entry : TokenRequest → FileEntry → Mdm → Mdm
with_entry r e s = record {
  general_file_table = update_file r.file_name e s.general_file_table;
  gft_lock = false;
}

-- The table while a request is served: its lock and that of the entry are taken.
abbrev pub while_served : TokenRequest → FileEntry → Mdm → Mdm
while_served r e s = with_file r (taken e) (record s { gft_lock = true })

-- What is put into the table last is what it has.
pub update_file_twice :
    (n : Text) (e d : FileEntry) (t : List (Text × FileEntry))
    → update_file n e (update_file n d t) ≡ update_file n e t
unfolding update_file
update_file_twice n e d [] = refl
update_file_twice n e d ((k, x) ∷ t) = elim (Bool-cases (text_eq k n)) [
  | inl q ↦ rw q (rw q refl)
  | inr q ↦
      rw q (rw q (ap (λ (l : List (Text × FileEntry)). (k, x) ∷ l) (update_file_twice n e d t)))
]

released-free : (e : FileEntry) → e.fe_lock ≡ false → released e ≡ e
released-free e h = ap (λ b. record e { fe_lock = b }) (sym h)

-- A request that is granted leaves both locks free, and in the table the entry that it is granted with.
pub granted_lem :
    (r : TokenRequest) (e e' : FileEntry) (s : Mdm)
    → e'.fe_lock ≡ false
    → granted r (taken e') (while_served r e s)
      ≡ responds (ends_string r.interval) (with_entry r e' s)
unfolding granted finish_request
granted_lem r e e' s h =
    ap
      (λ t. responds (ends_string r.interval) (record { general_file_table = t; gft_lock = false }))
      (update_file_twice r.file_name (released e') (taken e) s.general_file_table
        ∙ ap (λ x. update_file r.file_name x s.general_file_table) (released-free e' h))

module _ (arguments : Text) (s : Mdm) (e : FileEntry)
    (ready : Ready (parse_request arguments) s e) where
  pub request_served :
      (replies : List Text)
      → exec_request_token replies arguments s
        ≡ serve_request
            (parse_request arguments)
            replies
            (taken e)
            (while_served (parse_request arguments) e s)
  unfolding exec_request_token lock_entry
  request_served replies =
      if_false s.gft_lock _ _ ready.free ∙ rw ready.found (if_false e.fe_lock _ _ ready.unlocked)

  -- A request to read, where every writer grants and there are replies enough: the response is the
  -- range, both locks are free, the client is added to the readers, the writers' tokens are those of
  -- before without the range, and nothing else of the table changes.
  pub read_request_granted :
      (replies : List Text)
      → (parse_request arguments).mode ≡ b'r'
      → All Grants replies
      → hits (parse_request arguments).interval e.mdw_tokens ≤ length replies
      → (writers : TokenMap Holder) × (exec_request_token replies arguments s
          ≡ responds (ends_string (parse_request arguments).interval) (
              with_entry
                (parse_request arguments)
                (record e {
                  mdw_tokens = writers;
                  mdr_tokens =
                      e.mdr_tokens
                      ++ ((parse_request arguments).interval, (parse_request arguments).client)
                        ∷ [];
                })
                s))
        × Without (parse_request arguments).interval e.mdw_tokens writers
  unfolding serve_request grant_read
  read_request_granted replies mode good enough =
      let r = parse_request arguments in
      let ((writers, left, sent), run, done) =
        revoke_writers-Revoked (read_message r.file_name r.interval) r.interval replies e.mdw_tokens
          ready.range ready.ordered good enough in
      (
        writers,
        request_served replies
            ∙ rw mode (
                rw run (
                  granted_lem r e
                    (record e {
                      mdw_tokens = writers;
                      mdr_tokens = e.mdr_tokens ++ (r.interval, r.client) ∷ [];
                    })
                    s ready.unlocked)),
        done.0,
      )

  -- A request to read or to write a range of which a writer holds a block, where every answer is
  -- "nack": however many answers come, the server still waits for another.
  pub request_refused :
      (replies : List Text) (it : Interval × Holder)
      → ((parse_request arguments).mode ≡ b'r') ⊎ ((parse_request arguments).mode ≡ b'w')
      → find (parse_request arguments).interval e.mdw_tokens ≡ some it
      → All Refuses replies
      → exec_request_token replies arguments s ≡ waits
  unfolding serve_request grant_read write_readers
  request_refused replies it (inl mode) held bad =
      let r = parse_request arguments in
      let none_left =
        revoke_writers_refused (read_message r.file_name r.interval) r.interval replies e.mdw_tokens
          it held bad in
      request_served replies ∙ rw mode (rw none_left refl)
  request_refused replies it (inr mode) held bad =
      let r = parse_request arguments in
      let none_left =
        revoke_writers_refused (write_message r.interval) r.interval replies e.mdw_tokens it held
          bad in
      request_served replies ∙ rw mode (rw none_left refl)

  -- A request to write, where every writer grants, replies suffice and no reader overlaps the range:
  -- the response is the range, both locks are free, the readers stay, the writers' map is in order,
  -- the client is the writer of each block of the range, and each other block keeps its writer.
  pub write_request_granted :
      (replies : List Text)
      → (parse_request arguments).mode ≡ b'w'
      → All Grants replies
      → hits (parse_request arguments).interval e.mdw_tokens ≤ length replies
      → All (Misses (parse_request arguments).interval) e.mdr_tokens
      → (writers : TokenMap Holder) × (exec_request_token replies arguments s
          ≡ responds
              (ends_string (parse_request arguments).interval)
              (with_entry (parse_request arguments) (record e { mdw_tokens = writers }) s))
        × IsMap writers
        × ((b : ℕ)
            → token_at b writers ≡ (
                if has (parse_request arguments).interval b
                then some (parse_request arguments).client
                else token_at b e.mdw_tokens))
  unfolding serve_request write_readers grant_write
  write_request_granted replies mode good enough missed =
      let r = parse_request arguments in
      let x = r.interval in
      let ((m, left, sent), run, done) =
        revoke_writers-Revoked (write_message x) x replies e.mdw_tokens ready.range ready.ordered
          good enough in
      let free : Clear x m = done.3 in
      (
        insert x r.client m,
        request_served replies
            ∙ rw mode (
                rw run (
                  rw (revoke_readers_missed x left e.mdr_tokens missed) (
                    granted_lem r e (record e { mdw_tokens = insert x r.client m }) s
                      ready.unlocked))),
        insert-Above x r.client 0 m done.0.0 ready.range (omega arith),
        λ b. ground (arith, token_at-insert x r.client m b free, done.0.1 b),
      )

  -- A request to write a range that no writer holds and in which the last reader is the first that the
  -- range touches: where this reader's range lies within the range and it grants, the server's iterator
  -- leaves the vector, before a response.
  pub write_request_faults :
      (done : Readers) (reader : Interval × Holder) (response : Text) (replies : List Text)
      → (parse_request arguments).mode ≡ b'w'
      → find (parse_request arguments).interval e.mdw_tokens ≡ none
      → e.mdr_tokens ≡ done ++ reader ∷ []
      → All (Misses (parse_request arguments).interval) done
      → Covers (parse_request arguments).interval reader
      → Grants response
      → exec_request_token (response ∷ replies) arguments s ≡ faults
  unfolding serve_request write_readers grant_write revoke_writers
  write_request_faults done reader response replies mode none_held readers missed covered good =
      let r = parse_request arguments in
      request_served (response ∷ replies)
      ∙ rw mode (
          rw (none_held, revoke_writers)
            (rw readers (
              rw
                (revoke_readers_outside r.interval done reader response replies missed covered good)
                refl)))
