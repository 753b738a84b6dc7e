-- ===== src/Metadata/Tokens.antt =====
-- `execFunc_request_token` of MetadataManager.cc. The clients' revokers answer with a list of replies,
-- in the order in which they are asked ("exception" where the connection fails). The iterator over the vector of readers is an index into it:
-- that `push_back` may move the vector's storage is left out.
pub mod Writers
pub mod Readers
pub mod Requests
use mathlib.Core.Option
use cse511_project.Prelude.{
  ℕ, zero, suc, ◌+◌, Bool, true, false, List, [], ◌∷◌, ◌++◌, Option, none, some, ℤ, to_unsigned,
  Text, codes, text_eq, ltb, ◌==◌, get_elem?, map, length, ◌*◌, if◌then◌else◌,
}
use cse511_project.Interval.{Interval, mk, is_equal, subtract_interval}
use cse511_project.TokenMap.{TokenMap, find, insert, erase}
use cse511_project.Strings.{next_token, trim, atoi, to_string}
use cse511_project.Metadata.{
  Holder, FileEntry, Mdm, find_file, update_file, Outcome, waits, faults, with_lock, unlock,
}

-- The arguments of a request.
pub record TokenRequest : Type 0 where
  pub file_name : Text
  pub interval : Interval
  pub mode : ℕ
  pub client : Holder

-- `s[0]`, which is 0 for the empty string.
abbrev pub first_char : Text → ℕ
first_char [] = 0
first_char (c ∷ s) = c

-- The ends are read as `int`s and stored as `unsigned int`s.
unfoldable pub parse_request : Text → TokenRequest
unfolding next_token trim atoi
parse_request arguments =
    let (name, a) = next_token arguments in
    let (start, b) = next_token a in
    let (end, c) = next_token b in
    let (mode, d) = next_token c in
    let (port, e) = next_token d in
    record {
      file_name = name;
      interval = mk (to_unsigned (atoi (trim start))) (to_unsigned (atoi (trim end)));
      mode = first_char (trim mode);
      client = (trim (next_token e).0, atoi (trim port));
    }

-- "start end", as requests and responses have it.
abbrev pub ends_string : Interval → Text
ends_string x = to_string x.m_start ++ b' ' ∷ to_string x.m_end

-- The message to a writer when a client wants to read.
unfoldable pub read_message : Text → Interval → Text
unfolding to_string
read_message name x = codes "revoke " ++ (name ++ b' ' ∷ (ends_string x ++ b' ' ∷ (b'r' ∷ [])))

-- The message to writers and readers when a client wants to write: it has no file name.
unfoldable pub write_message : Interval → Text
unfolding to_string
write_message x = codes "revoke " ++ (ends_string x ++ b' ' ∷ (b'w' ∷ []))

abbrev pub refused : Text → Bool
refused response = text_eq response (codes "nack")

unfoldable pub insert_parts : {V : Type 0} → List Interval → V → TokenMap V → TokenMap V
unfolding insert
insert_parts [] v m = m
insert_parts (i ∷ parts) v m = insert_parts parts v (insert i v m)

-- What a writer's answer does to the entry `it`.
unfoldable pub revoke_writer :
    Interval → Interval × Holder → Text → TokenMap Holder → TokenMap Holder
unfolding insert_parts subtract_interval erase
revoke_writer x it response m =
    if refused response then m else insert_parts (subtract_interval it.0 x) it.1 (erase it.0 m)

abbrev pub Sent : Type 0
Sent = List (Text × Holder)

-- The loop over the writers: the map, the replies that are left, and what was sent. `none` is to wait
-- for a reply that does not come.
unfoldable pub revoke_writers :
    Text → Interval → List Text → TokenMap Holder → Option (TokenMap Holder × List Text × Sent)
unfolding find revoke_writer
revoke_writers message x [] m = elim (find x m) [ none ↦ some (m, [], []) | some it ↦ none ]
revoke_writers message x (response ∷ replies) m = elim (find x m) [
  | none ↦ some (m, response ∷ replies, [])
  | some it ↦
      Option.map (λ (m', left, sent). (m', left, (message, it.1) ∷ sent))
        (revoke_writers message x replies (revoke_writer x it response m))
]

abbrev pub Readers : Type 0
Readers = List (Interval × Holder)

abbrev pub erase_at : ℕ → Readers → Readers
erase_at i [] = []
erase_at zero (e ∷ l) = l
erase_at (suc i) (e ∷ l) = e ∷ erase_at i l

-- How the loop over the readers ends: with the readers and what was sent; waiting for a reply; with
-- the iterator outside the vector; or out of fuel.
pub data ReadersEnd : Type 0 where
  finished : Readers → Sent → ReadersEnd
  unanswered outside unfinished : ReadersEnd

-- A message more, sent before the others.
unfoldable pub sent_first : Text × Holder → ReadersEnd → ReadersEnd
sent_first message (finished readers sent) = finished readers (message ∷ sent)
sent_first message unanswered = unanswered
sent_first message outside = outside
sent_first message unfinished = unfinished

-- What a reader's answer does to the entry at `i`.
unfoldable pub revoke_reader : Interval → ℕ → Interval × Holder → Text → Readers → Readers
unfolding subtract_interval
revoke_reader x i e response l =
    if refused response
    then l
    else erase_at i l ++ map (λ part. (part, e.1)) (subtract_interval e.0 x)

-- The loop over the readers, with the iterator at `i`. After the erasure the iterator stands at the
-- entry behind, and the loop's `++` moves it on.
unfoldable pub revoke_readers : ℕ → Interval → ℕ → List Text → Readers → ReadersEnd
unfolding is_equal sent_first revoke_reader write_message
revoke_readers zero x i replies l = unfinished
revoke_readers (suc f) x i replies l = elim (get_elem? l i) [
  | none ↦ if i == length l then finished l [] else outside
  | some e ↦ elim (is_equal x e.0) [
    | false ↦ revoke_readers f x (suc i) replies l
    | true ↦ elim replies [
      | [] ↦ unanswered
      | response ∷ rest ↦
          sent_first (write_message x, e.1)
            (revoke_readers f x (suc i) rest (revoke_reader x i e response l))
    ]
  ]
]

-- The entry with its lock taken, and with its lock given back.
abbrev pub taken : FileEntry → FileEntry
taken e = record e { fe_lock = true }

abbrev pub released : FileEntry → FileEntry
released e = record e { fe_lock = false }

-- The table with a changed entry.
abbrev pub with_file : TokenRequest → FileEntry → Mdm → Mdm
with_file r e s = record s { general_file_table = update_file r.file_name e s.general_file_table }

-- The end of a request: the entry's lock is given back, then that of the table.
unfoldable pub finish_request : TokenRequest → Text → FileEntry → Mdm → Outcome
unfolding update_file
finish_request r response e locked = unlock response (with_file r (released e) locked)

-- The end of a request that got the tokens: the response is the range.
unfoldable pub granted : TokenRequest → FileEntry → Mdm → Outcome
unfolding finish_request to_string
granted r e locked = finish_request r (ends_string r.interval) e locked

-- The case of a client that wants to read.
unfoldable pub grant_read :
    TokenRequest → FileEntry → Mdm → Option (TokenMap Holder × List Text × Sent) → Outcome
unfolding granted
grant_read r e locked none = waits
grant_read r e locked (some (writers, replies, sent)) =
    granted r
      (record e { mdw_tokens = writers; mdr_tokens = e.mdr_tokens ++ (r.interval, r.client) ∷ [] })
      locked

-- What follows the loop over the readers.
unfoldable pub grant_write : TokenRequest → FileEntry → Mdm → TokenMap Holder → ReadersEnd → Outcome
unfolding granted insert
grant_write r e locked writers (finished readers sent) =
    granted r (record e { mdw_tokens = insert r.interval r.client writers; mdr_tokens = readers })
      locked
grant_write r e locked writers unanswered = waits
grant_write r e locked writers outside = faults
grant_write r e locked writers unfinished = waits

-- The fuel of the loop over the readers.
abbrev pub rounds : Readers → ℕ
rounds l = 2 * length l + 1

-- What follows the loop over the writers, for a client that wants to write.
unfoldable pub write_readers :
    TokenRequest → FileEntry → Mdm → Option (TokenMap Holder × List Text × Sent) → Outcome
unfolding grant_write revoke_readers
write_readers r e locked none = waits
write_readers r e locked (some (writers, replies, sent)) =
    grant_write r e locked writers
      (revoke_readers (rounds e.mdr_tokens) r.interval 0 replies e.mdr_tokens)

-- The request for a file that was found, with its lock taken. Another mode changes nothing and answers
-- the empty string.
unfoldable pub serve_request : TokenRequest → List Text → FileEntry → Mdm → Outcome
unfolding grant_read write_readers revoke_writers read_message write_message
serve_request r replies e locked =
    if r.mode == b'r'
    then grant_read r e locked
        (revoke_writers (read_message r.file_name r.interval) r.interval replies e.mdw_tokens)
    else if r.mode == b'w'
    then write_readers r e locked
        (revoke_writers (write_message r.interval) r.interval replies e.mdw_tokens)
    else finish_request r [] e locked

-- `pthread_mutex_trylock`.
unfoldable pub lock_entry : TokenRequest → List Text → Mdm → Option FileEntry → Outcome
unfolding serve_request
lock_entry r replies locked none = unlock (codes "nack") locked
lock_entry r replies locked (some e) =
    if e.fe_lock
    then unlock (codes "locking_failed") locked
    else serve_request r replies (taken e) (with_file r (taken e) locked)

unfoldable pub exec_request_token : List Text → Text → Mdm → Outcome
unfolding parse_request lock_entry find_file
exec_request_token replies arguments s = with_lock s λ locked.
    let r = parse_request arguments in
    lock_entry r replies locked (find_file r.file_name locked.general_file_table)
