-- ===== src/Metadata/Reachable.antt =====
-- The states that the metadata manager reaches: it starts with an empty table, and every response leads
-- to the next state.
pub mod Single
use mathlib.Core.Option.{some-injective}
use cse511_project.Prelude.{
  ℕ, ◌≡◌, ◌≢◌, refl, ◌∙◌, sym, ap, subst, Bool, true, false, List, [], ◌∷◌, ◌++◌, Option, none,
  some, Text, codes, text_eq, text_eq→≡, arith, if_true, if_false, if-either, Bool-cases,
  Option-cases, inl, inr, if◌then◌else◌, ◌==◌,
}
use cse511_project.Interval.Laws.{IsRange}
use cse511_project.Recipe.{FileRecipe}
use cse511_project.TokenMap.{insert, TokenMap, insert}
use cse511_project.TokenMap.Order.{IsMap, insert-Above}
use cse511_project.Metadata.{
  Holder, FileEntry, Mdm, find_file, insert_file, erase_file, update_file, Outcome, responds,
  blocked,
}
use cse511_project.Metadata.Files.{new_entry, exec_create, exec_open, exec_delete, exec_fstat}
use cse511_project.Metadata.Files.Leaves.{Table, Leaves, requests-Leaves}
use cse511_project.Metadata.Tokens.{
  TokenRequest, parse_request, exec_request_token, lock_entry, serve_request, granted,
  finish_request, taken, released, with_file, ends_string, grant_read, grant_write, write_readers,
  revoke_writers, revoke_readers, ReadersEnd, finished, outside, unanswered, unfinished,
  read_message, write_message, Sent, rounds,
}
use cse511_project.Metadata.Tokens.Requests.{update_file_twice}
use cse511_project.Metadata.Tokens.Writers.{WithoutEnd, revoke_writers-WithoutEnd}
use cse511_project.Metadata.Dispatch.{run_command}

-- No entry is locked, and the writers of each file are in order.
abbrev pub IsSound : FileEntry → Type 0
IsSound e = (e.fe_lock ≡ false) × IsMap e.mdw_tokens

abbrev pub AreSound : Table → Type 0
AreSound [] = Unit
AreSound ((k, e) ∷ t) = IsSound e × AreSound t

pub insert_file-AreSound :
    (n : Text) (r : FileRecipe) (t : Table)
    → AreSound t
    → AreSound (insert_file n (new_entry n r) t)
unfolding insert_file
insert_file-AreSound n r [] h = ((refl, tt), tt)
insert_file-AreSound n r ((k, e) ∷ t) h =
    if-either AreSound (text_eq k n) _ _ h (h.0, insert_file-AreSound n r t h.1)

pub erase_file-AreSound : (n : Text) (t : Table) → AreSound t → AreSound (erase_file n t)
unfolding erase_file
erase_file-AreSound n [] h = tt
erase_file-AreSound n ((k, e) ∷ t) h =
    if-either AreSound (text_eq k n) _ _ h.1 (h.0, erase_file-AreSound n t h.1)

update_file-AreSound :
    (n : Text) (e : FileEntry) (t : Table) → IsSound e → AreSound t → AreSound (update_file n e t)
unfolding update_file
update_file-AreSound n e [] s h = tt
update_file-AreSound n e ((k, x) ∷ t) s h =
    if-either AreSound (text_eq k n) _ _ (s, h.1) (h.0, update_file-AreSound n e t s h.1)

pub find_file-IsSound :
    (n : Text) (e : FileEntry) (t : Table) → AreSound t → find_file n t ≡ some e → IsSound e
unfolding find_file
find_file-IsSound n e [] h f = absurd (ground (arith, f))
find_file-IsSound n e ((k, x) ∷ t) h f = elim (Bool-cases (text_eq k n)) [
  | inl q ↦ subst IsSound (some-injective x e (sym (if_true (text_eq k n) _ _ q) ∙ f)) h.0
  | inr q ↦ find_file-IsSound n e t h.1 (sym (if_false (text_eq k n) _ _ q) ∙ f)
]

-- A token request, with the lock held. The response is not "locking_failed".
abbrev pub Kept : Outcome → Type 0
Kept o = Leaves AreSound o

-- What the table is like while a request is served: it is sound again once the entry is.
abbrev Restores : TokenRequest → Mdm → Type 0
Restores r s = (x : FileEntry) → IsSound x → AreSound (with_file r x s).general_file_table

finish_request-Kept :
    (r : TokenRequest) (response : Text) (e : FileEntry) (s : Mdm)
    → IsMap e.mdw_tokens
    → Restores r s
    → Kept (finish_request r response e s)
unfolding finish_request
finish_request-Kept r response e s map h = h (released e) (refl, map)

grant_read-Kept :
    (r : TokenRequest) (e : FileEntry) (s : Mdm) (out : Option (TokenMap Holder × List Text × Sent))
    → WithoutEnd r.interval e.mdw_tokens out
    → Restores r s
    → Kept (grant_read r e s out)
unfolding grant_read granted
grant_read-Kept r e s none done h = tt
grant_read-Kept r e s (some (m, left, sent)) done h =
    finish_request-Kept r (ends_string r.interval)
      (record e { mdw_tokens = m; mdr_tokens = e.mdr_tokens ++ (r.interval, r.client) ∷ [] }) s
      done.0.0 h

grant_write-Kept :
    (r : TokenRequest) (e : FileEntry) (s : Mdm) (m : TokenMap Holder) (end : ReadersEnd)
    → IsRange r.interval
    → IsMap m
    → Restores r s
    → Kept (grant_write r e s m end)
unfolding grant_write granted
grant_write-Kept r e s m (finished readers sent) range map h =
    finish_request-Kept r (ends_string r.interval)
      (record e { mdw_tokens = insert r.interval r.client m; mdr_tokens = readers }) s
      (insert-Above r.interval r.client 0 m map range (omega arith)) h
grant_write-Kept r e s m unanswered range map h = tt
grant_write-Kept r e s m outside range map h = tt
grant_write-Kept r e s m unfinished range map h = tt

write_readers-Kept :
    (r : TokenRequest) (e : FileEntry) (s : Mdm) (out : Option (TokenMap Holder × List Text × Sent))
    → IsRange r.interval
    → WithoutEnd r.interval e.mdw_tokens out
    → Restores r s
    → Kept (write_readers r e s out)
unfolding write_readers
write_readers-Kept r e s none range done h = tt
write_readers-Kept r e s (some (m, left, sent)) range done h =
    grant_write-Kept r e s m (revoke_readers (rounds e.mdr_tokens) r.interval 0 left e.mdr_tokens)
      range done.0.0 h

serve_request-Kept :
    (r : TokenRequest) (replies : List Text) (e : FileEntry) (s : Mdm)
    → IsMap e.mdw_tokens
    → IsRange r.interval
    → Restores r s
    → Kept (serve_request r replies e s)
unfolding serve_request
serve_request-Kept r replies e s map range h =
    if-either Kept (r.mode == b'r') _ _
      (grant_read-Kept r e s _
        (revoke_writers-WithoutEnd (read_message r.file_name r.interval) r.interval replies
          e.mdw_tokens range map)
        h)
      (if-either Kept (r.mode == b'w') _ _
        (write_readers-Kept r e s _ range
          (revoke_writers-WithoutEnd (write_message r.interval) r.interval replies e.mdw_tokens
            range map)
          h)
        (finish_request-Kept r [] e s map h))

lock_entry-Kept :
    (r : TokenRequest) (replies : List Text) (s : Mdm) (o : Option FileEntry)
    → ((e : FileEntry) → o ≡ some e → IsSound e)
    → IsRange r.interval
    → AreSound s.general_file_table
    → Kept (lock_entry r replies s o)
unfolding lock_entry
lock_entry-Kept r replies s none sound range h = h
lock_entry-Kept r replies s (some e) sound range h =
    let t = s.general_file_table in
    if-either Kept e.fe_lock _ _ h (
      serve_request-Kept r replies (taken e) (with_file r (taken e) s) (sound e refl).1 range
        (λ x sx.
          subst AreSound (sym (update_file_twice r.file_name x (taken e) t))
            (update_file-AreSound r.file_name x t sx h)))

pub exec_request_token-Kept :
    (replies : List Text) (arguments : Text) (s : Mdm)
    → IsRange (parse_request arguments).interval
    → AreSound s.general_file_table
    → Kept (exec_request_token replies arguments s)
unfolding exec_request_token
exec_request_token-Kept replies arguments s range h = if-either Kept s.gft_lock blocked _ tt (
    lock_entry-Kept (parse_request arguments) replies (record s { gft_lock = true })
      (find_file (parse_request arguments).file_name s.general_file_table)
      (λ e f. find_file-IsSound (parse_request arguments).file_name e s.general_file_table h f)
      range h)

-- The state in which the program starts.
abbrev pub first_state : Mdm
first_state = record { general_file_table = []; gft_lock = false }

-- What `request_token` is asked for is a range of blocks.
abbrev pub AsksRange : Text → Text → Text → Type 0
AsksRange address command arguments =
    text_eq command (codes "request_token") ≡ true
    → IsRange (parse_request (arguments ++ b' ' ∷ address)).interval

-- A command that gets a response, whatever the file servers and the clients answer meanwhile.
pub data Serves (s : Mdm) (s' : Mdm) : Type 0 where
  serve :
      (reply : ℕ → Text → Text) (replies : List Text) (address command arguments response : Text)
      → AsksRange address command arguments
      → run_command reply replies address command arguments s ≡ responds response s'
      → Serves s s'

pub data Reach : Mdm → Type 0 where
  start : Reach first_state
  later : {s s' : Mdm} → Reach s → Serves s s' → Reach s'

Leaves-responds :
    (o : Outcome) (response : Text) (s : Mdm)
    → Kept o
    → o ≡ responds response s
    → AreSound s.general_file_table
Leaves-responds o response s h e = subst Kept e h

run_command-Kept :
    (reply : ℕ → Text → Text) (replies : List Text) (address command arguments : Text) (s : Mdm)
    → AsksRange address command arguments
    → AreSound s.general_file_table
    → Kept (run_command reply replies address command arguments s)
unfolding run_command
run_command-Kept reply replies address command arguments s range h =
    let files =
      requests-Leaves AreSound insert_file-AreSound erase_file-AreSound reply arguments s h in
    if-either Kept (text_eq command (codes "create")) _ _ files.0 (
      if-either Kept (text_eq command (codes "open")) _ _ files.1 (
        if-either Kept (text_eq command (codes "delete")) _ _ files.2 (
          if-either Kept (text_eq command (codes "fstat")) _ _ files.3
            (elim (Bool-cases (text_eq command (codes "request_token"))) [
              | inl q ↦
                  subst Kept (sym (if_true (text_eq command (codes "request_token")) _ _ q))
                    (exec_request_token-Kept replies (arguments ++ b' ' ∷ address) s (range q) h)
              | inr q ↦
                  subst Kept (sym (if_false (text_eq command (codes "request_token")) _ _ q)) h
            ]))))

pub Reach-AreSound : {s : Mdm} → Reach s → AreSound s.general_file_table
Reach-AreSound start = tt
Reach-AreSound (later {s} {s'} r (serve reply replies address command arguments response range e)) =
    Leaves-responds _ response s'
      (run_command-Kept reply replies address command arguments s range (Reach-AreSound r)) e
