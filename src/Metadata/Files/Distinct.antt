-- ===== src/Metadata/Files/Distinct.antt =====
-- What `execFunc_delete` answers, and what it does to the table of files.
use cse511_project.Prelude.{
  ℕ, ◌+◌, Bool, true, ◌≡◌, refl, ◌∙◌, false, List, [], ◌∷◌, ◌++◌, none, some, Text, codes, text_eq,
  text_eq→≡, All, if_true, if_false, Bool-cases, ap, subst, inl, inr, if◌then◌else◌,
}
use cse511_project.Strings.Decimal.{NotSpace, trim_solid, next_token-append, next_token_last}
use cse511_project.Metadata.{FileEntry, Mdm, find_file, erase_file, responds}
use cse511_project.Metadata.Files.Stat.{servers_of}
use cse511_project.Metadata.Files.{
  is_nack, delete_loop, exec_open, exec_delete, finish_open, finish_delete,
}

-- A name stands at most once in the table.
unfoldable pub AreDistinct : List (Text × FileEntry) → Type 0
unfolding find_file
AreDistinct [] = Unit
AreDistinct ((k, e) ∷ t) = (find_file k t ≡ none) × AreDistinct t

pub find_file-erase_file :
    (n : Text) (t : List (Text × FileEntry)) → AreDistinct t → find_file n (erase_file n t) ≡ none
unfolding find_file erase_file AreDistinct
find_file-erase_file n [] h = refl
find_file-erase_file n ((k, e) ∷ t) h = elim (Bool-cases (text_eq k n)) [
  | inl q ↦
      ap (find_file n) (if_true (text_eq k n) t ((k, e) ∷ erase_file n t) q)
      ∙ subst (λ m. find_file m t ≡ none) (text_eq→≡ k n q) h.0
  | inr q ↦
      ap (find_file n) (if_false (text_eq k n) t ((k, e) ∷ erase_file n t) q)
      ∙ if_false (text_eq k n) _ _ q
      ∙ find_file-erase_file n t h.1
]

-- What the last server of a list answers when it is told to delete the file; nothing, where there is none.
abbrev pub last_answer : (ℕ → Text → Text) → Text → List ℕ → Text
last_answer reply name [] = []
last_answer reply name (i ∷ []) = reply i (codes "delete " ++ name)
last_answer reply name (i ∷ j ∷ servers) = last_answer reply name (j ∷ servers)

module _ (reply : ℕ → Text → Text) (name : Text) where
  answer_or : Text → List ℕ → Text
  answer_or response [] = response
  answer_or response (i ∷ servers) = last_answer reply name (i ∷ servers)

  answer_or-last_answer :
      (i : ℕ) (servers : List ℕ)
      → answer_or (reply i (codes "delete " ++ name)) servers ≡ last_answer reply name (i ∷ servers)
  unfolding answer_or
  answer_or-last_answer i [] = refl
  answer_or-last_answer i (j ∷ servers) = refl

  delete_loop_answer :
      (i : ℕ) (mask : List Bool) (response : Text)
      → delete_loop reply i mask name response ≡ answer_or response (servers_of i mask)
  unfolding delete_loop servers_of answer_or
  delete_loop_answer i [] response = refl
  delete_loop_answer i (false ∷ mask) response = delete_loop_answer (i + 1) mask response
  delete_loop_answer i (true ∷ mask) response =
      delete_loop_answer (i + 1) mask (reply i (codes "delete " ++ name))
      ∙ answer_or-last_answer i (servers_of (i + 1) mask)

  answer_or-none : (servers : List ℕ) → answer_or [] servers ≡ last_answer reply name servers
  unfolding answer_or
  answer_or-none [] = refl
  answer_or-none (i ∷ servers) = refl

  -- The loop asks the servers of the mask, and keeps what the last one answers.
  pub delete_loop-last_answer :
      (mask : List Bool)
      → delete_loop reply 0 mask name [] ≡ last_answer reply name (servers_of 0 mask)
  delete_loop-last_answer mask = delete_loop_answer 0 mask [] ∙ answer_or-none (servers_of 0 mask)

-- For a name without white space that the table has (with each name once) and the lock free,
-- `execFunc_delete` frees the lock and erases the file whatever the servers answer, so that a later
-- `execFunc_open` answers the empty recipe. It answers "failed" if the last server of the file's mask
-- answers "nack", in letters of any case, to "delete" and the name, and "success" otherwise, whatever the servers before it say.
pub open-delete :
    (reply : ℕ → Text → Text) (name mode : Text) (s : Mdm) (e : FileEntry)
    → All NotSpace name
    → s.gft_lock ≡ false
    → AreDistinct s.general_file_table
    → find_file name s.general_file_table ≡ some e
    → (s' : Mdm) × (exec_delete reply name s
        ≡ responds
            (if is_nack (last_answer reply name (servers_of 0 e.file_recipe.stripe_mask))
              then codes "failed"
              else codes "success")
            s')
      × (exec_open reply (name ++ b' ' ∷ mode) s' ≡ responds [] s')
unfolding exec_delete exec_open finish_delete finish_open
open-delete reply name mode s e solid free distinct found =
    let table = erase_file name s.general_file_table in
    let s' : Mdm = record { general_file_table = table; gft_lock = false } in
    (
      s',
      if_false s.gft_lock _ _ free
          ∙ rw (next_token_last name solid) (
              rw found (
                ap (λ t. responds (if is_nack t then codes "failed" else codes "success") s')
                  (delete_loop-last_answer reply name e.file_recipe.stripe_mask))),
      rw (next_token-append name mode solid) (
          rw (trim_solid name solid)
            (rw (find_file-erase_file name s.general_file_table distinct) refl)),
    )
