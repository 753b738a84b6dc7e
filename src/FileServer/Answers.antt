-- ===== src/FileServer/Answers.antt =====
-- What a file server answers to the messages of the metadata manager.
use cse511_project.Prelude.{
  ℕ, ℤ, ◌<◌, ◌≡◌, ◌≢◌, refl, ◌∙◌, ap, zero, suc, false, List, [], ◌∷◌, ◌++◌, none, some, pos, Text,
  codes, All, length, leb, arith, ◌==◌, text_eq, if_false, length-append, Option-cases, inl, inr,
}
use cse511_project.Strings.{next_token, trim, to_lower}
use cse511_project.Strings.Decimal.{NotSpace, trim_solid, next_token-append, next_token_last}
use cse511_project.Striping.{server_place}
use cse511_project.Metadata.Dispatch.{rcv_buf_size}
use cse511_project.Metadata.Dispatch.Handled.{NotZero, c_string_lem}
use cse511_project.FileServer.Disk.{FileSystem, IsLawful}
use cse511_project.FileServer.{
  echo_server_port, exec_create, exec_delete, exec_stat, create_answer, delete_answer, stat_text,
  run_command, handle_tcp_client,
}

-- The port that `main` takes for a server number is the one at which clients look for it.
pub echo_server_port-server_place :
    (n : ℕ) → n < 5 → (address : Text) × (server_place n ≡ some (address, echo_server_port (pos n)))
unfolding echo_server_port server_place
echo_server_port-server_place zero h = (_, refl)
echo_server_port-server_place (suc zero) h = (_, refl)
echo_server_port-server_place (suc (suc zero)) h = (_, refl)
echo_server_port-server_place (suc (suc (suc zero))) h = (_, refl)
echo_server_port-server_place (suc (suc (suc (suc zero)))) h = (_, refl)
echo_server_port-server_place (suc (suc (suc (suc (suc n))))) h = absurd (omega (arith, h))

module _ (disk : FileSystem) where
  -- A message of less than 64 characters, none of them 0.
  handle_tcp_client_runs :
      (word arguments : Text) (later : List Text) (s : disk.State)
      → All NotSpace word
      → All NotZero (word ++ b' ' ∷ arguments)
      → length (word ++ b' ' ∷ arguments) < rcv_buf_size
      → handle_tcp_client disk (word ++ b' ' ∷ arguments) later s
        ≡ run_command disk (to_lower word) arguments later s
  unfolding handle_tcp_client
  handle_tcp_client_runs word arguments later s solid plain short =
      let sent = word ++ b' ' ∷ arguments in
      let some_sent : (length sent == 0) ≡ false =
        ground (arith, length-append word (b' ' ∷ arguments)) in
      if_false (length sent == 0) _ _ some_sent
      ∙ if_false (leb rcv_buf_size (length sent)) _ _ (ground (arith, short))
      ∙ rw (c_string_lem sent plain)
          (rw (next_token-append word arguments solid) (rw (trim_solid word solid) refl))

  stat-some :
      (s : disk.State) (name : Text)
      → disk.stat s name ≢ none
      → (x : ℕ × ℤ × ℤ) × (disk.stat s name ≡ some x)
  stat-some s name h = elim (Option-cases (disk.stat s name)) [
    | inl e ↦ absurd (h e)
    | inr found ↦ found
  ]

  module _ (name : Text) (solid : All NotSpace name) where
    named : trim (next_token name).0 ≡ name
    named = ap (λ r. trim r.0) (next_token_last name solid) ∙ trim_solid name solid

    exec_create_lem :
        (s : disk.State)
        → exec_create disk name s ≡ create_answer disk (disk.stat s name) (disk.creat s name) s
    unfolding exec_create
    exec_create_lem s = ap (λ f. create_answer disk (disk.stat s f) (disk.creat s f) s) named

    exec_delete_lem :
        (s : disk.State)
        → exec_delete disk name s ≡ delete_answer disk (disk.stat s name) (disk.remove s name) s
    unfolding exec_delete
    exec_delete_lem s = ap (λ f. delete_answer disk (disk.stat s f) (disk.remove s f) s) named

    exec_stat_lem :
        (s : disk.State) → exec_stat disk name s ≡ (stat_text disk (disk.stat s name), s)
    unfolding exec_stat
    exec_stat_lem s = ap (λ f. (stat_text disk (disk.stat s f), s)) named

    module _ (plain : All NotZero name) (short : length name < 57) where
      creates :
          (s : disk.State)
          → handle_tcp_client disk (codes "create " ++ name) [] s ≡ some (exec_create disk name s)
      unfolding run_command text_eq
      creates s =
          handle_tcp_client_runs (codes "create") name [] s
            (refl, (refl, (refl, (refl, (refl, (refl, tt))))))
            (refl, (refl, (refl, (refl, (refl, (refl, (refl, plain))))))) (omega (arith, short))

      deletes :
          (s : disk.State)
          → handle_tcp_client disk (codes "delete " ++ name) [] s ≡ some (exec_delete disk name s)
      unfolding run_command text_eq
      deletes s =
          handle_tcp_client_runs (codes "delete") name [] s
            (refl, (refl, (refl, (refl, (refl, (refl, tt))))))
            (refl, (refl, (refl, (refl, (refl, (refl, (refl, plain))))))) (omega (arith, short))

      stats :
          (s : disk.State)
          → handle_tcp_client disk (codes "fstat " ++ name) [] s ≡ some (exec_stat disk name s)
      unfolding run_command text_eq
      stats s =
          handle_tcp_client_runs (codes "fstat") name [] s
            (refl, (refl, (refl, (refl, (refl, tt)))))
            (refl, (refl, (refl, (refl, (refl, (refl, plain)))))) (omega (arith, short))

      -- For a name without white space that fits into a message, and a disk on which the calls of the
      -- system succeed: a file that is not there is created with the answer "ack"; to create it again gets
      -- "nack" and changes nothing; to delete it gets "ack"; to delete it again, or to ask for its status,
      -- gets "nack".
      pub create_then_delete :
          (law : IsLawful disk) (s s' s'' : disk.State)
          → disk.stat s name ≡ none
          → disk.creat s name ≡ some s'
          → disk.remove s' name ≡ some s''
          → (handle_tcp_client disk (codes "create " ++ name) [] s ≡ some (codes "ack", s'))
            × (handle_tcp_client disk (codes "create " ++ name) [] s' ≡ some (codes "nack", s'))
            × (handle_tcp_client disk (codes "delete " ++ name) [] s' ≡ some (codes "ack", s''))
            × (handle_tcp_client disk (codes "delete " ++ name) [] s'' ≡ some (codes "nack", s''))
            × (handle_tcp_client disk (codes "fstat " ++ name) [] s'' ≡ some (codes "nack", s''))
      unfolding create_answer delete_answer stat_text
      create_then_delete law s s' s'' new made removed =
          let (x, there) = stat-some s' name (law.creat-stat s s' name new made).0 in
          let gone = law.remove-stat s' s'' name removed in
          (
            creates s ∙ ap some (exec_create_lem s ∙ rw new (rw made refl)),
            creates s' ∙ ap some (exec_create_lem s' ∙ rw there refl),
            deletes s' ∙ ap some (exec_delete_lem s' ∙ rw there (rw removed refl)),
            deletes s'' ∙ ap some (exec_delete_lem s'' ∙ rw gone refl),
            stats s'' ∙ ap some (exec_stat_lem s'' ∙ rw gone refl),
          )
