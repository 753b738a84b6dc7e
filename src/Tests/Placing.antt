-- ===== src/Tests/Placing.antt =====
-- Striping, texts and recipes at concrete inputs.
use cse511_project.Prelude.{codes, ◌++◌, ◌≡◌, refl, ℕ, some, ◌<◌, arith, Text, pos, ◌∷◌}
use cse511_project.Strings.{next_token}
use cse511_project.Striping.{server_number, offset_within, corresponding_server}
use cse511_project.Striping.Placement.{block_at, striping_exact, corresponding_server-injective}
use cse511_project.Client.Calls.{token_message}
use cse511_project.Client.Calls.Messages.{parse_request-token_message}
use cse511_project.Metadata.Tokens.{parse_request}
use cse511_project.Interval.{mk}

striping_exact_example :
    (server_number 13 3 < 3)
    × (block_at 3 (server_number 13 3) (offset_within 13 3) ≡ 13)
    × (server_number (block_at 3 2 6) 3 ≡ 2)
    × (offset_within (block_at 3 2 6) 3 ≡ 6)
striping_exact_example = striping_exact 3 13 2 6 (omega arith) (omega arith)

corresponding_server-injective_example :
    ((p : Text × ℕ) × (corresponding_server 13 (pos 3) ≡ some (some p, offset_within 13 3)))
    × (◌≡◌ {A = ℕ} 13 13)
corresponding_server-injective_example =
    corresponding_server-injective 3 (omega arith) (omega arith) 13 13 refl

parse_request-token_message_example :
    parse_request (
      (next_token (token_message (codes "notes") (pos 3) (pos 5) b'w' (pos 1110))).1
      ++ b' ' ∷ codes "10.0.0.1")
    ≡ record {
      file_name = codes "notes";
      interval = mk 3 5;
      mode = b'w';
      client = (codes "10.0.0.1", pos 1110);
    }
parse_request-token_message_example =
    parse_request-token_message 3 5 b'w' 1110 (codes "10.0.0.1") (codes "notes")
      (refl, (refl, (refl, (refl, (refl, tt))))) (omega arith) (omega arith) (omega arith) refl
      (refl, (refl, (refl, (refl, (refl, (refl, (refl, (refl, tt))))))))
