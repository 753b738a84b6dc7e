-- ===== src/Metadata/Tokens/Readers/Inside.antt =====
-- Where the loop over the readers in `execFunc_request_token` stays inside of the vector.
use cse511_project.Prelude.{ℕ, ◌≤◌, [], ◌∷◌, length}
use cse511_project.Interval.{Interval}
use cse511_project.Metadata.Tokens.{Readers, ReadersEnd, finished, outside, unanswered, unfinished}
use cse511_project.Metadata.Tokens.Readers.{Misses}

-- The last reader has a range that `x` does not overlap.
abbrev pub LastMisses : Interval → Readers → Type 0
LastMisses x [] = Unit
LastMisses x (e ∷ []) = Misses x e
LastMisses x (e ∷ d ∷ l) = LastMisses x (d ∷ l)

-- The loop has not left the vector, nor waits for a reply, and has sent at most `n` messages.
IsInside : ℕ → ReadersEnd → Type 0
IsInside n (finished l sent) = length sent ≤ n
IsInside n unanswered = ⊥
IsInside n outside = ⊥
IsInside n unfinished = Unit
