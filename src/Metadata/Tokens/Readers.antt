-- ===== src/Metadata/Tokens/Readers.antt =====
-- The loop of `execFunc_request_token` that takes the tokens of readers.
pub mod Rounds
pub mod Inside
use cse511_project.Prelude.{
  ℕ, zero, suc, ◌+◌, ◌≤◌, ◌<◌, ◌≡◌, refl, ◌∙◌, ap, subst, true, false, List, [], ◌∷◌, ◌++◌, none,
  some, arith, if_false, if_true, length, Text, All, get_elem?, append-nil, length-append, ◌==◌,
}
use cse511_project.Interval.{Interval, is_equal, subtract_interval}
use cse511_project.Metadata.{Holder}
use cse511_project.Metadata.Tokens.{
  Readers, refused, finished, outside, sent_first, revoke_reader, revoke_readers, write_message,
  erase_at, rounds,
}
use cse511_project.Metadata.Tokens.Writers.{Grants}

-- A reader's range that `x` does not overlap, and one that lies within `x`.
abbrev pub Misses : Interval → Interval × Holder → Type 0
Misses x e = is_equal x e.0 ≡ false

abbrev pub Covers : Interval → Interval × Holder → Type 0
Covers x e = (is_equal x e.0 ≡ true) × (subtract_interval e.0 x ≡ [])

get_elem?-append :
    (done rest : Readers) (e : Interval × Holder)
    → get_elem? (done ++ e ∷ rest) (length done) ≡ some e
get_elem?-append [] rest e = refl
get_elem?-append (d ∷ done) rest e = get_elem?-append done rest e

get_elem?-past : (l : Readers) (i : ℕ) → length l ≤ i → get_elem? l i ≡ none
get_elem?-past [] i h = refl
get_elem?-past (e ∷ l) zero h = absurd (omega arith)
get_elem?-past (e ∷ l) (suc i) h = get_elem?-past l i (omega arith)

erase_at-append :
    (done rest : Readers) (e : Interval × Holder)
    → erase_at (length done) (done ++ e ∷ rest) ≡ done ++ rest
erase_at-append [] rest e = refl
erase_at-append (d ∷ done) rest e = ap (◌∷◌ d) (erase_at-append done rest e)

-- `x` misses the `k` entries from index `i` on.
abbrev pub MissesFrom : Interval → ℕ → ℕ → Readers → Type 0
MissesFrom x i zero l = Unit
MissesFrom x i (suc k) l =
    ((e : Interval × Holder) × (get_elem? l i ≡ some e) × Misses x e) × MissesFrom x (suc i) k l

MissesFrom-cons :
    (x : Interval) (i k : ℕ) (l : Readers) (e : Interval × Holder)
    → MissesFrom x i k l
    → MissesFrom x (suc i) k (e ∷ l)
MissesFrom-cons x i zero l e h = tt
MissesFrom-cons x i (suc k) l e h = (h.0, MissesFrom-cons x (suc i) k l e h.1)

MissesFrom-append :
    (x : Interval) (l tail : Readers) → All (Misses x) l → MissesFrom x 0 (length l) (l ++ tail)
MissesFrom-append x [] tail h = tt
MissesFrom-append x (e ∷ l) tail h =
    ((e, refl, h.0), MissesFrom-cons x 0 (length l) (l ++ tail) e (MissesFrom-append x l tail h.1))

MissesFrom-behind :
    (x : Interval) (done rest : Readers) (e : Interval × Holder)
    → All (Misses x) rest
    → MissesFrom x (suc (length done)) (length rest) (done ++ e ∷ rest)
MissesFrom-behind x [] rest e h =
    MissesFrom-cons x 0 (length rest) rest e
      (subst (MissesFrom x 0 (length rest)) (append-nil rest) (MissesFrom-append x rest [] h))
MissesFrom-behind x (d ∷ done) rest e h =
    MissesFrom-cons x (suc (length done)) (length rest) (done ++ e ∷ rest) d
      (MissesFrom-behind x done rest e h)

-- The loop goes past the entries that `x` misses.
skip :
    (k f : ℕ) (x : Interval) (i : ℕ) (replies : List Text) (l : Readers)
    → MissesFrom x i k l
    → revoke_readers (k + f) x i replies l ≡ revoke_readers f x (k + i) replies l
unfolding revoke_readers
skip zero f x i replies l h =
    let same : 0 + f ≡ f = omega arith in
    let same' : 0 + i ≡ i = omega arith in rw same (rw same' refl)
skip (suc k) f x i replies l h =
    let fuel : suc k + f ≡ suc (k + f) = omega arith in
    let index : suc k + i ≡ k + suc i = omega arith in
    let (e, found, miss) = h.0 in
    rw fuel (
      rw index
        (rw (found, revoke_readers) (rw (miss, revoke_readers) (skip k f x (suc i) replies l h.1))))

-- At the end of the vector.
at_end :
    (f : ℕ) (x : Interval) (i : ℕ) (replies : List Text) (l : Readers)
    → i ≡ length l
    → revoke_readers (suc f) x i replies l ≡ finished l []
unfolding revoke_readers
at_end f x i replies l h =
    rw (get_elem?-past l i (omega (arith, h)), revoke_readers)
      (if_true (i == length l) _ _ (ground (arith, h)))

-- Behind the end.
behind_end :
    (f : ℕ) (x : Interval) (i : ℕ) (replies : List Text) (l : Readers)
    → length l < i
    → revoke_readers (suc f) x i replies l ≡ outside
unfolding revoke_readers
behind_end f x i replies l h =
    rw (get_elem?-past l i (omega (arith, h)), revoke_readers)
      (if_false (i == length l) _ _ (ground (arith, h)))

-- An entry within `x` whose holder grants is erased.
erase_round :
    (f : ℕ) (x : Interval) (done rest : Readers) (e : Interval × Holder) (response : Text)
    (replies : List Text)
    → Covers x e
    → Grants response
    → revoke_readers (suc f) x (length done) (response ∷ replies) (done ++ e ∷ rest)
      ≡ sent_first
          (write_message x, e.1)
          (revoke_readers f x (suc (length done)) replies (done ++ rest))
unfolding revoke_readers revoke_reader
erase_round f x done rest e response replies c g =
    let l = done ++ e ∷ rest in
    let less : revoke_reader x (length done) e response l ≡ done ++ rest =
      if_false (refused response) _ _ g
      ∙ rw c.1 (append-nil (erase_at (length done) l) ∙ erase_at-append done rest e) in
    rw (get_elem?-append done rest e, revoke_readers) (rw (c.0, revoke_readers) (rw less refl))

-- Where the range misses every reader, the loop ends with the readers as they were and sends nothing.
pub revoke_readers_missed :
    (x : Interval) (replies : List Text) (l : Readers)
    → All (Misses x) l
    → revoke_readers (rounds l) x 0 replies l ≡ finished l []
revoke_readers_missed x replies l h =
    let fuel : rounds l ≡ length l + suc (length l) = omega arith in
    let from : MissesFrom x 0 (length l) l =
      subst (MissesFrom x 0 (length l)) (append-nil l) (MissesFrom-append x l [] h) in
    rw fuel (
      skip (length l) (suc (length l)) x 0 replies l from
      ∙ at_end (length l) x (length l + 0) replies l (omega arith))

-- Where the last reader is the first that the range touches, lies within the range and grants, the
-- erased entry is the last of the vector, and the loop's `++` takes the iterator outside of it.
pub revoke_readers_outside :
    (x : Interval) (done : Readers) (e : Interval × Holder) (response : Text) (replies : List Text)
    → All (Misses x) done
    → Covers x e
    → Grants response
    → revoke_readers (rounds (done ++ e ∷ [])) x 0 (response ∷ replies) (done ++ e ∷ []) ≡ outside
unfolding sent_first
revoke_readers_outside x done e response replies h c g =
    let n = length done in
    let l = done ++ e ∷ [] in
    let one : length l ≡ n + 1 = length-append done (e ∷ []) in
    let fuel : rounds l ≡ n + suc (suc (n + 1)) = omega (arith, one) in
    let index : n + 0 ≡ n = omega arith in
    rw fuel (
      skip n (suc (suc (n + 1))) x 0 (response ∷ replies) l (MissesFrom-append x done (e ∷ []) h)
      ∙ rw index (
          erase_round (suc (n + 1)) x done [] e response replies c g
          ∙ ap (sent_first (write_message x, e.1)) (
              behind_end (n + 1) x (suc n) replies (done ++ [])
                (omega (arith, length-append {A = Interval × Holder} done [])))))

-- Where two readers that stand side by side lie within the range, the first grants, and the range
-- misses all others, the loop ends with the second reader's entry in place, and without having
-- asked the second reader.
pub revoke_readers_skips :
    (x : Interval) (done : Readers) (e e' : Interval × Holder) (rest : Readers) (response : Text)
    (replies : List Text)
    → All (Misses x) done
    → Covers x e
    → Covers x e'
    → All (Misses x) rest
    → Grants response
    → revoke_readers
        (rounds (done ++ e ∷ e' ∷ rest))
        x
        0
        (response ∷ replies)
        (done ++ e ∷ e' ∷ rest)
      ≡ finished (done ++ e' ∷ rest) ((write_message x, e.1) ∷ [])
unfolding sent_first
revoke_readers_skips x done e e' rest response replies h c c' h' g =
    let n = length done in
    let k = length rest in
    let l = done ++ e ∷ e' ∷ rest in
    let l' = done ++ e' ∷ rest in
    let long : length l ≡ n + suc (suc k) = length-append done (e ∷ e' ∷ rest) in
    let long' : length l' ≡ n + suc k = length-append done (e' ∷ rest) in
    let fuel : rounds l ≡ n + suc (k + suc (n + k + 3)) = omega (arith, long) in
    let index : n + 0 ≡ n = omega arith in
    let left = n + k + 3 in
    rw fuel (
      skip n (suc (k + suc left)) x 0 (response ∷ replies) l
        (MissesFrom-append x done (e ∷ e' ∷ rest) h)
      ∙ rw index (
          erase_round (k + suc left) x done (e' ∷ rest) e response replies c g
          ∙ ap (sent_first (write_message x, e.1)) (
              skip k (suc left) x (suc n) replies l' (MissesFrom-behind x done rest e' h')
              ∙ at_end left x (k + suc n) replies l' (omega (arith, long')))))
