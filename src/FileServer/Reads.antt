-- ===== src/FileServer/Reads.antt =====
-- What a file server sends for a read.
use cse511_project.Prelude.{
  ℕ, zero, suc, ◌*◌, ◌^◌, ◌≤◌, ◌<◌, ◌≡◌, refl, sym, ap, subst, [], ◌∷◌, ◌++◌, some, Text, All,
  length, take, drop, leb, arith, length-append, inl, inr, Bool-cases,
}
use cse511_project.Strings.{to_string}
use cse511_project.Strings.Decimal.{
  NotSpace, trim_solid, to_string-NotSpace, next_token-append, next_token_last, atoi-to_string_int,
}
use cse511_project.Metadata.Dispatch.{c_string}
use cse511_project.FileServer.Disk.{FileSystem}
use cse511_project.FileServer.{block_sent, read_loop, read_file, exec_read, place_of}

c_string-le : (t : Text) → length (c_string t) ≤ length t
unfolding c_string
c_string-le [] = omega arith
c_string-le (c ∷ t) = ground (arith, c_string-le t)

take-le : (n : ℕ) (t : Text) → length (take n t) ≤ n
take-le zero t = omega arith
take-le (suc n) [] = omega arith
take-le (suc n) (c ∷ t) = omega (arith, take-le n t)

block_sent-le : (bytes : Text) → length (block_sent bytes) ≤ 1
unfolding block_sent
block_sent-le bytes = elim (Bool-cases (leb 1024 (length bytes))) [
  | inl e ↦ rw e (omega (arith, c_string-le (take 1 bytes), take-le 1 bytes))
  | inr e ↦ rw e (omega (arith, c_string-le (take 0 bytes), take-le 0 bytes))
]

read_loop-le : (rounds : ℕ) (bytes : Text) → length (read_loop rounds bytes) ≤ rounds
unfolding read_loop
read_loop-le zero bytes = omega arith
read_loop-le (suc rounds) bytes = omega (
  arith,
  length-append (block_sent bytes) (read_loop rounds (drop 1024 bytes)),
  block_sent-le bytes,
  read_loop-le rounds (drop 1024 bytes),
)

module _ (disk : FileSystem) where
  -- The arguments `file offset count` of a read.
  abbrev pub read_arguments : Text → ℕ → ℕ → Text
  read_arguments name offset count = name ++ b' ' ∷ (to_string offset ++ b' ' ∷ to_string count)

  read_file_lem :
      (bytes : Text) (offset count : ℕ)
      → offset < 2 ^ 21
      → count < 2 ^ 31
      → read_file disk (some bytes) (to_string offset ++ b' ' ∷ to_string count)
        ≡ read_loop count (drop (offset * 1024) bytes)
  unfolding read_file place_of
  read_file_lem bytes offset count h g =
      rw (next_token-append (to_string offset) (to_string count) (to_string-NotSpace offset)) (
        rw (next_token_last (to_string count) (to_string-NotSpace count)) (
          rw (trim_solid (to_string offset) (to_string-NotSpace offset)) (
            rw (trim_solid (to_string count) (to_string-NotSpace count)) (
              rw (atoi-to_string_int offset (omega (arith, h)))
                (rw (atoi-to_string_int count g) refl)))))

  pub exec_read_lem :
      (s : disk.State) (name bytes : Text) (offset count : ℕ)
      → All NotSpace name
      → offset < 2 ^ 21
      → count < 2 ^ 31
      → disk.contents s name ≡ some bytes
      → exec_read disk (read_arguments name offset count) s
        ≡ (read_loop count (drop (offset * 1024) bytes), s)
  unfolding exec_read
  exec_read_lem s name bytes offset count solid h g found =
      rw (next_token-append name (to_string offset ++ b' ' ∷ to_string count) solid)
        (rw (trim_solid name solid) (rw found (rw (read_file_lem bytes offset count h g) refl)))

  -- For a block number less than 2^21 and a number of blocks less than 2^31, `execFunc_read` sends at
  -- most one character for each block of the file, and changes no file.
  pub exec_read_short :
      (s : disk.State) (name bytes : Text) (offset count : ℕ)
      → All NotSpace name
      → offset < 2 ^ 21
      → count < 2 ^ 31
      → disk.contents s name ≡ some bytes
      → (length (exec_read disk (read_arguments name offset count) s).0 ≤ count)
        × ((exec_read disk (read_arguments name offset count) s).1 ≡ s)
  exec_read_short s name bytes offset count solid h g found =
      let done = exec_read_lem s name bytes offset count solid h g found in
      (
        subst (λ r. length r.0 ≤ count) (sym done)
            (read_loop-le count (drop (offset * 1024) bytes)),
        ap (λ r. r.1) done,
      )
