-- ===== src/FileServer/Writes.antt =====
-- What a write leaves of a file.
use mathlib.Core.Option
use cse511_project.Prelude.{
  ℕ, zero, suc, List, ◌+◌, ◌-◌, ◌*◌, ◌^◌, ◌<◌, ◌≡◌, ◌≢◌, refl, ◌∙◌, ap, [], ◌∷◌, ◌++◌, some, Text,
  codes, All, length, take, drop, replicate, leb, arith, ◌==◌, if◌then◌else◌, if_false, if-either,
  append-nil, take-nil, drop-nil, Bool-cases, inl, inr,
}
use cse511_project.Strings.{to_string}
use cse511_project.Strings.Decimal.{
  NotSpace, trim_solid, to_string-NotSpace, next_token-append, atoi-to_string_int,
}
use cse511_project.Metadata.Dispatch.{c_string, rcv_buf_size}
use cse511_project.Metadata.Dispatch.Handled.{NotZero, c_string_lem}
use cse511_project.FileServer.Disk.{FileSystem, IsLawful, overlay}
use cse511_project.FileServer.{
  place_of, read_loop, block_sent, receive_rest, write_file, write_opened, exec_write, exec_read,
}
use cse511_project.FileServer.Reads.{read_arguments, exec_read_lem}

overlay-nil :
    (at : ℕ) (bytes : Text) → 0 < length bytes → overlay at bytes [] ≡ replicate at 0 ++ bytes
unfolding overlay
overlay-nil at bytes h = if_false (length bytes == 0) _ _ (ground (arith, h)) ∙ gap
  where
    gap :
        take {A = ℕ} at [] ++ replicate (at - 0) 0 ++ bytes ++ drop (at + length bytes) []
        ≡ replicate at 0 ++ bytes
    gap =
        let same : at - 0 ≡ at = omega arith in
        rw (take-nil at)
          (rw (drop-nil (at + length bytes)) (rw same (append-nil (replicate at 0 ++ bytes))))

drop-replicate :
    (n m : ℕ) (bytes : Text) → n < m → (t : Text) × (drop n (replicate m 0 ++ bytes) ≡ 0 ∷ t)
drop-replicate n zero bytes h = absurd (omega arith)
drop-replicate zero (suc m) bytes h = (replicate m 0 ++ bytes, refl)
drop-replicate (suc n) (suc m) bytes h = drop-replicate n m bytes (omega arith)

drop-replicate_all : (n : ℕ) (bytes : Text) → drop n (replicate n 0 ++ bytes) ≡ bytes
drop-replicate_all zero bytes = refl
drop-replicate_all (suc n) bytes = drop-replicate_all n bytes

-- A block whose first byte is 0 is sent as nothing.
read_loop-zero : (t : Text) → read_loop 1 (0 ∷ t) ≡ []
unfolding read_loop block_sent c_string
read_loop-zero t =
    if-either (λ n. c_string (take n (0 ∷ t)) ++ [] ≡ []) (leb 1024 (length (0 ∷ t))) 1 0 refl refl

-- What is sent of the bytes of a block.
unfoldable pub first_byte : Text → Text
first_byte bytes = if leb 1024 (length bytes) then take 1 bytes else []

read_loop-first : (bytes : Text) → All NotZero bytes → read_loop 1 bytes ≡ first_byte bytes
unfolding read_loop block_sent first_byte c_string
read_loop-first [] h = refl
read_loop-first (c ∷ bytes) h = elim (Bool-cases (leb 1024 (length (c ∷ bytes)))) [
  | inl e ↦ rw e (ap (λ t. t ++ []) (c_string_lem (c ∷ []) (h.0, tt)))
  | inr e ↦ rw e refl
]

-- What one `recv` gives: at least one byte, no 0, and less than the buffer has room for.
abbrev pub Arrives : Text → Type 0
Arrives sent = (0 < length sent) × (length sent < rcv_buf_size) × All NotZero sent

abbrev pub joined : List Text → Text
joined [] = []
joined (sent ∷ later) = sent ++ joined later

receive_rest-joined :
    (later : List Text) → All Arrives later → receive_rest later ≡ some (joined later)
unfolding receive_rest
receive_rest-joined [] h = refl
receive_rest-joined (sent ∷ later) h =
    let (some_bytes, fits, plain) = h.0 in
    if_false (length sent == 0) _ _ (ground (arith, some_bytes))
    ∙ if_false (leb rcv_buf_size (length sent)) _ _ (ground (arith, fits))
    ∙ rw (receive_rest-joined later h.1)
        (ap (λ t. some (t ++ joined later)) (c_string_lem sent plain))

module _ (disk : FileSystem) (law : IsLawful disk) (s s' : disk.State) (name first : Text)
    (later : List Text) (offset : ℕ) (solid : All NotSpace name) (small : offset < 2 ^ 21)
    (arrive : All Arrives later) (sends : 0 < length (first ++ joined later))
    (cut : disk.truncate s name ≡ some s') where
  -- The arguments of a write of one block, in the first message, with the first bytes.
  abbrev pub write_arguments : Text
  write_arguments = name ++ b' ' ∷ (to_string offset ++ b' ' ∷ (codes "1" ++ b' ' ∷ first))

  -- All bytes of the write.
  abbrev bytes : Text
  bytes = first ++ joined later

  write_file_lem :
      write_file disk name (to_string offset ++ b' ' ∷ (codes "1" ++ b' ' ∷ first)) later s'
      ≡ some (disk.write_at s' name (offset * 1024) bytes)
  unfolding write_file place_of
  write_file_lem =
      rw
        (next_token-append (to_string offset) (codes "1" ++ b' ' ∷ first)
          (to_string-NotSpace offset))
        (rw (trim_solid (to_string offset) (to_string-NotSpace offset)) (
          rw (atoi-to_string_int offset (omega (arith, small))) (
            rw (receive_rest-joined later arrive) (
              ap (λ r. some (disk.write_at s' name (offset * 1024) (r.1 ++ joined later)))
                (next_token-append (codes "1") first (refl, tt))))))

  pub exec_write_clears :
      (t : disk.State) × (exec_write disk write_arguments later s ≡ some ([], t))
      × (disk.contents t name ≡ some (replicate (offset * 1024) 0 ++ bytes))
      × ((other : Text) → name ≢ other → disk.contents t other ≡ disk.contents s other)
  unfolding exec_write write_opened
  exec_write_clears = (
    disk.write_at s' name (offset * 1024) bytes,
    rw (next_token-append name (to_string offset ++ b' ' ∷ (codes "1" ++ b' ' ∷ first)) solid)
        (rw (trim_solid name solid) (rw cut (ap (Option.map (λ t. ([], t))) write_file_lem))),
    law.write_at-contents s' name (offset * 1024) bytes [] (law.truncate-contents s s' name cut)
        ∙ ap some (overlay-nil (offset * 1024) bytes sends),
    λ other h.
        law.write_at-other s' name other (offset * 1024) bytes h
        ∙ law.truncate-other s s' name other h cut,
  )

  -- For a lawful file system, a name without white space of a file that can be opened to be written, and
  -- a block number less than 2^21: `execFunc_write` of one block, whose bytes, at least one and none of
  -- them 0, come with the first message and in any number of later ones that each fit into the buffer,
  -- ends. A read of this block then gives its first byte where the write had 1024 bytes or more, and
  -- nothing where it had fewer; a read of a block before it gives nothing.
  pub exec_read-exec_write :
      All NotZero (first ++ joined later)
      → (t : disk.State) × (exec_write disk write_arguments later s ≡ some ([], t))
        × (exec_read disk (read_arguments disk name offset 1) t
            ≡ (first_byte (first ++ joined later), t))
        × ((j : ℕ) → j < offset → exec_read disk (read_arguments disk name j 1) t ≡ ([], t))
  exec_read-exec_write plain =
      let (t, wrote, held, others) = exec_write_clears in
      let left = replicate (offset * 1024) 0 ++ bytes in
      let reads = λ (j : ℕ) (lt : j < 2 ^ 21).
        exec_read_lem disk t name left j 1 solid lt (omega arith) held in
      (
        t,
        wrote,
        reads offset small
            ∙ ap (λ r. (r, t))
                (ap (read_loop 1) (drop-replicate_all (offset * 1024) bytes)
                  ∙ read_loop-first bytes plain),
        λ j lt.
            let (rest, zero_first) =
              drop-replicate (j * 1024) (offset * 1024) bytes (omega (arith, lt)) in
            reads j (omega (arith, lt, small))
            ∙ ap (λ r. (r, t)) (ap (read_loop 1) zero_first ∙ read_loop-zero rest),
      )
