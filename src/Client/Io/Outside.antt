-- ===== src/Client/Io/Outside.antt =====
-- A write at an offset inside of a block.
use cse511_project.Prelude.{
  ℕ, suc, ◌+◌, ◌-◌, ◌/◌, ◌%◌, ◌≤◌, ◌<◌, ◌≡◌, refl, ◌∙◌, sym, ap, subst, Bool, true, false, List, [],
  ◌∷◌, ◌++◌, Option, none, some, pos, Text, All, length, length-append, get_elem?, arith, ◌==◌,
}
use cse511_project.Interval.{Interval, u32_mod}
use cse511_project.TokenMap.Order.{IsMap}
use cse511_project.Recipe.{FileRecipe}
use cse511_project.FileDesc.{OpenFileEntry}
use cse511_project.Cache.{Cache, block_id, find_block}
use cse511_project.Metadata.Dispatch.Handled.{NotZero}
use cse511_project.Client.Acquire.{acquired}
use cse511_project.Client.Acquire.Spec.{grant, acquire-Got}
use cse511_project.Client.Blocks.{gets, fails, and_then, of_option, bad_memory, c_data, write_block}
use cse511_project.Client.Blocks.Fetched.{Answers}
use cse511_project.Client.Blocks.Copies.{c_data-append}
use cse511_project.Client.Blocks.Stored.{write_block_outside, lookup_block-absent}
use cse511_project.Client.Calls.{ClientState, find_buf_offset}
use cse511_project.Client.Io.{fetch_open, get_tokens, write_blocks, copy_in, pfs_write}
use cse511_project.Client.Io.Granted.{acquire-length, fetch_open_lem}
use cse511_project.Client.Io.Steps.{get_tokens_lem, length-one, with_tokens}

find_buf_offset-inside :
    (i offset n : ℕ)
    → offset / 1024 ≡ i
    → 0 < n
    → offset % 1024 + n ≤ 1024
    → find_buf_offset i offset n i i ≡ (offset % 1024, offset % 1024 + n - 1)
unfolding find_buf_offset
find_buf_offset-inside i offset n first p q =
    let last : (offset + n - 1) % 1024 ≡ offset % 1024 + n - 1 = omega (arith, p, q) in
    let same : (i == i) ≡ true = ground arith in rw same (rw last refl)

module _ (hash : Text → ℕ) (serve : Text → ℕ → Text → Option Text)
    (reply : Text → ℕ → ℕ → Interval → Text) (fuel rounds : ℕ) where
  write_blocks_fails :
      (offset nbyte bs be start end : ℕ) (name : Text) (recipe : Option FileRecipe) (buf : Text)
      (marked : Bool) (i : ℕ) (c : Cache)
      → find_buf_offset i offset nbyte bs be ≡ (start, end)
      → write_block hash serve name recipe marked i start end (i - bs) buf c ≡ fails bad_memory
      → write_blocks hash serve reply fuel rounds offset nbyte bs be name recipe buf
          (marked ∷ [])
          i
          c
        ≡ fails bad_memory
  unfolding write_blocks and_then
  write_blocks_fails offset nbyte bs be start end name recipe buf marked i c at h =
      ap
        (λ r.
          and_then (write_block hash serve name recipe marked i r.0 r.1 (i - bs) buf c) (
            write_blocks hash serve reply fuel rounds offset nbyte bs be name recipe buf []
              (suc i)))
        at
      ∙ rw h refl

  pfs_write_fails :
      (filedes nbyte offset : ℕ) (s s' : ClientState) (c : Cache) (recipe : Option FileRecipe)
      (name : Text) (marks : List Bool) (buf text : Text)
      → fetch_open s filedes ≡ gets (recipe, name)
      → (offset + nbyte == 0) ≡ false
      → get_tokens hash serve reply fuel rounds b'w'
          (offset / 1024)
          ((offset + nbyte - 1) / 1024)
          filedes
          name
          s
        ≡ gets (marks, s')
      → c_data buf ≡ some text
      → write_blocks hash serve reply fuel rounds offset nbyte
          (offset / 1024)
          ((offset + nbyte - 1) / 1024)
          name
          recipe
          buf
          marks
          (offset / 1024)
          c
        ≡ fails bad_memory
      → pfs_write hash serve reply fuel rounds filedes buf nbyte offset s c ≡ fails bad_memory
  unfolding pfs_write copy_in and_then of_option
  pfs_write_fails filedes nbyte offset s s' c recipe name marks buf text file some_bytes tokens
        ended blocks =
      rw some_bytes (rw file (rw tokens (rw ended (rw blocks refl))))

-- With the mutex free, an open descriptor of stripe width 1 to 5 whose tokens are in order, a metadata
-- manager that grants, file servers that answer and a block that is not in the cache: a write of a string
-- of n bytes, n at least 1, at an offset of 2 or more within the block and not beyond the block, reads
-- outside of the caller's buffer, which holds n + 1 bytes.
pub pfs_write_outside :
    (hash : Text → ℕ) (serve : Text → ℕ → Text → Option Text) (fuel rounds filedes offset w : ℕ)
    (s : ClientState) (c : Cache) (e : OpenFileEntry) (mask : List Bool) (text : Text)
    → s.file_desc_mutex ≡ false
    → get_elem? s.descriptors.ofdt filedes ≡ some e
    → e.is_open ≡ true
    → e.file_recipe ≡ some (record { stripe_width = pos w; stripe_mask = mask })
    → 0 < w
    → w ≤ 5
    → IsMap e.tokens
    → Answers serve
    → offset / 1024 < u32_mod
    → All NotZero text
    → 0 < length text
    → 1 < offset % 1024
    → offset % 1024 + length text ≤ 1024
    → find_block (block_id hash e.name (offset / 1024)) c.used_space ≡ none
    → pfs_write hash serve
        (λ name mode. grant)
        (suc fuel)
        (suc (suc rounds))
        filedes
        (text ++ 0 ∷ [])
        (length text)
        offset
        s
        c
      ≡ fails bad_memory
pfs_write_outside hash serve fuel rounds filedes offset w s c e mask text free at opened recipe h g
      map answers bound solid p inside fits new =
    let reply = λ (name : Text) (mode : ℕ). grant in
    let i = offset / 1024 in
    let n = length text in
    let buf = text ++ 0 ∷ [] in
    let (m, marks, run, got) =
      acquire-Got fuel b'w' i i (omega arith) bound (suc (suc rounds)) e.tokens map (omega arith) in
    let (marked, single) = length-one marks (
      acquire-length (suc fuel) b'w' i i (suc (suc rounds)) grant e.tokens m marks run
      ∙ omega arith) in
    let base : i - i ≡ 0 = omega arith in
    let last : (offset + n - 1) / 1024 ≡ i = omega (arith, p, fits) in
    let reaches : length buf ≤ 0 + (offset % 1024 + n - 1) =
      omega (arith, length-append text (0 ∷ []), p, inside) in
    let absent = lookup_block-absent hash e.name i c new in
    let faults =
      write_block_outside hash serve e.name i w mask marked (offset % 1024) (offset % 1024 + n - 1)
        0 buf c h g answers (ground (arith, absent)) (omega (arith, p)) reaches in
    pfs_write_fails hash serve reply (suc fuel) (suc (suc rounds)) filedes n offset s
      (with_tokens filedes e m s) c e.file_recipe e.name (marked ∷ []) buf text
      (fetch_open_lem s filedes e free at opened) (ground (arith, p))
      (subst
        (λ be.
          get_tokens hash serve reply (suc fuel) (suc (suc rounds)) b'w' i be filedes e.name s
          ≡ gets (marked ∷ [], with_tokens filedes e m s))
        (sym last)
        (get_tokens_lem hash serve reply (suc fuel) (suc (suc rounds)) b'w' i i filedes e.name s e m
          (marked ∷ []) at (run ∙ ap (acquired m) single)))
      (c_data-append text [] solid)
      (subst
        (λ be.
          write_blocks hash serve reply (suc fuel) (suc (suc rounds)) offset n i be e.name
            e.file_recipe buf (marked ∷ []) i c
          ≡ fails bad_memory)
        (sym last)
        (write_blocks_fails hash serve reply (suc fuel) (suc (suc rounds)) offset n i i
          (offset % 1024) (offset % 1024 + n - 1) e.name e.file_recipe buf marked i c
          (find_buf_offset-inside i offset n refl p fits)
          (subst
            (λ b.
              write_block hash serve e.name e.file_recipe marked i (offset % 1024)
                (offset % 1024 + n - 1) b buf c
              ≡ fails bad_memory)
            (sym base)
            (subst
              (λ r.
                write_block hash serve e.name r marked i (offset % 1024) (offset % 1024 + n - 1) 0
                  buf c
                ≡ fails bad_memory)
              (sym recipe) faults))))
