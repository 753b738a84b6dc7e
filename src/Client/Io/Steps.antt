-- ===== src/Client/Io/Steps.antt =====
-- The steps of `pfs_read` and `pfs_write`, for calls that end well.
use cse511_project.Prelude.{
  ℕ, suc, ◌+◌, ◌-◌, ◌/◌, ◌≡◌, refl, ◌∙◌, ap, Bool, false, List, [], ◌∷◌, Option, some, Text, length,
  arith, set, get_elem?, append-nil, ◌==◌,
}
use cse511_project.Interval.{Interval}
use cse511_project.Recipe.{FileRecipe}
use cse511_project.FileDesc.{OpenFileEntry}
use cse511_project.FileDesc.Permission.{Tokens}
use cse511_project.Cache.{Cache}
use cse511_project.Client.Acquire.{acquired, acquire}
use cse511_project.Client.Blocks.{gets, and_then, of_option, c_data, read_block, write_block}
use cse511_project.Client.Calls.{ClientState, find_buf_offset}
use cse511_project.Client.Io.{
  fetch_open, get_tokens, keep_tokens, read_blocks, write_blocks, copy_out, copy_in, pfs_read,
  pfs_write,
}

-- The client whose descriptor `filedes` has the tokens `m`.
abbrev pub with_tokens : ℕ → OpenFileEntry → Tokens → ClientState → ClientState
with_tokens filedes e m s =
    let d = s.descriptors in
    record s { descriptors = record d { ofdt = set d.ofdt filedes (record e { tokens = m }) } }

module _ (hash : Text → ℕ) (serve : Text → ℕ → Text → Option Text)
    (reply : Text → ℕ → ℕ → Interval → Text) (fuel rounds : ℕ) where
  pub get_tokens_lem :
      (mode bs be filedes : ℕ) (name : Text) (s : ClientState) (e : OpenFileEntry) (m : Tokens)
      (marks : List Bool)
      → get_elem? s.descriptors.ofdt filedes ≡ some e
      → acquire fuel mode bs be (reply name mode) rounds e.tokens ≡ acquired m marks
      → get_tokens hash serve reply fuel rounds mode bs be filedes name s
        ≡ gets (marks, with_tokens filedes e m s)
  unfolding get_tokens keep_tokens
  get_tokens_lem mode bs be filedes name s e m marks at h =
      rw (at, get_tokens) (ap (keep_tokens filedes e s) h)

  pub read_blocks_one :
      (name : Text) (recipe : Option FileRecipe) (marked : Bool) (i : ℕ) (t : Text) (c c' : Cache)
      → read_block hash serve name recipe marked i c ≡ gets (t, c')
      → read_blocks hash serve reply fuel rounds name recipe (marked ∷ []) i c ≡ gets (t, c')
  unfolding read_blocks and_then
  read_blocks_one name recipe marked i t c c' h = rw h (ap (λ r. gets (r, c')) (append-nil t))

  pub write_blocks_one :
      (offset nbyte bs be start end : ℕ) (name : Text) (recipe : Option FileRecipe) (buf : Text)
      (marked : Bool) (i : ℕ) (c c' : Cache)
      → find_buf_offset i offset nbyte bs be ≡ (start, end)
      → write_block hash serve name recipe marked i start end (i - bs) buf c ≡ gets c'
      → write_blocks hash serve reply fuel rounds offset nbyte bs be name recipe buf
          (marked ∷ [])
          i
          c
        ≡ gets c'
  unfolding write_blocks and_then
  write_blocks_one offset nbyte bs be start end name recipe buf marked i c c' at h =
      ap
        (λ r.
          and_then (write_block hash serve name recipe marked i r.0 r.1 (i - bs) buf c) (
            write_blocks hash serve reply fuel rounds offset nbyte bs be name recipe buf []
              (suc i)))
        at
      ∙ rw h refl

  module _ (filedes nbyte offset : ℕ) (s s' : ClientState) (c c' : Cache)
      (recipe : Option FileRecipe) (name : Text) (marks : List Bool)
      (file : fetch_open s filedes ≡ gets (recipe, name)) where
    pub pfs_read_lem :
        (response : Text)
        → get_tokens hash serve reply fuel rounds b'r'
            (offset / 1024)
            ((offset + nbyte - 1) / 1024)
            filedes
            name
            s
          ≡ gets (marks, s')
        → read_blocks hash serve reply fuel rounds name recipe marks (offset / 1024) c
          ≡ gets (response, c')
        → pfs_read hash serve reply fuel rounds filedes nbyte offset s c
          ≡ copy_out offset nbyte s' (response, c')
    unfolding pfs_read and_then
    pfs_read_lem response tokens blocks = rw file (rw tokens (rw blocks refl))

    pub pfs_write_lem :
        (buf text : Text)
        → (offset + nbyte == 0) ≡ false
        → get_tokens hash serve reply fuel rounds b'w'
            (offset / 1024)
            ((offset + nbyte - 1) / 1024)
            filedes
            name
            s
          ≡ gets (marks, s')
        → c_data buf ≡ some text
        → write_blocks hash serve reply fuel rounds offset nbyte
            (offset / 1024)
            ((offset + nbyte - 1) / 1024)
            name
            recipe
            buf
            marks
            (offset / 1024)
            c
          ≡ gets c'
        → pfs_write hash serve reply fuel rounds filedes buf nbyte offset s c
          ≡ gets (length text, s', c')
    unfolding pfs_write copy_in and_then of_option
    pfs_write_lem buf text some_bytes tokens ended blocks =
        rw some_bytes (rw file (rw tokens (rw ended (rw blocks refl))))

pub length-one : (marks : List Bool) → length marks ≡ 1 → (marked : Bool) × (marks ≡ marked ∷ [])
length-one [] h = absurd (omega (arith, h))
length-one (marked ∷ []) h = (marked, refl)
length-one (marked ∷ more ∷ marks) h = absurd (omega (arith, h))
