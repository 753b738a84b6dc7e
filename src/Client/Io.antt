-- ===== src/Client/Io.antt =====
-- `pfs_read` and `pfs_write` of pfs.cc as a whole, without another thread at work. Offsets are not
-- negative and less than 2^41, so that block numbers are `int`s. The answers of the metadata manager to
-- token requests and of the file servers are arguments. Of a call that fails, only the reason is kept.
pub mod Granted
pub mod Steps
pub mod Roundtrip
pub mod Outside
pub mod Fresh
pub mod Cached
pub mod Patched
pub mod Overwritten
use cse511_project.Prelude.{
  ℕ, zero, suc, ◌+◌, ◌-◌, ◌*◌, ◌/◌, ◌%◌, Bool, true, false, List, [], ◌∷◌, ◌++◌, Option, none, some,
  Text, length, take, drop, set, get_elem?, ltb, ◌==◌, if◌then◌else◌,
}
use cse511_project.Interval.{Interval}
use cse511_project.Recipe.{FileRecipe}
use cse511_project.FileDesc.{OpenFileEntry, ofdt_fetch_recipe, ofdt_fetch_name}
use cse511_project.Cache.{Cache}
use cse511_project.Metadata.Dispatch.{c_string}
use cse511_project.Client.Acquire.{Acquired, acquired, asks_on, adds_on, acquire}
use cse511_project.Client.Blocks.{
  Io, gets, fails, and_then, of_option, bad_memory, out_of_range, waits_on, c_data, read_block,
  write_block,
}
use cse511_project.Client.Calls.{ClientState, find_buf_offset}

-- The recipe and the name of a descriptor, with the mutex taken and given back.
unfoldable pub fetch_open : ClientState → ℕ → Io (Option FileRecipe × Text)
unfolding ofdt_fetch_recipe ofdt_fetch_name of_option and_then
fetch_open s filedes =
    if s.file_desc_mutex
    then fails waits_on
    else and_then (of_option bad_memory (ofdt_fetch_recipe s.descriptors filedes)) (λ recipe.
      and_then (of_option bad_memory (ofdt_fetch_name s.descriptors filedes))
        (λ file_name. gets (recipe, file_name)))

-- `string::substr`.
unfoldable pub substr : ℕ → ℕ → Text → Io Text
substr at n s = if ltb (length s) at then fails out_of_range else gets (take n (drop at s))

-- The result of the loop for tokens, in the entry `e` of descriptor `filedes`.
unfoldable pub keep_tokens :
    ℕ → OpenFileEntry → ClientState → Acquired → Io (List Bool × ClientState)
keep_tokens filedes e s asks_on = fails waits_on
keep_tokens filedes e s adds_on = fails waits_on
keep_tokens filedes e s (acquired m marks) =
    let d = s.descriptors in
    gets (
      marks,
      record s { descriptors = record d { ofdt = set d.ofdt filedes (record e { tokens = m }) } },
    )

-- The bytes that go to the caller, who gets their number too.
unfoldable pub copy_out : ℕ → ℕ → ClientState → Text × Cache → Io (Text × ClientState × Cache)
unfolding substr and_then c_string
copy_out offset nbyte s (response, c) =
    and_then (substr (offset % 1024) nbyte response) (λ t. gets (c_string t, s, c))

module _ (hash : Text → ℕ) (serve : Text → ℕ → Text → Option Text)
    (reply : Text → ℕ → ℕ → Interval → Text) (fuel rounds : ℕ) where
  -- The tokens for blocks `bs` to `be`; `reply` is asked with the file name, the mode and the number of
  -- the request.
  unfoldable pub get_tokens : ℕ → ℕ → ℕ → ℕ → Text → ClientState → Io (List Bool × ClientState)
  unfolding acquire keep_tokens
  get_tokens mode bs be filedes file_name s = elim (get_elem? s.descriptors.ofdt filedes) [
    | none ↦ fails bad_memory
    | some e ↦
        keep_tokens filedes e s (acquire fuel mode bs be (reply file_name mode) rounds e.tokens)
  ]

  -- The loop over the blocks from `i` on, one for each mark.
  unfoldable pub read_blocks : Text → Option FileRecipe → List Bool → ℕ → Cache → Io (Text × Cache)
  unfolding read_block and_then
  read_blocks file_name recipe [] i c = gets ([], c)
  read_blocks file_name recipe (marked ∷ marks) i c =
      and_then (read_block hash serve file_name recipe marked i c) (λ (t, c').
        and_then (read_blocks file_name recipe marks (suc i) c')
          (λ (rest, c''). gets (t ++ rest, c'')))

  unfoldable pub write_blocks :
      ℕ → ℕ → ℕ → ℕ → Text → Option FileRecipe → Text → List Bool → ℕ → Cache → Io Cache
  unfolding write_block and_then find_buf_offset
  write_blocks offset nbyte bs be file_name recipe buf [] i c = gets c
  write_blocks offset nbyte bs be file_name recipe buf (marked ∷ marks) i c =
      let (start, end) = find_buf_offset i offset nbyte bs be in
      and_then (write_block hash serve file_name recipe marked i start end (i - bs) buf c)
        (write_blocks offset nbyte bs be file_name recipe buf marks (suc i))

  -- The result is what `pfs_read` leaves in the caller's buffer before the 0.
  unfoldable pub pfs_read : ℕ → ℕ → ℕ → ClientState → Cache → Io (Text × ClientState × Cache)
  unfolding fetch_open get_tokens read_blocks copy_out and_then
  pfs_read filedes nbyte offset s c =
      let bs = offset / 1024 in
      let be = (offset + nbyte - 1) / 1024 in
      and_then (fetch_open s filedes) (λ (recipe, file_name).
        and_then (get_tokens b'r' bs be filedes file_name s) (λ (marks, s').
          and_then (read_blocks file_name recipe marks bs c) (copy_out offset nbyte s')))

  -- The loop of `pfs_write` over its blocks, with the string in the caller's buffer, up to a 0.
  unfoldable pub copy_in :
      ℕ
      → ℕ
      → Text
      → Option FileRecipe × Text
      → Cache
      → List Bool × ClientState
      → Io (ℕ × ClientState × Cache)
  unfolding write_blocks and_then of_option c_data
  copy_in nbyte offset buf (recipe, file_name) c (marks, s) =
      let bs = offset / 1024 in
      and_then (of_option bad_memory (c_data buf)) (λ response.
        and_then
          (write_blocks offset nbyte bs ((offset + nbyte - 1) / 1024) file_name recipe buf marks bs
            c)
          (λ c'. gets (length response, s, c')))

  -- `buf` is the memory of the caller's buffer. With no bytes at offset 0 there is no block: the
  -- subtraction of 1 wraps around, and the number of the last block is -1 as an `int`.
  unfoldable pub pfs_write : ℕ → Text → ℕ → ℕ → ClientState → Cache → Io (ℕ × ClientState × Cache)
  unfolding fetch_open get_tokens copy_in and_then
  pfs_write filedes buf nbyte offset s c = and_then (fetch_open s filedes) (λ file.
      if offset + nbyte == 0
      then copy_in nbyte offset buf file c ([], s)
      else and_then (get_tokens b'w' (offset / 1024) ((offset + nbyte - 1) / 1024) filedes file.1 s)
          (copy_in nbyte offset buf file c))
