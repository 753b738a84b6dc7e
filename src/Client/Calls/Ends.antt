-- ===== src/Client/Calls/Ends.antt =====
-- How the client's calls end.
use cse511_project.Prelude.{
  ℕ, ◌+◌, ◌-◌, ◌%◌, ◌/◌, ◌≤◌, ◌<◌, ◌≡◌, refl, ◌∙◌, true, false, [], ◌∷◌, ◌++◌, Option, none, some,
  pos, Text, codes, arith, if_true, if_false, leb, ltb, ◌&&◌,
}
use cse511_project.Recipe.{FileRecipe, recipe_of_response, empty_mask}
use cse511_project.FileDesc.{ofdt_fetch_recipe, opened, max_num_files}
use cse511_project.FileDesc.Table.{IsTable, open_file-Opened}
use cse511_project.Striping.{corresponding_server}
use cse511_project.Client.Calls.{
  ClientState, returns, hangs, pfs_open, pfs_close, pfs_fstat, open_descriptor, find_buf_offset,
}

-- Once `pfs_close` has returned, whatever its result, every later `pfs_close` and `pfs_fstat` waits for
-- the mutex for ever.
pub pfs_close_hangs :
    (send : Text → Option Text) (filedes other result : ℕ) (s s' : ClientState)
    → pfs_close filedes s ≡ returns result s'
    → (pfs_close other s' ≡ hangs) × (pfs_fstat send other s' ≡ hangs)
unfolding pfs_close pfs_fstat
pfs_close_hangs send filedes other result s s' h =
    let held : s'.file_desc_mutex ≡ true = ground (arith, h) in
    (if_true s'.file_desc_mutex _ _ held, if_true s'.file_desc_mutex _ _ held)

-- The empty answer, which is that for a missing file, makes `pfs_open` return a descriptor all the
-- same where a slot of the table is free; its recipe has width 0, for which `corresponding_server`
-- divides by 0 at every block.
pub pfs_open_missing :
    (send : Text → Option Text) (file_name : Text) (mode i block : ℕ) (s : ClientState)
    → send (codes "open " ++ file_name ++ codes " " ++ (mode ∷ [])) ≡ some []
    → IsTable s.descriptors
    → s.file_desc_mutex ≡ false
    → i < max_num_files
    → opened s.descriptors.ofdt i ≡ false
    → (fdes : ℕ) × (s' : ClientState) × (recipe : FileRecipe) × (pfs_open send file_name mode s
        ≡ returns fdes s')
      × (ofdt_fetch_recipe s'.descriptors fdes ≡ some (some recipe))
      × (corresponding_server block recipe.stripe_width ≡ none)
unfolding pfs_open open_descriptor recipe_of_response corresponding_server
pfs_open_missing send file_name mode i block s answer table free low closed =
    let recipe : FileRecipe = record { stripe_width = pos 0; stripe_mask = empty_mask } in
    let (fdes, d, run, made) =
      open_file-Opened s.descriptors (some recipe) file_name (mode ∷ []) table i low closed in
    (
      fdes,
      record s { descriptors = d },
      recipe,
      rw (answer, pfs_open) (if_false s.file_desc_mutex _ _ free ∙ rw run refl),
      made.recipe_of,
      refl,
    )

-- The bytes of the blocks that `find_buf_offset` gives are those of the call: for a call of `nbyte`
-- bytes, at least one, from `offset`, a byte of the file lies in the range of bytes of its block
-- exactly when it is one of the call's.
pub find_buf_offset_exact :
    (offset nbyte byte : ℕ)
    → 0 < nbyte
    → offset / 1024 ≤ byte / 1024
    → byte / 1024 ≤ (offset + nbyte - 1) / 1024
    → let (buf_start, buf_end) =
        find_buf_offset (byte / 1024) offset nbyte (offset / 1024) ((offset + nbyte - 1) / 1024) in
      ((leb buf_start (byte % 1024) && leb (byte % 1024) buf_end)
        ≡ (leb offset byte && ltb byte (offset + nbyte)))
unfolding find_buf_offset
find_buf_offset_exact offset nbyte byte h lo hi = ground arith
