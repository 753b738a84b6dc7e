-- ===== src/Client/Io/Fresh.antt =====
-- A read of a block that the client does not have.
use cse511_project.Prelude.{
  ℕ, suc, ◌+◌, ◌-◌, ◌/◌, ◌%◌, ◌≤◌, ◌<◌, ◌≡◌, refl, ◌∙◌, sym, ap, subst, Bool, true, false, ◌&&◌,
  List, [], ◌∷◌, Option, none, some, pos, Text, replicate, take, drop, get_elem?, take-nil,
  drop-nil, arith, ◌==◌, ltb, if◌then◌else◌, if_false, Bool-cases, inl, inr,
}
use cse511_project.Interval.{u32_mod}
use cse511_project.TokenMap.Order.{IsMap}
use cse511_project.Striping.{offset_within}
use cse511_project.FileDesc.{OpenFileEntry}
use cse511_project.Cache.{Cache, block_id, find_block, lookup_block}
use cse511_project.Cache.Capacity.{after_insert, insert_single_block_lem}
use cse511_project.Metadata.Dispatch.{c_string}
use cse511_project.Client.Acquire.{acquired}
use cse511_project.Client.Acquire.Spec.{grant, acquire-Got}
use cse511_project.Client.Blocks.{
  gets, fails, and_then, out_of_range, c_data, zero_data, read_block, read_fetched,
}
use cse511_project.Client.Blocks.Fetched.{Answers, empty_block, fetch_block_empty, zero_data_first}
use cse511_project.Client.Blocks.Copies.{c_data-append}
use cse511_project.Client.Blocks.Stored.{lookup_block-absent}
use cse511_project.Client.Calls.{ClientState}
use cse511_project.Client.Io.{get_tokens, copy_out, substr, pfs_read}
use cse511_project.Client.Io.Granted.{acquire-length, fetch_open_lem}
use cse511_project.Client.Io.Steps.{
  get_tokens_lem, read_blocks_one, pfs_read_lem, length-one, with_tokens,
}

zero_data-c_data : c_data zero_data ≡ some []
zero_data-c_data = ap c_data zero_data_first ∙ c_data-append [] (replicate 1023 0) tt

-- Whatever the server answers, the text is empty, and a block of zeros goes into the cache.
read_block_fresh :
    (hash : Text → ℕ) (serve : Text → ℕ → Text → Option Text) (name : Text) (i w : ℕ)
    (mask : List Bool) (marked : Bool) (c : Cache)
    → 0 < w
    → w ≤ 5
    → Answers serve
    → 0 < c.free_size
    → (marked && lookup_block hash name i c) ≡ false
    → read_block hash serve name
        (some (record { stripe_width = pos w; stripe_mask = mask }))
        marked
        i
        c
      ≡ gets ([], after_insert (empty_block hash name (offset_within i w)) c)
unfolding read_block read_fetched and_then
read_block_fresh hash serve name i w mask marked c h g answers free misses =
    let b = empty_block hash name (offset_within i w) in
    if_false (marked && lookup_block hash name i c) _ _ misses
    ∙ ap (λ x. and_then x (read_fetched c)) (fetch_block_empty hash serve name i w mask h g answers)
    ∙ rw (zero_data-c_data, read_fetched) (rw (insert_single_block_lem b c free, read_fetched) refl)

copy_out-nil :
    (offset nbyte : ℕ) (s : ClientState) (c : Cache)
    → copy_out offset nbyte s ([], c)
      ≡ (if offset % 1024 == 0 then gets ([], s, c) else fails out_of_range)
unfolding copy_out substr and_then c_string
copy_out-nil offset nbyte s c = elim (Bool-cases (offset % 1024 == 0)) [
  | inl e ↦
      let inside : ltb 0 (offset % 1024) ≡ false = ground (arith, e) in
      let nothing : take nbyte (drop (offset % 1024) []) ≡ [] =
        ap (take nbyte) (drop-nil (offset % 1024)) ∙ take-nil nbyte in
      rw e (rw inside (ap (λ t. gets (c_string t, s, c)) nothing))
  | inr e ↦ let behind : ltb 0 (offset % 1024) ≡ true = ground (arith, e) in rw e (rw behind refl)
]

-- For an open descriptor of stripe width 1 to 5, a metadata manager that grants, file servers that answer,
-- a free block and a block that is not in the cache: a read within that block gives no bytes, whatever
-- the file servers answer, where it starts at the front of the block, and raises an exception elsewhere.
pub pfs_read_fresh :
    (hash : Text → ℕ) (serve : Text → ℕ → Text → Option Text)
    (fuel rounds filedes nbyte offset w : ℕ) (s : ClientState) (c : Cache) (e : OpenFileEntry)
    (mask : List Bool)
    → s.file_desc_mutex ≡ false
    → get_elem? s.descriptors.ofdt filedes ≡ some e
    → e.is_open ≡ true
    → e.file_recipe ≡ some (record { stripe_width = pos w; stripe_mask = mask })
    → 0 < w
    → w ≤ 5
    → IsMap e.tokens
    → Answers serve
    → offset / 1024 < u32_mod
    → 0 < nbyte
    → offset % 1024 + nbyte ≤ 1024
    → 0 < c.free_size
    → find_block (block_id hash e.name (offset / 1024)) c.used_space ≡ none
    → (s' : ClientState) × (c' : Cache) × (pfs_read hash serve
          (λ name mode. grant)
          (suc fuel)
          (suc (suc rounds))
          filedes
          nbyte
          offset
          s
          c
        ≡ (if offset % 1024 == 0 then gets ([], s', c') else fails out_of_range))
pfs_read_fresh hash serve fuel rounds filedes nbyte offset w s c e mask free at opened recipe h g
      map answers bound p fits room new =
    let reply = λ (name : Text) (mode : ℕ). grant in
    let i = offset / 1024 in
    let (m, marks, run, got) =
      acquire-Got fuel b'r' i i (omega arith) bound (suc (suc rounds)) e.tokens map (omega arith) in
    let (marked, single) = length-one marks (
      acquire-length (suc fuel) b'r' i i (suc (suc rounds)) grant e.tokens m marks run
      ∙ omega arith) in
    let last : (offset + nbyte - 1) / 1024 ≡ i = omega (arith, p, fits) in
    let absent = lookup_block-absent hash e.name i c new in
    let c' = after_insert (empty_block hash e.name (offset_within i w)) c in
    let s' = with_tokens filedes e m s in
    let found =
      subst (λ r. read_block hash serve e.name r marked i c ≡ gets ([], c')) (sym recipe)
        (read_block_fresh hash serve e.name i w mask marked c h g answers room
          (ground (arith, absent))) in
    (
      s',
      c',
      pfs_read_lem hash serve reply (suc fuel) (suc (suc rounds)) filedes nbyte offset s s' c c'
            e.file_recipe e.name (marked ∷ []) (fetch_open_lem s filedes e free at opened) []
            (subst
              (λ be.
                get_tokens hash serve reply (suc fuel) (suc (suc rounds)) b'r' i be filedes e.name s
                ≡ gets (marked ∷ [], s'))
              (sym last)
              (get_tokens_lem hash serve reply (suc fuel) (suc (suc rounds)) b'r' i i filedes e.name
                s e m (marked ∷ []) at (run ∙ ap (acquired m) single)))
            (read_blocks_one hash serve reply (suc fuel) (suc (suc rounds)) e.name e.file_recipe
              marked i [] c c' found)
          ∙ copy_out-nil offset nbyte s' c',
    )
