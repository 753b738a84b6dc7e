-- ===== src/Client/Io/Cached.antt =====
-- A read of blocks that the client has.
use mathlib.Core.Option.{some-injective}
use cse511_project.Prelude.{
  ℕ, suc, ◌+◌, ◌-◌, ◌/◌, ◌%◌, ◌^◌, ◌<◌, ◌≡◌, refl, ◌∙◌, sym, ap, subst, true, false, List, [], ◌∷◌,
  ◌++◌, Option, some, Text, length, replicate, take, drop, get_elem?, arith, ◌==◌, ltb,
  if◌then◌else◌, Bool-cases, inl, inr,
}
use cse511_project.Interval.{Interval, mk}
use cse511_project.Interval.Laws.{has}
use cse511_project.Recipe.{FileRecipe}
use cse511_project.FileDesc.{OpenFileEntry}
use cse511_project.FileDesc.Permission.{check_permission}
use cse511_project.Cache.{Block, Cache, block_id, find_block, update_block, touch_block}
use cse511_project.Cache.Lookup.{find_block-update_block, find_block-update_other}
use cse511_project.Metadata.Dispatch.{c_string}
use cse511_project.Client.Acquire.{acquired}
use cse511_project.Client.Blocks.{
  gets, fails, out_of_range, and_then, c_data, read_block, read_found,
}
use cse511_project.Client.Blocks.Stored.{lookup_block-present, get_block-present}
use cse511_project.Client.Calls.{ClientState}
use cse511_project.Client.Io.{read_blocks, copy_out, substr, pfs_read}
use cse511_project.Client.Io.Granted.{acquire_none, required_token-nil, fetch_open_lem}
use cse511_project.Client.Io.Steps.{get_tokens_lem, pfs_read_lem, with_tokens}

-- The strings of the blocks from `i` on.
abbrev pub Holds : (Text → ℕ) → Text → ℕ → List Text → Cache → Type 0
Holds hash name i [] c = Unit
Holds hash name i (t ∷ ts) c =
    ((b : Block) × (find_block (block_id hash name i) c.used_space ≡ some b)
      × (c_data b.data_ ≡ some t))
    × Holds hash name (suc i) ts c

abbrev pub joined : List Text → Text
joined [] = []
joined (t ∷ ts) = t ++ joined ts

-- The cache after `getBlockFromCache` has found `b`.
abbrev touched : (Text → ℕ) → Text → ℕ → Block → Cache → Cache
touched hash name i b c = record c {
  used_space =
      update_block (block_id hash name i) (record b { access_time = c.last_access }) c.used_space;
  last_access = (c.last_access + 1) % 2 ^ 64;
}

-- A look at a block leaves the strings of all blocks.
touched-Holds :
    (hash : Text → ℕ) (name : Text) (j i : ℕ) (ts : List Text) (b : Block) (c : Cache)
    → find_block (block_id hash name i) c.used_space ≡ some b
    → Holds hash name j ts c
    → Holds hash name j ts (touched hash name i b c)
touched-Holds hash name j i [] b c found h = tt
touched-Holds hash name j i (t ∷ ts) b c found h =
    let k = block_id hash name i in
    let b' = record b { access_time = c.last_access } in
    let (x, at, string) = h.0 in
    (
      elim (Bool-cases (k == block_id hash name j)) [
        | inl e ↦
            let same : k ≡ block_id hash name j = ground (arith, e) in
            let x_is_b : some x ≡ some b =
              sym at ∙ subst (λ i. find_block i c.used_space ≡ some b) same found in
            (
              b',
              subst (λ i. find_block i (update_block k b' c.used_space) ≡ some b') same
                  (find_block-update_block k b' b c.used_space found),
              subst (λ (y : Block). c_data y.data_ ≡ some t) (some-injective x b x_is_b) string,
            )
        | inr e ↦
            (x, find_block-update_other (block_id hash name j) k b' c.used_space e ∙ at, string)
      ],
      touched-Holds hash name (suc j) i ts b c found h.1,
    )

read_block-touched :
    (hash : Text → ℕ) (serve : Text → ℕ → Text → Option Text) (name : Text)
    (recipe : Option FileRecipe) (i : ℕ) (b : Block) (text : Text) (c : Cache)
    → find_block (block_id hash name i) c.used_space ≡ some b
    → c_data b.data_ ≡ some text
    → read_block hash serve name recipe true i c ≡ gets (text, touched hash name i b c)
unfolding read_block read_found touch_block
read_block-touched hash serve name recipe i b text c h e =
    rw (lookup_block-present hash name i b c h)
      (rw (get_block-present hash name i b c h) (rw (e, read_found) refl))

copy_out-if :
    (offset nbyte : ℕ) (s : ClientState) (c : Cache) (t : Text)
    → copy_out offset nbyte s (t, c) ≡ (
        if ltb (length t) (offset % 1024)
        then fails out_of_range
        else gets (c_string (take nbyte (drop (offset % 1024) t)), s, c))
unfolding copy_out substr and_then c_string
copy_out-if offset nbyte s c t = elim (Bool-cases (ltb (length t) (offset % 1024))) [
  | inl e ↦ rw e refl
  | inr e ↦ rw e refl
]

module _ (hash : Text → ℕ) (serve : Text → ℕ → Text → Option Text)
    (reply : Text → ℕ → ℕ → Interval → Text) (fuel rounds : ℕ) where
  read_blocks-Holds :
      (name : Text) (recipe : Option FileRecipe) (ts : List Text) (i : ℕ) (c : Cache)
      → Holds hash name i ts c
      → (c' : Cache) × (read_blocks hash serve reply fuel rounds name recipe
            (replicate (length ts) true)
            i
            c
          ≡ gets (joined ts, c'))
  unfolding read_blocks and_then
  read_blocks-Holds name recipe [] i c h = (c, refl)
  read_blocks-Holds name recipe (t ∷ ts) i c h =
      let (b, at, string) = h.0 in
      let (c', rest) =
        read_blocks-Holds name recipe ts (suc i) (touched hash name i b c)
          (touched-Holds hash name (suc i) i ts b c at h.1) in
      (c', rw (read_block-touched hash serve name recipe i b t c at string) (rw rest refl))

  -- With the mutex free, an open descriptor, read tokens for all blocks from the first to the last and
  -- every one of these blocks in the cache, each with a string in its bytes, a read of at least one byte
  -- asks nobody. Where the joined strings are shorter than the offset within the first block, it raises an
  -- exception. Else it gives at most `nbyte` characters of the joined strings from that offset on: fewer
  -- where the strings end before, and none from the first 0 on.
  pub pfs_read_cached :
      (filedes nbyte offset : ℕ) (s : ClientState) (c : Cache) (e : OpenFileEntry) (ts : List Text)
      → s.file_desc_mutex ≡ false
      → get_elem? s.descriptors.ofdt filedes ≡ some e
      → e.is_open ≡ true
      → 0 < nbyte
      → ((b : ℕ)
          → has (mk (offset / 1024) ((offset + nbyte - 1) / 1024)) b ≡ true
          → check_permission e.tokens b b'r' ≡ true)
      → length ts ≡ (offset + nbyte - 1) / 1024 + 1 - offset / 1024
      → Holds hash e.name (offset / 1024) ts c
      → (s' : ClientState) × (c' : Cache) × (pfs_read hash serve reply fuel
            (suc rounds)
            filedes
            nbyte
            offset
            s
            c
          ≡ (if ltb (length (joined ts)) (offset % 1024)
              then fails out_of_range
              else gets (c_string (take nbyte (drop (offset % 1024) (joined ts))), s', c')))
  unfolding read_blocks
  pfs_read_cached filedes nbyte offset s c e ts free at opened p tokens size held =
      let bs = offset / 1024 in
      let be = (offset + nbyte - 1) / 1024 in
      let marks = replicate (length ts) true in
      let s' = with_tokens filedes e e.tokens s in
      let all = required_token-nil e.tokens bs be (omega (arith, p)) tokens in
      let run =
        acquire_none fuel b'r' bs be rounds (reply e.name b'r') e.tokens all
        ∙ ap (λ n. acquired e.tokens (replicate n true)) (sym size) in
      let (c', found) = read_blocks-Holds e.name e.file_recipe ts bs c held in
      (
        s',
        c',
        pfs_read_lem hash serve reply fuel (suc rounds) filedes nbyte offset s s' c c' e.file_recipe
              e.name marks (fetch_open_lem s filedes e free at opened) (joined ts)
              (get_tokens_lem hash serve reply fuel (suc rounds) b'r' bs be filedes e.name s e
                e.tokens marks at run)
              found
            ∙ copy_out-if offset nbyte s' c' (joined ts),
      )
