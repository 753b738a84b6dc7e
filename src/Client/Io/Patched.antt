-- ===== src/Client/Io/Patched.antt =====
-- The loop of `pfs_write` over blocks that the client has, from a block's front on.
use cse511_project.Prelude.{
  Bool, ℕ, suc, ◌+◌, ◌-◌, ◌*◌, ◌/◌, ◌%◌, ◌^◌, ◌≤◌, ◌<◌, ◌≡◌, refl, ◌∙◌, ap, true, false, List, [],
  ◌∷◌, Option, some, Text, length, replicate, get_elem?, arith, ◌==◌, ltb, if◌then◌else◌,
  Bool-cases, inl, inr,
}
use cse511_project.Interval.{Interval}
use cse511_project.Recipe.{FileRecipe}
use cse511_project.Cache.{Block, Cache, block_id, find_block}
use cse511_project.Client.Blocks.{gets, and_then, copy_bytes, write_block}
use cse511_project.Client.Blocks.Exact.{
  copy_bytes-Patch, overwritten, write_block-present, overwritten-found, overwritten-other,
}
use cse511_project.Client.Calls.{find_buf_offset}
use cse511_project.Client.Io.{write_blocks}

-- The cache has block `i` with these bytes, 1024 of them.
abbrev pub Keeps : (Text → ℕ) → Text → ℕ → Text → Cache → Type 0
Keeps hash name i bytes c =
    (b : Block) × (find_block (block_id hash name i) c.used_space ≡ some b)
    × (b.data_ ≡ bytes)
    × (length bytes ≡ 1024)

-- The blocks from `i` on.
abbrev pub KeepsAll : (Text → ℕ) → Text → ℕ → List Text → Cache → Type 0
KeepsAll hash name i [] c = Unit
KeepsAll hash name i (d ∷ ds) c = Keeps hash name i d c × KeepsAll hash name (suc i) ds c

-- Of round `r`, block `i`: dirty, and the bytes that a write of `nbyte` bytes leaves.
abbrev pub Written : (Text → ℕ) → Text → ℕ → ℕ → Text → ℕ → Text → Cache → Type 0
Written hash name i nbyte buf r old c =
    (b : Block) × (find_block (block_id hash name i) c.used_space ≡ some b)
    × (b.status ≡ b'D')
    × ((j : ℕ)
        → j < 1024
        → get_elem? b.data_ j
          ≡ (if ltb (r * 1024 + j) nbyte then get_elem? buf (r + j) else get_elem? old j))

abbrev pub WrittenAll : (Text → ℕ) → Text → ℕ → ℕ → Text → ℕ → List Text → Cache → Type 0
WrittenAll hash name i nbyte buf r [] c = Unit
WrittenAll hash name i nbyte buf r (d ∷ ds) c =
    Written hash name i nbyte buf r d c × WrittenAll hash name (suc i) nbyte buf (suc r) ds c

block_id-apart :
    (hash : Text → ℕ) (name : Text) (i j : ℕ)
    → i < j
    → j < 2 ^ 22
    → (block_id hash name i == block_id hash name j) ≡ false
unfolding block_id
block_id-apart hash name i j h g = ground (arith, h, g)

==_sym : (a b : ℕ) → (a == b) ≡ false → (b == a) ≡ false
==_sym a b h = ground (arith, h)

-- A write to an earlier block leaves the later ones.
overwritten-KeepsAll :
    (hash : Text → ℕ) (name : Text) (i j : ℕ) (b : Block) (bytes : Text) (ds : List Text)
    (c : Cache)
    → i < j
    → j + length ds ≤ 2 ^ 22
    → KeepsAll hash name j ds c
    → KeepsAll hash name j ds (overwritten hash name i b bytes c)
overwritten-KeepsAll hash name i j b bytes [] c h g k = tt
overwritten-KeepsAll hash name i j b bytes (d ∷ ds) c h g k =
    let (x, at, same, size) = k.0 in
    let apart = block_id-apart hash name i j h (omega (arith, g)) in
    (
      (x, overwritten-other hash name (block_id hash name j) i b bytes c apart ∙ at, same, size),
      overwritten-KeepsAll hash name i (suc j) b bytes ds c (omega (arith, h)) (omega (arith, g))
          k.1,
    )

-- The keys other than those of the `n` blocks from `i` on keep their blocks.
abbrev pub Others : (Text → ℕ) → Text → ℕ → ℕ → Cache → Cache → Type 0
Others hash name i n c c' =
    (k : ℕ)
    → ((j : ℕ) → i ≤ j → j < i + n → (block_id hash name j == k) ≡ false)
    → find_block k c'.used_space ≡ find_block k c.used_space

module _ (hash : Text → ℕ) (serve : Text → ℕ → Text → Option Text)
    (reply : Text → ℕ → ℕ → Interval → Text) (fuel rounds : ℕ) (name : Text)
    (recipe : Option FileRecipe) (bs be offset nbyte : ℕ) (buf : Text)
    (aligned : offset ≡ bs * 1024) (some_bytes : 0 < nbyte)
    (last : be ≡ (offset + nbyte - 1) / 1024) (room : nbyte ≤ length buf)
    (small : be < 2 ^ 22) where
  -- The bytes of block `i`, round `r`, that the write covers.
  Covers : ℕ → ℕ → ℕ → Type 0
  Covers i r end =
      (find_buf_offset i offset nbyte bs be ≡ (0, end))
      × (end < 1024)
      × (r + end < nbyte)
      × ((j : ℕ) → j < 1024 → ltb j (end + 1) ≡ ltb (r * 1024 + j) nbyte)

  round_end : (i r : ℕ) → i ≡ bs + r → i ≤ be → (end : ℕ) × Covers i r end
  unfolding find_buf_offset Covers
  round_end i r place le = elim (Bool-cases (i == be)) [
    | inl e ↦
        let same : i ≡ be = ground (arith, e) in
        let end = (offset + nbyte - 1) % 1024 in
        let total : nbyte ≡ r * 1024 + end + 1 =
          omega (arith, same, place, last, aligned, some_bytes) in
        (
          end,
          (
            ground (arith, e, aligned),
            omega arith,
            omega (arith, total),
            λ j h. ground (arith, total),
          ),
        )
    | inr e ↦
        let less : i < be = ground (arith, e, le) in
        let more : r * 1024 + 1024 ≤ nbyte =
          omega (arith, less, place, last, aligned, some_bytes) in
        (
          1023,
          (
            ground (arith, e, aligned),
            omega arith,
            omega (arith, more),
            λ j h. ground (arith, more, h),
          ),
        )
  ]

  -- One round.
  abbrev RoundDone : ℕ → ℕ → Text → Cache → Type 0
  RoundDone i r old c =
      (end : ℕ) × (b : Block) × (bytes : Text) × (find_buf_offset i offset nbyte bs be ≡ (0, end))
      × (write_block hash serve name recipe true i 0 end (i - bs) buf c
          ≡ gets (overwritten hash name i b bytes c))
      × Written hash name i nbyte buf r old (overwritten hash name i b bytes c)

  write_round :
      (i r : ℕ) (old : Text) (c : Cache)
      → i ≡ bs + r
      → i ≤ be
      → Keeps hash name i old c
      → RoundDone i r old c
  unfolding Covers
  write_round i r old c place le (b, at, same, size) =
      let (end, (ends, short, inside, covers)) = round_end i r place le in
      let base : i - bs ≡ r = omega (arith, place) in
      let count : end + 1 - 0 ≡ end + 1 = omega arith in
      let (bytes, run, patch) =
        copy_bytes-Patch (end + 1) 0 r buf b.data_
          (omega (arith, short, size, ap (λ (d : Text). length d) same))
          (omega (arith, inside, room)) in
      let copied : copy_bytes (end + 1 - 0) 0 (i - bs) buf b.data_ ≡ some bytes =
        ap (λ n. copy_bytes n 0 (i - bs) buf b.data_) count
        ∙ ap (λ n. copy_bytes (end + 1) 0 n buf b.data_) base
        ∙ run in
      (
        end,
        b,
        bytes,
        ends,
        write_block-present hash name serve recipe i 0 end (i - bs) buf bytes b c at copied,
        (
          record b { data_ = bytes; status = b'D'; access_time = c.last_access },
          overwritten-found hash name i b bytes c at,
          refl,
          λ j h. ground (arith, patch.1 j, covers j h, ap (λ d. get_elem? d j) same),
        ),
      )

  write_blocks_next :
      (i end : ℕ) (marks : List Bool) (c c' : Cache)
      → find_buf_offset i offset nbyte bs be ≡ (0, end)
      → write_block hash serve name recipe true i 0 end (i - bs) buf c ≡ gets c'
      → write_blocks hash serve reply fuel rounds offset nbyte bs be name recipe buf
          (true ∷ marks)
          i
          c
        ≡ write_blocks hash serve reply fuel rounds offset nbyte bs be name recipe buf marks
            (suc i)
            c'
  unfolding write_blocks and_then
  write_blocks_next i end marks c c' ends run =
      ap
        (λ r. and_then (write_block hash serve name recipe true i r.0 r.1 (i - bs) buf c) (
          write_blocks hash serve reply fuel rounds offset nbyte bs be name recipe buf marks
            (suc i)))
        ends
      ∙ rw run refl

  pub write_blocks-Written :
      (ds : List Text) (i r : ℕ) (c : Cache)
      → i ≡ bs + r
      → i + length ds ≡ be + 1
      → KeepsAll hash name i ds c
      → (c' : Cache) × (write_blocks hash serve reply fuel rounds offset nbyte bs be name recipe buf
            (replicate (length ds) true)
            i
            c
          ≡ gets c')
        × WrittenAll hash name i nbyte buf r ds c'
        × Others hash name i (length ds) c c'
  unfolding write_blocks
  write_blocks-Written [] i r c place end held = (c, refl, tt, λ k h. refl)
  write_blocks-Written (old ∷ ds) i r c place all held =
      let (end, b, bytes, ends, run, (x, at, status, text)) =
        write_round i r old c place (omega (arith, all)) held.0 in
      let next = overwritten hash name i b bytes c in
      let kept =
        overwritten-KeepsAll hash name i (suc i) b bytes ds c (omega arith)
          (omega (arith, all, small)) held.1 in
      let (c', rest, written, others) =
        write_blocks-Written ds (suc i) (suc r) next (omega (arith, place)) (omega (arith, all))
          kept in
      let stays = others (block_id hash name i) (λ j lo hi.
        ==_sym (block_id hash name i) (block_id hash name j)
          (block_id-apart hash name i j (omega (arith, lo)) (omega (arith, hi, all, small)))) in
      (
        c',
        write_blocks_next i end (replicate (length ds) true) c next ends run ∙ rest,
        ((x, stays ∙ at, status, text), written),
        λ k h.
            others k (λ j lo hi. h j (omega (arith, lo)) (omega (arith, hi)))
            ∙ overwritten-other hash name k i b bytes c (h i (omega arith) (omega arith)),
      )
