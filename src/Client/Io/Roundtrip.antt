-- ===== src/Client/Io/Roundtrip.antt =====
-- What `pfs_read` gives after `pfs_write`.
use cse511_project.Prelude.{
  get_elem?_lt, ℕ, suc, ◌+◌, ◌-◌, ◌*◌, ◌/◌, ◌%◌, ◌<◌, ◌≡◌, refl, ◌∙◌, sym, ap, subst, Bool, true,
  false, List, [], ◌∷◌, ◌++◌, Option, none, some, pos, Text, All, length, take, inr, arith,
  get_elem?, get_elem?-set_self, set-set, ◌==◌, ltb, replicate,
}
use cse511_project.Interval.{Interval, u32_mod}
use cse511_project.TokenMap.Order.{IsMap}
use cse511_project.Striping.{offset_within}
use cse511_project.FileDesc.{OpenFileEntry}
use cse511_project.FileDesc.Permission.{Tokens}
use cse511_project.Cache.{Cache, block_id, find_block}
use cse511_project.Metadata.Dispatch.{c_string}
use cse511_project.Metadata.Dispatch.Handled.{NotZero, c_string_lem}
use cse511_project.Client.Acquire.{acquired, acquire}
use cse511_project.Client.Acquire.Spec.{Got, grant, acquire-Got}
use cse511_project.Client.Blocks.{gets, and_then, read_block, write_block}
use cse511_project.Client.Blocks.Fetched.{Answers}
use cse511_project.Client.Blocks.Copies.{c_data-append}
use cse511_project.Client.Blocks.Stored.{read_block-write_block, lookup_block-absent}
use cse511_project.Client.Calls.{ClientState, find_buf_offset}
use cse511_project.Client.Io.{copy_out, pfs_read, pfs_write, substr}
use cse511_project.Client.Io.Granted.{
  acquire-length, acquire_none, required_token-nil, Got-check_permission, fetch_open_lem,
}
use cse511_project.Client.Io.Steps.{
  with_tokens, get_tokens_lem, read_blocks_one, write_blocks_one, pfs_read_lem, pfs_write_lem,
  length-one,
}

offset_within-one : (i : ℕ) → offset_within i 1 ≡ i
unfolding offset_within
offset_within-one i = omega arith

-- The bytes of one block from its front.
find_buf_offset-front :
    (i n : ℕ) → 0 < n → n < 1024 → find_buf_offset i (1024 * i) n i i ≡ (0, n - 1)
unfolding find_buf_offset
find_buf_offset-front i n p q =
    let first : 1024 * i % 1024 ≡ 0 = omega arith in
    let last : (1024 * i + n - 1) % 1024 ≡ n - 1 = omega (arith, p, q) in
    let same : (i == i) ≡ true = ground arith in rw same (rw first (rw last refl))

take_all : (t : Text) → take (length t) t ≡ t
take_all [] = refl
take_all (c ∷ t) = ap (◌∷◌ c) (take_all t)

copy_out-front :
    (i : ℕ) (s : ClientState) (c : Cache) (text : Text)
    → All NotZero text
    → copy_out (1024 * i) (length text) s (text, c) ≡ gets (text, s, c)
unfolding copy_out substr and_then
copy_out-front i s c text solid =
    let first : 1024 * i % 1024 ≡ 0 = omega arith in
    let inside : ltb (length text) 0 ≡ false = ground arith in
    rw first
      (rw inside (ap (λ t. gets (t, s, c)) (ap c_string (take_all text) ∙ c_string_lem text solid)))

-- Calls for bytes from the front of one block, with the tokens that they end up with.
module _ (hash : Text → ℕ) (serve : Text → ℕ → Text → Option Text)
    (reply : Text → ℕ → ℕ → Interval → Text) (fuel rounds filedes i : ℕ) (s : ClientState)
    (c c' : Cache) (e : OpenFileEntry) (m : Tokens) (text : Text) (marked : Bool)
    (free : s.file_desc_mutex ≡ false) (at : get_elem? s.descriptors.ofdt filedes ≡ some e)
    (opened : e.is_open ≡ true) (p : 0 < length text) (q : length text < 1024)
    (solid : All NotZero text) where
  first_block : 1024 * i / 1024 ≡ i
  first_block = omega arith

  last_block : (1024 * i + length text - 1) / 1024 ≡ i
  last_block = omega (arith, p, q)

  pfs_write_one :
      (more : Text)
      → acquire fuel b'w' i i (reply e.name b'w') rounds e.tokens ≡ acquired m (marked ∷ [])
      → write_block hash serve e.name e.file_recipe marked i 0
          (length text - 1)
          0
          (text ++ 0 ∷ more)
          c
        ≡ gets c'
      → pfs_write hash serve reply fuel rounds filedes
          (text ++ 0 ∷ more)
          (length text)
          (1024 * i)
          s
          c
        ≡ gets (length text, with_tokens filedes e m s, c')
  pfs_write_one more run wrote =
      let base : i - i ≡ 0 = omega arith in
      let n = length text in
      pfs_write_lem hash serve reply fuel rounds filedes n (1024 * i) s (with_tokens filedes e m s)
        c c' e.file_recipe e.name (marked ∷ []) (fetch_open_lem s filedes e free at opened)
        (text ++ 0 ∷ more) text (ground (arith, p))
        (rw first_block (
          rw last_block (
            get_tokens_lem hash serve reply fuel rounds b'w' i i filedes e.name s e m (marked ∷ [])
              at run)))
        (c_data-append text more solid)
        (rw first_block (
          rw last_block (
            write_blocks_one hash serve reply fuel rounds (1024 * i) n i i 0 (n - 1) e.name
              e.file_recipe (text ++ 0 ∷ more) marked i c c' (find_buf_offset-front i n p q)
              (rw base wrote))))

  pfs_read_one :
      acquire fuel b'r' i i (reply e.name b'r') rounds e.tokens ≡ acquired m (marked ∷ [])
      → read_block hash serve e.name e.file_recipe marked i c ≡ gets (text, c')
      → pfs_read hash serve reply fuel rounds filedes (length text) (1024 * i) s c
        ≡ gets (text, with_tokens filedes e m s, c')
  pfs_read_one run found =
      let n = length text in
      pfs_read_lem hash serve reply fuel rounds filedes n (1024 * i) s (with_tokens filedes e m s) c
        c' e.file_recipe e.name (marked ∷ []) (fetch_open_lem s filedes e free at opened) text
        (rw first_block (
          rw last_block (
            get_tokens_lem hash serve reply fuel rounds b'r' i i filedes e.name s e m (marked ∷ [])
              at run)))
        (rw first_block (
          read_blocks_one hash serve reply fuel rounds e.name e.file_recipe marked i text c c'
            found))
      ∙ copy_out-front i (with_tokens filedes e m s) c' text solid

-- The tokens that a request for block i leaves are enough to read it.
acquire_again :
    (fuel rounds i : ℕ) (reply : ℕ → Interval → Text) (m m' : Tokens)
    → IsMap m
    → Got b'w' i i m m'
    → acquire fuel b'r' i i reply (suc rounds) m' ≡ acquired m' (true ∷ [])
acquire_again fuel rounds i reply m m' map got =
    let holds =
      required_token-nil m' i i (omega arith)
        (λ b h. Got-check_permission b'w' i i m m' b map (inr refl) got h) in
    let single : i + 1 - i ≡ 1 = omega arith in
    acquire_none fuel b'r' i i rounds reply m' holds
    ∙ ap (λ k. acquired m' (replicate k true)) single

-- A descriptor that is open on a file of stripe width 1, with the mutex free and its tokens in order; a
-- metadata manager that grants each range it is asked for and file servers that answer; a free block, and
-- block i, which the cache does not have: after a write of less than 1024 bytes, none of them 0, to the
-- front of block i, which gives the number of the bytes, a read of as many bytes there gives these bytes,
-- also where no file server answers any more.
pub pfs_read-pfs_write :
    (hash : Text → ℕ) (serve again : Text → ℕ → Text → Option Text) (fuel rounds filedes i : ℕ)
    (s : ClientState) (c : Cache) (e : OpenFileEntry) (mask : List Bool) (text more : Text)
    → s.file_desc_mutex ≡ false
    → get_elem? s.descriptors.ofdt filedes ≡ some e
    → e.is_open ≡ true
    → e.file_recipe ≡ some (record { stripe_width = pos 1; stripe_mask = mask })
    → IsMap e.tokens
    → Answers serve
    → i < u32_mod
    → 0 < length text
    → length text < 1024
    → All NotZero text
    → 0 < c.free_size
    → find_block (block_id hash e.name i) c.used_space ≡ none
    → (s' : ClientState) × (c' : Cache) × (c'' : Cache) × (pfs_write hash serve
          (λ name mode. grant)
          (suc fuel)
          (suc (suc rounds))
          filedes
          (text ++ 0 ∷ more)
          (length text)
          (1024 * i)
          s
          c
        ≡ gets (length text, s', c'))
      × (pfs_read hash again
            (λ name mode. grant)
            (suc fuel)
            (suc (suc rounds))
            filedes
            (length text)
            (1024 * i)
            s'
            c'
          ≡ gets (text, s', c''))
pfs_read-pfs_write hash serve again fuel rounds filedes i s c e mask text more free at opened width
      map answers bound p q solid room new =
    let reply = λ (name : Text) (mode : ℕ). grant in
    let (m, marks, run, got) =
      acquire-Got fuel b'w' i i (omega arith) bound (suc (suc rounds)) e.tokens map (omega arith) in
    let (marked, single) = length-one marks (
      acquire-length (suc fuel) b'w' i i (suc (suc rounds)) grant e.tokens m marks run
      ∙ omega arith) in
    let absent = lookup_block-absent hash e.name i c new in
    let within = offset_within-one i in
    let (c', wrote, reads) =
      read_block-write_block hash serve e.name i 1 mask marked text (0 ∷ more) c (omega arith)
        (omega arith) answers p q room (ground (arith, absent)) solid
        (subst (λ j. find_block (block_id hash e.name j) c.used_space ≡ none) (sym within) new) in
    let (c'', found) = reads again e.file_recipe in
    let s' = with_tokens filedes e m s in
    let e' = record e { tokens = m } in
    let at' =
      get_elem?-set_self s.descriptors.ofdt filedes e'
        (get_elem?_lt s.descriptors.ofdt filedes at) in
    (
      s',
      c',
      c'',
      pfs_write_one hash serve reply (suc fuel) (suc (suc rounds)) filedes i s c c' e m text marked
          free at opened p q solid more (run ∙ ap (acquired m) single)
          (subst
            (λ r.
              write_block hash serve e.name r marked i 0 (length text - 1) 0 (text ++ 0 ∷ more) c
              ≡ gets c')
            (sym width) wrote),
      pfs_read_one hash again reply (suc fuel) (suc (suc rounds)) filedes i s' c' c'' e' m text true
            free at' opened p q solid
            (acquire_again (suc fuel) (suc rounds) i grant e.tokens m map got)
            (subst (λ j. read_block hash again e.name e.file_recipe true j c' ≡ gets (text, c''))
              within found)
          ∙ ap (λ t. gets (text, record s { descriptors = record s.descriptors { ofdt = t } }, c''))
              (set-set s.descriptors.ofdt filedes e' e'),
    )
