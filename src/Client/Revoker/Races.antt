-- ===== src/Client/Revoker/Races.antt =====
-- A revocation between the steps of `pfs_write`: the write holds `file_desc_mutex` from its last look at
-- the tokens to its end, but `revokePermission` does not take this mutex.

use cse511_project.Prelude.{
  ℕ, suc, ◌+◌, ◌-◌, ◌/◌, ◌%◌, ◌^◌, ◌≤◌, ◌<◌, ◌≡◌, refl, ◌∙◌, sym, ap, true, false, Bool, List, [],
  ◌∷◌, some, Text, length, replicate, get_elem?, map, arith, ◌==◌, if◌then◌else◌, Bool-cases, inl,
  inr, Option,
}
use mathlib.Core.Option.{some-injective}
use cse511_project.Interval.{Interval, mk}
use cse511_project.Interval.Laws.{has}
use cse511_project.FileDesc.{FileDescriptor, OpenFileEntry}
use cse511_project.FileDesc.Permission.{check_permission}
use cse511_project.FileDesc.Held.{AreMap, held_tokens, may, token_count}
use cse511_project.Metadata.Tokens.{read_message}
use cse511_project.Cache.{Block, Used, Cache, block_id, find_block}
use cse511_project.Client.Acquire.{acquired}
use cse511_project.Client.Blocks.{gets, and_then, of_option, c_data}
use cse511_project.Client.Calls.{ClientState}
use cse511_project.Client.Flush.{Sent, is_dirty, clean}
use cse511_project.Client.Flush.Clean.{AreSendable, cleaned}
use cse511_project.Client.Io.{get_tokens, copy_in}
use cse511_project.Client.Io.Granted.{acquire_none, required_token-nil}
use cse511_project.Client.Io.Steps.{get_tokens_lem, with_tokens}
use cse511_project.Client.Io.Patched.{KeepsAll, WrittenAll, write_blocks-Written}
use cse511_project.Client.Revoker.{answers, writes, handle}
use cse511_project.Client.Revoker.Orders.{handle_orders}
use cse511_project.Network.Asked.{Nameable}

-- A flush leaves the bytes of each block.
find_block-cleaned :
    (k : ℕ) (b : Block) (u : Used)
    → find_block k u ≡ some b
    → find_block k (cleaned u) ≡ some (if is_dirty b then clean b else b)
unfolding find_block
find_block-cleaned k b [] h = absurd (ground (arith, h))
find_block-cleaned k b ((j, x) ∷ u) h = elim (Bool-cases (j == k)) [
  | inl e ↦
      let same : x ≡ b =
        some-injective x b (ap (λ t. if t then some x else find_block k u) (sym e) ∙ h) in
      ap (λ t. if t then some (if is_dirty x then clean x else x) else find_block k (cleaned u)) e
      ∙ ap (λ y. some (if is_dirty y then clean y else y)) same
  | inr e ↦
      ap (λ t. if t then some (if is_dirty x then clean x else x) else find_block k (cleaned u)) e
      ∙ find_block-cleaned k b u (ap (λ t. if t then some x else find_block k u) (sym e) ∙ h)
]

clean-data_ : (b : Block) → (if is_dirty b then clean b else b).data_ ≡ b.data_
clean-data_ b = elim (Bool-cases (is_dirty b)) [ inl e ↦ rw e refl | inr e ↦ rw e refl ]

cleaned-KeepsAll :
    (hash : Text → ℕ) (name : Text) (i : ℕ) (ds : List Text) (c : Cache)
    → KeepsAll hash name i ds c
    → KeepsAll hash name i ds (record c { used_space = cleaned c.used_space })
cleaned-KeepsAll hash name i [] c h = tt
cleaned-KeepsAll hash name i (d ∷ ds) c h =
    let (b, at, same, size) = h.0 in
    (
      (
        if is_dirty b then clean b else b,
        find_block-cleaned (block_id hash name i) b c.used_space at,
        clean-data_ b ∙ same,
        size,
      ),
      cleaned-KeepsAll hash name (suc i) ds c h.1,
    )

-- A write at the front of a block, with permission to read all its blocks, which the cache has with 1024
-- bytes each, their numbers below 2^22, and a buffer that has the bytes and a 0 somewhere, gets its
-- tokens. Then the metadata manager takes a range of the file away with a message that fits the buffer,
-- from a client whose tokens of the file are in order and whose dirty blocks can be sent: the client
-- answers, sends its dirty blocks and may not use the range any more. Then the write goes on: it ends
-- well, and leaves each of its blocks dirty in the cache, also those of the range.
pub write_after_revocation :
    (hash : Text → ℕ) (serve : Text → ℕ → Text → Option Text)
    (reply : Text → ℕ → ℕ → Interval → Text) (fuel rounds filedes nbyte offset : ℕ)
    (s : ClientState) (c : Cache) (e : OpenFileEntry) (buf text : Text) (ds : List Text)
    (x : Interval)
    → get_elem? s.descriptors.ofdt filedes ≡ some e
    → offset % 1024 ≡ 0
    → 0 < nbyte
    → nbyte ≤ length buf
    → c_data buf ≡ some text
    → (offset + nbyte - 1) / 1024 < 2 ^ 22
    → ((b : ℕ)
        → has (mk (offset / 1024) ((offset + nbyte - 1) / 1024)) b ≡ true
        → check_permission e.tokens b b'r' ≡ true)
    → length ds ≡ (offset + nbyte - 1) / 1024 + 1 - offset / 1024
    → KeepsAll hash e.name (offset / 1024) ds c
    → Nameable e.name x
    → AreMap (held_tokens e.name (with_tokens filedes e e.tokens s).descriptors)
    → AreSendable c.used_space
    → (marks : List Bool) × (s' : ClientState) × (answer : Text) × (d' : FileDescriptor) × (l : List
        Sent)
      × (c' : Cache) × (get_tokens hash serve reply fuel
            (suc rounds)
            b'w'
            (offset / 1024)
            ((offset + nbyte - 1) / 1024)
            filedes
            e.name
            s
          ≡ gets (marks, s'))
      × (handle
            (suc (token_count s'.descriptors.ofdt))
            (read_message e.name x)
            s'.descriptors
            c.used_space
          ≡ some (d', gets (answers answer ∷ map writes l, cleaned c.used_space)))
      × ((b mode : ℕ) → has x b ≡ true → may e.name d' b mode ≡ false)
      × (copy_in hash serve reply fuel
            (suc rounds)
            nbyte
            offset
            buf
            (e.file_recipe, e.name)
            (record c { used_space = cleaned c.used_space })
            (marks, record s' { descriptors = d' })
          ≡ gets (length text, record s' { descriptors = d' }, c'))
      × WrittenAll hash e.name (offset / 1024) nbyte buf 0 ds c'
unfolding copy_in and_then of_option
write_after_revocation hash serve reply fuel rounds filedes nbyte offset s c e buf text ds x at
      front p room string small tokens size held n ordered sendable =
    let bs = offset / 1024 in
    let be = (offset + nbyte - 1) / 1024 in
    let marks = replicate (length ds) true in
    let s' = with_tokens filedes e e.tokens s in
    let flushed = record c { used_space = cleaned c.used_space } in
    let all = required_token-nil e.tokens bs be (omega (arith, p)) tokens in
    let run =
      acquire_none fuel b'w' bs be rounds (reply e.name b'w') e.tokens all
      ∙ ap (λ n. acquired e.tokens (replicate n true)) (sym size) in
    let whole : bs + length ds ≡ be + 1 = omega (arith, size, p) in
    let (answer, d', l, order, gone, sent, count, none_dirty) =
      handle_orders e.name x s'.descriptors c.used_space n ordered sendable in
    let (c', blocks, written, others) =
      write_blocks-Written hash serve reply fuel (suc rounds) e.name e.file_recipe bs be offset
        nbyte buf (omega (arith, front)) p refl room small ds bs 0 flushed (omega arith) whole
        (cleaned-KeepsAll hash e.name bs ds c held) in
    (
      marks,
      s',
      answer,
      d',
      l,
      c',
      get_tokens_lem hash serve reply fuel (suc rounds) b'w' bs be filedes e.name s e e.tokens marks
          at run,
      order,
      λ b mode h. ground (arith, gone.rights b mode, h),
      rw string (rw blocks refl),
      written,
    )
