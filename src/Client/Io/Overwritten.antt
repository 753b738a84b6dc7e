-- ===== src/Client/Io/Overwritten.antt =====
-- A write from a block's front on to blocks that the client has.
use cse511_project.Prelude.{
  ℕ, suc, ◌+◌, ◌-◌, ◌/◌, ◌%◌, ◌^◌, ◌≤◌, ◌<◌, ◌≡◌, refl, ◌∙◌, sym, ap, true, false, List, Option,
  some, Text, length, replicate, get_elem?, arith,
}
use cse511_project.Interval.{Interval, mk}
use cse511_project.Interval.Laws.{has}
use cse511_project.FileDesc.{OpenFileEntry}
use cse511_project.FileDesc.Permission.{check_permission}
use cse511_project.Cache.{Cache}
use cse511_project.Client.Acquire.{acquired}
use cse511_project.Client.Blocks.{gets, c_data}
use cse511_project.Client.Calls.{ClientState}
use cse511_project.Client.Io.{pfs_write}
use cse511_project.Client.Io.Granted.{acquire_none, required_token-nil, fetch_open_lem}
use cse511_project.Client.Io.Steps.{get_tokens_lem, pfs_write_lem, with_tokens}
use cse511_project.Client.Io.Patched.{KeepsAll, WrittenAll, Others, write_blocks-Written}

-- A write at the front of a block, of an open file, with the mutex free and permission to read all
-- its blocks, each of which the cache has with 1024 bytes, their numbers below 2^22, and a buffer
-- that has the bytes and a 0 somewhere: it asks nobody, even for a permission to write, and gives
-- the length of the buffer's string. Each block is dirty afterwards, and those of its bytes that the
-- write covers come from the buffer, the others stay; but the bytes of block number `r` of the write
-- start at place `r` of the buffer, not at place `1024 * r`. The cache's other blocks stay.
pub pfs_write_cached :
    (hash : Text → ℕ) (serve : Text → ℕ → Text → Option Text)
    (reply : Text → ℕ → ℕ → Interval → Text) (fuel rounds filedes nbyte offset : ℕ)
    (s : ClientState) (c : Cache) (e : OpenFileEntry) (buf text : Text) (ds : List Text)
    → s.file_desc_mutex ≡ false
    → get_elem? s.descriptors.ofdt filedes ≡ some e
    → e.is_open ≡ true
    → offset % 1024 ≡ 0
    → 0 < nbyte
    → nbyte ≤ length buf
    → c_data buf ≡ some text
    → (offset + nbyte - 1) / 1024 < 2 ^ 22
    → ((b : ℕ)
        → has (mk (offset / 1024) ((offset + nbyte - 1) / 1024)) b ≡ true
        → check_permission e.tokens b b'r' ≡ true)
    → length ds ≡ (offset + nbyte - 1) / 1024 + 1 - offset / 1024
    → KeepsAll hash e.name (offset / 1024) ds c
    → (s' : ClientState) × (c' : Cache) × (pfs_write hash serve reply fuel
          (suc rounds)
          filedes
          buf
          nbyte
          offset
          s
          c
        ≡ gets (length text, s', c'))
      × WrittenAll hash e.name (offset / 1024) nbyte buf 0 ds c'
      × Others hash e.name (offset / 1024) (length ds) c c'
pfs_write_cached hash serve reply fuel rounds filedes nbyte offset s c e buf text ds free at opened
      front p room string small tokens size held =
    let bs = offset / 1024 in
    let be = (offset + nbyte - 1) / 1024 in
    let marks = replicate (length ds) true in
    let s' = with_tokens filedes e e.tokens s in
    let all = required_token-nil e.tokens bs be (omega (arith, p)) tokens in
    let run =
      acquire_none fuel b'w' bs be rounds (reply e.name b'w') e.tokens all
      ∙ ap (λ n. acquired e.tokens (replicate n true)) (sym size) in
    let whole : bs + length ds ≡ be + 1 = omega (arith, size, p) in
    let (c', blocks, written, others) =
      write_blocks-Written hash serve reply fuel (suc rounds) e.name e.file_recipe bs be offset
        nbyte buf (omega (arith, front)) p refl room small ds bs 0 c (omega arith) whole held in
    (
      s',
      c',
      pfs_write_lem hash serve reply fuel (suc rounds) filedes nbyte offset s s' c c' e.file_recipe
          e.name marks (fetch_open_lem s filedes e free at opened) buf text (ground (arith, p))
          (get_tokens_lem hash serve reply fuel (suc rounds) b'w' bs be filedes e.name s e e.tokens
            marks at run)
          string blocks,
      written,
      others,
    )
