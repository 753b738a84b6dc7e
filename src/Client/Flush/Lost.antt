-- ===== src/Client/Flush/Lost.antt =====
-- What a `pfs_write` during a flush loses.
use mathlib.Core.Option.{some-injective}
use cse511_project.Prelude.{
  ℕ, ◌≡◌, ◌≢◌, false, ◌∙◌, refl, sym, ap, true, [], ◌∷◌, none, some, Text, arith, ◌==◌, if_true,
  if_false, Bool-cases, inl, inr,
}
use cse511_project.Cache.{Block, Used, find_block, update_block}
use cse511_project.Cache.Lookup.{find_block-update_block}
use cse511_project.Client.Blocks.{gets, and_then, write_to_file_server, copy_bytes, dirty}
use cse511_project.Client.Flush.{
  Sent, is_dirty, clean, flush, copies, marks, writes, Steps, stays, next,
}
use cse511_project.Client.Flush.Clean.{dirty_count}

update_block_twice :
    (k : ℕ) (c b : Block) (u : Used) → update_block k c (update_block k b u) ≡ update_block k c u
unfolding update_block
update_block_twice k c b [] = refl
update_block_twice k c b ((j, x) ∷ u) = elim (Bool-cases (j == k)) [
  | inl e ↦ rw e (rw e (ap (λ t. (j, c) ∷ t) (update_block_twice k c b u)))
  | inr e ↦ rw e (rw e (ap (λ t. (j, x) ∷ t) (update_block_twice k c b u)))
]

stays_clean :
    (k : ℕ) (c : Block) (u : Used)
    → is_dirty c ≡ false
    → dirty_count u ≡ 0
    → dirty_count (update_block k c u) ≡ 0
unfolding update_block
stays_clean k c [] h none_dirty = refl
stays_clean k c ((j, x) ∷ u) h none_dirty = elim (Bool-cases (is_dirty x)) [
  | inl d ↦ absurd (ground (arith, d, none_dirty))
  | inr d ↦
      let rest = stays_clean k c u h (ground (arith, d, none_dirty)) in
      elim (Bool-cases (j == k)) [ inl e ↦ rw e (rw h rest) | inr e ↦ rw e (rw d rest) ]
]

-- A dirty block that is found is counted.
found_counts :
    (k : ℕ) (b : Block) (u : Used) → find_block k u ≡ some b → is_dirty b ≡ true → dirty_count u ≢ 0
unfolding find_block
found_counts k b [] found d h = ground (arith, found)
found_counts k b ((j, x) ∷ u) found d h = elim (Bool-cases (is_dirty x)) [
  | inl x_dirty ↦ ground (arith, x_dirty, h)
  | inr x_clean ↦ elim (Bool-cases (j == k)) [
    | inl e ↦
        let same : x ≡ b = some-injective x b (sym (if_true (j == k) _ _ e) ∙ found) in
        let x_dirty : is_dirty x ≡ true = ap is_dirty same ∙ d in ground (arith, x_dirty, x_clean)
    | inr e ↦
        found_counts k b u (sym (if_false (j == k) _ _ e) ∙ found) d (ground (arith, x_clean, h))
  ]
]

-- The only dirty block is replaced by a clean one.
single_cleaned :
    (k : ℕ) (b c : Block) (u : Used)
    → find_block k u ≡ some b
    → is_dirty b ≡ true
    → is_dirty c ≡ false
    → dirty_count u ≡ 1
    → dirty_count (update_block k c u) ≡ 0
unfolding find_block update_block
single_cleaned k b c [] found d h single = absurd (ground (arith, found))
single_cleaned k b c ((j, x) ∷ u) found d h single = elim (Bool-cases (j == k)) [
  | inl e ↦
      let same : x ≡ b = some-injective x b (sym (if_true (j == k) _ _ e) ∙ found) in
      let x_dirty : is_dirty x ≡ true = ap is_dirty same ∙ d in
      rw e (rw h (stays_clean k c u h (ground (arith, x_dirty, single))))
  | inr e ↦
      let found' = sym (if_false (j == k) _ _ e) ∙ found in
      elim (Bool-cases (is_dirty x)) [
        | inl x_dirty ↦
            let none_dirty : dirty_count u ≡ 0 = ground (arith, x_dirty, single) in
            absurd (found_counts k b u found' d none_dirty)
        | inr x_clean ↦
            rw e (rw x_clean (single_cleaned k b c u found' d h (ground (arith, x_clean, single))))
      ]
]

-- A flush sends nothing where no block is dirty.
flush_idle : (u : Used) → dirty_count u ≡ 0 → flush u ≡ gets (u, [])
unfolding flush and_then
flush_idle [] h = refl
flush_idle ((k, b) ∷ u) h = elim (Bool-cases (is_dirty b)) [
  | inl e ↦ absurd (ground (arith, e, h))
  | inr e ↦ rw e (rw (flush_idle u (ground (arith, e, h))) refl)
]

-- For the only dirty block of the cache, which can be sent, and bytes that are written to it while the
-- flush has given the lock back, there are steps after which the block has the new bytes and is clean,
-- while what has been sent is the command with the old bytes; a flush after that sends nothing.
pub flush_loses_write :
    (k : ℕ) (b : Block) (u : Used) (command : Sent) (rounds start base : ℕ) (buf bytes : Text)
    → find_block k u ≡ some b
    → is_dirty b ≡ true
    → dirty_count u ≡ 1
    → write_to_file_server b ≡ gets command
    → copy_bytes rounds start base buf b.data_ ≡ some bytes
    → (after : Used) × Steps
        (record { used = u; underway = none; sent = [] })
        (record { used = after; underway = none; sent = command ∷ [] })
      × (find_block k after ≡ some (clean (dirty bytes b)))
      × (flush after ≡ gets (after, []))
flush_loses_write k b u command rounds start base buf bytes found d single order copied =
    let written = update_block k (dirty bytes b) u in
    let at = find_block-update_block k (dirty bytes b) b u found in
    let after = update_block k (clean (dirty bytes b)) written in
    (
      after,
      next (copies k b found d) (
          next (writes k b rounds start base buf bytes found copied)
            (next (marks k b (dirty bytes b) command order at) stays)),
      find_block-update_block k (clean (dirty bytes b)) (dirty bytes b) written at,
      flush_idle after (
          ap dirty_count (update_block_twice k (clean (dirty bytes b)) (dirty bytes b) u)
          ∙ single_cleaned k b (clean (dirty bytes b)) u found d refl single),
    )
