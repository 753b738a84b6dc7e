-- ===== src/FileServer/Disk.antt =====
-- The file system below a file server, and what the server relies on: `stat`, `creat`, `remove`, `fopen`,
-- `fseek` with `fread` and `fwrite`.
pub mod Memory
use cse511_project.Prelude.{
  ℕ, ◌+◌, ◌-◌, ◌≡◌, ◌≢◌, List, [], ◌++◌, Option, none, some, ℤ, Text, length, take, drop, replicate,
  ◌==◌, if◌then◌else◌,
}

-- `none` is a failure. `contents` is what a stream in mode "r" reads from its start, `truncate` is
-- `fopen` in mode "w", and `write_at` writes to such a stream from a place on.
pub record FileSystem : Type 1 where
  pub State : Type 0
  pub stat : State → Text → Option (ℕ × ℤ × ℤ)
  pub creat : State → Text → Option State
  pub remove : State → Text → Option State
  pub contents : State → Text → Option Text
  pub truncate : State → Text → Option State
  pub write_at : State → Text → ℕ → Text → State

-- The bytes of a file after a write of `bytes` from place `at` on: what was there, a gap of zeros up
-- to the place, the bytes, and what was there behind them. A write of no bytes changes nothing.
unfoldable pub overlay : ℕ → Text → Text → Text
overlay at bytes old =
    if length bytes == 0
    then old
    else take at old ++ replicate (at - length old) 0 ++ bytes ++ drop (at + length bytes) old

pub record IsLawful (disk : FileSystem) : Type 0 where
  pub creat-stat :
      (s s' : disk.State) (f : Text)
      → disk.stat s f ≡ none
      → disk.creat s f ≡ some s'
      → (disk.stat s' f ≢ none) × (disk.contents s' f ≡ some [])
  pub remove-stat :
      (s s' : disk.State) (f : Text) → disk.remove s f ≡ some s' → disk.stat s' f ≡ none
  pub truncate-contents :
      (s s' : disk.State) (f : Text) → disk.truncate s f ≡ some s' → disk.contents s' f ≡ some []
  pub write_at-contents :
      (s : disk.State) (f : Text) (at : ℕ) (bytes old : Text)
      → disk.contents s f ≡ some old
      → disk.contents (disk.write_at s f at bytes) f ≡ some (overlay at bytes old)
  pub write_at-other :
      (s : disk.State) (f g : Text) (at : ℕ) (bytes : Text)
      → f ≢ g
      → disk.contents (disk.write_at s f at bytes) g ≡ disk.contents s g
  pub truncate-other :
      (s s' : disk.State) (f g : Text)
      → f ≢ g
      → disk.truncate s f ≡ some s'
      → disk.contents s' g ≡ disk.contents s g
