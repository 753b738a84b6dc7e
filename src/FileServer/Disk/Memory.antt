-- ===== src/FileServer/Disk/Memory.antt =====
-- A file system in memory: a list of files and their bytes, with all times 0. It shows that what the
-- server relies on can hold.
use cse511_project.Prelude.{
  ℕ, ◌≡◌, ◌≢◌, refl, ap, subst, List, [], ◌∷◌, Option, none, some, pos, Text, length, text_eq,
  if◌then◌else◌, if_true, if_false, Bool-cases, inl, inr, text_eq→≡, text_eq_refl, arith,
}
use mathlib.Core.Option
use cse511_project.FileServer.Disk.{FileSystem, IsLawful, overlay}

abbrev pub Files : Type 0
Files = List (Text × Text)

unfoldable pub lookup : Text → Files → Option Text
lookup f [] = none
lookup f ((g, bytes) ∷ s) = let rest = lookup f s in if text_eq g f then some bytes else rest

unfoldable pub without : Text → Files → Files
without f [] = []
without f ((g, bytes) ∷ s) =
    let rest = without f s in if text_eq g f then rest else (g, bytes) ∷ rest

unfoldable pub write_to : Files → Text → ℕ → Text → Option Text → Files
write_to s f at bytes none = s
write_to s f at bytes (some old) = (f, overlay at bytes old) ∷ s

abbrev pub memory_disk : FileSystem
memory_disk = record {
  State = Files;
  stat = λ s f. Option.map (λ bytes. (length bytes, pos 0, pos 0)) (lookup f s);
  creat = λ s f. some ((f, []) ∷ s);
  remove = λ s f. some (without f s);
  contents = λ s f. lookup f s;
  truncate = λ s f. some ((f, []) ∷ s);
  write_at = λ s f at bytes. write_to s f at bytes (lookup f s);
}

or_empty : Option Files → Files
or_empty none = []
or_empty (some s) = s

same_files : {s t : Files} → some s ≡ some t → s ≡ t
unfolding or_empty
same_files e = ap or_empty e

lookup-head : (f bytes : Text) (s : Files) → lookup f ((f, bytes) ∷ s) ≡ some bytes
unfolding lookup
lookup-head f bytes s = if_true (text_eq f f) _ _ (text_eq_refl f)

lookup-other : (f g bytes : Text) (s : Files) → f ≢ g → lookup g ((f, bytes) ∷ s) ≡ lookup g s
unfolding lookup
lookup-other f g bytes s h = elim (Bool-cases (text_eq f g)) [
  | inl e ↦ absurd (h (text_eq→≡ f g e))
  | inr e ↦ if_false (text_eq f g) _ _ e
]

lookup-without : (f : Text) (s : Files) → lookup f (without f s) ≡ none
unfolding lookup without
lookup-without f [] = refl
lookup-without f ((g, bytes) ∷ s) = ground (arith, lookup-without f s)

write_to-head :
    (f : Text) (at : ℕ) (bytes old : Text) (s : Files)
    → lookup f s ≡ some old
    → lookup f (write_to s f at bytes (lookup f s)) ≡ some (overlay at bytes old)
unfolding write_to
write_to-head f at bytes old s h = rw h (lookup-head f (overlay at bytes old) s)

write_to-other :
    (f g : Text) (at : ℕ) (bytes : Text) (old : Option Text) (s : Files)
    → f ≢ g
    → lookup g (write_to s f at bytes old) ≡ lookup g s
unfolding write_to
write_to-other f g at bytes none s h = refl
write_to-other f g at bytes (some old) s h = lookup-other f g (overlay at bytes old) s h

pub memory_disk-IsLawful : IsLawful memory_disk
memory_disk-IsLawful = record {
  creat-stat = λ s s' f new made.
      subst (λ t. (memory_disk.stat t f ≢ none) × (memory_disk.contents t f ≡ some []))
        (same_files made) (rw (lookup-head f [] s) (λ h. ground arith), lookup-head f [] s);
  remove-stat = λ s s' f gone.
      subst (λ t. memory_disk.stat t f ≡ none) (same_files gone) (rw (lookup-without f s) refl);
  truncate-contents = λ s s' f cut.
      subst (λ t. memory_disk.contents t f ≡ some []) (same_files cut) (lookup-head f [] s);
  write_at-contents = λ s f at bytes old found. write_to-head f at bytes old s found;
  write_at-other = λ s f g at bytes h. write_to-other f g at bytes (lookup f s) s h;
  truncate-other = λ s s' f g h cut.
      subst (λ t. memory_disk.contents t g ≡ memory_disk.contents s g) (same_files cut)
        (lookup-other f g [] s h);
}
