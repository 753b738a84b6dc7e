-- ===== src/FileDesc/Permission/Fits.antt =====
-- The entries of a token map that `addPermission` with mode 'w' can take blocks from.
use cse511_project.Prelude.{ℕ, ◌≤◌, ◌<◌, ◌≡◌, refl, ◌⊎◌, inl, some, [], ◌∷◌, arith}
use cse511_project.Interval.{Interval}
use cse511_project.TokenMap.{find, insert, erase}
use cse511_project.FileDesc.Permission.{Tokens}

-- The entry has mode 'r', or mode 'w' and does not reach from before `bl` to its end.
abbrev pub Fit : Interval → Interval × ℕ → Type 0
Fit bl it =
    (it.1 ≡ b'r') ⊎ ((it.1 ≡ b'w') × ((bl.m_start ≤ it.0.m_start) ⊎ (it.0.m_end < bl.m_end)))

abbrev pub Fits : Interval → Tokens → Type 0
Fits bl [] = Unit {0}
Fits bl (e ∷ m) = Fit bl e × Fits bl m

pub Fits-erase : (bl k : Interval) (m : Tokens) → Fits bl m → Fits bl (erase k m)
unfolding erase
Fits-erase bl k [] f = tt
Fits-erase bl k (e ∷ m) f = ground (arith, Fits-erase bl k m f.1)

pub Fits-insert : (bl k : Interval) (m : Tokens) → Fits bl m → Fits bl (insert k b'r' m)
unfolding insert
Fits-insert bl k [] f = (inl refl, tt)
Fits-insert bl k (e ∷ m) f = ground (arith, Fits-insert bl k m f.1)

pub Fits-found :
    (bl k : Interval) (m : Tokens) (e : Interval × ℕ) → Fits bl m → find k m ≡ some e → Fit bl e
unfolding find
Fits-found bl k [] e f h = ground arith
Fits-found bl k (x ∷ m) e f h = ground (arith, Fits-found bl k m e f.1)

pub Fits-grow :
    (bl bl' : Interval) (m : Tokens)
    → bl'.m_start ≤ bl.m_start
    → bl.m_end ≤ bl'.m_end
    → Fits bl m
    → Fits bl' m
Fits-grow bl bl' [] h g f = tt
Fits-grow bl bl' (e ∷ m) h g f = (ground arith, Fits-grow bl bl' m h g f.1)
