-- ===== src/TokenMap.antt =====
-- `map<Interval, V, mycomparison>` as FileDesc.cc and MetadataManager.cc use it: the entries in
-- the order of the keys. Two keys are equivalent when neither ends before the other starts.
pub mod Order
pub mod Blocks
pub mod Cut
use cse511_project.Prelude.{List, [], ◌∷◌, Option, none, some, if◌then◌else◌}
use cse511_project.Interval.{Interval, less}

abbrev pub TokenMap {ℓ} : Type ℓ → Type ℓ
TokenMap V = List (Interval × V)

module _ {ℓ} {V : Type ℓ} where
  -- `find`: the first entry that is not less than the key, if the key is not less than it.
  unfoldable pub find : Interval → TokenMap V → Option (Interval × V)
  find k [] = none
  find k (e ∷ m) = if less e.0 k then find k m else if less k e.0 then none else some e

  -- `insert(make_pair(k, v))`: nothing happens where an equivalent key is present.
  unfoldable pub insert : Interval → V → TokenMap V → TokenMap V
  insert k v [] = (k, v) ∷ []
  insert k v (e ∷ m) =
      if less e.0 k then e ∷ insert k v m else if less k e.0 then (k, v) ∷ e ∷ m else e ∷ m

  -- `erase(it)`, where `it` stands at the entry with key `k`.
  unfoldable pub erase : Interval → TokenMap V → TokenMap V
  erase k [] = []
  erase k (e ∷ m) = if less e.0 k then e ∷ erase k m else if less k e.0 then e ∷ m else m

  -- `erase(k)`: every entry with an equivalent key.
  unfoldable pub erase_key : Interval → TokenMap V → TokenMap V
  erase_key k [] = []
  erase_key k (e ∷ m) =
      if less e.0 k then e ∷ erase_key k m else if less k e.0 then e ∷ m else erase_key k m
