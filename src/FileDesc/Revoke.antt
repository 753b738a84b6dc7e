-- ===== src/FileDesc/Revoke.antt =====
-- `revokePermission`: the answer to a revocation, and which descriptor it reaches.
use cse511_project.Prelude.{
  get_elem?_lt, ℕ, zero, suc, ◌+◌, ◌≤◌, ◌<◌, ◌≡◌, refl, ◌++◌, true, false, List, [], ◌∷◌, none,
  some, length, get_elem?, set, get_elem?-set_self, ℤ, to_unsigned, Text, text_eq, arith, if_true,
  if_false, ◌∙◌,
}
use cse511_project.Strings.{int_to_string}
use cse511_project.Interval.{mk, u32_mod}
use cse511_project.TokenMap.Order.{IsMap}
use cse511_project.FileDesc.Permission.{Tokens}
use cse511_project.TokenMap.Cut.{Without}
use cse511_project.FileDesc.Permission.Remove.{remove_permission-Without}
use cse511_project.FileDesc.{
  FileDescriptor, OpenFileEntry, last_named, revoke_permission, not_open_response,
}
use cse511_project.FileDesc.Table.{SameBut, set-SameBut}

-- No entry of the list has the name.
abbrev pub Unnamed : Text → List OpenFileEntry → Type 0
Unnamed n [] = Unit {0}
Unnamed n (e ∷ t) = (text_eq e.name n ≡ false) × Unnamed n t

-- Entry `j` has the name, and no entry after it does.
abbrev pub LastNamed : Text → List OpenFileEntry → ℕ → OpenFileEntry → Type 0
LastNamed n [] j e = ⊥
LastNamed n (x ∷ t) zero e = (x ≡ e) × (text_eq x.name n ≡ true) × Unnamed n t
LastNamed n (x ∷ t) (suc j) e = LastNamed n t j e

last_named-none :
    (i : ℕ) (n : Text) (t : List OpenFileEntry) → Unnamed n t → last_named i n t ≡ none
unfolding last_named
last_named-none i n [] h = refl
last_named-none i n (e ∷ t) h = rw (last_named-none (suc i) n t h.1, last_named) (rw h.0 refl)

last_named-some :
    (i j : ℕ) (n : Text) (t : List OpenFileEntry) (e : OpenFileEntry)
    → LastNamed n t j e
    → (last_named i n t ≡ some (i + j)) × (get_elem? t j ≡ some e)
unfolding last_named
last_named-some i j n [] e h = elim h [ ]
last_named-some i zero n (x ∷ t) e h =
    (rw (last_named-none (suc i) n t h.2, last_named) (rw (h.1) (ground arith)), ground arith)
last_named-some i (suc j) n (x ∷ t) e h =
    let rest = last_named-some (suc i) j n t e h in (rw (rest.0, last_named) (ground arith), rest.1)

last_named_at :
    (j : ℕ) (n : Text) (t : List OpenFileEntry) (e : OpenFileEntry)
    → LastNamed n t j e
    → (last_named 0 n t ≡ some j) × (get_elem? t j ≡ some e)
last_named_at j n t e h =
    let (found, at) = last_named-some 0 j n t e h in
    let index : 0 + j ≡ j = omega arith in (rw index at found, at)

module _ (fuel : ℕ) (d : FileDescriptor) (file_name : Text) (start end : ℤ) (j : ℕ)
    (e : OpenFileEntry) (named : LastNamed file_name d.ofdt j e) where
  -- Where the last entry with the file's name is open and its token map is in order, for a range of
  -- blocks and more fuel than tokens, `revokePermission` answers the range, the entry loses the
  -- tokens of the range and no others, and every other entry stays.
  pub revoke_permission_open :
      e.is_open ≡ true
      → IsMap e.tokens
      → to_unsigned start ≤ to_unsigned end
      → to_unsigned end < u32_mod
      → length e.tokens < fuel
      → (m : Tokens) × (d' : FileDescriptor) × (revoke_permission fuel d file_name start end
          ≡ some (int_to_string start ++ b' ' ∷ int_to_string end, d'))
        × (get_elem? d'.ofdt j ≡ some (record e { tokens = m }))
        × Without (mk (to_unsigned start) (to_unsigned end)) e.tokens m
        × SameBut j d.ofdt d'.ofdt
  unfolding revoke_permission
  revoke_permission_open held wf le bound enough =
      let (found, at) = last_named_at j file_name d.ofdt e named in
      let (m, run, gone) =
        remove_permission-Without fuel e.tokens (to_unsigned start) (to_unsigned end) wf le bound
          enough in
      let new = record e { tokens = m } in
      (
        m,
        record d { ofdt = set d.ofdt j new },
        rw (found, revoke_permission)
            (rw (at, revoke_permission) (if_true e.is_open _ _ held ∙ rw run refl)),
        get_elem?-set_self d.ofdt j new (get_elem?_lt d.ofdt j at),
        gone,
        set-SameBut d.ofdt j new,
      )

  -- Where the last entry with the file's name is closed, no token is taken from any entry, also
  -- from an open one with that name, and the answer is that of a file that is not open.
  pub revoke_permission_hidden :
      e.is_open ≡ false → revoke_permission fuel d file_name start end ≡ some (not_open_response, d)
  unfolding revoke_permission
  revoke_permission_hidden closed =
      let (found, at) = last_named_at j file_name d.ofdt e named in
      rw (found, revoke_permission) (rw (at, revoke_permission) (if_false e.is_open _ _ closed))

-- Where no entry has the name, nothing is taken.
pub revoke_permission-Unnamed :
    (fuel : ℕ) (d : FileDescriptor) (file_name : Text) (start end : ℤ)
    → Unnamed file_name d.ofdt
    → revoke_permission fuel d file_name start end ≡ some (not_open_response, d)
unfolding revoke_permission
revoke_permission-Unnamed fuel d file_name start end h =
    rw (last_named-none 0 file_name d.ofdt h, revoke_permission) refl
