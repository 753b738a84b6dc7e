-- ===== src/Client/Blocks/Copies.antt =====
-- Copying bytes of the caller's buffer into a block.
use mathlib.Core.Option
use cse511_project.Prelude.{
  ℕ, zero, suc, ◌+◌, ◌≤◌, ◌<◌, ◌≡◌, refl, ◌∙◌, sym, ap, subst, [], ◌∷◌, ◌++◌, none, some, Text, All,
  length, replicate, set, get_elem?, arith, if_false, ◌==◌, append_assoc, append-nil, length-append,
  Option-cases, inl, inr,
}
use cse511_project.Metadata.Dispatch.Handled.{NotZero}
use cse511_project.Client.Blocks.{copy_bytes, c_data}

get_elem?-here : (done rest : Text) (c : ℕ) → get_elem? (done ++ c ∷ rest) (length done) ≡ some c
get_elem?-here [] rest c = refl
get_elem?-here (d ∷ done) rest c = get_elem?-here done rest c

set-here : (done rest : Text) (a c : ℕ) → set (done ++ a ∷ rest) (length done) c ≡ done ++ c ∷ rest
set-here [] rest a c = refl
set-here (d ∷ done) rest a c = ap (◌∷◌ d) (set-here done rest a c)

get_elem?-outside : (s : Text) (i : ℕ) → length s ≤ i → get_elem? s i ≡ none
get_elem?-outside [] i h = refl
get_elem?-outside (c ∷ s) zero h = absurd (omega arith)
get_elem?-outside (c ∷ s) (suc i) h = get_elem?-outside s i (omega arith)

pub copy_bytes_step :
    (rounds j base : ℕ) (buf array : Text) (v : ℕ)
    → get_elem? buf (base + j) ≡ some v
    → copy_bytes (suc rounds) j base buf array ≡ copy_bytes rounds (suc j) base buf (set array j v)
unfolding copy_bytes
copy_bytes_step rounds j base buf array v h = rw (h, copy_bytes) refl

copy_bytes-append :
    (done rest more : Text) (k : ℕ)
    → copy_bytes
        (length rest)
        (length done)
        0
        (done ++ (rest ++ more))
        (done ++ (replicate (length rest) 0 ++ replicate k 0))
      ≡ some (done ++ rest ++ replicate k 0)
unfolding copy_bytes
copy_bytes-append done [] more k = ap some (ap (λ t. t ++ replicate k 0) (sym (append-nil done)))
copy_bytes-append done (c ∷ rest) more k =
    let zeros : Text = replicate (length rest) 0 ++ replicate k 0 in
    let tail : Text = rest ++ more in
    let one : length (done ++ c ∷ []) ≡ suc (length done) =
      omega (arith, length-append done (c ∷ [])) in
    let at : get_elem? (done ++ c ∷ tail) (0 + length done) ≡ some c =
      subst (λ i. get_elem? (done ++ c ∷ tail) i ≡ some c) (omega arith)
        (get_elem?-here done tail c) in
    let rounds = copy_bytes (length rest) in
    copy_bytes_step (length rest) (length done) 0 (done ++ c ∷ tail) (done ++ 0 ∷ zeros) c at
    ∙ ap (rounds (suc (length done)) 0 (done ++ c ∷ tail)) (set-here done zeros 0 c)
    ∙ ap (λ n. rounds n 0 (done ++ c ∷ tail) (done ++ c ∷ zeros)) (sym one)
    ∙ ap (λ t. rounds (length (done ++ c ∷ [])) 0 t (done ++ c ∷ zeros))
        (sym (append_assoc done (c ∷ []) tail))
    ∙ ap (rounds (length (done ++ c ∷ [])) 0 (done ++ c ∷ [] ++ tail))
        (sym (append_assoc done (c ∷ []) zeros))
    ∙ copy_bytes-append (done ++ c ∷ []) rest more k
    ∙ ap (λ t. some (t ++ replicate k 0)) (append_assoc done (c ∷ []) rest)

-- The copy of the front of a buffer to the front of an array of zeros.
pub copy_bytes_front :
    (buf more : Text) (k : ℕ)
    → copy_bytes (length buf) 0 0 (buf ++ more) (replicate (length buf) 0 ++ replicate k 0)
      ≡ some (buf ++ replicate k 0)
copy_bytes_front buf more k = copy_bytes-append [] buf more k

pub c_data-append : (buf rest : Text) → All NotZero buf → c_data (buf ++ 0 ∷ rest) ≡ some buf
unfolding c_data
c_data-append [] rest h = refl
c_data-append (c ∷ buf) rest h =
    if_false (c == 0) _ _ h.0 ∙ ap (Option.map (◌∷◌ c)) (c_data-append buf rest h.1)

pub c_data-none : (bytes : Text) → All NotZero bytes → c_data bytes ≡ none
unfolding c_data
c_data-none [] h = refl
c_data-none (c ∷ bytes) h =
    if_false (c == 0) _ _ h.0 ∙ ap (Option.map (◌∷◌ c)) (c_data-none bytes h.1)

-- Where the bytes that are wanted reach behind the buffer, the copy reads outside of it.
pub copy_bytes_outside :
    (rounds j base : ℕ) (buf array : Text)
    → 0 < rounds
    → length buf < base + j + rounds
    → copy_bytes rounds j base buf array ≡ none
unfolding copy_bytes
copy_bytes_outside zero j base buf array p h = absurd (omega arith)
copy_bytes_outside (suc zero) j base buf array p h =
    rw (get_elem?-outside buf (base + j) (omega (arith, h)), copy_bytes) refl
copy_bytes_outside (suc (suc rounds)) j base buf array p h =
    elim (Option-cases (get_elem? buf (base + j))) [
      | inl e ↦ rw (e, copy_bytes) refl
      | inr (v, e) ↦
          rw (e, copy_bytes)
            (copy_bytes_outside (suc rounds) (suc j) base buf (set array j v) (omega arith)
              (omega (arith, h)))
    ]
