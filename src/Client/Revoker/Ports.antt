-- ===== src/Client/Revoker/Ports.antt =====
-- The ports of the clients of one machine.
use cse511_project.Prelude.{
  ℕ, ◌≡◌, refl, Bool, true, false, List, [], ◌∷◌, Option, none, some, All, Bool-cases, inl, inr,
  ◌⊎◌,
}
use cse511_project.Client.Revoker.{free_port}

abbrev pub Includes : ℕ → List ℕ → Type 0
Includes p [] = ⊥
Includes p (q ∷ l) = (q ≡ p) ⊎ Includes p l

-- What the port found is; where none is found, each port is in use.
abbrev pub Chosen : (ℕ → Bool) → List ℕ → Option ℕ → Type 0
Chosen is_open ports none = All (λ p. is_open p ≡ true) ports
Chosen is_open ports (some port) = (is_open port ≡ false) × Includes port ports

taken :
    (is_open : ℕ → Bool) (port : ℕ) (ports : List ℕ) (found : Option ℕ)
    → is_open port ≡ true
    → Chosen is_open ports found
    → Chosen is_open (port ∷ ports) found
taken is_open port ports none e h = (e, h)
taken is_open port ports (some p) e h = (h.0, inr h.1)

-- The thread takes a port of the list that is not in use, or all are.
pub free_port-Chosen :
    (is_open : ℕ → Bool) (ports : List ℕ) → Chosen is_open ports (free_port is_open ports)
unfolding free_port
free_port-Chosen is_open [] = tt
free_port-Chosen is_open (port ∷ ports) = elim (Bool-cases (is_open port)) [
  | inl e ↦
      rw e (taken is_open port ports (free_port is_open ports) e (free_port-Chosen is_open ports))
  | inr e ↦ rw e (e, inl refl)
]
