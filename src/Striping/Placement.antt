-- ===== src/Striping/Placement.antt =====
-- Every block of a file has one place on one of its servers.
use native.Mathlib.Nat.{div-add-mod', mod-lt, div-eq_of_lt-le}
use cse511_project.Prelude.{
  ℕ, zero, suc, false, ◌+◌, ◌*◌, ◌/◌, ◌%◌, ◌≤◌, ◌<◌, ◌≡◌, ap, Option, some, pos, Text, ◌==◌, refl,
  sym, ◌∙◌, arith,
}
use cse511_project.Striping.{
  strip_size, server_number, offset_within, server_place, corresponding_server, to_size,
}

-- The block at place `k` of server `s`.
abbrev pub block_at : ℕ → ℕ → ℕ → ℕ
block_at w s k = (k / strip_size * w + s) * strip_size + k % strip_size

-- For a positive stripe width `w` the server of a block is one of the first `w`, and block and place
-- determine each other: the block is the one at its place, and the block at place `k` of server `s`,
-- one of the first `w`, has that server and place.
pub striping_exact :
    (w b s k : ℕ)
    → 0 < w
    → s < w
    → (server_number b w < w)
      × (block_at w (server_number b w) (offset_within b w) ≡ b)
      × (server_number (block_at w s k) w ≡ s)
      × (offset_within (block_at w s k) w ≡ k)
unfolding server_number offset_within
striping_exact w b s k h g =
    let (in_range, there) = forth b in
    let (server, place) = back s k g in (in_range, there, server, place)
  where
    forth : (b : ℕ) → (b / 4 % w < w) × (block_at w (b / 4 % w) (b / 4 / w * 4 + b % 4) ≡ b)
    forth b =
        let row : (b / 4 / w * 4 + b % 4) / 4 ≡ b / 4 / w = omega arith in
        let col : (b / 4 / w * 4 + b % 4) % 4 ≡ b % 4 = omega arith in
        (mod-lt (b / 4) h, rw (row, col) (omega (arith, div-add-mod' (b / 4) w)))

    back :
        (s k : ℕ)
        → s < w
        → (block_at w s k / 4 % w ≡ s) × (block_at w s k / 4 / w * 4 + block_at w s k % 4 ≡ k)
    back s k g =
        let row : block_at w s k / 4 ≡ k / 4 * w + s = omega arith in
        let col : block_at w s k % 4 ≡ k % 4 = omega arith in
        let quot : (k / 4 * w + s) / w ≡ k / 4 = div-eq_of_lt-le _ (omega arith) (omega arith) in
        (
          rw row (omega (arith, div-add-mod' (k / 4 * w + s) w, ap (λ (t : ℕ). t * w) quot)),
          rw (row, col, quot) (omega arith),
        )

server_place-injective : (a b : ℕ) → a < 5 → b < 5 → server_place a ≡ server_place b → a ≡ b
unfolding server_place
server_place-injective a b h g e = ground arith

server_place_set : (a : ℕ) → a < 5 → (p : Text × ℕ) × (server_place a ≡ some p)
unfolding server_place
server_place_set zero h = (_, refl)
server_place_set (suc zero) h = (_, refl)
server_place_set (suc (suc zero)) h = (_, refl)
server_place_set (suc (suc (suc zero))) h = (_, refl)
server_place_set (suc (suc (suc (suc zero)))) h = (_, refl)
server_place_set (suc (suc (suc (suc (suc a))))) h = absurd (omega arith)

pub corresponding_server_lem :
    (w b : ℕ)
    → 0 < w
    → w ≤ 5
    → corresponding_server b (pos w) ≡ some (server_place (server_number b w), offset_within b w)
unfolding corresponding_server
corresponding_server_lem w b h g =
    let size : to_size (pos w) ≡ w = omega arith in
    let small : (w == 0) ≡ false = ground arith in rw (size, small) refl

same_place :
    (w b c : ℕ)
    → (server_place (server_number b w) ≡ server_place (server_number c w)
        → server_number b w ≡ server_number c w)
    → block_at w (server_number b w) (offset_within b w) ≡ b
    → block_at w (server_number c w) (offset_within c w) ≡ c
    → ◌≡◌ {A = Option (Option (Text × ℕ) × ℕ)}
        (some (server_place (server_number b w), offset_within b w))
        (some (server_place (server_number c w), offset_within c w))
    → b ≡ c
same_place w b c same hb hc e =
    let places : server_place (server_number b w) ≡ server_place (server_number c w) = cc in
    let offsets : offset_within b w ≡ offset_within c w = cc in
    sym hb ∙ rw (same places, offsets) hc

-- For a stripe width from 1 to 5, two blocks that get the same address and place are the same block,
-- and the address is that of a server.
pub corresponding_server-injective :
    (w : ℕ)
    → 0 < w
    → w ≤ 5
    → (b c : ℕ) → corresponding_server b (pos w) ≡ corresponding_server c (pos w)
    → ((p : Text × ℕ) × (corresponding_server b (pos w) ≡ some (some p, offset_within b w)))
      × (b ≡ c)
corresponding_server-injective w h g b c e =
    let exact = λ (d : ℕ). striping_exact w d 0 0 h h in
    let (p, at) = server_place_set (server_number b w) (omega (arith, (exact b).0)) in
    (
      (p, corresponding_server_lem w b h g ∙ rw at refl),
      same_place w b c
          (server_place-injective _ _ (omega (arith, (exact b).0)) (omega (arith, (exact c).0)))
          (exact b).1 (exact c).1
          (sym (corresponding_server_lem w b h g) ∙ e ∙ corresponding_server_lem w c h g),
    )
