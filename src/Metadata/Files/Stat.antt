-- ===== src/Metadata/Files/Stat.antt =====
-- What `execFunc_fstat` adds up.
use cse511_project.Prelude.{
  ℕ, ◌+◌, ◌%◌, ◌^◌, ◌≡◌, ◌∙◌, refl, ap, Bool, true, false, List, [], ◌∷◌, ◌++◌, some, ℤ, pos, ltb,
  ltb_ℤ, map, Text, codes, text_eq, All, arith, if◌then◌else◌, ◌<◌, if_false, Bool-cases, inl, inr,
}
use cse511_project.Strings.{to_string, int_to_string}
use cse511_project.Strings.Decimal.{
  NotSpace, IsDigit, to_string-IsDigit, to_string-NotSpace, trim_solid, next_token-append,
  next_token_last, atoi-to_string_int,
}
use cse511_project.Striping.{to_size}
use cse511_project.Metadata.{FileEntry, Mdm, find_file, responds}
use cse511_project.Metadata.Files.{
  is_nack, Totals, stat_string, stat_fields, add_stat, stat_loop, stat_response, finish_fstat,
  exec_fstat,
}

-- The servers of a mask whose first bit is that of server `i`.
unfoldable pub servers_of : ℕ → List Bool → List ℕ
servers_of i [] = []
servers_of i (true ∷ mask) = i ∷ servers_of (i + 1) mask
servers_of i (false ∷ mask) = servers_of (i + 1) mask

-- What a server has of a file.
pub record Share : Type 0 where
  pub size : ℕ
  pub mtime : ℕ
  pub ctime : ℕ

-- The answer of a file server for its share: the size, the modification time and the change time.
abbrev pub share_text : Share → Text
share_text p = to_string p.size ++ b' ' ∷ (to_string p.mtime ++ b' ' ∷ to_string p.ctime)

-- The numbers are those of an `int`.
abbrev pub IsSmall : Share → Type 0
IsSmall p = (p.size < 2 ^ 31) × (p.mtime < 2 ^ 31) × (p.ctime < 2 ^ 31)

-- The server answers for its share.
abbrev pub Tells : (ℕ → Text → Text) → Text → (ℕ → Share) → ℕ → Type 0
Tells reply name share i =
    (reply i (codes "fstat " ++ name) ≡ share_text (share i)) × IsSmall (share i)

unfoldable pub sum : List ℕ → ℕ
sum [] = 0
sum (n ∷ l) = n + sum l

unfoldable pub maximum : List ℕ → ℕ
maximum [] = 0
maximum (n ∷ l) = let rest = maximum l in if ltb n rest then rest else n

-- Digits before a space are not "nack".
share_text-is_nack : (d rest : Text) → All IsDigit d → is_nack (d ++ b' ' ∷ rest) ≡ false
unfolding text_eq
share_text-is_nack [] rest h = refl
share_text-is_nack (c ∷ d) rest h = ground (arith, h.0)

share_text-stat_fields :
    (p : Share) → IsSmall p → stat_fields (share_text p) ≡ (pos p.size, pos p.mtime, pos p.ctime)
share_text-stat_fields p small =
    let solid = to_string-NotSpace in
    rw
      (next_token-append (to_string p.size) (to_string p.mtime ++ b' ' ∷ to_string p.ctime)
        (solid p.size))
      (rw (next_token-append (to_string p.mtime) (to_string p.ctime) (solid p.mtime)) (
        rw (next_token_last (to_string p.ctime) (solid p.ctime)) (
          rw (trim_solid (to_string p.size) (solid p.size)) (
            rw (trim_solid (to_string p.mtime) (solid p.mtime)) (
              rw (trim_solid (to_string p.ctime) (solid p.ctime)) (
                rw (atoi-to_string_int p.size small.0) (
                  rw (atoi-to_string_int p.mtime small.1)
                    (rw (atoi-to_string_int p.ctime small.2) refl))))))))

abbrev totals_of : ℕ → ℤ → ℤ → Totals
totals_of total mtime ctime = record { total_size = total; last_mtime = mtime; last_ctime = ctime }

abbrev totals : ℕ → ℕ → ℕ → Totals
totals total mtime ctime = totals_of total (pos mtime) (pos ctime)

totals-ap : (a a' m m' c c' : ℕ) → a ≡ a' → m ≡ m' → c ≡ c' → totals a m c ≡ totals a' m' c'
totals-ap a a' m m' c c' h g k =
    ap (λ n. totals n m c) h ∙ ap (λ n. totals a' n c) g ∙ ap (λ n. totals a' m' n) k

bigger : ℕ → ℕ → ℕ
bigger m n = if ltb m n then n else m

pos_bigger : (m n : ℕ) → (if ltb_ℤ (pos m) (pos n) then pos n else pos m) ≡ pos (bigger m n)
unfolding bigger
pos_bigger m n = elim (Bool-cases (ltb m n)) [ inl e ↦ rw e refl | inr e ↦ rw e refl ]

bigger-bigger : (m n k : ℕ) → bigger (bigger m n) k ≡ bigger m (bigger n k)
unfolding bigger
bigger-bigger m n k = ground arith

maximum_cons : (n : ℕ) (l : List ℕ) → maximum (n ∷ l) ≡ bigger n (maximum l)
unfolding maximum bigger
maximum_cons n l = refl

add_stat_lem :
    (total m c : ℕ) (p : Share)
    → add_stat (totals total m c) (pos p.size, pos p.mtime, pos p.ctime)
      ≡ totals ((total + p.size) % 2 ^ 64) (bigger m p.mtime) (bigger c p.ctime)
add_stat_lem total m c p =
    let now = (total + p.size) % 2 ^ 64 in
    let same : (total + to_size (pos p.size)) % 2 ^ 64 ≡ now = omega arith in
    ap
      (λ n.
        totals_of n (if ltb_ℤ (pos m) (pos p.mtime) then pos p.mtime else pos m)
          (if ltb_ℤ (pos c) (pos p.ctime) then pos p.ctime else pos c))
      same
    ∙ ap (λ z. totals_of now z (if ltb_ℤ (pos c) (pos p.ctime) then pos p.ctime else pos c))
        (pos_bigger m p.mtime)
    ∙ ap (totals_of now (pos (bigger m p.mtime))) (pos_bigger c p.ctime)

module _ (reply : ℕ → Text → Text) (name : Text) (share : ℕ → Share) where
  abbrev pub sizes : List ℕ → List ℕ
  sizes servers = map (λ i. (share i).size) servers

  abbrev pub mtimes : List ℕ → List ℕ
  mtimes servers = map (λ i. (share i).mtime) servers

  abbrev pub ctimes : List ℕ → List ℕ
  ctimes servers = map (λ i. (share i).ctime) servers

  -- The totals at the end of a loop that starts at some.
  abbrev ends : ℕ → ℕ → ℕ → List ℕ → Totals
  ends total m c servers =
      totals ((total + sum (sizes servers)) % 2 ^ 64) (bigger m (maximum (mtimes servers)))
        (bigger c (maximum (ctimes servers)))

  ends_cons :
      (total m c i : ℕ) (servers : List ℕ)
      → ends
          ((total + (share i).size) % 2 ^ 64)
          (bigger m (share i).mtime)
          (bigger c (share i).ctime)
          servers
        ≡ ends total m c (i ∷ servers)
  unfolding sum maximum bigger
  ends_cons total m c i servers =
      totals-ap _ _ _ _ _ _ (omega arith)
        (bigger-bigger m (share i).mtime (maximum (mtimes servers)))
        (bigger-bigger c (share i).ctime (maximum (ctimes servers)))

  abbrev ends_of : List ℕ → Totals
  ends_of servers =
      totals (sum (sizes servers) % 2 ^ 64) (maximum (mtimes servers)) (maximum (ctimes servers))

  ends_zero : (servers : List ℕ) → ends 0 0 0 servers ≡ ends_of servers
  unfolding bigger
  ends_zero servers =
      totals-ap ((0 + sum (sizes servers)) % 2 ^ 64) (sum (sizes servers) % 2 ^ 64)
        (bigger 0 (maximum (mtimes servers))) (maximum (mtimes servers))
        (bigger 0 (maximum (ctimes servers))) (maximum (ctimes servers)) (omega arith)
        (ground arith) (ground arith)

  stat_loop-ends :
      (mask : List Bool) (i total m c : ℕ)
      → total < 2 ^ 64
      → All (Tells reply name share) (servers_of i mask)
      → stat_loop reply i mask name (totals total m c) ≡ some (ends total m c (servers_of i mask))
  unfolding servers_of stat_loop sum maximum bigger
  stat_loop-ends [] i total m c h told =
      ap some (totals-ap _ _ _ _ _ _ (omega (arith, h)) (ground arith) (ground arith))
  stat_loop-ends (false ∷ mask) i total m c h told = stat_loop-ends mask (i + 1) total m c h told
  stat_loop-ends (true ∷ mask) i total m c h told =
      let p = share i in
      let (answer, small) = told.0 in
      let not_nack =
        ap is_nack answer ∙ share_text-is_nack (to_string p.size) _ (to_string-IsDigit p.size) in
      let fields = ap stat_fields answer ∙ share_text-stat_fields p small in
      if_false (is_nack (reply i (codes "fstat " ++ name))) _ _ not_nack
      ∙ ap (λ f. stat_loop reply (i + 1) mask name (add_stat (totals total m c) f)) fields
      ∙ ap (stat_loop reply (i + 1) mask name) (add_stat_lem total m c p)
      ∙ stat_loop-ends mask (i + 1) ((total + p.size) % 2 ^ 64) (bigger m p.mtime)
          (bigger c p.ctime) (omega arith) told.1
      ∙ ap some (ends_cons total m c i (servers_of (i + 1) mask))

  -- For a name without white space that the table has, with the lock free, and file servers that each
  -- answer with the size, the modification time and the change time of their share, numbers below 2^31:
  -- `execFunc_fstat` answers the sum of the sizes over the servers of the file's mask, modulo 2^64 (a
  -- `size_t`), the latest modification time and the latest change time, in this order (0 where the mask
  -- is empty), and leaves the table as it was and the lock free.
  pub exec_fstat_sums :
      (s : Mdm) (e : FileEntry)
      → All NotSpace name
      → s.gft_lock ≡ false
      → find_file name s.general_file_table ≡ some e
      → All (Tells reply name share) (servers_of 0 e.file_recipe.stripe_mask)
      → exec_fstat reply name s
        ≡ responds
            (to_string (sum (sizes (servers_of 0 e.file_recipe.stripe_mask)) % 2 ^ 64)
              ++ b' '
                ∷ (to_string (maximum (mtimes (servers_of 0 e.file_recipe.stripe_mask)))
                    ++ b' '
                      ∷ to_string (maximum (ctimes (servers_of 0 e.file_recipe.stripe_mask)))))
            (record s { gft_lock = false })
  unfolding exec_fstat finish_fstat stat_response int_to_string bigger
  exec_fstat_sums s e solid free found told =
      let servers = servers_of 0 e.file_recipe.stripe_mask in
      let loop = stat_loop-ends e.file_recipe.stripe_mask 0 0 0 0 (omega arith) told in
      if_false s.gft_lock _ _ free
      ∙ rw (next_token_last name solid) (
          rw found (
            ap (stat_response reply (record s { gft_lock = true })) loop
            ∙ ap (λ (t : Totals). responds (stat_string t) (record s { gft_lock = false }))
                (ends_zero servers)))
