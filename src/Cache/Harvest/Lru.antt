-- ===== src/Cache/Harvest/Lru.antt =====
-- Harvesting takes the clean blocks that were used longest ago.
use cse511_project.Prelude.{
  ℕ, suc, ◌≤◌, ◌<◌, ◌≡◌, refl, ◌∙◌, sym, subst, ◌⊎◌, inl, inr, Bool, true, false, ◌||◌, List, [],
  ◌∷◌, arith, length, ltb, leb, ◌==◌, if_true, if_false, Bool-cases,
}
use cse511_project.Cache.{Block, Used}
use cse511_project.Cache.Harvest.{push, offer, harvest_scan}

-- The blocks of the queue were used last at time `n` at the latest.
abbrev pub AtMost : ℕ → List Block → Type 0
AtMost n [] = Unit
AtMost n (x ∷ q) = (x.access_time ≤ n) × AtMost n q

abbrev pub IsDescending : List Block → Type 0
IsDescending [] = Unit
IsDescending (x ∷ q) = AtMost x.access_time q × IsDescending q

abbrev pub in_queue : ℕ → List Block → Bool
in_queue k [] = false
in_queue k (x ∷ q) = x.block_adr == k || in_queue k q

pub AtMost-mono : (n n' : ℕ) (q : List Block) → n ≤ n' → AtMost n q → AtMost n' q
AtMost-mono n n' [] h a = tt
AtMost-mono n n' (x ∷ q) h a = (omega (arith, a.0), AtMost-mono n n' q h a.1)

push-AtMost :
    (n : ℕ) (b : Block) (q : List Block) → b.access_time ≤ n → AtMost n q → AtMost n (push b q)
unfolding push
push-AtMost n b [] h a = (h, tt)
push-AtMost n b (x ∷ q) h a = elim (Bool-cases (ltb b.access_time x.access_time)) [
  | inl t ↦ subst (AtMost n) (sym (if_true _ _ _ t)) (a.0, push-AtMost n b q h a.1)
  | inr t ↦ subst (AtMost n) (sym (if_false _ _ _ t)) (h, a)
]

pub push-IsDescending : (b : Block) (q : List Block) → IsDescending q → IsDescending (push b q)
unfolding push
push-IsDescending b [] d = (tt, tt)
push-IsDescending b (x ∷ q) d = elim (Bool-cases (ltb b.access_time x.access_time)) [
  | inl t ↦
      subst IsDescending (sym (if_true _ _ _ t))
        (push-AtMost x.access_time b q (ground (arith, t)) d.0, push-IsDescending b q d.1)
  | inr t ↦
      let le : x.access_time ≤ b.access_time = ground (arith, t) in
      subst IsDescending (sym (if_false _ _ _ t))
        ((le, AtMost-mono x.access_time b.access_time q le d.0), d)
]

pub in_queue-push :
    (k : ℕ) (b : Block) (q : List Block)
    → in_queue k (push b q) ≡ (b.block_adr == k || in_queue k q)
unfolding push
in_queue-push k b [] = refl
in_queue-push k b (x ∷ q) = ground (arith, in_queue-push k b q)

pub length-push : (b : Block) (q : List Block) → length (push b q) ≡ suc (length q)
unfolding push
length-push b [] = refl
length-push b (x ∷ q) = ground (arith, length-push b q)

-- The block is in the queue, or the queue is full of blocks not used later.
abbrev pub Covered : ℕ → Block → List Block → Type 0
Covered k b q = (in_queue b.block_adr q ≡ true) ⊎ ((k ≤ length q) × AtMost b.access_time q)

-- The three cases of an offer.
offer_cases :
    (P : List Block → Type 0) (k : ℕ) (b x : Block) (q : List Block)
    → (k ≤ suc (length q) → b.access_time < x.access_time → P (push b q))
    → (k ≤ suc (length q) → x.access_time ≤ b.access_time → P (x ∷ q))
    → (suc (length q) < k → P (push b (x ∷ q)))
    → P (offer k b (x ∷ q))
unfolding offer
offer_cases P k b x q f g h = elim (Bool-cases (leb k (suc (length q)))) [
  | inl t ↦ elim (Bool-cases (ltb b.access_time x.access_time)) [
    | inl t' ↦
        subst P (sym (if_true _ _ _ t ∙ if_true _ _ _ t'))
          (f (ground (arith, t)) (ground (arith, t')))
    | inr t' ↦
        subst P (sym (if_true _ _ _ t ∙ if_false _ _ _ t'))
          (g (ground (arith, t)) (ground (arith, t')))
  ]
  | inr t ↦ subst P (sym (if_false _ _ _ t)) (h (ground (arith, t)))
]

pub offer-IsDescending :
    (k : ℕ) (b : Block) (q : List Block) → IsDescending q → IsDescending (offer k b q)
unfolding offer
offer-IsDescending k b [] d = (tt, tt)
offer-IsDescending k b (x ∷ q) d =
    offer_cases IsDescending k b x q (λ h g. push-IsDescending b q d.1) (λ h g. d)
      (λ h. push-IsDescending b (x ∷ q) d)

-- The offered block is covered afterwards.
pub offer-Covered_new :
    (k : ℕ) (b : Block) (q : List Block) → IsDescending q → Covered k b (offer k b q)
unfolding offer
offer-Covered_new k b [] d = inl (ground arith)
offer-Covered_new k b (x ∷ q) d =
    offer_cases (Covered k b) k b x q (λ h g. inl (ground (arith, in_queue-push b.block_adr b q)))
      (λ h g. inr (h, (g, AtMost-mono x.access_time b.access_time q g d.0)))
      (λ h. inl (ground (arith, in_queue-push b.block_adr b (x ∷ q))))

-- What was covered stays covered, where the queue has the block itself under its address.
abbrev pub Held : Block → List Block → Type 0
Held b [] = Unit
Held b (x ∷ q) = (x.block_adr ≡ b.block_adr → x.access_time ≡ b.access_time) × Held b q

Held-push :
    (b x : Block) (q : List Block)
    → (x.block_adr ≡ b.block_adr → x.access_time ≡ b.access_time)
    → Held b q
    → Held b (push x q)
unfolding push
Held-push b x [] h d = (h, tt)
Held-push b x (y ∷ q) h d = elim (Bool-cases (ltb x.access_time y.access_time)) [
  | inl t ↦ subst (Held b) (sym (if_true _ _ _ t)) (d.0, Held-push b x q h d.1)
  | inr t ↦ subst (Held b) (sym (if_false _ _ _ t)) (h, d)
]

pub Held-offer :
    (k : ℕ) (b x : Block) (q : List Block)
    → (x.block_adr ≡ b.block_adr → x.access_time ≡ b.access_time)
    → Held b q
    → Held b (offer k x q)
unfolding offer
Held-offer k b x [] h d = (h, tt)
Held-offer k b x (y ∷ q) h d =
    offer_cases (Held b) k x y q (λ g t. Held-push b x q h d.1) (λ g t. d)
      (λ g. Held-push b x (y ∷ q) h d)

-- The top goes, and `x` comes.
replace-Covered :
    (k : ℕ) (b x y : Block) (q : List Block)
    → IsDescending (y ∷ q)
    → Held b (y ∷ q)
    → k ≤ suc (length q)
    → x.access_time < y.access_time
    → Covered k b (y ∷ q)
    → Covered k b (push x q)
replace-Covered k b x y q d held h g (inr c) = inr (
  omega (arith, h, length-push x q),
  push-AtMost b.access_time x q (omega (arith, g, c.1.0)) c.1.1,
)
replace-Covered k b x y q d held h g (inl c) = elim (Bool-cases (y.block_adr == b.block_adr)) [
  | inl t ↦
      let same : y.access_time ≡ b.access_time = held.0 (ground (arith, t)) in
      inr (
        omega (arith, h, length-push x q),
        push-AtMost b.access_time x q (omega (arith, g, same))
            (AtMost-mono y.access_time b.access_time q (omega (arith, same)) d.0),
      )
  | inr t ↦ inl (ground (arith, t, c, in_queue-push b.block_adr x q))
]

push-Covered :
    (k : ℕ) (b x : Block) (q : List Block) → length q < k → Covered k b q → Covered k b (push x q)
push-Covered k b x q h (inl c) = inl (ground (arith, c, in_queue-push b.block_adr x q))
push-Covered k b x q h (inr c) = absurd (omega (arith, h, c.0))

offer-Covered :
    (k : ℕ) (b x : Block) (q : List Block)
    → 0 < k
    → IsDescending q
    → Held b q
    → Covered k b q
    → Covered k b (offer k x q)
unfolding offer
offer-Covered k b x [] p d held (inl h) = absurd (ground (arith, h))
offer-Covered k b x [] p d held (inr h) = absurd (omega (arith, p, h.0))
offer-Covered k b x (y ∷ q) p d held c =
    offer_cases (Covered k b) k x y q (λ h g. replace-Covered k b x y q d held h g c) (λ h g. c)
      (λ h. push-Covered k b x (y ∷ q) h c)

-- An entry with the address of the block is the block's.
abbrev pub Others : Block → Used → Type 0
Others b [] = Unit
Others b ((j, x) ∷ u) = (x.block_adr ≡ b.block_adr → x.access_time ≡ b.access_time) × Others b u

pub scan-Covered :
    (k : ℕ) (b : Block) (q : List Block) (u : Used)
    → 0 < k
    → IsDescending q
    → Held b q
    → Others b u
    → Covered k b q
    → Covered k b (harvest_scan k q u)
unfolding harvest_scan
scan-Covered k b q [] p d held o c = c
scan-Covered k b q ((j, x) ∷ u) p d held o c = elim (Bool-cases (x.status == b'C')) [
  | inl t ↦
      subst (λ r. Covered k b (harvest_scan k r u)) (sym (if_true _ _ _ t))
        (scan-Covered k b (offer k x q) u p (offer-IsDescending k x q d)
          (Held-offer k b x q o.0 held) o.1 (offer-Covered k b x q p d held c))
  | inr t ↦
      subst (λ r. Covered k b (harvest_scan k r u)) (sym (if_false _ _ _ t))
        (scan-Covered k b q u p d held o.1 c)
]
