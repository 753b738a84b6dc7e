-- ===== src/Cache/Reachable.antt =====
-- The caches that a client reaches from an empty one, and what the harvester does there.
use cse511_project.Prelude.{
  ℕ, suc, ◌+◌, ◌%◌, ◌^◌, ◌<◌, ◌≡◌, refl, ◌∙◌, sym, subst, none, some, Option, Text, arith, length,
  ltb, ◌==◌, if_false, if-either, Bool-cases, Option-cases, inl, inr,
}
use mathlib.Core.List.{Permᴰ}
use mathlib.Core.Option.{some-injective}
use cse511_project.Cache.{
  Block, Used, Cache, new_cache, find_block, insert_block, update_block, insert_single_block,
  block_id, touch_block, get_block, free_list_min,
}
use cse511_project.Cache.Capacity.{
  AreKeyed, IsCache, find_block_adr, after_insert, touch_block-IsCache, after_insert-IsCache,
  update_block-AreKeyed, length-update_block,
}
use cse511_project.Cache.Harvest.{release, harvest}
use cse511_project.Cache.Harvest.Conserved.{harvest_conserves}
use cse511_project.Cache.Harvest.Oldest.{harvested}
use cse511_project.Cache.Harvest.Order.{harvest-Permᴰ}
use cse511_project.Cache.Times.{
  Before, AreTimed, All-update_block, All-find_block, All-later, Before-IsApart,
  update_block-AreApart, update_block-AreApart_same, release-AreTimed,
}

-- The cache is in order, and its blocks were used at different times in the past.
pub record IsTimed (c : Cache) : Type 0 where
  pub cache : IsCache c
  pub timed : AreTimed c.last_access c.used_space

-- What the threads of a client do with the cache, while `LAST_ACCESS` does not wrap around: a block is
-- inserted, it is looked up, its bytes or its status change, and the harvester runs a round.
pub data Change : Cache → Cache → Type 0 where
  inserts :
      {c c' : Cache} (b : Block)
      → c.last_access + 1 < 2 ^ 64
      → insert_single_block b c ≡ some c'
      → Change c c'
  looks :
      {c : Cache} (hash : Text → ℕ) (name : Text) (offset : ℕ)
      → c.last_access + 1 < 2 ^ 64
      → Change c (get_block hash name offset c).1
  changes :
      {c : Cache} (k : ℕ) (b : Block) (bytes : Text) (status : ℕ)
      → find_block k c.used_space ≡ some b
      → Change c (record c {
        used_space = update_block k (record b { data_ = bytes; status = status }) c.used_space;
      })
  harvests : {c : Cache} → Change c (harvest c)

pub data Reached : Cache → Type 0 where
  starts : Reached new_cache
  then_changes : {c c' : Cache} → Reached c → Change c c' → Reached c'

after_insert-AreTimed :
    (b : Block) (c : Cache)
    → c.last_access + 1 < 2 ^ 64
    → AreTimed c.last_access c.used_space
    → AreTimed (after_insert b c).last_access (after_insert b c).used_space
unfolding insert_block
after_insert-AreTimed b c clock h =
    let b' = record b { access_time = c.last_access } in
    let n : (c.last_access + 1) % 2 ^ 64 ≡ suc c.last_access = omega (arith, clock) in
    let older =
      All-later c.last_access ((c.last_access + 1) % 2 ^ 64) c.used_space (omega (arith, n)) h.1 in
    elim (Option-cases (find_block b.block_adr c.used_space)) [
      | inl e ↦
          rw (e, insert_block)
            ((Before-IsApart b.block_adr b' c.used_space h.1, h.0), (omega (arith, n), older))
      | inr (x, e) ↦ rw (e, insert_block) (h.0, older)
    ]

touch_block-AreTimed :
    (hash : Text → ℕ) (k : ℕ) (o : Option Block) (c : Cache)
    → c.last_access + 1 < 2 ^ 64
    → AreKeyed c.used_space
    → AreTimed c.last_access c.used_space
    → AreTimed (touch_block hash k o c).1.last_access (touch_block hash k o c).1.used_space
unfolding touch_block
touch_block-AreTimed hash k none c clock keyed h = h
touch_block-AreTimed hash k (some b) c clock keyed h =
    let b' = record b { access_time = c.last_access } in
    let now = (c.last_access + 1) % 2 ^ 64 in
    let n : now ≡ suc c.last_access = omega (arith, clock) in
    (
      update_block-AreApart k b' c.used_space keyed h.1 h.0,
      All-update_block (Before now) k b' c.used_space (λ j. omega (arith, n))
          (All-later c.last_access now c.used_space (omega (arith, n)) h.1),
    )

insert_single_block-after :
    (b : Block) (c c' : Cache)
    → insert_single_block b c ≡ some c'
    → (0 < c.free_size) × (c' ≡ after_insert b c)
unfolding insert_single_block
insert_single_block-after b c c' e = elim (Bool-cases (c.free_size == 0)) [
  | inl t ↦ absurd (ground (arith, e, t))
  | inr t ↦ (
    ground (arith, t),
    some-injective c' (after_insert b c) (sym e ∙ if_false (c.free_size == 0) _ _ t),
  )
]

changes-IsTimed :
    (c : Cache) (k : ℕ) (b : Block) (bytes : Text) (status : ℕ)
    → find_block k c.used_space ≡ some b
    → IsTimed c
    → IsTimed (record c {
      used_space = update_block k (record b { data_ = bytes; status = status }) c.used_space;
    })
changes-IsTimed c k b bytes status found h =
    let b' = record b { data_ = bytes; status = status } in
    let keyed = h.cache.keyed in
    record {
      cache = record {
        keyed =
            update_block-AreKeyed k b' c.used_space (find_block_adr k b c.used_space keyed found)
              keyed;
        bounded = omega (arith, length-update_block k b' c.used_space, h.cache.bounded);
      };
      timed = (
        update_block-AreApart_same k b b' c.used_space keyed found refl h.timed.0,
        All-update_block (Before c.last_access) k b' c.used_space
            (λ j. All-find_block (Before c.last_access) k b c.used_space found h.timed.1) h.timed.1,
      );
    }

Change-IsTimed : {c c' : Cache} → Change c c' → IsTimed c → IsTimed c'
unfolding get_block harvest
Change-IsTimed (Change.inserts {c = c} {c' = c'} b clock e) h =
    let (free, same) = insert_single_block-after b c c' e in
    subst IsTimed (sym same) (record {
      cache = after_insert-IsCache b c free h.cache;
      timed = after_insert-AreTimed b c clock h.timed;
    })
Change-IsTimed (Change.looks {c = c} hash name offset clock) h =
    let k = block_id hash name offset in
    record {
      cache = touch_block-IsCache hash k (find_block k c.used_space) c refl h.cache;
      timed = touch_block-AreTimed hash k (find_block k c.used_space) c clock h.cache.keyed h.timed;
    }
Change-IsTimed (Change.changes {c = c} k b bytes status found) h =
    changes-IsTimed c k b bytes status found h
Change-IsTimed (Change.harvests {c = c}) h = record {
  cache = (harvest_conserves c h.cache).1;
  timed =
      if-either (λ (r : Cache). AreTimed r.last_access r.used_space) (ltb c.free_size free_list_min)
        (record c {
          free_size = c.free_size + length (harvested c);
          used_space = release (harvested c) c.used_space;
        })
        c (release-AreTimed c.last_access (harvested c) c.used_space h.timed) h.timed;
}

Reached-IsTimed : {c : Cache} → Reached c → IsTimed c
Reached-IsTimed Reached.starts = record {
  cache = record { keyed = tt; bounded = omega arith };
  timed = (tt, tt);
}
Reached-IsTimed (Reached.then_changes r s) = Change-IsTimed s (Reached-IsTimed r)

-- In every cache that a client reaches from an empty one, before `LAST_ACCESS` wraps around, and with
-- fewer free blocks than FREE_LIST_MIN_T: a round of the harvester takes the same blocks, in the same
-- order, whatever the order of the entries of `usedSpace` is, leaves as many free blocks, and finds the
-- same blocks under each address.
pub Reached-harvest :
    (c : Cache) (u : Used)
    → Reached c
    → Permᴰ c.used_space u
    → c.free_size < free_list_min
    → (harvested c ≡ harvested (record c { used_space = u }))
      × ((harvest c).free_size ≡ (harvest (record c { used_space = u })).free_size)
      × ((k : ℕ)
          → find_block k (harvest c).used_space
            ≡ find_block k (harvest (record c { used_space = u })).used_space)
Reached-harvest c u r p low =
    let h = Reached-IsTimed r in harvest-Permᴰ c u p h.cache.keyed h.timed.0 low
