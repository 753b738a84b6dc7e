-- ===== src/FileDesc/Table.antt =====
-- Opening and closing files in the table of descriptors.
use cse511_project.Prelude.{
  get_elem?_lt, get_elem?_in, ℕ, zero, suc, ◌+◌, ◌%◌, ◌-◌, ◌<◌, ◌≡◌, refl, sym, ◌∙◌, inl, inr, true,
  false, List, [], Option, none, some, length, get_elem?, set, get_elem?-set_self, get_elem?-set_ne,
  length-set, negsuc, Text, arith, Option-cases, Bool-cases, ◌⊎◌, ◌==◌,
}
use cse511_project.Recipe.{FileRecipe}
use cse511_project.FileDesc.Permission.{Tokens}
use cse511_project.FileDesc.{
  FileDescriptor, OpenFileEntry, max_num_files, opened, find_slot, fill_entry, ofdt_open_file,
  ofdt_close_file, ofdt_fetch_recipe, ofdt_fetch_name, ofdt_fetch_mode,
}

-- The array has all its entries, and the next slot to try is one of them.
pub record IsTable (d : FileDescriptor) : Type 0 where
  pub whole : length d.ofdt ≡ max_num_files
  pub next_in : d.next_file_descriptor < max_num_files

-- The search finds a slot that is not open, and counts on from it.
find_slot-some :
    (k next fdesc : ℕ) (t : List OpenFileEntry)
    → next < max_num_files
    → (find_slot k next t).0 ≡ some fdesc
    → (opened t fdesc ≡ false)
      × (fdesc < max_num_files)
      × ((find_slot k next t).1 ≡ (fdesc + 1) % max_num_files)
unfolding find_slot
find_slot-some zero next fdesc t h e = absurd (ground arith)
find_slot-some (suc k) next fdesc t h e =
    ground (arith, find_slot-some k ((next + 1) % max_num_files) fdesc t)

-- Where it finds none, the `k` slots from `next` on are open.
find_slot-none :
    (k next j : ℕ) (t : List OpenFileEntry)
    → next < max_num_files
    → (find_slot k next t).0 ≡ none
    → j < k
    → opened t ((next + j) % max_num_files) ≡ true
unfolding find_slot
find_slot-none zero next j t h e g = absurd (omega arith)
find_slot-none (suc k) next zero t h e g =
    let same : (next + 0) % max_num_files ≡ next = omega arith in rw same (ground arith)
find_slot-none (suc k) next (suc j) t h e g =
    let same : (next + suc j) % max_num_files ≡ ((next + 1) % max_num_files + j) % max_num_files =
      omega arith in
    rw same
      (find_slot-none k ((next + 1) % max_num_files) j t (omega arith) (ground arith) (omega arith))

-- Every entry but the one at `i` is the same in the two tables.
abbrev pub SameBut : ℕ → List OpenFileEntry → List OpenFileEntry → Type 0
SameBut i t t' = (j : ℕ) → (i ≡ j) ⊎ (get_elem? t' j ≡ get_elem? t j)

pub set-SameBut : (t : List OpenFileEntry) (i : ℕ) (e : OpenFileEntry) → SameBut i t (set t i e)
set-SameBut t i e j = elim (Bool-cases (i == j)) [
  | inl h ↦ inl (ground (arith, h))
  | inr h ↦ inr (get_elem?-set_ne t e (λ same. absurd (ground (arith, h, same))))
]

-- What a successful `ofdt_open_file` has done.
pub record Opened (d d' : FileDescriptor) (fdesc : ℕ) (recipe : Option FileRecipe)
    (file_name file_mode : Text) : Type 0 where
  pub was_free : opened d.ofdt fdesc ≡ false
  pub table : IsTable d'
  pub recipe_of : ofdt_fetch_recipe d' fdesc ≡ some recipe
  pub name_of : ofdt_fetch_name d' fdesc ≡ some file_name
  pub mode_of : ofdt_fetch_mode d' fdesc ≡ some file_mode
  pub others : SameBut fdesc d.ofdt d'.ofdt
  pub in_turn : d'.next_file_descriptor ≡ (fdesc + 1) % max_num_files

-- The tokens held for a descriptor.
abbrev pub tokens_of : FileDescriptor → ℕ → Tokens
tokens_of d i = elim (get_elem? d.ofdt i) [ none ↦ [] | some e ↦ e.tokens ]

fetch_open :
    (d : FileDescriptor) (i : ℕ) (e : OpenFileEntry)
    → get_elem? d.ofdt i ≡ some e
    → e.is_open ≡ true
    → (ofdt_fetch_recipe d i ≡ some e.file_recipe)
      × (ofdt_fetch_name d i ≡ some e.name)
      × (ofdt_fetch_mode d i ≡ some e.mode)
unfolding ofdt_fetch_recipe ofdt_fetch_name ofdt_fetch_mode
fetch_open d i e at h = ground arith

fetch_closed :
    (d : FileDescriptor) (i : ℕ) (e : OpenFileEntry)
    → get_elem? d.ofdt i ≡ some e
    → e.is_open ≡ false
    → (ofdt_fetch_recipe d i ≡ some none)
      × (ofdt_fetch_name d i ≡ some [])
      × (ofdt_fetch_mode d i ≡ some [])
unfolding ofdt_fetch_recipe ofdt_fetch_name ofdt_fetch_mode
fetch_closed d i e at h = ground arith

tokens_at :
    (d : FileDescriptor) (i : ℕ) (e : OpenFileEntry)
    → get_elem? d.ofdt i ≡ some e
    → tokens_of d i ≡ e.tokens
tokens_at d i e at = rw (at, tokens_of) refl

module _ (d : FileDescriptor) (recipe : Option FileRecipe) (file_name file_mode : Text)
    (v : IsTable d) where
  open_at :
      (fdesc : ℕ) (old : OpenFileEntry)
      → (find_slot max_num_files d.next_file_descriptor d.ofdt).0 ≡ some fdesc
      → get_elem? d.ofdt fdesc ≡ some old
      → (d' : FileDescriptor) × (ofdt_open_file d recipe file_name file_mode ≡ some (fdesc, d'))
        × Opened d d' fdesc recipe file_name file_mode
        × (tokens_of d' fdesc ≡ tokens_of d fdesc)
  unfolding ofdt_open_file
  open_at fdesc old e at =
      let facts = find_slot-some max_num_files d.next_file_descriptor fdesc d.ofdt v.next_in e in
      let new = fill_entry fdesc recipe file_name file_mode old in
      let self = get_elem?-set_self d.ofdt fdesc new (omega (arith, v.whole, facts.1)) in
      let d' : FileDescriptor = record {
        next_file_descriptor = (find_slot max_num_files d.next_file_descriptor d.ofdt).1;
        ofdt = set d.ofdt fdesc new;
      } in
      let fetched = fetch_open d' fdesc new self refl in
      (
        d',
        rw (e, ofdt_open_file) (rw (at, ofdt_open_file) refl),
        record {
          was_free = facts.0;
          table = record {
            whole = length-set d.ofdt fdesc new ∙ v.whole;
            next_in = omega (arith, facts.2);
          };
          recipe_of = fetched.0;
          name_of = fetched.1;
          mode_of = fetched.2;
          others = set-SameBut d.ofdt fdesc new;
          in_turn = facts.2;
        },
        tokens_at d' fdesc new self ∙ sym (tokens_at d fdesc old at),
      )

  open_found :
      (fdesc : ℕ)
      → (find_slot max_num_files d.next_file_descriptor d.ofdt).0 ≡ some fdesc
      → (d' : FileDescriptor) × (ofdt_open_file d recipe file_name file_mode ≡ some (fdesc, d'))
        × Opened d d' fdesc recipe file_name file_mode
        × (tokens_of d' fdesc ≡ tokens_of d fdesc)
  open_found fdesc e =
      let facts = find_slot-some max_num_files d.next_file_descriptor fdesc d.ofdt v.next_in e in
      let (old, at) = get_elem?_in d.ofdt fdesc (omega (arith, v.whole, facts.1)) in
      open_at fdesc old e at

  -- Where some slot of a table is free, `ofdt_open_file` takes a slot that was free: the three fetch
  -- functions then return what was given for it, every other entry stays, and the next search
  -- starts after it.
  pub open_file-Opened :
      (i : ℕ)
      → i < max_num_files
      → opened d.ofdt i ≡ false
      → (fdesc : ℕ) × (d' : FileDescriptor) × (ofdt_open_file d recipe file_name file_mode
          ≡ some (fdesc, d'))
        × Opened d d' fdesc recipe file_name file_mode
  open_file-Opened i h free =
      elim (Option-cases (find_slot max_num_files d.next_file_descriptor d.ofdt).0) [
        | inl e ↦
            let j = (i + max_num_files - d.next_file_descriptor) % max_num_files in
            let here : (d.next_file_descriptor + j) % max_num_files ≡ i =
              omega (arith, v.next_in) in
            let taken =
              find_slot-none max_num_files d.next_file_descriptor j d.ofdt v.next_in e
                (omega arith) in
            absurd (ground (arith, rw here at taken))
        | inr (fdesc, e) ↦ let (d', run, opens, _) = open_found fdesc e in (fdesc, d', run, opens)
      ]

  -- Where every slot is open, `ofdt_open_file` writes outside the array.
  pub open_file_full :
      ((i : ℕ) → i < max_num_files → opened d.ofdt i ≡ true)
      → ofdt_open_file d recipe file_name file_mode ≡ none
  unfolding ofdt_open_file
  open_file_full full =
      elim (Option-cases (find_slot max_num_files d.next_file_descriptor d.ofdt).0) [
        | inl e ↦ rw (e, ofdt_open_file) refl
        | inr (fdesc, e) ↦
            let facts =
              find_slot-some max_num_files d.next_file_descriptor fdesc d.ofdt v.next_in e in
            absurd (ground (arith, facts.0, full fdesc facts.1))
      ]

  -- The descriptor that `ofdt_open_file` returns starts with the tokens that its slot held before,
  -- for whatever file it was used.
  pub open_file_stale :
      (fdesc : ℕ) (d' : FileDescriptor)
      → ofdt_open_file d recipe file_name file_mode ≡ some (fdesc, d')
      → tokens_of d' fdesc ≡ tokens_of d fdesc
  unfolding ofdt_open_file
  open_file_stale fdesc d' run =
      elim (Option-cases (find_slot max_num_files d.next_file_descriptor d.ofdt).0) [
        | inl e ↦ absurd (ground arith)
        | inr (f, e) ↦
            let (u, run', _, kept) = open_found f e in
            let same : ◌≡◌ {A = Option (ℕ × FileDescriptor)} (some (f, u)) (some (fdesc, d')) =
              sym run' ∙ run in
            ground (arith, kept)
      ]

-- After `ofdt_close_file` returned 1 the descriptor is closed: it had been open, the fetch functions
-- give nothing for it, and every other entry stays.
pub close_file_one :
    (d d' : FileDescriptor) (fdesc : ℕ)
    → ofdt_close_file d fdesc ≡ some (1, d')
    → (opened d.ofdt fdesc ≡ true)
      × (ofdt_fetch_recipe d' fdesc ≡ some none)
      × (ofdt_fetch_name d' fdesc ≡ some [])
      × (ofdt_fetch_mode d' fdesc ≡ some [])
      × SameBut fdesc d.ofdt d'.ofdt
unfolding ofdt_close_file
close_file_one d d' fdesc h = elim (Option-cases (get_elem? d.ofdt fdesc)) [
  | inl e ↦ absurd (ground arith)
  | inr (old, at) ↦
      let new = record old { is_open = false; desc = negsuc 0 } in
      let was : old.is_open ≡ true = ground arith in
      let after : d' ≡ record d { ofdt = set d.ofdt fdesc new } = ground arith in
      let self : get_elem? d'.ofdt fdesc ≡ some new =
        rw after (get_elem?-set_self d.ofdt fdesc new (get_elem?_lt d.ofdt fdesc at)) in
      let gone = fetch_closed d' fdesc new self refl in
      (rw (at, opened) was, gone.0, gone.1, gone.2, λ j. rw after (set-SameBut d.ofdt fdesc new j))
]
