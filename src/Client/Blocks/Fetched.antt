-- ===== src/Client/Blocks/Fetched.antt =====
-- What comes from the file servers, and where it goes back to.

use cse511_project.Prelude.{
  ℕ, ◌≤◌, ◌<◌, ◌≡◌, refl, ◌∙◌, sym, ap, subst, Bool, List, ◌∷◌, ◌++◌, Option, some, ℤ, pos, negsuc,
  Text, codes, length, replicate, arith, if-either, ◌==◌,
}
use cse511_project.Striping.{
  server_number, server_place, corresponding_server, offset_within, titan_addr,
}
use cse511_project.Striping.Placement.{corresponding_server_lem, corresponding_server-injective}
use cse511_project.Strings.{to_string}
use cse511_project.Cache.{Block, block_id}
use cse511_project.Client.Blocks.{
  gets, of_option, new_block, received_data, strcpy, read_from_file_server, fetch_block,
  write_to_file_server, c_data, dirty, zero_data, send_back,
}

-- An array whose string is empty stays as it is, but for a first 0.
received_data_first : (response s : Text) → received_data response (0 ∷ s) ≡ 0 ∷ s
unfolding received_data strcpy
received_data_first response s = if-either (λ t. t ≡ 0 ∷ s) (length response == 0) _ _ refl refl

pub zero_data_first : zero_data ≡ 0 ∷ replicate 1023 0
unfolding zero_data
zero_data_first = refl

received_data-zero_data : (response : Text) → received_data response zero_data ≡ zero_data
received_data-zero_data response =
    subst (λ t. received_data response t ≡ t) (sym zero_data_first)
      (received_data_first response (replicate 1023 0))

-- A block as it is once it is read: the key of its place on the server, clean, all bytes 0.
abbrev pub empty_block : (Text → ℕ) → Text → ℕ → Block
empty_block hash name offset = record new_block {
  block_adr = block_id hash name offset;
  status = b'C';
  file_name = name;
  block_offset = offset;
}

abbrev pub read_command : Text → ℕ → Text
read_command name offset = codes "read " ++ name ++ codes " " ++ to_string offset ++ codes " 1"

pub read_from_file_server_lem :
    (hash : Text → ℕ) (serve : Text → ℕ → Text → Option Text) (name : Text) (offset : ℕ)
    (address : Text) (port : ℕ) (response : Text)
    → serve address port (read_command name offset) ≡ some response
    → read_from_file_server hash serve name offset address port
      ≡ some (empty_block hash name offset)
unfolding read_from_file_server
read_from_file_server_lem hash serve name offset address port response h = rw h (
    ap (λ t. some (record (empty_block hash name offset) { data_ = t }))
      (received_data-zero_data response))

-- A stripe width from 1 to 5.
abbrev pub IsWidth : ℤ → Type 0
IsWidth (pos w) = (0 < w) × (w ≤ 5)
IsWidth (negsuc w) = ⊥

-- Every server answers every command.
abbrev pub Answers : (Text → ℕ → Text → Option Text) → Type 0
Answers serve =
    (address : Text) (port : ℕ) (command : Text)
    → (response : Text) × (serve address port command ≡ some response)

-- For a stripe width from 1 to 5 and file servers that answer, `readFromFileServer` gives for block `i`
-- a block of which every byte is 0, whatever the servers answer.
pub fetch_block_empty :
    (hash : Text → ℕ) (serve : Text → ℕ → Text → Option Text) (name : Text) (i w : ℕ)
    (mask : List Bool)
    → 0 < w
    → w ≤ 5
    → Answers serve
    → fetch_block hash serve name i (some (record { stripe_width = pos w; stripe_mask = mask }))
      ≡ gets (empty_block hash name (offset_within i w))
unfolding fetch_block of_option
fetch_block_empty hash serve name i w mask h g answers =
    let ((address, port), at) = (corresponding_server-injective w h g i i refl).0 in
    let (response, e) = answers address port (read_command name (offset_within i w)) in
    rw (at, fetch_block)
      (rw (read_from_file_server_lem hash serve name (offset_within i w) address port response e)
        refl)

width_one : (b : ℕ) → corresponding_server b (pos 1) ≡ some (some (titan_addr, 1111), b)
unfolding server_number offset_within server_place
width_one b =
    let first : server_number b 1 ≡ 0 = omega arith in
    let place : offset_within b 1 ≡ b = omega arith in
    corresponding_server_lem 1 b (omega arith) (omega arith) ∙ rw (first, place) refl

-- A block that came from any server is written back to the first one, with its place on its own server
-- as the place: the recipe in the block is a new one, of width 1.
pub write_back_first :
    (hash : Text → ℕ) (name : Text) (i w : ℕ) (bytes text : Text)
    → c_data bytes ≡ some text
    → write_to_file_server (dirty bytes (empty_block hash name (offset_within i w)))
      ≡ gets (
        titan_addr,
        1111,
        codes "write " ++ name ++ codes " " ++ to_string (offset_within i w) ++ codes " 1 " ++ text,
      )
unfolding write_to_file_server send_back
write_back_first hash name i w bytes text h =
    ap (send_back (dirty bytes (empty_block hash name (offset_within i w))))
      (width_one (offset_within i w))
    ∙ rw (h, send_back) refl
