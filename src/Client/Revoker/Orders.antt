-- ===== src/Client/Revoker/Orders.antt =====
-- What a client does when the metadata manager takes a range away.
use mathlib.Core.Option
use cse511_project.Prelude.{suc, ◌≡◌, ◌∙◌, ap, List, ◌∷◌, some, Text, map, length}
use cse511_project.Interval.{Interval}
use cse511_project.FileDesc.{FileDescriptor}
use cse511_project.FileDesc.Held.{AreMap, held_tokens, token_count, Gone}
use cse511_project.Metadata.Tokens.{read_message}
use cse511_project.Cache.{Used}
use cse511_project.Client.Blocks.{gets, and_then}
use cse511_project.Client.Flush.{Sent}
use cse511_project.Client.Flush.Clean.{AreSendable, SendsAll, cleaned, dirty_count, flush_cleans}
use cse511_project.Client.Revoker.{answers, writes, then_flush, answer_first, handle}
use cse511_project.Network.Asked.{Nameable, handle_read}

-- The message for a reader reaches a client whose tokens of the file, if it is open there, are in order,
-- and whose dirty blocks can all be sent. The client loses every permission for the range and no other;
-- it answers; only then it sends each dirty block of its cache, of every file, which leaves none dirty.
pub handle_orders :
    (name : Text) (x : Interval) (d : FileDescriptor) (u : Used)
    → Nameable name x
    → AreMap (held_tokens name d)
    → AreSendable u
    → (answer : Text) × (d' : FileDescriptor) × (l : List Sent) × (handle
          (suc (token_count d.ofdt))
          (read_message name x)
          d
          u
        ≡ some (d', gets (answers answer ∷ map writes l, cleaned u)))
      × Gone name d d' x answer
      × SendsAll u l
      × (length l ≡ dirty_count u)
      × (dirty_count (cleaned u) ≡ 0)
unfolding handle then_flush answer_first and_then
handle_orders name x d u n a sendable =
    let (answer, d', run, gone) = handle_read name x n d a in
    let (l, sent, all, count, none_dirty) = flush_cleans u sendable in
    let order : answer_first answer u ≡ gets (answers answer ∷ map writes l, cleaned u) =
      ap (λ f. and_then f (λ (u', out). gets (answers answer ∷ map writes out, u'))) sent in
    (
      answer,
      d',
      l,
      ap (Option.map (then_flush u)) run ∙ ap (λ h. some (d', h)) order,
      gone,
      all,
      count,
      none_dirty,
    )
