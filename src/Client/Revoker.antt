-- ===== src/Client/Revoker.antt =====
-- The revoker thread of ClientCache.cc: the port that `revokingFunc` takes, and the whole of
-- `HandleRevoker`, whose answer goes out before the flush starts. Whether a port is in use is an
-- argument.
pub mod Orders
pub mod Ports
pub mod Races
use mathlib.Core.Option
use cse511_project.Prelude.{
  ℕ, Bool, List, [], ◌∷◌, ◌++◌, Option, none, some, Text, map, if◌then◌else◌,
}
use cse511_project.FileDesc.{FileDescriptor}
use cse511_project.Cache.{Used}
use cse511_project.Cache.Revoker.{Answer, handle_revoker}
use cse511_project.Client.Blocks.{Io, gets, and_then}
use cse511_project.Client.Flush.{Sent, flush}

-- `revoker_ports` of net_addresses.hh.
abbrev pub revoker_ports : List ℕ
revoker_ports = 1110 ∷ 2220 ∷ 3330 ∷ 4440 ∷ 5550 ∷ []

-- The loop of `revokingFunc`; without a port there is no revoker.
unfoldable pub free_port : (ℕ → Bool) → List ℕ → Option ℕ
free_port is_open [] = none
free_port is_open (port ∷ ports) =
    let rest = free_port is_open ports in if is_open port then rest else some port

-- What leaves the client, in its order: the answer to the metadata manager, and the commands to the file
-- servers.
pub data Event : Type 0 where
  answers : Text → Event
  writes : Sent → Event

-- The events, and the cache after the flush.
abbrev pub Handled : Type 0
Handled = Io (List Event × Used)

-- Where the flush fails, that is the result: the answer that was sent before is not kept in it.
unfoldable pub answer_first : Text → Used → Handled
unfolding flush and_then
answer_first response u =
    and_then (flush u) (λ (u', sent). gets (answers response ∷ map writes sent, u'))

-- Only a revocation is answered and flushes the cache.
unfoldable pub then_flush : Used → Answer → FileDescriptor × Handled
unfolding answer_first
then_flush u (none, d) = (d, gets ([], u))
then_flush u (some response, d) = (d, answer_first response u)

-- `HandleRevoker` on the message that one `recv` gives.
unfoldable pub handle : ℕ → Text → FileDescriptor → Used → Option (FileDescriptor × Handled)
unfolding handle_revoker then_flush
handle fuel sent d u = Option.map (then_flush u) (handle_revoker fuel sent d)
