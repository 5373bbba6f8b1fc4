-- ===== src/Tests/OnMySql.antt =====
-- Runs of src/Protocols/MySQL.
use libevent_async.Prelude.{ℕ, ◌≡◌, refl, List, [], ◌∷◌, ◌++◌, arith}
use libevent_async.Prelude.Action.{ok}
use libevent_async.Buffer.Contract.{ReadsBack}
use libevent_async.MySql.ProtocolBuffer.{add_varint, remove_varint}
use libevent_async.MySql.ProtocolBuffer.RoundTrips.{remove_varint-add_varint}
use libevent_async.MySql.Command.{
  frame, write_command, read_command, write_command_lem, read_command_lem,
}
use libevent_async.Tests.Machine.{list_buffer, chunk_network, Socket}

abbrev socket : List ℕ → Socket
socket bytes = record { to_come = bytes; gone = []; chunk = 2 }

varint_example : ReadsBack (add_varint 0x12345) remove_varint 0x12345 (7 ∷ []) []
varint_example = remove_varint-add_varint 0x12345 (7 ∷ []) [] (omega arith) tt refl

write_command_example :
    (b' : List ℕ) × (s' : Socket) × (write_command 4 (1 ∷ 2 ∷ [], socket []) ≡ (ok tt, (b', s')))
    × Unit {0}
    × Unit {0}
    × (b' ≡ [])
    × (s'.to_come ≡ [])
    × (s'.gone ≡ [] ++ frame 4 (1 ∷ 2 ∷ []))
write_command_example = write_command_lem 4 (1 ∷ 2 ∷ []) (socket []) tt tt

read_command_example :
    (b' : List ℕ) × (s' : Socket) × (read_command ([], socket (frame 4 (1 ∷ 2 ∷ []) ++ (9 ∷ [])))
      ≡ (ok 4, (b', s')))
    × Unit {0}
    × Unit {0}
    × (b' ≡ 1 ∷ 2 ∷ [])
    × (s'.to_come ≡ 9 ∷ [])
    × (s'.gone ≡ [])
read_command_example =
    read_command_lem 4 (1 ∷ 2 ∷ []) (9 ∷ []) [] (socket (frame 4 (1 ∷ 2 ∷ []) ++ (9 ∷ []))) tt tt
      (omega arith) (omega arith) refl refl
