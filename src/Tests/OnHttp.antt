-- ===== src/Tests/OnHttp.antt =====
-- Runs of src/Protocols/HTTP.
use libevent_async.Prelude.{ℕ, refl, List, [], ◌∷◌, ◌++◌, none, some, arith}
use libevent_async.Buffer.Awaiters.{Conn}
use libevent_async.Buffer.Talks.{Outcome}
use libevent_async.Http.Websocket.{write, read}
use libevent_async.Http.Websocket.Messages.{written, write_lem}
use libevent_async.Http.Websocket.Conversation.{
  Piece, part, ping, client_bytes, payload_of, replies, read-conversation,
}
use libevent_async.Tests.Machine.{list_buffer, chunk_network, Socket}

abbrev socket : List ℕ → Socket
socket bytes = record { to_come = bytes; gone = []; chunk = 2 }

-- A masked fragment and a ping, before the last fragment, which is not masked.
abbrev two_pieces : List Piece
two_pieces = part (some (1 ∷ 2 ∷ 3 ∷ 4 ∷ [])) (72 ∷ 101 ∷ []) ∷ ping none (5 ∷ []) ∷ []

abbrev from_client : Conn
from_client = ([], socket (client_bytes 1 two_pieces none (108 ∷ []) ++ (9 ∷ [])))

read-conversation_example :
    Outcome
      (read 3 from_client)
      (record { opcode = 1; payload = payload_of two_pieces (108 ∷ []) })
      (9 ∷ [])
      (replies two_pieces)
      from_client
read-conversation_example =
    read-conversation two_pieces 3 1 none (108 ∷ []) (9 ∷ []) from_client (omega arith)
      (omega arith) (omega arith)
      (
        (
          (refl, (omega arith, (omega arith, (omega arith, (omega arith, tt))))),
          (omega arith, (omega arith, tt)),
          omega arith,
        ),
        ((tt, (omega arith, tt), omega arith), tt),
      )
      (tt, (omega arith, tt), omega arith) (tt, tt) refl

write_lem_example :
    Outcome
      (write (72 ∷ 105 ∷ []) 1 ([], socket (9 ∷ [])))
      tt
      (9 ∷ [])
      (written 1 (72 ∷ 105 ∷ []))
      ([], socket (9 ∷ []))
write_lem_example = write_lem (72 ∷ 105 ∷ []) 1 ([], socket (9 ∷ [])) (omega arith) (tt, tt)
